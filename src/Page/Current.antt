-- ===== src/Page/Current.antt =====
-- app.js, the lists of the console against its data.
use moment_ferry.Common.{ℕ, List, [], ◌∷◌, Option, none, some, Bool, Text, length, ◌≡◌, refl}
use moment_ferry.Model.{Share, MediaEvent, Operation}
use moment_ferry.Format.{Locale}
use moment_ferry.Picker.{Civil}
use moment_ferry.Markup.Events.{render_events}
use moment_ferry.Markup.Shares.{render_shares, render_groups}
use moment_ferry.Markup.Operations.{render_operations, render_quarantine, render_recent_ops}
use moment_ferry.Markup.Naming.{RenamePreset, CameraMapping, render_rename_presets, render_mappings}
use moment_ferry.Markup.Selects.{
  render_presets, render_preset_choices, render_group_options, render_destination_options,
  render_routing_sources,
}
use moment_ferry.Page.{
  Screen, Loaded, Configuration, Answered, badge, mode_of, events_view, load, render_all,
  reload_renaming, store_configuration, reload_configuration, reload_events, refresh_operations,
  refresh_quarantine, apply_settings, step, run,
}

module _ (l : Locale) (local_date : ℕ → Option Civil) where
  -- The mode, the badges and the selects are those of the data, and so are the lists of shares, recent
  -- operations, mappings and presets for shares. The other lists are too, but for what they may be behind
  -- in: the lists of events and of held files in the mode, the list of groups in the events, the list of
  -- operations in the mode and the shares, the list of rename presets in the shares.
  pub record IsCurrent (p : Screen) : Type 0 where
    pub mode_shown : p.mode ≡ mode_of l local_date p.stored.dry_run
    pub events_counted : p.badge_events ≡ badge (length p.stored.events)
    pub shares_counted : p.badge_shares ≡ badge (length p.stored.shares)
    pub groups_counted : p.badge_groups ≡ badge (length p.stored.groups)
    pub presets_counted : p.badge_renaming ≡ badge (length p.stored.rename_presets)
    pub shares_listed : p.share_list ≡ render_shares l p.stored.shares
    pub groups_offered : p.group_select ≡ render_group_options l p.stored.groups
    pub destinations_offered : p.destination_select ≡ render_destination_options l p.stored.shares
    pub sources_offered : p.source_select ≡ render_routing_sources l p.stored.shares
    pub folder_presets_offered : p.preset_select ≡ render_presets l p.stored.presets
    pub presets_offered : p.preset_choices ≡ render_preset_choices l p.stored.rename_presets
    pub recent_listed : p.recent_list ≡ render_recent_ops l p.stored.operations
    pub mappings_listed : p.mapping_list ≡ render_mappings l p.stored.mappings
    pub events_listed :
        (mode : Bool) × (p.event_list
          ≡ render_events l (record (events_view l local_date p.stored) { dry_run = mode }))
    pub held_listed :
        (mode : Bool) × (p.quarantine_list ≡ render_quarantine l mode p.stored.quarantined)
    pub groups_listed :
        (events : List MediaEvent) × (p.group_list
          ≡ render_groups l p.stored.shares events p.stored.groups)
    pub operations_listed :
        (mode : Bool) × (shares : List Share) × (p.operation_list
          ≡ render_operations l mode shares p.stored.operations)
    pub presets_listed :
        (shares : List Share) × (p.rename_list
          ≡ render_rename_presets l shares p.stored.rename_presets)

  -- A load whose two rounds of requests succeed.
  load-IsCurrent :
      (message : Text) (a : Loaded) (presets : List RenamePreset) (mappings : List CameraMapping)
      (p : Screen)
      → IsCurrent (load l local_date message (some a) (some (presets, mappings)) p)
  unfolding load render_all reload_renaming
  load-IsCurrent message a presets mappings p = record {
    mode_shown = refl;
    events_counted = refl;
    shares_counted = refl;
    groups_counted = refl;
    presets_counted = refl;
    shares_listed = refl;
    groups_offered = refl;
    destinations_offered = refl;
    sources_offered = refl;
    folder_presets_offered = refl;
    presets_offered = refl;
    recent_listed = refl;
    mappings_listed = refl;
    events_listed = (a.dry_run, refl);
    held_listed = (a.dry_run, refl);
    groups_listed = (a.events, refl);
    operations_listed = (a.dry_run, a.shares, refl);
    presets_listed = (a.shares, refl);
  }

  reload_renaming-IsCurrent :
      (a : Option (List RenamePreset × List CameraMapping)) (p : Screen)
      → IsCurrent p
      → IsCurrent (reload_renaming l local_date a p)
  unfolding reload_renaming
  reload_renaming-IsCurrent none p h = h
  reload_renaming-IsCurrent (some (presets, mappings)) p h = record {
    mode_shown = h.mode_shown;
    events_counted = h.events_counted;
    shares_counted = h.shares_counted;
    groups_counted = h.groups_counted;
    presets_counted = refl;
    shares_listed = h.shares_listed;
    groups_offered = h.groups_offered;
    destinations_offered = h.destinations_offered;
    sources_offered = h.sources_offered;
    folder_presets_offered = h.folder_presets_offered;
    presets_offered = refl;
    recent_listed = h.recent_listed;
    mappings_listed = refl;
    events_listed = h.events_listed;
    held_listed = h.held_listed;
    groups_listed = h.groups_listed;
    operations_listed = h.operations_listed;
    presets_listed = (p.stored.shares, refl);
  }

  store_configuration-IsCurrent :
      (a : Configuration) (p : Screen)
      → IsCurrent p
      → IsCurrent (store_configuration l local_date a p)
  unfolding store_configuration
  store_configuration-IsCurrent a p h = record {
    mode_shown = h.mode_shown;
    events_counted = refl;
    shares_counted = refl;
    groups_counted = refl;
    presets_counted = h.presets_counted;
    shares_listed = refl;
    groups_offered = refl;
    destinations_offered = refl;
    sources_offered = refl;
    folder_presets_offered = h.folder_presets_offered;
    presets_offered = h.presets_offered;
    recent_listed = refl;
    mappings_listed = h.mappings_listed;
    events_listed = (p.stored.dry_run, refl);
    held_listed = h.held_listed;
    groups_listed = (a.events, refl);
    operations_listed = h.operations_listed;
    presets_listed = h.presets_listed;
  }

  reload_events-IsCurrent :
      (a : Option (List MediaEvent)) (p : Screen)
      → IsCurrent p
      → IsCurrent (reload_events l local_date a p)
  unfolding reload_events
  reload_events-IsCurrent none p h = h
  reload_events-IsCurrent (some events) p h = record {
    mode_shown = h.mode_shown;
    events_counted = refl;
    shares_counted = refl;
    groups_counted = refl;
    presets_counted = h.presets_counted;
    shares_listed = h.shares_listed;
    groups_offered = h.groups_offered;
    destinations_offered = h.destinations_offered;
    sources_offered = h.sources_offered;
    folder_presets_offered = h.folder_presets_offered;
    presets_offered = h.presets_offered;
    recent_listed = refl;
    mappings_listed = h.mappings_listed;
    events_listed = (p.stored.dry_run, refl);
    held_listed = h.held_listed;
    groups_listed = h.groups_listed;
    operations_listed = h.operations_listed;
    presets_listed = h.presets_listed;
  }

  refresh_operations-IsCurrent :
      (a : Option (List Operation)) (p : Screen)
      → IsCurrent p
      → IsCurrent (refresh_operations l local_date a p)
  unfolding refresh_operations
  refresh_operations-IsCurrent none p h = h
  refresh_operations-IsCurrent (some operations) p h = record {
    mode_shown = h.mode_shown;
    events_counted = h.events_counted;
    shares_counted = h.shares_counted;
    groups_counted = h.groups_counted;
    presets_counted = h.presets_counted;
    shares_listed = h.shares_listed;
    groups_offered = h.groups_offered;
    destinations_offered = h.destinations_offered;
    sources_offered = h.sources_offered;
    folder_presets_offered = h.folder_presets_offered;
    presets_offered = h.presets_offered;
    recent_listed = refl;
    mappings_listed = h.mappings_listed;
    events_listed = (p.stored.dry_run, refl);
    held_listed = h.held_listed;
    groups_listed = h.groups_listed;
    operations_listed = (p.stored.dry_run, p.stored.shares, refl);
    presets_listed = h.presets_listed;
  }

  refresh_quarantine-IsCurrent :
      (a : Option (List Operation)) (p : Screen)
      → IsCurrent p
      → IsCurrent (refresh_quarantine l local_date a p)
  unfolding refresh_quarantine
  refresh_quarantine-IsCurrent none p h = h
  refresh_quarantine-IsCurrent (some quarantined) p h = record {
    mode_shown = h.mode_shown;
    events_counted = h.events_counted;
    shares_counted = h.shares_counted;
    groups_counted = h.groups_counted;
    presets_counted = h.presets_counted;
    shares_listed = h.shares_listed;
    groups_offered = h.groups_offered;
    destinations_offered = h.destinations_offered;
    sources_offered = h.sources_offered;
    folder_presets_offered = h.folder_presets_offered;
    presets_offered = h.presets_offered;
    recent_listed = h.recent_listed;
    mappings_listed = h.mappings_listed;
    events_listed = h.events_listed;
    held_listed = (p.stored.dry_run, refl);
    groups_listed = h.groups_listed;
    operations_listed = h.operations_listed;
    presets_listed = h.presets_listed;
  }

  apply_settings-IsCurrent :
      (dry_run : Bool) (p : Screen)
      → IsCurrent p
      → IsCurrent (apply_settings l local_date dry_run p)
  unfolding apply_settings
  apply_settings-IsCurrent dry_run p h = record {
    mode_shown = refl;
    events_counted = h.events_counted;
    shares_counted = h.shares_counted;
    groups_counted = h.groups_counted;
    presets_counted = h.presets_counted;
    shares_listed = h.shares_listed;
    groups_offered = h.groups_offered;
    destinations_offered = h.destinations_offered;
    sources_offered = h.sources_offered;
    folder_presets_offered = h.folder_presets_offered;
    presets_offered = h.presets_offered;
    recent_listed = refl;
    mappings_listed = h.mappings_listed;
    events_listed = h.events_listed;
    held_listed = h.held_listed;
    groups_listed = h.groups_listed;
    operations_listed = h.operations_listed;
    presets_listed = h.presets_listed;
  }

  step-IsCurrent : (a : Answered) (p : Screen) → IsCurrent p → IsCurrent (step l local_date a p)
  unfolding step reload_configuration
  step-IsCurrent (Answered.configuration none naming) p h = h
  step-IsCurrent (Answered.configuration (some a) naming) p h =
      reload_renaming-IsCurrent naming (store_configuration l local_date a p)
        (store_configuration-IsCurrent a p h)
  step-IsCurrent (Answered.events a) p h = reload_events-IsCurrent a p h
  step-IsCurrent (Answered.operations a) p h = refresh_operations-IsCurrent a p h
  step-IsCurrent (Answered.quarantine a) p h = refresh_quarantine-IsCurrent a p h
  step-IsCurrent (Answered.renaming a) p h = reload_renaming-IsCurrent a p h
  step-IsCurrent (Answered.settings dry_run) p h = apply_settings-IsCurrent dry_run p h

  run_from-IsCurrent :
      (answers : List Answered) (p : Screen) → IsCurrent p → IsCurrent (run l local_date answers p)
  unfolding run
  run_from-IsCurrent [] p h = h
  run_from-IsCurrent (a ∷ rest) p h =
      run_from-IsCurrent rest (step l local_date a p) (step-IsCurrent a p h)

  pub run-IsCurrent :
      (message : Text) (a : Loaded) (presets : List RenamePreset) (mappings : List CameraMapping)
      (p : Screen) (answers : List Answered)
      → IsCurrent (
          run l local_date answers
            (load l local_date message (some a) (some (presets, mappings)) p))
  run-IsCurrent message a presets mappings p answers =
      run_from-IsCurrent answers (load l local_date message (some a) (some (presets, mappings)) p)
        (load-IsCurrent message a presets mappings p)
