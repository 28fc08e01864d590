-- ===== src/Page.antt =====
-- src/MomentFerry.Web/wwwroot/app.js, the data of the console and the lists that show it: load,
-- reloadConfiguration, reloadEvents, refreshOperations, refreshQuarantine, reloadRenaming and renderAll.
-- A request that fails is `none`. What renderOverview shows of the automation is Markup.Overview's.
pub mod Current
mod Tests
use moment_ferry.Common.{
  ℕ, List, [], ◌∷◌, Option, none, some, Bool, true, false, if◌then◌else◌, ◌==◌, Text, codes, String,
  decimal, length,
}
use moment_ferry.Model.{Share, SourceGroup, MediaEvent, Operation}
use moment_ferry.Format.{Locale}
use moment_ferry.Picker.{Civil}
use moment_ferry.Markup.{Piece, said}
use moment_ferry.Markup.Events.{EventsView, render_events}
use moment_ferry.Markup.Shares.{render_shares, render_groups}
use moment_ferry.Markup.Operations.{render_operations, render_quarantine, render_recent_ops}
use moment_ferry.Markup.Naming.{RenamePreset, CameraMapping, render_rename_presets, render_mappings}
use moment_ferry.Markup.Selects.{
  SharePreset, render_presets, render_preset_choices, render_group_choices, render_group_options,
  render_destination_options, render_routing_sources,
}

pub record Stored : Type 0 where
  pub dry_run : Bool
  pub presets : List SharePreset
  pub shares : List Share
  pub groups : List SourceGroup
  pub events : List MediaEvent
  pub operations : List Operation
  pub quarantined : List Operation
  pub rename_presets : List RenamePreset
  pub mappings : List CameraMapping

pub record Screen : Type 0 where
  pub stored : Stored
  -- Of the mode chip: whether it is that of Dry Run, its text, and the text of its button.
  pub mode : Bool × Text × Text
  pub badge_events : Text
  pub badge_shares : Text
  pub badge_groups : Text
  pub badge_renaming : Text
  pub preset_select : List Piece
  pub share_list : List Piece
  pub group_choices : List Piece
  pub group_list : List Piece
  pub group_select : List Piece
  pub destination_select : List Piece
  pub event_list : List Piece
  pub source_select : List Piece
  pub operation_list : List Piece
  pub quarantine_list : List Piece
  pub recent_list : List Piece
  pub rename_list : List Piece
  pub mapping_list : List Piece
  pub preset_choices : List Piece
  -- Below the title, where load failed.
  pub subtitle : Option Text

-- What the server answers to the requests of load, and of reloadConfiguration.
pub record Loaded : Type 0 where
  pub dry_run : Bool
  pub presets : List SharePreset
  pub shares : List Share
  pub groups : List SourceGroup
  pub events : List MediaEvent
  pub operations : List Operation
  pub quarantined : List Operation

pub record Configuration : Type 0 where
  pub shares : List Share
  pub groups : List SourceGroup
  pub events : List MediaEvent

-- `list.length ? String(list.length) : ''`
abbrev pub badge : ℕ → Text
badge n = if n == 0 then [] else decimal n

module _ (l : Locale) (local_date : ℕ → Option Civil) where
  abbrev pub mode_of : Bool → Bool × Text × Text
  mode_of true = (true, said l "Dry Run — nothing is moved", said l "Go Live…")
  mode_of false = (false, said l "Live — files are moved for real", said l "Back to Dry Run")

  abbrev pub events_view : Stored → EventsView
  events_view s = record {
    dry_run = s.dry_run;
    groups = s.groups;
    shares = s.shares;
    events = s.events;
    operations = s.operations;
    local_date = local_date;
  }

  abbrev pub render_mode : Screen → Screen
  render_mode p = record p { mode = mode_of p.stored.dry_run }

  abbrev pub render_badges : Screen → Screen
  render_badges p = record p {
    badge_events = badge (length p.stored.events);
    badge_shares = badge (length p.stored.shares);
    badge_groups = badge (length p.stored.groups);
  }

  -- renderOverview, its list of recent operations.
  abbrev pub render_overview : Screen → Screen
  render_overview p = record p { recent_list = render_recent_ops l p.stored.operations }

  abbrev pub show_events : Screen → Screen
  show_events p = record p { event_list = render_events l (events_view p.stored) }

  abbrev pub show_quarantine : Screen → Screen
  show_quarantine p = record p {
    quarantine_list = render_quarantine l p.stored.dry_run p.stored.quarantined;
  }

  abbrev pub show_operations : Screen → Screen
  show_operations p = record p {
    operation_list = render_operations l p.stored.dry_run p.stored.shares p.stored.operations;
  }

  -- From renderShares to renderEventSelectors. The boxes of the group form are made anew, unchecked.
  abbrev pub show_configuration : Screen → Screen
  show_configuration p = record p {
    share_list = render_shares l p.stored.shares;
    group_choices = render_group_choices l [] p.stored.shares;
    group_list = render_groups l p.stored.shares p.stored.events p.stored.groups;
    group_select = render_group_options l p.stored.groups;
    destination_select = render_destination_options l p.stored.shares;
    source_select = render_routing_sources l p.stored.shares;
  }

  unfoldable pub render_all : Screen → Screen
  render_all p = render_overview (
      show_quarantine (
        show_operations (
          show_events (
            show_configuration (record (render_badges (render_mode p)) {
              preset_select = render_presets l p.stored.presets;
            })))))

  -- reloadRenaming
  unfoldable pub reload_renaming : Option (List RenamePreset × List CameraMapping) → Screen → Screen
  reload_renaming none p = p
  reload_renaming (some (presets, mappings)) p = record p {
    stored = record p.stored { rename_presets = presets; mappings = mappings };
    rename_list = render_rename_presets l p.stored.shares presets;
    mapping_list = render_mappings l mappings;
    preset_choices = render_preset_choices l presets;
    badge_renaming = badge (length presets);
  }

  -- The catch of load: a request of the first or of the second round fails with a message.
  abbrev pub show_offline : Text → Screen → Screen
  show_offline message p = record p {
    mode = (p.mode.0, said l "Offline", p.mode.2);
    subtitle = some message;
  }

  abbrev pub store_all : Loaded → Screen → Screen
  store_all a p = record p {
    stored = record p.stored {
      dry_run = a.dry_run;
      presets = a.presets;
      shares = a.shares;
      groups = a.groups;
      events = a.events;
      operations = a.operations;
      quarantined = a.quarantined;
    };
  }

  abbrev pub load_renaming :
      Text → Option (List RenamePreset × List CameraMapping) → Screen → Screen
  load_renaming message none p = show_offline message p
  load_renaming message (some answer) p = reload_renaming (some answer) p

  -- load; `message` is what a request that fails says.
  unfoldable pub load :
      Text → Option Loaded → Option (List RenamePreset × List CameraMapping) → Screen → Screen
  load message none naming p = show_offline message p
  load message (some a) naming p = load_renaming message naming (render_all (store_all a p))

  -- reloadConfiguration, up to reloadRenaming.
  unfoldable pub store_configuration : Configuration → Screen → Screen
  store_configuration a p = render_overview (
      show_events (
        show_configuration (
          render_badges (record p {
            stored = record p.stored { shares = a.shares; groups = a.groups; events = a.events };
          }))))

  unfoldable pub reload_configuration :
      Option Configuration → Option (List RenamePreset × List CameraMapping) → Screen → Screen
  reload_configuration none naming p = p
  reload_configuration (some a) naming p = reload_renaming naming (store_configuration a p)

  unfoldable pub reload_events : Option (List MediaEvent) → Screen → Screen
  reload_events none p = p
  reload_events (some events) p =
      render_overview
        (show_events (render_badges (record p { stored = record p.stored { events = events } })))

  unfoldable pub refresh_operations : Option (List Operation) → Screen → Screen
  refresh_operations none p = p
  refresh_operations (some operations) p = show_events (
      render_overview
        (show_operations (record p { stored = record p.stored { operations = operations } })))

  unfoldable pub refresh_quarantine : Option (List Operation) → Screen → Screen
  refresh_quarantine none p = p
  refresh_quarantine (some quarantined) p =
      show_quarantine (record p { stored = record p.stored { quarantined = quarantined } })

  -- applySettingsToForm, of the mode.
  unfoldable pub apply_settings : Bool → Screen → Screen
  apply_settings dry_run p =
      render_overview (render_mode (record p { stored = record p.stored { dry_run = dry_run } }))

-- The answers that the page gets, in the order in which they come.
pub data Answered : Type 0 where
  configuration : Option Configuration → Option (List RenamePreset × List CameraMapping) → Answered
  events : Option (List MediaEvent) → Answered
  operations : Option (List Operation) → Answered
  quarantine : Option (List Operation) → Answered
  renaming : Option (List RenamePreset × List CameraMapping) → Answered
  settings : Bool → Answered

module _ (l : Locale) (local_date : ℕ → Option Civil) where
  unfoldable pub step : Answered → Screen → Screen
  step (Answered.configuration a naming) p = reload_configuration l local_date a naming p
  step (Answered.events a) p = reload_events l local_date a p
  step (Answered.operations a) p = refresh_operations l local_date a p
  step (Answered.quarantine a) p = refresh_quarantine l local_date a p
  step (Answered.renaming a) p = reload_renaming l local_date a p
  step (Answered.settings dry_run) p = apply_settings l local_date dry_run p

  unfoldable pub run : List Answered → Screen → Screen
  run [] p = p
  run (a ∷ rest) p = run rest (step a p)
