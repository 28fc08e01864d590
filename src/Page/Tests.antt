-- ===== src/Page/Tests.antt =====
-- app.js, the lists of the console: runs at concrete inputs.
use moment_ferry.Common.{List, [], ◌∷◌, none, some, true, false, codes, decimal, ◌≡◌, refl}
use moment_ferry.Model.Samples.{share_at, kiel, phones}
use moment_ferry.Model.{Operation}
use moment_ferry.Format.{Locale}
use moment_ferry.Markup.Operations.{render_quarantine}
use moment_ferry.Page.{
  refresh_operations, reload_events, Screen, Loaded, Answered, load, run, render_all,
  reload_renaming, step, apply_settings,
}

abbrev english : Locale
english = record { messages = []; date_string = decimal; number_string = decimal }

abbrev held : Operation
held = record {
  id = codes "o1";
  event_id = none;
  source_path = codes "/mnt/phone/a.jpg";
  destination_path = none;
  state = codes "Quarantined";
  last_error = none;
  started_at = 7;
}

abbrev answer : Loaded
answer = record {
  dry_run = true;
  presets = [];
  shares = share_at (codes "/mnt/phone") ∷ [];
  groups = phones ∷ [];
  events = kiel ∷ [];
  operations = [];
  quarantined = held ∷ [];
}

abbrev empty_page : Screen
empty_page = record {
  stored = record {
    dry_run = true;
    presets = [];
    shares = [];
    groups = [];
    events = [];
    operations = [];
    quarantined = [];
    rename_presets = [];
    mappings = [];
  };
  mode = (true, [], []);
  badge_events = [];
  badge_shares = [];
  badge_groups = [];
  badge_renaming = [];
  preset_select = [];
  share_list = [];
  group_choices = [];
  group_list = [];
  group_select = [];
  destination_select = [];
  event_list = [];
  source_select = [];
  operation_list = [];
  quarantine_list = [];
  recent_list = [];
  rename_list = [];
  mapping_list = [];
  preset_choices = [];
  subtitle = none;
}

abbrev went_live : List Answered
went_live = Answered.settings false ∷ Answered.events (some []) ∷ Answered.operations none ∷ []

-- The list of held files still has the disabled buttons of Dry Run after the mode has changed.
held_behind :
    (run english
      (λ at. none)
      went_live
      (load english (λ at. none) [] (some answer) (some ([], [])) empty_page)).quarantine_list
    ≡ render_quarantine english true (held ∷ [])
unfolding load render_all reload_renaming run step apply_settings refresh_operations reload_events
held_behind = refl
