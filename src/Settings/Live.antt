-- ===== src/Settings/Live.antt =====
-- src/MomentFerry.Web/wwwroot/settings.js: the page of the settings as a machine that takes one event
-- at a time, with the requests that are in flight and the server that answers them in order.
-- An answer and the handlers that it runs are one event; the requests that those handlers make are
-- sent, and answered later. The status of the automation, whose failure is caught, and what is only
-- shown are left out.
pub mod Quiet
pub mod Safety
mod Tests
use moment_ferry.Common.{
  ℕ, List, [], ◌∷◌, ◌++◌, Option, none, some, Bool, true, false, ◌&&◌, ◌||◌, not, if◌then◌else◌,
  Text, codes, text_eq, trim, to_upper, map,
}
use moment_ferry.Settings.{
  RuntimeSettings, SettingsForm, SettingsBody, apply_settings_to_form, settings_from_form,
  retention_body, live_confirmation, server_put,
}

abbrev pub live_phrase : Text
live_phrase = codes "ENABLE LIVE"

-- `value.trim().toUpperCase() === LIVE_PHRASE`
unfoldable pub is_live_phrase : Text → Bool
is_live_phrase value = text_eq (map to_upper (trim value)) live_phrase

-- A request in flight, with what its handlers need: whether the dialog sent it.
pub data Request : Type 0 where
  put : SettingsBody → Bool → Request
  read_auth : Bool → Request
  load : Bool → Request
  load_for_retention : ℕ → Request
  put_retention : SettingsBody → Request
  reset : Request

pub record Page : Type 0 where
  pub form : SettingsForm
  pub current : Option RuntimeSettings
  pub modal_open : Bool
  pub token : Text
  pub confirm_enabled : Bool
  pub in_flight : List Request

pub record World : Type 0 where
  pub page : Page
  pub server : RuntimeSettings
  -- What a reset puts back, and whether credentials are configured.
  pub defaults : RuntimeSettings
  pub configured : Bool

-- applySettingsToForm
apply : RuntimeSettings → Page → Page
apply s p = record p { current = some s; form = apply_settings_to_form s }

pub send : Request → Page → Page
send r p = record p { in_flight = p.in_flight ++ r ∷ [] }

-- saveSettings({})
save : Page → Page
unfolding send
save p = send (put (settings_from_form p.form) false) p

-- backToDryRun
back_to_dry_run : Page → Page
unfolding save
back_to_dry_run p = save (record p { form = record (p.form) { dry_run = true } })

open_live_modal : Page → Page
open_live_modal p = record p { modal_open = true; token = []; confirm_enabled = false }

-- `currentRuntimeSettings ? currentRuntimeSettings.dryRun : true`
abbrev shown_dry_run : Option RuntimeSettings → Bool
shown_dry_run none = true
shown_dry_run (some s) = s.dry_run

close_live_modal : Page → Page
close_live_modal p = record p {
  modal_open = false;
  form = record (p.form) { dry_run = shown_dry_run p.current };
}

-- The click on the button of the dialog, with
-- saveSettings({ dryRun: false, liveModeConfirmation: LIVE_CONFIRMATION }).
confirm_live : Page → Page
unfolding send
confirm_live p =
    send
      (put
        (record (settings_from_form p.form) {
          dry_run = false;
          live_mode_confirmation = some live_confirmation;
        })
        true)
      (record p { confirm_enabled = false })

-- `currentRuntimeSettings?.dryRun && !$('settingsDryRun').checked`
abbrev going_live : Option RuntimeSettings → SettingsForm → Bool
going_live none f = false
going_live (some s) f = s.dry_run && not f.dry_run

-- `appInfo.dryRun === false`; the application's information follows the settings.
abbrev is_live : Option RuntimeSettings → Bool
is_live none = false
is_live (some s) = not s.dry_run

pub data Event : Type 0 where
  -- Inputs other than the switches below.
  edit : ℕ → ℕ → ℕ → Bool → ℕ → Event
  toggle_dry_run toggle_automation toggle_updates toggle_protection : Bool → Event
  submit mode_action enable_live cancel confirm press_reset : Event
  type_token : Text → Event
  save_retention : ℕ → Event
  -- The server answers the oldest request; or it is lost on the way, or its answer is.
  answer lose lose_answer : Event

-- The handlers of an answered request, on the page without it.
pub handle : Request → World → World
unfolding apply send
handle (put body from_modal) w = elim (server_put w.configured w.server body) [
  | none ↦ record w { page = send (load from_modal) w.page }
  | some updated ↦ record w {
    server = updated;
    page = send (read_auth from_modal) (apply updated w.page);
  }
]
handle (read_auth from_modal) w = record w {
  page = record (w.page) { modal_open = if from_modal then false else w.page.modal_open };
}
handle (load from_modal) w = record w {
  page = record (apply w.server w.page) {
    modal_open = w.page.modal_open || from_modal;
    confirm_enabled = w.page.confirm_enabled || from_modal;
  };
}
handle (load_for_retention days) w = record w {
  page = send (put_retention (retention_body w.server days)) w.page;
}
handle (put_retention body) w = elim (server_put w.configured w.server body) [
  | none ↦ w
  | some updated ↦ record w { server = updated }
]
handle reset w = record w { server = w.defaults; page = apply w.defaults w.page }

-- The handlers of a request that failed: saveSettings reloads, and the dialog is
-- shown again when the reload is over, whether or not that succeeds.
pub handle_lost : Request → Page → Page
unfolding send
handle_lost (put body from_modal) p = send (load from_modal) p
handle_lost (read_auth from_modal) p = send (load from_modal) p
handle_lost (load from_modal) p = record p {
  modal_open = p.modal_open || from_modal;
  confirm_enabled = p.confirm_enabled || from_modal;
}
handle_lost _ p = p

answer_first : List Request → World → World
unfolding handle
answer_first [] w = w
answer_first (r ∷ rest) w = handle r (record w { page = record (w.page) { in_flight = rest } })

lose_first : List Request → Page → Page
unfolding handle_lost
lose_first [] p = p
lose_first (r ∷ rest) p = handle_lost r (record p { in_flight = rest })

-- What the page does on an event of its own.
pub on_page : Event → Page → Page
unfolding save back_to_dry_run open_live_modal close_live_modal confirm_live send lose_first
on_page (edit interval files parallel fallback reserve) p = record p {
  form = record (p.form) {
    interval = interval;
    max_files = files;
    parallel_metadata = parallel;
    timestamp_fallback = fallback;
    free_space_reserve = reserve;
  };
}
on_page (toggle_dry_run checked) p =
    if checked
    then back_to_dry_run p
    else open_live_modal (record p { form = record (p.form) { dry_run = false } })
on_page (toggle_automation checked) p = record p {
  form = record (p.form) { automation_enabled = checked };
}
on_page (toggle_updates checked) p =
    save (record p { form = record (p.form) { automatic_image_updates = checked } })
on_page (toggle_protection checked) p = record p {
  form = record (p.form) { password_protection = checked };
}
on_page submit p = if going_live p.current p.form then open_live_modal p else save p
on_page mode_action p = if is_live p.current then back_to_dry_run p else open_live_modal p
on_page enable_live p = open_live_modal p
on_page cancel p = if p.modal_open then close_live_modal p else p
on_page confirm p = if p.modal_open && p.confirm_enabled then confirm_live p else p
on_page press_reset p = send reset p
on_page (type_token value) p =
    if p.modal_open then record p { token = value; confirm_enabled = is_live_phrase value } else p
on_page (save_retention days) p = send (load_for_retention days) p
on_page answer p = p
on_page lose p = lose_first p.in_flight p
on_page lose_answer p = lose_first p.in_flight p

pub step : Event → World → World
unfolding on_page answer_first
step answer w = answer_first w.page.in_flight w
step lose_answer w = record w {
  server = (answer_first w.page.in_flight w).server;
  page = on_page lose_answer w.page;
}
step e w = record w { page = on_page e w.page }

pub run : List Event → World → World
run [] w = w
run (e ∷ es) w = run es (step e w)
