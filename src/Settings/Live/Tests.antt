-- ===== src/Settings/Live/Tests.antt =====
-- settings.js, the dialog for live transfers: runs at concrete inputs.
use moment_ferry.Common.{[], ◌∷◌, List, some, true, false, codes, ◌≡◌, refl, to_upper, trim}
use moment_ferry.Settings.{settings_from_form, server_put}
use moment_ferry.Settings.Samples.{fresh}
use moment_ferry.Settings.Live.{
  World, Event, type_token, confirm, answer, toggle_dry_run, run, step, on_page, is_live_phrase,
  answer_first, handle, apply, send, open_live_modal, confirm_live,
}
use moment_ferry.Settings.Live.Safety.{IsGuarded, HasConfirmed, run-live-HasConfirmed}

abbrev opened : World
opened = record {
  page = record {
    form = record {
      dry_run = true;
      automation_enabled = true;
      interval = 300;
      max_files = 100;
      parallel_metadata = 2;
      timestamp_fallback = false;
      free_space_reserve = 1;
      automatic_image_updates = false;
      password_protection = false;
    };
    current = some fresh;
    modal_open = false;
    token = [];
    confirm_enabled = false;
    in_flight = [];
  };
  server = fresh;
  defaults = fresh;
  configured = false;
}

opened-IsGuarded : IsGuarded opened
opened-IsGuarded = record {
  dry = refl;
  dry_defaults = refl;
  quiet = record { unconfirmed = tt; typed = λ e. cc e };
}

abbrev clicks : List Event
clicks = toggle_dry_run false ∷ type_token (codes " enable live ") ∷ confirm ∷ answer ∷ []

live : (run clicks opened).server.dry_run ≡ false
unfolding run step on_page is_live_phrase answer_first handle apply send open_live_modal
    confirm_live server_put to_upper trim settings_from_form
live = refl

run-live-HasConfirmed_example : HasConfirmed clicks opened
run-live-HasConfirmed_example = run-live-HasConfirmed clicks opened opened-IsGuarded live
