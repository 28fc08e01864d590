-- ===== src/Settings/Live/Quiet.antt =====
-- settings.js, the page: what every event but the confirmation keeps of the requests in flight and of the
-- dialog.
use moment_ferry.Common.{
  List, [], ◌∷◌, none, true, false, All, All-append, arith, ◌≡◌, ◌≢◌, refl, subst,
}
use moment_ferry.Settings.{SettingsForm, settings_from_form}
use moment_ferry.Settings.Live.{
  is_live_phrase, Request, put, read_auth, load, load_for_retention, put_retention, reset, Page,
  send, save, back_to_dry_run, open_live_modal, close_live_modal, Event, edit, toggle_dry_run,
  toggle_automation, toggle_updates, toggle_protection, submit, mode_action, enable_live, cancel,
  confirm, press_reset, type_token, save_retention, answer, lose, lose_answer, handle_lost,
  lose_first, on_page,
}

-- A request that neither carries the confirmation nor comes from the dialog.
abbrev pub Unconfirmed : Request → Type 0
Unconfirmed (put body from_modal) = (from_modal ≡ false) × (body.live_mode_confirmation ≡ none)
Unconfirmed (read_auth from_modal) = from_modal ≡ false
Unconfirmed (load from_modal) = from_modal ≡ false
Unconfirmed (load_for_retention days) = Unit
Unconfirmed (put_retention body) = body.live_mode_confirmation ≡ none
Unconfirmed reset = Unit

-- No confirmation is on its way, and the button is enabled only over the phrase.
pub record IsQuiet (p : Page) : Type 0 where
  pub unconfirmed : All Unconfirmed p.in_flight
  pub typed : p.confirm_enabled ≡ true → is_live_phrase p.token ≡ true

pub send-IsQuiet : (r : Request) (p : Page) → Unconfirmed r → IsQuiet p → IsQuiet (send r p)
unfolding send
send-IsQuiet r p u q = record {
  unconfirmed = All-append Unconfirmed p.in_flight (r ∷ []) q.unconfirmed (u, tt);
  typed = q.typed;
}

save-IsQuiet : (p : Page) → IsQuiet p → IsQuiet (save p)
unfolding save settings_from_form
save-IsQuiet p q = send-IsQuiet _ p (refl, refl) q

open_live_modal-IsQuiet : (p : Page) → IsQuiet p → IsQuiet (open_live_modal p)
unfolding open_live_modal
open_live_modal-IsQuiet p q = record { unconfirmed = q.unconfirmed; typed = λ e. cc }

with_form : (f : SettingsForm) (p : Page) → IsQuiet p → IsQuiet (record p { form = f })
with_form f p q = record { unconfirmed = q.unconfirmed; typed = q.typed }

handle_lost-IsQuiet :
    (r : Request) (p : Page) → Unconfirmed r → IsQuiet p → IsQuiet (handle_lost r p)
unfolding handle_lost
handle_lost-IsQuiet (put body from_modal) p u q = send-IsQuiet (load from_modal) p u.0 q
handle_lost-IsQuiet (read_auth from_modal) p u q = send-IsQuiet (load from_modal) p u q
handle_lost-IsQuiet (load from_modal) p u q = ground arith
handle_lost-IsQuiet (load_for_retention days) p u q = q
handle_lost-IsQuiet (put_retention body) p u q = q
handle_lost-IsQuiet reset p u q = q

lose_first-IsQuiet :
    (rs : List Request) (p : Page) → p.in_flight ≡ rs → IsQuiet p → IsQuiet (lose_first rs p)
unfolding lose_first
lose_first-IsQuiet [] p e q = q
lose_first-IsQuiet (r ∷ rest) p e q =
    let u : All Unconfirmed (r ∷ rest) = subst (All Unconfirmed) e q.unconfirmed in
    handle_lost-IsQuiet r _ u.0 (record { unconfirmed = u.1; typed = q.typed })

-- Every event but the click on the button keeps the page quiet.
pub on_page-IsQuiet : (e : Event) (p : Page) → e ≢ confirm → IsQuiet p → IsQuiet (on_page e p)
unfolding on_page back_to_dry_run close_live_modal
on_page-IsQuiet (edit a b c d f) p n q = with_form _ p q
on_page-IsQuiet (toggle_dry_run true) p n q = save-IsQuiet _ (with_form _ p q)
on_page-IsQuiet (toggle_dry_run false) p n q = open_live_modal-IsQuiet _ (with_form _ p q)
on_page-IsQuiet (toggle_automation b) p n q = with_form _ p q
on_page-IsQuiet (toggle_updates b) p n q = save-IsQuiet _ (with_form _ p q)
on_page-IsQuiet (toggle_protection b) p n q = with_form _ p q
on_page-IsQuiet submit p n q = ground (arith, open_live_modal-IsQuiet p q, save-IsQuiet p q)
on_page-IsQuiet mode_action p n q =
    let dry : IsQuiet _ = save-IsQuiet _ (with_form (record (p.form) { dry_run = true }) p q) in
    ground (arith, open_live_modal-IsQuiet p q, dry)
on_page-IsQuiet enable_live p n q = open_live_modal-IsQuiet p q
on_page-IsQuiet cancel p n q = ground arith
on_page-IsQuiet confirm p n q = absurd (n refl)
on_page-IsQuiet press_reset p n q = send-IsQuiet reset p tt q
on_page-IsQuiet (type_token value) p n q = ground arith
on_page-IsQuiet (save_retention days) p n q = send-IsQuiet (load_for_retention days) p tt q
on_page-IsQuiet answer p n q = q
on_page-IsQuiet lose p n q = lose_first-IsQuiet p.in_flight p refl q
on_page-IsQuiet lose_answer p n q = lose_first-IsQuiet p.in_flight p refl q
