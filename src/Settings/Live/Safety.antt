-- ===== src/Settings/Live/Safety.antt =====
-- settings.js and SettingsEndpoints.cs: when transfers go live.
use moment_ferry.Common.{
  List, [], ◌∷◌, none, some, Bool, true, false, ◌&&◌, All, arith, ◌≡◌, ◌≢◌, ◌⊎◌, inl, inr, refl,
  subst, Option-cases, Bool-cases,
}
use moment_ferry.Settings.{
  RuntimeSettings, SettingsBody, retention_body, server_put, is_accepted_body,
}
use moment_ferry.Settings.Live.{
  is_live_phrase, Request, put, read_auth, load, load_for_retention, put_retention, reset, Page,
  World, apply, Event, confirm, answer, lose_answer, handle, answer_first, on_page, step, run,
}
use moment_ferry.Settings.Live.Quiet.{Unconfirmed, IsQuiet, send-IsQuiet, on_page-IsQuiet}

-- The server is in Dry Run, and so are its defaults.
pub record IsGuarded (w : World) : Type 0 where
  pub dry : w.server.dry_run ≡ true
  pub dry_defaults : w.defaults.dry_run ≡ true
  pub quiet : IsQuiet w.page

-- The server goes live on a request with the confirmation only.
pub server_put-dry_run :
    (configured : Bool) (s u : RuntimeSettings) (b : SettingsBody)
    → s.dry_run ≡ true
    → b.live_mode_confirmation ≡ none
    → server_put configured s b ≡ some u
    → u.dry_run ≡ true
unfolding server_put
server_put-dry_run configured s u b d c e = elim (Bool-cases (is_accepted_body configured b)) [
  | inl good ↦ ground arith
  | inr bad ↦ ground arith
]

apply-IsQuiet : (s : RuntimeSettings) (p : Page) → IsQuiet p → IsQuiet (apply s p)
unfolding apply
apply-IsQuiet s p q = record { unconfirmed = q.unconfirmed; typed = q.typed }

handle-IsGuarded : (r : Request) (w : World) → Unconfirmed r → IsGuarded w → IsGuarded (handle r w)
unfolding handle
handle-IsGuarded (put body from_modal) w u g =
    elim (Option-cases (server_put w.configured w.server body)) [
      | inl refused ↦
          rw (refused, handle)
            (record {
              dry = g.dry;
              dry_defaults = g.dry_defaults;
              quiet = send-IsQuiet (load from_modal) w.page u.0 g.quiet;
            })
      | inr (s, accepted) ↦
          rw (accepted, handle)
            (record {
              dry = server_put-dry_run w.configured w.server s body g.dry u.1 accepted;
              dry_defaults = g.dry_defaults;
              quiet =
                  send-IsQuiet (read_auth from_modal) (apply s w.page) u.0
                    (apply-IsQuiet s w.page g.quiet);
            })
    ]
handle-IsGuarded (read_auth from_modal) w u g = record {
  dry = g.dry;
  dry_defaults = g.dry_defaults;
  quiet = record { unconfirmed = g.quiet.unconfirmed; typed = g.quiet.typed };
}
handle-IsGuarded (load from_modal) w u g = record {
  dry = g.dry;
  dry_defaults = g.dry_defaults;
  quiet = record {
    unconfirmed = (apply-IsQuiet w.server w.page g.quiet).unconfirmed;
    typed = λ e. g.quiet.typed (ground arith);
  };
}
handle-IsGuarded (load_for_retention days) w u g = record {
  dry = g.dry;
  dry_defaults = g.dry_defaults;
  quiet =
      send-IsQuiet (put_retention (retention_body w.server days)) w.page
        (unfold retention_body in refl) g.quiet;
}
handle-IsGuarded (put_retention body) w u g =
    elim (Option-cases (server_put w.configured w.server body)) [
      | inl refused ↦ rw (refused, handle) g
      | inr (s, accepted) ↦
          rw (accepted, handle)
            (record {
              dry = server_put-dry_run w.configured w.server s body g.dry u accepted;
              dry_defaults = g.dry_defaults;
              quiet = g.quiet;
            })
    ]
handle-IsGuarded reset w u g = record {
  dry = g.dry_defaults;
  dry_defaults = g.dry_defaults;
  quiet = apply-IsQuiet w.defaults w.page g.quiet;
}

answer_first-IsGuarded :
    (rs : List Request) (w : World)
    → w.page.in_flight ≡ rs
    → IsGuarded w
    → IsGuarded (answer_first rs w)
unfolding answer_first
answer_first-IsGuarded [] w e g = g
answer_first-IsGuarded (r ∷ rest) w e g =
    let u : All Unconfirmed (r ∷ rest) = subst (All Unconfirmed) e g.quiet.unconfirmed in
    handle-IsGuarded r _ u.0 (record {
      dry = g.dry;
      dry_defaults = g.dry_defaults;
      quiet = record { unconfirmed = u.1; typed = g.quiet.typed };
    })

page-IsGuarded :
    (e : Event) (w : World)
    → e ≢ confirm
    → IsGuarded w
    → IsGuarded (record w { page = on_page e w.page })
page-IsGuarded e w n g = record {
  dry = g.dry;
  dry_defaults = g.dry_defaults;
  quiet = on_page-IsQuiet e w.page n g.quiet;
}

-- The click on the button, in an open dialog that holds the phrase.
abbrev pub Confirms : Event → World → Type 0
Confirms e w = (e ≡ confirm) × (w.page.modal_open ≡ true) × (is_live_phrase w.page.token ≡ true)

confirm-IsGuarded : (w : World) → IsGuarded w → Confirms confirm w ⊎ IsGuarded (step confirm w)
unfolding step on_page
confirm-IsGuarded w g = elim (Bool-cases (w.page.modal_open && w.page.confirm_enabled)) [
  | inl pressed ↦ inl (refl, ground arith, g.quiet.typed (ground arith))
  | inr idle ↦ inr (rw (idle, step) g)
]

-- One event either is the confirming click or leaves the server in Dry Run with nothing under way.
step-IsGuarded : (e : Event) (w : World) → IsGuarded w → Confirms e w ⊎ IsGuarded (step e w)
unfolding step
step-IsGuarded answer w g = inr (answer_first-IsGuarded w.page.in_flight w refl g)
step-IsGuarded lose_answer w g = inr (record {
  dry = (answer_first-IsGuarded w.page.in_flight w refl g).dry;
  dry_defaults = g.dry_defaults;
  quiet = on_page-IsQuiet lose_answer w.page (λ q. cc) g.quiet;
})
step-IsGuarded confirm w g = confirm-IsGuarded w g
step-IsGuarded e w g = inr (page-IsGuarded e w (λ q. cc) g)

-- Somewhere in a history the button was clicked in an open dialog that held the phrase.
abbrev pub HasConfirmed : List Event → World → Type 0
HasConfirmed [] w = ⊥
HasConfirmed (e ∷ es) w = Confirms e w ⊎ HasConfirmed es (step e w)

-- Start in Dry Run, with defaults that are in Dry Run too, no confirmation on its way, and the button
-- of the dialog disabled unless the phrase is in the field. If the server is live after any sequence
-- of clicks, inputs, answers, lost requests and lost answers, then in that sequence the button was clicked while
-- the dialog was open and its field held the phrase ENABLE LIVE.
pub run-live-HasConfirmed :
    (es : List Event) (w : World)
    → IsGuarded w
    → (run es w).server.dry_run ≡ false
    → HasConfirmed es w
unfolding run
run-live-HasConfirmed [] w g live = cc (g.dry)
run-live-HasConfirmed (e ∷ es) w g live = elim (step-IsGuarded e w g) [
  | inl confirmed ↦ inl confirmed
  | inr guarded ↦ inr (run-live-HasConfirmed es (step e w) guarded live)
]
