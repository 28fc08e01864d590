-- ===== src/Web/Phase.antt =====
-- login.js, the page that signs in, under every order of events.
use moment_ferry.Common.{
  List, [], ◌∷◌, Option, none, some, Bool, true, false, ◌||◌, not, if◌then◌else◌, ◌==◌, Text, ◌≡◌,
  inl, inr, refl, ◌∙◌, sym, Bool-cases,
}
use moment_ferry.I18n.{Messages}
use moment_ferry.Web.{Outcome, resolved, rejected, return_url}
use moment_ferry.Web.Login.{
  AuthStatus, SignIn, LoginPage, Event, status_answered, submitted, login_answered, fresh_page,
  not_configured, say_error, show_status, post, settle_sign_in, step, run,
}

-- What holds in both cases of a test holds of the test.
by_test :
    {A : Type 0} (P : A → Type 0) (b : Bool) (x y : A)
    → (b ≡ true → P x)
    → (b ≡ false → P y)
    → P (if b then x else y)
by_test P true x y on off = on refl
by_test P false x y on off = off refl

-- No test has both results.
both_ways : {A : Type 0} → (b : Bool) → b ≡ true → b ≡ false → A
both_ways b w n = absurd (apart (sym w ∙ n))
  where
    apart : true ≡ false → ⊥
    apart q = cc (q)

module _ (messages : Messages) (query : Option Text) (type_error : Text) where
  -- What the page can be at: ready for a sign-in; waiting for the answer of the only one; left, after a
  -- sign-in; or closed to sign-ins because none is configured, and saying so.
  pub data Phase (p : LoginPage) : Type 0 where
    ready : p.disabled ≡ false → p.in_flight ≡ 0 → Phase p
    signing_in : p.disabled ≡ true → p.in_flight ≡ 1 → Phase p
    gone : p.disabled ≡ true → p.in_flight ≡ 0 → p.left ≡ some (return_url query) → Phase p
    unconfigured :
        p.disabled ≡ true
        → p.in_flight ≡ 0
        → p.waiting ≡ false
        → p.message ≡ not_configured messages
        → Phase p

  say_error-Phase :
      (text : Text) (p : LoginPage) → p.waiting ≡ true → Phase p → Phase (say_error text p)
  say_error-Phase text p w (ready d f) = ready d f
  say_error-Phase text p w (signing_in d f) = signing_in d f
  say_error-Phase text p w (gone d f l) = gone d f l
  say_error-Phase text p w (unconfigured d f n m) = both_ways p.waiting w n

  show_status-Phase :
      (outcome : Outcome AuthStatus) (p : LoginPage)
      → p.waiting ≡ true
      → Phase p
      → Phase (show_status messages query type_error outcome p)
  show_status-Phase (rejected text status) p w h = say_error-Phase text p w h
  show_status-Phase (resolved none) p w h = say_error-Phase type_error p w h
  show_status-Phase (resolved (some s)) p w (ready d f) =
      elim (Bool-cases s.credentials_configured) [
        | inl c ↦ ready (rw (d, c) refl) f
        | inr c ↦ unconfigured (rw (d, c) refl) f refl (rw c refl)
      ]
  show_status-Phase (resolved (some s)) p w (signing_in d f) = signing_in (rw d refl) f
  show_status-Phase (resolved (some s)) p w (gone d f l) =
      gone (rw d refl) f (elim (Bool-cases (not s.protection_enabled || s.authenticated)) [
        | inl g ↦ rw g refl
        | inr g ↦ rw g l
      ])
  show_status-Phase (resolved (some s)) p w (unconfigured d f n m) = both_ways p.waiting w n

  settle_sign_in-Phase :
      (outcome : Outcome Unit) (p : LoginPage)
      → p.in_flight ≡ 1
      → p.disabled ≡ true
      → Phase (settle_sign_in messages query type_error outcome p)
  settle_sign_in-Phase (resolved answer) p f d = gone d (rw f refl) refl
  settle_sign_in-Phase (rejected text status) p f d = ready refl (rw f refl)

  -- An answer that the page gets is that of the sign-in on its way.
  settle-Phase :
      (outcome : Outcome Unit) (p : LoginPage)
      → (p.in_flight == 0) ≡ false
      → Phase p
      → Phase (settle_sign_in messages query type_error outcome p)
  settle-Phase outcome p k (signing_in d f) = settle_sign_in-Phase outcome p f d
  settle-Phase outcome p k (ready d f) = both_ways (p.in_flight == 0) (rw f refl) k
  settle-Phase outcome p k (gone d f l) = both_ways (p.in_flight == 0) (rw f refl) k
  settle-Phase outcome p k (unconfigured d f n m) = both_ways (p.in_flight == 0) (rw f refl) k

  -- A form that can be submitted has no sign-in on its way.
  submit-Phase :
      (body : SignIn) (p : LoginPage)
      → p.disabled ≡ false
      → Phase p
      → Phase (post messages query type_error body p)
  submit-Phase body p k (ready d f) = signing_in refl (rw f refl)
  submit-Phase body p k (signing_in d f) = both_ways p.disabled d k
  submit-Phase body p k (gone d f l) = both_ways p.disabled d k
  submit-Phase body p k (unconfigured d f n m) = both_ways p.disabled d k

  step-Phase : (e : Event) (p : LoginPage) → Phase p → Phase (step messages query type_error e p)
  unfolding step
  step-Phase (status_answered outcome) p h =
      by_test Phase p.waiting (show_status messages query type_error outcome p) p
        (λ w. show_status-Phase outcome p w h) (λ w. h)
  step-Phase (submitted body) p h =
      by_test Phase p.disabled p (post messages query type_error body p) (λ d. h)
        (λ k. submit-Phase body p k h)
  step-Phase (login_answered outcome) p h =
      by_test Phase (p.in_flight == 0) p (settle_sign_in messages query type_error outcome p)
        (λ k. h) (λ k. settle-Phase outcome p k h)

  run_from-Phase :
      (es : List Event) (p : LoginPage) → Phase p → Phase (run messages query type_error es p)
  unfolding run
  run_from-Phase [] p h = h
  run_from-Phase (e ∷ es) p h =
      run_from-Phase es (step messages query type_error e p) (step-Phase e p h)

  -- Whatever the order in which the status is answered, the form is submitted and the sign-ins are
  -- answered, the page is ready with no sign-in on its way; or its button is disabled while one sign-in
  -- is on its way; or it has left for the way back; or its button is disabled because no credentials
  -- are configured, and it says so.
  pub run-Phase : (es : List Event) → Phase (run messages query type_error es fresh_page)
  unfolding fresh_page
  run-Phase es = run_from-Phase es fresh_page (ready refl refl)
