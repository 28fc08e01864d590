-- ===== src/Navigation/Shown.antt =====
-- app.js, setView: which section is shown; and the first day of the week.
use moment_ferry.Common.{
  ℕ, ◌<◌, List, [], ◌∷◌, Option, none, some, true, false, ◌||◌, Text, codes, text_eq, text_eq_iff,
  includes, filter, arith, ◌≡◌, ◌⊎◌, inl, inr, refl, ap, ◌∙◌, subst, sym, Bool-cases,
}
use moment_ferry.Navigation.{
  views, inherited, Navigation, has_title, show_view, set_view, read_display_preference,
  chosen_week_start, locale_week_start, week_start,
}

-- No text of a list occurs twice.
abbrev IsUnique : List Text → Type 0
IsUnique [] = Unit
IsUnique (x ∷ xs) = (includes xs x ≡ false) × IsUnique xs

filter-absent :
    (xs : List Text) (v : Text) → includes xs v ≡ false → filter (λ x. text_eq x v) xs ≡ []
filter-absent [] v h = refl
filter-absent (x ∷ xs) v h = ground (arith, filter-absent xs v)

filter-sole :
    (xs : List Text) (v : Text)
    → IsUnique xs
    → includes xs v ≡ true
    → filter (λ x. text_eq x v) xs ≡ v ∷ []
filter-sole [] v u h = cc (h)
filter-sole (x ∷ xs) v (fresh, u) h = elim (Bool-cases (text_eq x v)) [
  | inl e ↦
      let same : x ≡ v = (text_eq_iff x v).0 e in
      rw e (
        ap (λ r. x ∷ r) (filter-absent xs v (subst (λ w. includes xs w ≡ false) same fresh))
        ∙ ap (λ w. w ∷ []) same)
  | inr e ↦ rw e (filter-sole xs v u (sym (ap (λ b. b || includes xs v) e) ∙ h))
]

views-IsUnique : IsUnique views
views-IsUnique =
    (refl, (refl, (refl, (refl, (refl, (refl, (refl, (refl, (refl, (refl, (refl, tt)))))))))))

-- What the page then shows: one section, under its own name in the location; or, where setView threw,
-- none at all.
pub record Shows (view : Text) (n : Navigation) : Type 0 where
  pub current : n.current_view ≡ view
  pub only : n.visible ≡ view ∷ []
  pub named : n.hash ≡ view
  pub whole : n.threw ≡ false

pub record ShowsNothing (n : Navigation) : Type 0 where
  pub nothing : n.visible ≡ []
  pub broken : n.threw ≡ true

show_view-Shows :
    (view : Text) (n : Navigation) → includes views view ≡ true → Shows view (show_view view n)
show_view-Shows view n h = rw h record {
  current = refl;
  only = filter-sole views view views-IsUnique h;
  named = refl;
  whole = refl;
}

show_view-ShowsNothing :
    (view : Text) (n : Navigation) → includes views view ≡ false → ShowsNothing (show_view view n)
show_view-ShowsNothing view n h =
    rw h record { nothing = filter-absent views view h; broken = refl }

-- Where setView leads: to the view that has a title, to the overview, or to no section.
pub data Landing (view : Text) (n : Navigation) : Type 0 where
  own : includes views view ≡ true → Shows view n → Landing view n
  unknown : has_title view ≡ false → Shows (codes "overview") n → Landing view n
  blank :
      includes views view ≡ false → includes inherited view ≡ true → ShowsNothing n → Landing view n

-- A view that has a title is shown, alone, and named in the location; a name that is no key at all
-- shows the overview; but a name that every object inherits, `constructor` for one, leaves the page
-- without any section.
pub set_view_lem : (view : Text) (n : Navigation) → Landing view (set_view view n)
unfolding set_view
set_view_lem view n = elim (Bool-cases (includes views view)) [
  | inl h ↦ own h (rw h (show_view-Shows view n h))
  | inr h ↦ elim (Bool-cases (includes inherited view)) [
    | inl k ↦
        let titled : has_title view ≡ true = ap (λ b. b || includes inherited view) h ∙ k in
        blank h k (rw titled (show_view-ShowsNothing view n h))
    | inr k ↦
        let untitled : has_title view ≡ false = ap (λ b. b || includes inherited view) h ∙ k in
        unknown untitled (rw untitled (show_view-Shows (codes "overview") n refl))
  ]
]

preferred :
    (allowed : List Text) (stored : Option Text)
    → (read_display_preference allowed stored ≡ codes "auto")
      ⊎ (includes allowed (read_display_preference allowed stored) ≡ true)
unfolding read_display_preference
preferred allowed none = inl refl
preferred allowed (some stored) = elim (Bool-cases (includes allowed stored)) [
  | inl e ↦ inr (rw e e)
  | inr e ↦ inl (rw e refl)
]

locale_week_start-lt : (first_day : Option ℕ) → locale_week_start first_day < 7
locale_week_start-lt none = omega arith
locale_week_start-lt (some first_day) = omega arith

abbrev digits : List Text
digits = codes "0" ∷ codes "1" ∷ []

chosen_week_start-lt :
    (first_day : Option ℕ) (p : Text)
    → (p ≡ codes "auto") ⊎ (includes digits p ≡ true)
    → chosen_week_start first_day p < 7
chosen_week_start-lt first_day p (inl e) =
    subst (λ w. chosen_week_start first_day w < 7) (sym e) (locale_week_start-lt first_day)
chosen_week_start-lt first_day p (inr e) = elim (Bool-cases (text_eq (codes "0") p)) [
  | inl z ↦
      subst (λ w. chosen_week_start first_day w < 7) ((text_eq_iff (codes "0") p).0 z) (omega arith)
  | inr n ↦ elim (Bool-cases (text_eq (codes "1") p)) [
    | inl o ↦
        subst (λ w. chosen_week_start first_day w < 7) ((text_eq_iff (codes "1") p).0 o)
          (omega arith)
    | inr m ↦ absurd (
        neither
          (sym (ap (λ b. b || (text_eq (codes "1") p || false)) n ∙ ap (λ b. b || false) m) ∙ e))
  ]
]
  where
    neither : false ≡ true → ⊥
    neither q = cc (q)

-- Whatever is stored and whatever the locale tells, the week of the date picker starts on a day of the
-- week.
week_start-lt : (first_day : Option ℕ) (stored : Option Text) → week_start first_day stored < 7
unfolding week_start
week_start-lt first_day stored =
    chosen_week_start-lt first_day (read_display_preference digits stored) (preferred digits stored)
