-- ===== src/Forms.antt =====
-- src/MomentFerry.Web/wwwroot/app.js: the forms for shares, source groups and events, from the entry
-- that is edited to the request that saves it.
-- A text input holds the text that is put into it, and a number input the number.
pub mod Lines
pub mod Shares
pub mod ShareFields
pub mod Groups
pub mod Events
pub mod Presets
mod Tests
use moment_ferry.Common.{
  ℕ, List, [], ◌∷◌, ◌++◌, Option, none, some, Bool, true, false, ◌&&◌, ◌||◌, not, if◌then◌else◌,
  ◌==◌, Text, codes, trim, includes, filter, map, join, is_empty, find, text_eq, ◌≡◌, ◌≢◌, refl,
  Bool-cases, inl, inr, or_blank,
}

-- `select.value = v` on a select with these options, and the value it then has.
unfoldable pub choose : List Text → Text → Text
choose options v = if includes options v then v else []

-- `value || null`, and `value || ''`
abbrev pub or_null : Text → Option Text
or_null [] = none
or_null (c ∷ s) = some (c ∷ s)

abbrev pub add_first : ℕ → List Text → List Text
add_first c [] = (c ∷ []) ∷ []
add_first c (x ∷ xs) = (c ∷ x) ∷ xs

-- `value.split('\n')`
unfoldable pub split_lines : Text → List Text
split_lines [] = [] ∷ []
split_lines (c ∷ s) = let rest = split_lines s in if c == 10 then [] ∷ rest else add_first c rest

-- linesToList
unfoldable pub lines_to_list : Text → List Text
unfolding split_lines
lines_to_list value = filter (λ s. not (is_empty s)) (map trim (split_lines value))

pub data Method : Type 0 where
  post put : Method

pub record Sent (A : Type 0) : Type 0 where
  pub method : Method
  pub url : Text
  pub body : A

-- `id ? PUT base/id : POST create`
abbrev pub sent : {A : Type 0} → Text → Text → Text → A → Sent A
sent base create [] body = record { method = post; url = create; body = body }
sent base create (c ∷ id) body = record { method = put; url = base ++ (b'/' ∷ c ∷ id); body = body }

-- What a select can show, and what a text input can hold, of a member that may be missing.
abbrev pub IsOption : List Text → Option Text → Type 0
IsOption options none = Unit
IsOption options (some v) = (v ≢ []) × (includes options v ≡ true)

abbrev pub NotBlank : Option Text → Type 0
NotBlank none = Unit
NotBlank (some v) = v ≢ []

pub or_null-or_blank : (o : Option Text) → NotBlank o → or_null (or_blank o) ≡ o
or_null-or_blank none h = refl
or_null-or_blank (some []) h = absurd (h refl)
or_null-or_blank (some (c ∷ s)) h = refl

pub or_null-choose :
    (options : List Text) (o : Option Text)
    → IsOption options o
    → or_null (choose options (or_blank o)) ≡ o
unfolding choose
or_null-choose options none h = elim (Bool-cases (includes options [])) [
  | inl e ↦ rw e refl
  | inr e ↦ rw e refl
]
or_null-choose options (some v) (n, e) = rw e (or_null-or_blank (some v) n)

pub sent-body :
    {A : Type 0} (base create id : Text) (body : A) → (sent base create id body).body ≡ body
sent-body base create [] body = refl
sent-body base create (c ∷ id) body = refl

pub sent-put :
    {A : Type 0} (base create id : Text) (body : A)
    → id ≢ []
    → sent base create id body ≡ record { method = put; url = base ++ (b'/' ∷ id); body = body }
sent-put base create [] body h = absurd (h refl)
sent-put base create (c ∷ id) body h = refl
