-- ===== src/I18n/Language.antt =====
-- i18n.js, pickLanguage: which language the console speaks.
use moment_ferry.Common.{
  List, [], ◌∷◌, ◌++◌, Option, none, some, Bool, true, false, Text, includes, to_lower, take, map,
  All, ◌≡◌, refl, Bool-cases, inl, inr,
}
use moment_ferry.I18n.{language_codes, first_listed, pick_language}

abbrev pub is_listed : Text → Bool
is_listed = includes language_codes

-- The language that a browser's tag names, `de-AT` for one.
abbrev pub code_of : Text → Text
code_of tag = map to_lower (take 2 tag)

first_listed-is_listed : (tags : List Text) → is_listed (first_listed tags) ≡ true
unfolding first_listed
first_listed-is_listed [] = refl
first_listed-is_listed (tag ∷ tags) = elim (Bool-cases (is_listed (code_of tag))) [
  | inl e ↦ rw e e
  | inr e ↦ rw e (first_listed-is_listed tags)
]

-- Whatever is stored and whatever the browser prefers, the language chosen is one of the console's.
pick_language-is_listed :
    (stored : Option Text) (tags : List Text) → is_listed (pick_language stored tags) ≡ true
unfolding pick_language
pick_language-is_listed none tags = first_listed-is_listed tags
pick_language-is_listed (some stored) tags = elim (Bool-cases (is_listed stored)) [
  | inl e ↦ rw e e
  | inr e ↦ rw e (first_listed-is_listed tags)
]

abbrev pub IsUnlisted : List Text → Type 0
IsUnlisted = All λ tag. is_listed (code_of tag) ≡ false

first_listed_lem :
    (before : List Text) (tag : Text) (rest : List Text)
    → IsUnlisted before
    → is_listed (code_of tag) ≡ true
    → first_listed (before ++ (tag ∷ rest)) ≡ code_of tag
unfolding first_listed
first_listed_lem [] tag rest h listed = rw listed refl
first_listed_lem (x ∷ before) tag rest (p, h) listed =
    rw p (first_listed_lem before tag rest h listed)

-- With nothing stored that the console speaks, it is the language of the first of the browser's tags
-- that names one of the console's languages; a stored language that the console speaks goes before
-- all of them.
pub pick_language-order :
    (stored : Text) (before : List Text) (tag : Text) (rest : List Text)
    → IsUnlisted before
    → is_listed (code_of tag) ≡ true
    → (is_listed stored ≡ true → pick_language (some stored) (before ++ (tag ∷ rest)) ≡ stored)
      × (is_listed stored ≡ false
          → pick_language (some stored) (before ++ (tag ∷ rest)) ≡ code_of tag)
      × (pick_language none (before ++ (tag ∷ rest)) ≡ code_of tag)
unfolding pick_language
pick_language-order stored before tag rest h listed = (
  λ e. rw e refl,
  λ e. rw e (first_listed_lem before tag rest h listed),
  first_listed_lem before tag rest h listed,
)
