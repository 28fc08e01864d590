-- ===== src/Markup/Pieces.antt =====
-- app.js, the renderers: what a browser reads where a text is put into a template.
use moment_ferry.Common.{
  List, [], ◌∷◌, ◌++◌, Option, none, some, Bool, true, false, if◌then◌else◌, ◌==◌, Text, All, arith,
  ◌≡◌, refl, ap, ◌∙◌, sym, subst, inl, inr, Bool-cases,
}
use moment_ferry.Html.{escape_html}
use moment_ferry.Html.Escaping.{escape_html-IsInert}
use moment_ferry.I18n.Calm.{IsCalm, IsCalm-inert}
use moment_ferry.Markup.{
  Piece, lit, pick, value, word, picked, print_piece, print, Place, outside, tag, quoted, after,
  reach, tags, blank, skeleton,
}

-- Where texts can be put in.
abbrev pub same_place : Place → Place → Bool
same_place outside outside = true
same_place tag tag = true
same_place quoted quoted = true
same_place _ _ = false

abbrev pub holds_text : Place → Bool
holds_text tag = false
holds_text _ = true

-- The place after pieces; none where a text would stand in a tag, or where it depends on a choice.
unfoldable pub place_after : Place → List Piece → Option Place
place_after p [] = some p
place_after p (lit s ∷ xs) = place_after (reach p s) xs
place_after p (pick b one other ∷ xs) =
    let next = place_after (reach p one) xs in
    if same_place (reach p one) (reach p other) then next else none
place_after p (value s ∷ xs) = let next = place_after p xs in if holds_text p then next else none
place_after p (word s ∷ xs) = let next = place_after p xs in if holds_text p then next else none

-- What is put in as it is holds no angle bracket and no quotation mark.
abbrev pub IsClean : Piece → Type 0
IsClean (word s) = IsCalm s
IsClean _ = Unit

reach-append : (p : Place) (a b : Text) → reach p (a ++ b) ≡ reach (reach p a) b
unfolding reach
reach-append p [] b = refl
reach-append p (c ∷ a) b = reach-append (after p c) a b

tags-append : (p : Place) (a b : Text) → tags p (a ++ b) ≡ tags p a ++ tags (reach p a) b
unfolding tags reach after
tags-append p [] b = refl
tags-append outside (c ∷ a) b = elim (Bool-cases (c == b'<')) [
  | inl e ↦ rw (e, after) (ap (λ r. c ∷ r) (tags-append tag a b))
  | inr e ↦ rw (e, after) (tags-append outside a b)
]
tags-append tag (c ∷ a) b = ap (λ r. c ∷ r) (tags-append (after tag c) a b)
tags-append quoted (c ∷ a) b = elim (Bool-cases (c == 34)) [
  | inl e ↦ rw (e, after) (ap (λ r. c ∷ r) (tags-append tag a b))
  | inr e ↦ rw (e, after) (tags-append quoted a b)
]

-- Inert text stays where it is, and makes no tag.
inert : (p : Place) (s : Text) → holds_text p ≡ true → IsCalm s → (reach p s ≡ p) × (tags p s ≡ [])
unfolding reach tags after
inert p [] h a = (refl, refl)
inert outside (c ∷ s) h a = ground (arith, inert outside s h)
inert tag (c ∷ s) h a = cc (h)
inert quoted (c ∷ s) h a = ground (arith, inert quoted s h)

-- The place and the tags of what is printed.
abbrev pub Reads : Place → List Piece → Place → Type 0
Reads p xs q = (reach p (print xs) ≡ q) × (tags p (print xs) ≡ tags p (print (skeleton xs)))

Reads-text :
    (p q : Place) (s : Text) (x : Piece) (xs : List Piece)
    → print_piece x ≡ s
    → holds_text p ≡ true
    → IsCalm s
    → print_piece (blank x) ≡ []
    → Reads p xs q
    → Reads p (x ∷ xs) q
unfolding print skeleton
Reads-text p q s x xs e h a b (r, same) =
    let (stays, silent) = inert p s h a in
    rw (e, b)
      (
        reach-append p s (print xs) ∙ ap (λ o. reach o (print xs)) stays ∙ r,
        tags-append p s (print xs) ∙ rw (stays, silent) same,
      )

Reads-lit :
    (p q : Place) (s : Text) (x : Piece) (xs : List Piece)
    → print_piece x ≡ s
    → print_piece (blank x) ≡ s
    → Reads (reach p s) xs q
    → Reads p (x ∷ xs) q
unfolding print skeleton
Reads-lit p q s x xs e b (r, same) =
    rw (e, b)
      (
        reach-append p s (print xs) ∙ r,
        tags-append p s (print xs)
            ∙ ap (λ o. tags p s ++ o) same
            ∙ sym (tags-append p s (print (skeleton xs))),
      )

same_place-eq : (p q : Place) → same_place p q ≡ true → p ≡ q
same_place-eq outside outside h = refl
same_place-eq outside tag h = cc (h)
same_place-eq outside quoted h = cc (h)
same_place-eq tag outside h = cc (h)
same_place-eq tag tag h = refl
same_place-eq tag quoted h = cc (h)
same_place-eq quoted outside h = cc (h)
same_place-eq quoted tag h = cc (h)
same_place-eq quoted quoted h = refl

pub guard :
    (b : Bool) (o : Option Place) (q : Place)
    → (if b then o else none) ≡ some q
    → (b ≡ true) × (o ≡ some q)
guard true o q h = (refl, h)
guard false o q h = cc (h)

reach-picked :
    (p : Place) (b : Bool) (one other : Text)
    → same_place (reach p one) (reach p other) ≡ true
    → reach p one ≡ reach p (picked b one other)
reach-picked p true one other h = refl
reach-picked p false one other h = same_place-eq (reach p one) (reach p other) h

blank_value : escape_html [] ≡ []
unfolding escape_html
blank_value = refl

-- Well placed pieces whose words are clean lead where they are said to lead, and have the tags of the
-- pieces without any text put in.
pub print-Reads :
    (p q : Place) (xs : List Piece) → place_after p xs ≡ some q → All IsClean xs → Reads p xs q
unfolding place_after print skeleton reach tags
print-Reads p q [] h a = (ap (λ o. elim o [ none ↦ p | some r ↦ r ]) h, refl)
print-Reads p q (lit s ∷ xs) h (c, a) =
    Reads-lit p q s (lit s) xs refl refl (print-Reads (reach p s) q xs h a)
print-Reads p q (pick b one other ∷ xs) h (c, a) =
    let (same, on) =
      guard (same_place (reach p one) (reach p other)) (place_after (reach p one) xs) q h in
    Reads-lit p q (picked b one other) (pick b one other) xs refl refl (
      subst (λ o. Reads o xs q) (reach-picked p b one other same)
        (print-Reads (reach p one) q xs on a))
print-Reads p q (value s ∷ xs) h (c, a) =
    let (holds, on) = guard (holds_text p) (place_after p xs) q h in
    Reads-text p q (escape_html s) (value s) xs refl holds
      (IsCalm-inert (escape_html s) (escape_html-IsInert s)) blank_value (print-Reads p q xs on a)
print-Reads p q (word s ∷ xs) h (c, a) =
    let (holds, on) = guard (holds_text p) (place_after p xs) q h in
    Reads-text p q s (word s) xs refl holds c refl (print-Reads p q xs on a)
