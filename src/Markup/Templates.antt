-- ===== src/Markup/Templates.antt =====
-- app.js, the template literals: how the check of one template reaches a list of them.
use moment_ferry.Common.{
  List, [], ◌∷◌, ◌++◌, Option, none, some, Bool, true, false, ◌&&◌, if◌then◌else◌, flat_map, every,
  arith, ◌≡◌, refl, ap, ◌∙◌,
}
use moment_ferry.Markup.{
  Piece, lit, pick, value, word, Place, outside, tag, quoted, reach, Part, always, either,
  part_pieces, pieces,
}
use moment_ferry.Markup.Pieces.{same_place, holds_text, place_after, guard}

-- Pieces that begin and end between tags.
abbrev pub Keeps : List Piece → Type 0
Keeps xs = place_after outside xs ≡ some outside

place_after-append :
    (p q : Place) (xs ys : List Piece)
    → place_after p xs ≡ some q
    → place_after p (xs ++ ys) ≡ place_after q ys
unfolding place_after
place_after-append p q [] ys h = ap (λ o. elim o [ none ↦ none | some r ↦ place_after r ys ]) h
place_after-append p q (lit s ∷ xs) ys h = place_after-append (reach p s) q xs ys h
place_after-append p q (pick b one other ∷ xs) ys h =
    let (same, on) =
      guard (same_place (reach p one) (reach p other)) (place_after (reach p one) xs) q h in
    rw same (place_after-append (reach p one) q xs ys on)
place_after-append p q (value s ∷ xs) ys h =
    let (holds, on) = guard (holds_text p) (place_after p xs) q h in
    rw holds (place_after-append p q xs ys on)
place_after-append p q (word s ∷ xs) ys h =
    let (holds, on) = guard (holds_text p) (place_after p xs) q h in
    rw holds (place_after-append p q xs ys on)

pub Keeps-append : (xs ys : List Piece) → Keeps xs → Keeps ys → Keeps (xs ++ ys)
Keeps-append xs ys h k = place_after-append outside outside xs ys h ∙ k

pub Keeps-if : (b : Bool) (xs ys : List Piece) → Keeps xs → Keeps ys → Keeps (if b then xs else ys)
Keeps-if true xs ys h k = h
Keeps-if false xs ys h k = k

pub Keeps-flat_map {ℓ} :
    {A : Type ℓ} (f : A → List Piece) (items : List A)
    → ((a : A) → Keeps (f a))
    → Keeps (flat_map f items)
unfolding place_after
Keeps-flat_map f [] h = refl
Keeps-flat_map f (a ∷ items) h =
    Keeps-append (f a) (flat_map f items) (h a) (Keeps-flat_map f items h)

abbrev is_outside : Option Place → Bool
is_outside (some outside) = true
is_outside _ = false

is_outside-eq : (o : Option Place) → is_outside o ≡ true → o ≡ some outside
is_outside-eq none h = cc (h)
is_outside-eq (some outside) h = refl
is_outside-eq (some tag) h = cc (h)
is_outside-eq (some quoted) h = cc (h)

unfoldable pub keeps_part : Part → Bool
unfolding place_after
keeps_part (always xs) = is_outside (place_after outside xs)
keeps_part (either b xs ys) =
    is_outside (place_after outside xs) && is_outside (place_after outside ys)

unfoldable pub keeps : List Part → Bool
unfolding keeps_part
keeps = every keeps_part

part-Keeps : (x : Part) → keeps_part x ≡ true → Keeps (part_pieces x)
unfolding keeps_part
part-Keeps (always xs) h = is_outside-eq (place_after outside xs) h
part-Keeps (either b xs ys) h =
    Keeps-if b xs ys (is_outside-eq (place_after outside xs) (ground arith))
      (is_outside-eq (place_after outside ys) (ground arith))

-- The check of a template.
pub keeps-Keeps : (xs : List Part) → keeps xs ≡ true → Keeps (pieces xs)
unfolding keeps place_after
keeps-Keeps [] h = refl
keeps-Keeps (x ∷ xs) h =
    Keeps-append (part_pieces x) (pieces xs) (part-Keeps x (ground arith))
      (keeps-Keeps xs (ground arith))

-- A list of rows, and what stands between an opening and a closing template.
pub rows-Keeps {ℓ} :
    {A : Type ℓ} (row : A → List Part) (items : List A)
    → ((a : A) → keeps (row a) ≡ true)
    → Keeps (flat_map (λ a. pieces (row a)) items)
rows-Keeps row items h = Keeps-flat_map (λ a. pieces (row a)) items (λ a. keeps-Keeps (row a) (h a))

pub before-Keeps :
    (open_part : List Part) (body : List Piece)
    → keeps open_part ≡ true
    → Keeps body
    → Keeps (pieces open_part ++ body)
before-Keeps open_part body h k = Keeps-append (pieces open_part) body (keeps-Keeps open_part h) k

pub around-Keeps :
    (body : List Piece) (close_part : List Part)
    → Keeps body
    → keeps close_part ≡ true
    → Keeps (body ++ pieces close_part)
around-Keeps body close_part k h =
    Keeps-append body (pieces close_part) k (keeps-Keeps close_part h)
