-- ===== src/Paths/Names.antt =====
-- app.js, baseName and safeSegment: what the shown names are.
use moment_ferry.Common.{
  ℕ, List, [], ◌∷◌, ◌++◌, true, false, if◌then◌else◌, Text, codes, trim, map, is_empty, All, arith,
  ◌≡◌, ◌≢◌, refl, ap, ◌∙◌, Bool-cases, inl, inr,
}
use moment_ferry.Paths.{
  is_separator, cons_first, split_path, last_part, base_name, is_unsafe, safe_segment,
}

abbrev pub IsPlain : Text → Type 0
IsPlain = All λ c. is_separator c ≡ false

split_path_plain : (name : Text) → IsPlain name → split_path name ≡ name ∷ []
split_path_plain [] h = refl
split_path_plain (c ∷ name) (p, h) = rw p (ap (cons_first c) (split_path_plain name h))

-- More than one part.
abbrev Several : List Text → Type 0
Several [] = ⊥
Several (x ∷ []) = ⊥
Several (x ∷ y ∷ rest) = Unit

last_part-cons_first :
    (c : ℕ) (parts : List Text)
    → Several parts
    → Several (cons_first c parts) × (last_part (cons_first c parts) ≡ last_part parts)
last_part-cons_first c [] h = absurd h
last_part-cons_first c (x ∷ []) h = absurd h
last_part-cons_first c (x ∷ y ∷ rest) h = (tt, refl)

split_path-append :
    (dir name : Text) (c : ℕ)
    → is_separator c ≡ true
    → IsPlain name
    → Several (split_path (dir ++ c ∷ name)) × (last_part (split_path (dir ++ c ∷ name)) ≡ name)
split_path-append [] name c p h = rw (p, split_path_plain name h) (tt, refl)
split_path-append (d ∷ dir) name c p h =
    let (several, last) = split_path-append dir name c p h in
    elim (Bool-cases (is_separator d)) [
      | inl e ↦ rw e (after (split_path (dir ++ c ∷ name)) several last)
      | inr e ↦
          let (more, same) = last_part-cons_first d (split_path (dir ++ c ∷ name)) several in
          rw e (more, same ∙ last)
    ]
  where
    after :
        (parts : List Text)
        → Several parts
        → last_part parts ≡ name
        → Several ([] ∷ parts) × (last_part ([] ∷ parts) ≡ name)
    after [] s l = absurd s
    after (x ∷ rest) s l = (tt, l)

-- The base name of a path is what stands behind its last separator, of either kind; a path without
-- separators is its own base name.
base_name-append :
    (dir name : Text) (c : ℕ)
    → is_separator c ≡ true
    → IsPlain name
    → name ≢ []
    → (base_name (dir ++ c ∷ name) ≡ name) × (base_name name ≡ name)
unfolding base_name
base_name-append dir [] c p h n = absurd (n refl)
base_name-append dir (d ∷ name) c p h n =
    (rw ((split_path-append dir (d ∷ name) c p h).1) refl, rw (split_path_plain (d ∷ name) h) refl)

-- None of `/`, `:`, `*`, `?`, the quotation mark, `<`, `>` and `|`.
abbrev pub IsSafe : ℕ → Type 0
IsSafe c =
    (c ≢ b'/')
    × (c ≢ b':')
    × (c ≢ b'*')
    × (c ≢ b'?')
    × (c ≢ 34)
    × (c ≢ b'<')
    × (c ≢ b'>')
    × (c ≢ b'|')

kept-IsSafe : (c : ℕ) → is_unsafe c ≡ false → IsSafe c
kept-IsSafe c h = ground arith

map-IsSafe : (s : Text) → All IsSafe (map (λ c. if is_unsafe c then b'_' else c) s)
map-IsSafe [] = tt
map-IsSafe (c ∷ s) = (
  elim (Bool-cases (is_unsafe c)) [
    | inl e ↦ rw e (kept-IsSafe 95 refl)
    | inr e ↦ rw e (kept-IsSafe c e)
  ],
  map-IsSafe s,
)

cleaned-IsSafe :
    (v : Text)
    → let s =
        if is_empty v then codes "unnamed" else map (λ c. if is_unsafe c then b'_' else c) v in
      (s ≢ []) × All IsSafe s
cleaned-IsSafe [] = ((λ e. cc), ground arith)
cleaned-IsSafe (c ∷ s) = ((λ e. cc), map-IsSafe (c ∷ s))

-- Whatever the value, the segment is not empty and holds none of the characters / : * ? < > | and the
-- quotation mark.
pub safe_segment-IsSafe :
    (value : Text) → (safe_segment value ≢ []) × All IsSafe (safe_segment value)
unfolding safe_segment
safe_segment-IsSafe value = cleaned-IsSafe (trim value)
