-- ===== src/Forms/Lines.antt =====
-- app.js, linesToList: reading the lines that an entry is shown as.
use moment_ferry.Common.{
  List, [], ◌∷◌, ◌++◌, false, not, ◌==◌, Text, trim, filter, map, join, is_empty, All, ◌≡◌, ◌≢◌,
  refl, ap, ◌∙◌,
}
use moment_ferry.Forms.{add_first, split_lines, lines_to_list}

abbrev pub NoBreak : Text → Type 0
NoBreak = All λ c. (c == 10) ≡ false

-- A line that is kept as it is.
abbrev pub IsLine : Text → Type 0
IsLine s = (trim s ≡ s) × (s ≢ []) × NoBreak s

split_lines_plain : (s : Text) → NoBreak s → split_lines s ≡ s ∷ []
unfolding split_lines
split_lines_plain [] h = refl
split_lines_plain (c ∷ s) (p, h) = rw p (ap (add_first c) (split_lines_plain s h))

split_lines-append :
    (s rest : Text) → NoBreak s → split_lines (s ++ (10 ∷ rest)) ≡ s ∷ split_lines rest
unfolding split_lines
split_lines-append [] rest h = refl
split_lines-append (c ∷ s) rest (p, h) = rw p (ap (add_first c) (split_lines-append s rest h))

keep :
    (s : Text) (rest : List Text)
    → IsLine s
    → filter (λ x. not (is_empty x)) (map trim (s ∷ rest))
      ≡ s ∷ filter (λ x. not (is_empty x)) (map trim rest)
keep [] rest (t, n, b) = absurd (n refl)
keep (c ∷ s) rest (t, n, b) = rw t refl

-- Lines that are trimmed, not empty and without a break are read back from the text they are joined to.
pub lines_to_list-join :
    (lines : List Text) → All IsLine lines → lines_to_list (join (10 ∷ []) lines) ≡ lines
unfolding lines_to_list split_lines trim
lines_to_list-join [] h = refl
lines_to_list-join (x ∷ []) (p, h) =
    ap (λ ls. filter (λ s. not (is_empty s)) (map trim ls)) (split_lines_plain x p.2) ∙ keep x [] p
lines_to_list-join (x ∷ y ∷ rest) (p, h) =
    ap (λ ls. filter (λ s. not (is_empty s)) (map trim ls))
      (split_lines-append x (join (10 ∷ []) (y ∷ rest)) p.2)
    ∙ keep x (split_lines (join (10 ∷ []) (y ∷ rest))) p
    ∙ ap (λ r. x ∷ r) (lines_to_list-join (y ∷ rest) h)
