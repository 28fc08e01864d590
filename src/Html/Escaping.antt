-- ===== src/Html/Escaping.antt =====
-- app.js, escapeHtml: what a browser reads back, and what can never appear in the output.
use moment_ferry.Common.{
  ℕ, zero, suc, ◌++◌, List, [], ◌∷◌, Option, none, some, ◌==◌, if◌then◌else◌, Text, codes,
  starts_with, length, All, All-append, arith, ◌≡◌, ◌≢◌, refl, ap, ◌∙◌,
}
use moment_ferry.Html.{escape_char, escape_html}

-- The character references that a browser decodes, of those that can occur here.
abbrev references : List (Text × ℕ)
references =
    (codes "amp;", b'&')
    ∷ (codes "lt;", b'<')
    ∷ (codes "gt;", b'>')
    ∷ (codes "#39;", 39)
    ∷ (codes "quot;", 34)
    ∷ []

-- The reference whose name follows an ampersand: its length and its character.
abbrev reference_at : Text → List (Text × ℕ) → Option (ℕ × ℕ)
reference_at s [] = none
reference_at s ((name, c) ∷ rest) =
    if starts_with s name then some (length name, c) else reference_at s rest

-- A browser's reading of text: `skip` characters belong to a reference already read.
decode_from : ℕ → Text → Text
decode_from skip [] = []
decode_from (suc skip) (c ∷ s) = decode_from skip s
decode_from zero (c ∷ s) = elim (if c == b'&' then reference_at s references else none) [
  | none ↦ c ∷ decode_from zero s
  | some (n, d) ↦ d ∷ decode_from n s
]

pub decode : Text → Text
unfolding decode_from
decode = decode_from zero

decode_from-escape_char :
    (c : ℕ) (s : Text) → decode_from zero (escape_char c ++ s) ≡ c ∷ decode_from zero s
unfolding decode_from escape_char
decode_from-escape_char c s = ground arith

-- A browser that decodes the output of `escapeHtml` reads exactly the text that went in, whatever
-- the text.
pub decode-escape_html : (s : Text) → decode (escape_html s) ≡ s
unfolding decode escape_html decode_from
decode-escape_html [] = refl
decode-escape_html (c ∷ s) =
    decode_from-escape_char c (escape_html s) ∙ ap (λ r. c ∷ r) (decode-escape_html s)

-- A character that can neither open nor close a tag, nor end a quoted attribute.
abbrev pub IsInert : ℕ → Type 0
IsInert c = (c ≢ b'<') × (c ≢ b'>') × (c ≢ 34) × (c ≢ 39)

escape_char-IsInert : (c : ℕ) → All IsInert (escape_char c)
unfolding escape_char
escape_char-IsInert c = ground arith

-- No character of the output of `escapeHtml` can open or close a tag or end an attribute, in single
-- or double quotes, whatever the text.
pub escape_html-IsInert : (s : Text) → All IsInert (escape_html s)
unfolding escape_html
escape_html-IsInert [] = tt
escape_html-IsInert (c ∷ s) =
    All-append IsInert (escape_char c) (escape_html s) (escape_char-IsInert c)
      (escape_html-IsInert s)
