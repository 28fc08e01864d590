-- ===== src/I18n/Placeholders.antt =====
-- i18n.js, t: what the replacement of placeholders does, against a description of a message as a
-- sequence of plain texts and placeholders.
use moment_ferry.Common.{
  Option, zero, ◌+◌, ◌++◌, List, [], ◌∷◌, none, some, true, Text, codes, is_word, length,
  length-append, drop, All, arith, ◌≡◌, ◌≢◌, refl, ap, ◌∙◌, sym, flat_map, append_assoc,
}
use moment_ferry.I18n.{
  Messages, lookup, object_members, message_for, word_prefix, closed, placeholder, filled,
  substitute_from, t,
}

pub data Segment : Type 0 where
  plain hole : Text → Segment

-- How a message is written.
abbrev pub print_segment : Segment → Text
print_segment (plain s) = s
print_segment (hole name) = codes "{{" ++ (name ++ codes "}}")

-- What it stands for.
abbrev pub value_segment : Messages → Segment → Text
value_segment params (plain s) = s
value_segment params (hole name) = elim (lookup name params) [
  | none ↦ codes "{{" ++ (name ++ codes "}}")
  | some value ↦ value
]

-- Plain text holds no opening brace, and a name is a word.
abbrev pub IsSegment : Segment → Type 0
IsSegment (plain s) = All (λ c. c ≢ b'{') s
IsSegment (hole name) = (name ≢ []) × All (λ c. is_word c ≡ true) name

-- The name is none that every object has: constructor, toString and so on.
abbrev pub IsOwn : Segment → Type 0
IsOwn (plain s) = Unit
IsOwn (hole name) = lookup name object_members ≡ none

substitute_from-plain :
    (params : Messages) (s rest : Text)
    → All (λ c. c ≢ b'{') s
    → substitute_from params zero (s ++ rest) ≡ s ++ substitute_from params zero rest
unfolding substitute_from placeholder
substitute_from-plain params [] rest h = refl
substitute_from-plain params (c ∷ s) rest (p, h) =
    ground (arith, substitute_from-plain params s rest h)

substitute_from-skip :
    (params : Messages) (s rest : Text)
    → substitute_from params (length s) (s ++ rest) ≡ substitute_from params zero rest
unfolding substitute_from
substitute_from-skip params [] rest = refl
substitute_from-skip params (c ∷ s) rest = substitute_from-skip params s rest

word_prefix-append :
    (name rest : Text)
    → All (λ c. is_word c ≡ true) name
    → word_prefix (name ++ (codes "}}" ++ rest)) ≡ name
word_prefix-append [] rest h = refl
word_prefix-append (c ∷ name) rest (p, h) = rw p (ap (λ s. c ∷ s) (word_prefix-append name rest h))

drop-name : (name rest : Text) → drop (length name) (name ++ rest) ≡ rest
drop-name [] rest = refl
drop-name (c ∷ name) rest = drop-name name rest

closed-name :
    (name rest : Text) → name ≢ [] → closed name (name ++ (codes "}}" ++ rest)) ≡ some name
closed-name [] rest h = absurd (h refl)
closed-name (c ∷ name) rest h = rw (drop-name name (codes "}}" ++ rest)) refl

placeholder-name :
    (name rest : Text)
    → IsSegment (hole name)
    → placeholder (codes "{{" ++ (name ++ (codes "}}" ++ rest))) ≡ some name
unfolding placeholder
placeholder-name name rest (h, w) = rw (word_prefix-append name rest w) (closed-name name rest h)

substitute_from-tail :
    (params : Messages) (name rest : Text)
    → substitute_from params (length name + 3) (b'{' ∷ (name ++ (codes "}}" ++ rest)))
      ≡ substitute_from params zero rest
substitute_from-tail params name rest =
    ap (λ n. substitute_from params n (b'{' ∷ (name ++ (codes "}}" ++ rest))))
      (omega (arith, length-append name (codes "}}")))
    ∙ ap (substitute_from params (length (b'{' ∷ (name ++ codes "}}"))))
        (ap (λ r. b'{' ∷ r) (sym (append_assoc name (codes "}}") rest)))
    ∙ substitute_from-skip params (b'{' ∷ (name ++ codes "}}")) rest

own-first :
    (own other : Option Text) (rest : Text)
    → other ≡ none
    → elim (elim own as (λ x. Option Text) [ none ↦ other | some v ↦ some v ]) as (λ x. Text) [
      | none ↦ rest
      | some v ↦ v
    ]
      ≡ elim own as (λ x. Text) [ none ↦ rest | some v ↦ v ]
own-first none other rest h = ap (λ o. elim o as (λ x. Text) [ none ↦ rest | some v ↦ v ]) h
own-first (some v) other rest h = refl

filled-own :
    (params : Messages) (name : Text)
    → IsOwn (hole name)
    → filled params name ≡ value_segment params (hole name)
unfolding filled
filled-own params name own =
    own-first (lookup name params) (lookup name object_members) (codes "{{" ++ (name ++ codes "}}"))
      own

substitute_from-hole :
    (params : Messages) (name rest : Text)
    → IsSegment (hole name)
    → IsOwn (hole name)
    → substitute_from params zero (codes "{{" ++ (name ++ (codes "}}" ++ rest)))
      ≡ value_segment params (hole name) ++ substitute_from params zero rest
unfolding substitute_from filled
substitute_from-hole params name rest h own =
    rw (placeholder-name name rest h, substitute_from)
      (ap (λ r. filled params name ++ r) (substitute_from-tail params name rest)
        ∙ ap (λ r. r ++ substitute_from params zero rest) (filled-own params name own))

substitute_from-segments :
    (params : Messages) (segments : List Segment)
    → All IsSegment segments
    → All IsOwn segments
    → substitute_from params zero (flat_map print_segment segments)
      ≡ flat_map (value_segment params) segments
unfolding substitute_from
substitute_from-segments params [] h o = refl
substitute_from-segments params (plain s ∷ rest) (p, h) (q, o) =
    substitute_from-plain params s (flat_map print_segment rest) p
    ∙ ap (λ r. s ++ r) (substitute_from-segments params rest h o)
substitute_from-segments params (hole name ∷ rest) (p, h) (q, o) =
    ap (λ r. substitute_from params zero (codes "{{" ++ r))
      (append_assoc name (codes "}}") (flat_map print_segment rest))
    ∙ substitute_from-hole params name (flat_map print_segment rest) p q
    ∙ ap (λ r. value_segment params (hole name) ++ r) (substitute_from-segments params rest h o)

-- A message written as segments, whose placeholders have no name that every object inherits, is
-- translated segment by segment: each placeholder becomes its parameter, or stays as it is where no
-- parameter has its name, and all else is kept.
pub t-segments :
    (messages params : Messages) (key : Text) (segments : List Segment)
    → All IsSegment segments
    → All IsOwn segments
    → message_for messages key ≡ flat_map print_segment segments
    → t messages key (some params) ≡ flat_map (value_segment params) segments
unfolding t
t-segments messages params key segments h o e = rw e (substitute_from-segments params segments h o)
