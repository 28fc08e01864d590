-- ===== src/I18n/Calm.antt =====
-- i18n.js, t: which texts neither open nor close a tag, nor end a quoted value, and what the
-- translations of a dictionary of such texts are.
use moment_ferry.Common.{
  ℕ, zero, suc, ◌+◌, [], ◌∷◌, ◌++◌, Option, none, some, Bool, true, false, ◌&&◌, not, ◌==◌,
  if◌then◌else◌, Text, codes, text_eq, every, drop, length, All, arith, ◌≡◌, refl,
}
use moment_ferry.I18n.{
  Messages, lookup, object_members, message_for, word_prefix, closed, placeholder, member, filled,
  substitute_from, t,
}
use moment_ferry.Html.Escaping.{IsInert}

-- None of the angle brackets and the quotation mark.
abbrev pub is_calm : ℕ → Bool
is_calm c = not (c == b'<') && (not (c == b'>') && not (c == 34))

abbrev pub IsCalm : Text → Type 0
IsCalm s = every is_calm s ≡ true

pub IsCalm-append : (a b : Text) → IsCalm a → IsCalm b → IsCalm (a ++ b)
IsCalm-append [] b h k = k
IsCalm-append (c ∷ a) b h k = ground (arith, IsCalm-append a b)

pub IsCalm-inert : (s : Text) → All IsInert s → IsCalm s
IsCalm-inert [] h = refl
IsCalm-inert (c ∷ s) (i, h) = ground (arith, IsCalm-inert s h)

IsCalm-drop : (n : ℕ) (s : Text) → IsCalm s → IsCalm (drop n s)
IsCalm-drop zero s h = h
IsCalm-drop (suc n) [] h = h
IsCalm-drop (suc n) (c ∷ s) h = IsCalm-drop n s (ground arith)

IsCalm-word_prefix : (s : Text) → IsCalm s → IsCalm (word_prefix s)
IsCalm-word_prefix [] h = refl
IsCalm-word_prefix (c ∷ s) h = ground (arith, IsCalm-word_prefix s)

-- Every member's value is calm.
abbrev pub AreCalm : Messages → Type 0
AreCalm messages = All (λ m. IsCalm m.1) messages

abbrev CalmOption : Option Text → Type 0
CalmOption none = Unit
CalmOption (some s) = IsCalm s

lookup_step :
    (b : Bool) (v : Text) (o : Option Text)
    → IsCalm v
    → CalmOption o
    → CalmOption (if b then some v else o)
lookup_step true v o h k = h
lookup_step false v o h k = k

lookup-IsCalm :
    (key : Text) (messages : Messages) → AreCalm messages → CalmOption (lookup key messages)
unfolding lookup
lookup-IsCalm key [] h = tt
lookup-IsCalm key ((k, v) ∷ rest) (p, h) =
    lookup_step (text_eq k key) v (lookup key rest) p (lookup-IsCalm key rest h)

message_step :
    (key : Text) (o : Option Text)
    → IsCalm key
    → CalmOption o
    → IsCalm (elim o [ none ↦ key | some [] ↦ key | some (c ∷ s) ↦ c ∷ s ])
message_step key none h k = h
message_step key (some []) h k = h
message_step key (some (c ∷ s)) h k = k

message_for-IsCalm :
    (key : Text) (messages : Messages)
    → AreCalm messages
    → IsCalm key
    → IsCalm (message_for messages key)
unfolding message_for
message_for-IsCalm key messages h k =
    message_step key (lookup key messages) k (lookup-IsCalm key messages h)

object_members-AreCalm : AreCalm object_members
object_members-AreCalm = (
  refl,
  (refl, (refl, (refl, (refl, (refl, (refl, (refl, (refl, (refl, (refl, (refl, tt))))))))))),
)

member_step :
    (own other : Option Text)
    → CalmOption own
    → CalmOption other
    → CalmOption (elim own as (λ o. Option Text) [ none ↦ other | some v ↦ some v ])
member_step none other h k = k
member_step (some v) other h k = h

filled_step :
    (o : Option Text) (rest : Text)
    → CalmOption o
    → IsCalm rest
    → IsCalm (elim o as (λ o. Text) [ none ↦ rest | some v ↦ v ])
filled_step none rest h k = k
filled_step (some v) rest h k = h

filled-IsCalm :
    (params : Messages) (name : Text) → AreCalm params → IsCalm name → IsCalm (filled params name)
unfolding filled
filled-IsCalm params name h k =
    filled_step (member params name) _
      (member_step (lookup name params) (lookup name object_members) (lookup-IsCalm name params h)
        (lookup-IsCalm name object_members object_members-AreCalm))
      (IsCalm-append (codes "{{") (name ++ codes "}}") refl
        (IsCalm-append name (codes "}}") k refl))

closed_step : (b : Bool) (name : Text) → IsCalm name → CalmOption (if b then some name else none)
closed_step true name h = h
closed_step false name h = tt

closed-IsCalm : (name s : Text) → IsCalm name → CalmOption (closed name s)
closed-IsCalm [] s h = tt
closed-IsCalm (c ∷ name) s h = closed_step _ (c ∷ name) h

placeholder_step : (b : Bool) (o : Option Text) → CalmOption o → CalmOption (if b then o else none)
placeholder_step true o h = h
placeholder_step false o h = tt

placeholder-IsCalm : (s : Text) → IsCalm s → CalmOption (placeholder s)
unfolding placeholder
placeholder-IsCalm s h = placeholder_step _ _ (
    closed-IsCalm (word_prefix (drop 2 s)) (drop 2 s)
      (IsCalm-word_prefix (drop 2 s) (IsCalm-drop 2 s h)))

substitute_step :
    (params : Messages) (o : Option Text) (plain : Text) (after : ℕ → Text)
    → AreCalm params
    → CalmOption o
    → IsCalm plain
    → ((n : ℕ) → IsCalm (after n))
    → IsCalm (elim o [ none ↦ plain | some name ↦ filled params name ++ after (length name + 3) ])
substitute_step params none plain after h k p a = p
substitute_step params (some name) plain after h k p a =
    IsCalm-append (filled params name) (after (length name + 3)) (filled-IsCalm params name h k)
      (a _)

IsCalm-tail : (c : ℕ) (s : Text) → IsCalm (c ∷ s) → IsCalm s
IsCalm-tail c s h = ground arith

IsCalm-cons : (c : ℕ) (s rest : Text) → IsCalm (c ∷ s) → IsCalm rest → IsCalm (c ∷ rest)
IsCalm-cons c s rest h k = ground arith

substitute_from-IsCalm :
    (params : Messages) (skip : ℕ) (s : Text)
    → AreCalm params
    → IsCalm s
    → IsCalm (substitute_from params skip s)
unfolding substitute_from
substitute_from-IsCalm params skip [] h k = refl
substitute_from-IsCalm params (suc skip) (c ∷ s) h k =
    substitute_from-IsCalm params skip s h (IsCalm-tail c s k)
substitute_from-IsCalm params zero (c ∷ s) h k =
    let rest : (n : ℕ) → IsCalm (substitute_from params n s) =
      λ n. substitute_from-IsCalm params n s h (IsCalm-tail c s k) in
    substitute_step params (placeholder (c ∷ s)) (c ∷ substitute_from params zero s)
      (λ n. substitute_from params n s) h (placeholder-IsCalm (c ∷ s) k)
      (IsCalm-cons c s (substitute_from params zero s) k (rest zero)) rest

-- A translation is calm where the dictionary, the key and the parameters are.
pub t-IsCalm :
    (messages : Messages) (key : Text)
    → AreCalm messages
    → IsCalm key
    → IsCalm (t messages key none)
unfolding t
t-IsCalm messages key h k = message_for-IsCalm key messages h k

pub t_with-IsCalm :
    (messages params : Messages) (key : Text)
    → AreCalm messages
    → IsCalm key
    → AreCalm params
    → IsCalm (t messages key (some params))
unfolding t
t_with-IsCalm messages params key h k p =
    substitute_from-IsCalm params zero (message_for messages key) p
      (message_for-IsCalm key messages h k)
