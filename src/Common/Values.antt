-- ===== src/Common/Values.antt =====
-- The operator `||` of the language on texts, where null and the empty text count as nothing.
use mathlib.Core.Bool.{Bool, not}
use mathlib.Core.Option.{Option, none, some}
use mathlib.Core.List.{[], ◌∷◌}
use moment_ferry.Common.Lists.{is_empty}
use moment_ferry.Common.Texts.{Text}

-- `value || ''`, and `value || other`
abbrev pub or_blank : Option Text → Text
or_blank none = []
or_blank (some s) = s

abbrev pub or_else_text : Text → Text → Text
or_else_text [] b = b
or_else_text (c ∷ s) b = c ∷ s

abbrev pub or_text : Option Text → Text → Text
or_text o other = or_else_text (or_blank o) other

-- `Boolean(value)`
abbrev pub is_set : Option Text → Bool
is_set o = not (is_empty (or_blank o))
