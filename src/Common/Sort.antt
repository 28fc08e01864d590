-- ===== src/Common/Sort.antt =====
-- The stable sort of the language by a falling key, as insertion.
use Prim.Native.Nat.{ℕ}
use mathlib.Core.List.{List, [], ◌∷◌}
use moment_ferry.Common.Tests.{if◌then◌else◌, leb}

module _ {ℓ} {A : Type ℓ} (key : A → ℕ) where
  abbrev pub insert_falling : A → List A → List A
  insert_falling x [] = x ∷ []
  insert_falling x (y ∷ ys) = if leb (key y) (key x) then x ∷ y ∷ ys else y ∷ insert_falling x ys

  unfoldable pub sort_falling : List A → List A
  sort_falling [] = []
  sort_falling (x ∷ xs) = insert_falling x (sort_falling xs)
