-- ===== src/Paths/Owner.antt =====
-- app.js, shareForPath: the share whose path is the longest prefix.
use moment_ferry.Common.{
  ◌≤◌, List, [], ◌∷◌, Option, none, some, Bool, true, false, if◌then◌else◌, leb, Text, starts_with,
  filter, head?, sort_falling, insert_falling, length, All, In, arith, ◌≡◌, ◌≢◌, inl, inr, refl,
  subst, Bool-cases,
}
use moment_ferry.Model.{Share}
use moment_ferry.Paths.{slashes, sort_longest, share_for_path}

-- The longer path of two shares, the first where both are as long.
abbrev longer : Share → Option Share → Option Share
longer x none = some x
longer x (some y) = if leb (length y.path) (length x.path) then some x else some y

head?-insert_falling :
    (x : Share) (ys : List Share)
    → head? (insert_falling (λ s. length s.path) x ys) ≡ longer x (head? ys)
head?-insert_falling x [] = refl
head?-insert_falling x (y ∷ ys) = ground arith

module _ (p : Share → Bool) where
  -- A share in the list passes the test, and none that passes has a longer path.
  abbrev IsLongest : List Share → Share → Type 0
  IsLongest xs s = In s xs × (p s ≡ true) × All (λ x. p x ≡ true → length x.path ≤ length s.path) xs

  All-mono :
      (s u : Share) (xs : List Share)
      → length s.path ≤ length u.path
      → All (λ x. p x ≡ true → length x.path ≤ length s.path) xs
      → All (λ x. p x ≡ true → length x.path ≤ length u.path) xs
  All-mono s u [] h a = tt
  All-mono s u (x ∷ xs) h (q, a) = ((λ e. omega (arith, q e)), All-mono s u xs h a)

  All-none :
      (u : Share) (xs : List Share)
      → All (λ x. p x ≡ false) xs
      → All (λ x. p x ≡ true → length x.path ≤ length u.path) xs
  All-none u [] a = tt
  All-none u (x ∷ xs) (q, a) = ((λ e. ground arith), All-none u xs a)

  abbrev pub Found : List Share → Option Share → Type 0
  Found xs none = All (λ x. p x ≡ false) xs
  Found xs (some s) = IsLongest xs s

  Found-cons :
      (x : Share) (xs : List Share) (r : Option Share)
      → Found xs r
      → Found (x ∷ xs) (if p x then longer x r else r)
  Found-cons x xs none f = ground (arith, All-none x xs f)
  Found-cons x xs (some s) (i, q, a) = ground (arith, All-mono s x xs)

  head?-sort_longest-Found : (xs : List Share) → Found xs (head? (sort_longest (filter p xs)))
  unfolding sort_longest sort_falling
  head?-sort_longest-Found [] = tt
  head?-sort_longest-Found (x ∷ xs) =
      let r : Option Share = head? (sort_longest (filter p xs)) in
      let more = Found-cons x xs r (head?-sort_longest-Found xs) in
      elim (Bool-cases (p x)) [
        | inl e ↦
            rw (e, head?-insert_falling x (sort_longest (filter p xs)))
              (subst (λ b. Found (x ∷ xs) (if b then longer x r else r)) e more)
        | inr e ↦ rw e (subst (λ b. Found (x ∷ xs) (if b then longer x r else r)) e more)
      ]

-- For a path that is not empty, shareForPath returns a share of the list whose path, read with
-- slashes, the given path begins with, and no other such share has a longer path; it returns null
-- just when the path begins with the path of no share.
pub share_for_path-Found :
    (shares : List Share) (path : Text)
    → path ≢ []
    → Found
        (λ s. starts_with (slashes path) (slashes s.path))
        shares
        (share_for_path shares (some path))
unfolding share_for_path
share_for_path-Found shares [] h = absurd (h refl)
share_for_path-Found shares (c ∷ path) h =
    head?-sort_longest-Found (λ s. starts_with (slashes (c ∷ path)) (slashes s.path)) shares
