-- ===== src/Tasks/Invariant/Lists.antt =====
-- The list of tasks as a map: its keys, its serial numbers, and those of the running tasks.
use moment_ferry.Common.{
  ℕ, ◌+◌, ◌≤◌, ◌<◌, List, [], ◌∷◌, Option, none, some, Bool, true, false, if◌then◌else◌, ◌==◌, Text,
  text_eq_iff, text_eq_refl, filter, some_of, All, map, arith, ◌≡◌, ◌≢◌, refl, ◌&&◌, Bool-cases,
  inl, inr,
}
use moment_ferry.Tasks.{Task, is_running, get, set, change, remove, count}

abbrev pub IsUnique : List Text → Type 0
IsUnique [] = Unit
IsUnique (k ∷ ks) = All (λ j. j ≢ k) ks × IsUnique ks

abbrev pub keys : List Task → List Text
keys = map λ x. x.key

abbrev pub serials : List Task → List ℕ
serials = map λ x. x.serial

abbrev pub running_serials : List Task → List ℕ
running_serials es = serials (filter is_running es)

-- Whether the task that a key has, if any, is running.
abbrev pub runs : Option Task → Bool
runs none = false
runs (some x) = is_running x

pub count-above : (n : ℕ) (es : List Task) → All (λ x. x.serial < n) es → count n (serials es) ≡ 0
count-above n [] h = refl
count-above n (x ∷ es) (p, h) = ground (arith, count-above n es h)

pub count-running_serials-le :
    (n : ℕ) (es : List Task) → count n (running_serials es) ≤ count n (serials es)
count-running_serials-le n [] = omega arith
count-running_serials-le n (x ∷ es) = ground (arith, count-running_serials-le n es)

pub remove-count :
    (n k : ℕ) (xs : List ℕ)
    → 0 < count k xs
    → count n (remove k xs) + (if k == n then 1 else 0) ≡ count n xs
unfolding remove
remove-count n k [] h = absurd (omega arith)
remove-count n k (x ∷ xs) h = ground (arith, remove-count n k xs)

-- Setting a task.
module _ (t : Task) where
  set-keys-ne :
      (k : Text) (es : List Task)
      → t.key ≢ k
      → All (λ j. j ≢ k) (keys es)
      → All (λ j. j ≢ k) (keys (set t es))
  unfolding set
  set-keys-ne k [] n h = (n, tt)
  set-keys-ne k (x ∷ es) n (p, h) = ground (arith, set-keys-ne k es n h)

  replaced-ne :
      (k : Text) (ks : List Text) → k ≡ t.key → All (λ j. j ≢ k) ks → All (λ j. j ≢ t.key) ks
  replaced-ne k [] e h = tt
  replaced-ne k (j ∷ ks) e (p, h) = (ground arith, replaced-ne k ks e h)

  pub set-IsUnique : (es : List Task) → IsUnique (keys es) → IsUnique (keys (set t es))
  unfolding set
  set-IsUnique [] h = (tt, tt)
  set-IsUnique (x ∷ es) (p, h) = ground (
    arith,
    text_eq_iff x.key t.key,
    replaced-ne x.key (keys es),
    set-keys-ne x.key es,
    set-IsUnique es h,
  )

  pub set-All : (P : Task → Type 0) (es : List Task) → P t → All P es → All P (set t es)
  unfolding set
  set-All P [] p h = (p, tt)
  set-All P (x ∷ es) p (q, h) = ground (arith, set-All P es p h)

  pub set-some_of : (es : List Task) → is_running t ≡ true → some_of is_running (set t es) ≡ true
  unfolding set
  set-some_of [] h = ground arith
  set-some_of (x ∷ es) h = ground (arith, set-some_of es h)

  pub set-serials :
      (n : ℕ) (es : List Task)
      → count n (serials (set t es)) ≤ count n (serials es) + (if t.serial == n then 1 else 0)
  unfolding set
  set-serials n [] = omega arith
  set-serials n (x ∷ es) = ground (arith, set-serials n es)

  pub set-running_serials :
      (n : ℕ) (es : List Task)
      → is_running t ≡ true
      → runs (get t.key es) ≡ false
      → count n (running_serials (set t es))
        ≡ count n (running_serials es) + (if t.serial == n then 1 else 0)
  unfolding set
  set-running_serials n [] r h = ground arith
  set-running_serials n (x ∷ es) r h = ground (arith, set-running_serials n es r)

-- Changing a task in place, with a function that keeps its key and its serial number and ends it.
module _ (k : ℕ) (f : Task → Task) where
  pub change-keys :
      (es : List Task) → ((x : Task) → (f x).key ≡ x.key) → keys (change k f es) ≡ keys es
  unfolding change
  change-keys [] h = refl
  change-keys (x ∷ es) h = ground (arith, h x, change-keys es h)

  pub change-serials :
      (es : List Task)
      → ((x : Task) → (f x).serial ≡ x.serial)
      → serials (change k f es) ≡ serials es
  unfolding change
  change-serials [] h = refl
  change-serials (x ∷ es) h = ground (arith, h x, change-serials es h)

  pub change-All :
      (n : ℕ) (es : List Task)
      → ((x : Task) → (f x).serial ≡ x.serial)
      → All (λ x. x.serial < n) es
      → All (λ x. x.serial < n) (change k f es)
  unfolding change
  change-All n [] h a = tt
  change-All n (x ∷ es) h (p, a) = ground (arith, h x, change-All n es h a)

  pub change-running_serials :
      (n : ℕ) (es : List Task)
      → ((x : Task) → is_running (f x) ≡ false)
      → count k (serials es) ≤ 1
      → 0 < count k (running_serials es)
      → count n (running_serials (change k f es)) + (if k == n then 1 else 0)
        ≡ count n (running_serials es)
  unfolding change
  change-running_serials n [] h u r = absurd (omega arith)
  change-running_serials n (x ∷ es) h u r =
      ground (arith, h x, count-running_serials-le k es, change-running_serials n es h)

  pub change-some_of :
      (es : List Task)
      → ((x : Task) → is_running (f x) ≡ false)
      → some_of is_running (change k f es) ≡ true
      → some_of is_running es ≡ true
  unfolding change
  change-some_of [] h e = e
  change-some_of (x ∷ es) h e = ground (arith, h x, change-some_of es h)

-- Keeping the running tasks only.
filter-keys-ne :
    (k : Text) (es : List Task)
    → All (λ j. j ≢ k) (keys es)
    → All (λ j. j ≢ k) (keys (filter is_running es))
filter-keys-ne k [] h = tt
filter-keys-ne k (x ∷ es) (p, h) = ground (arith, filter-keys-ne k es h)

pub filter-IsUnique : (es : List Task) → IsUnique (keys es) → IsUnique (keys (filter is_running es))
filter-IsUnique [] h = tt
filter-IsUnique (x ∷ es) (p, h) = ground (arith, filter-keys-ne x.key es p, filter-IsUnique es h)

pub filter-All :
    (n : ℕ) (es : List Task)
    → All (λ x. x.serial < n) es
    → All (λ x. x.serial < n) (filter is_running es)
filter-All n [] h = tt
filter-All n (x ∷ es) (p, h) = ground (arith, filter-All n es h)

pub filter-filter :
    (es : List Task) → filter is_running (filter is_running es) ≡ filter is_running es
filter-filter [] = refl
filter-filter (x ∷ es) = ground (arith, filter-filter es)

pub filter-some_of :
    (es : List Task) → some_of is_running (filter is_running es) ≡ some_of is_running es
filter-some_of [] = refl
filter-some_of (x ∷ es) = ground (arith, filter-some_of es)

get-ne :
    (k : Text) (es : List Task) (x : Task)
    → All (λ j. j ≢ k) (keys es)
    → get x.key es ≡ some x
    → x.key ≢ k
get-ne k [] x h e = cc
get-ne k (y ∷ es) x (p, h) e = ground (arith, text_eq_iff y.key x.key, get-ne k es x h)

-- A running serial number belongs to the task that its key has in the map.
pub running-get :
    (n : ℕ) (es : List Task)
    → IsUnique (keys es)
    → 0 < count n (running_serials es)
    → (x : Task) × (get x.key es ≡ some x) × (x.serial ≡ n) × (is_running x ≡ true)
running-get n [] u h = absurd (omega arith)
running-get n (x ∷ es) (p, u) h = elim (Bool-cases (is_running x && x.serial == n)) [
  | inl mine ↦ (x, rw (text_eq_refl x.key) refl, ground arith, ground arith)
  | inr other ↦
      let (y, found, same, busy) = running-get n es u (ground arith) in
      (y, ground (arith, text_eq_iff x.key y.key, get-ne x.key es y p found), same, busy)
]
