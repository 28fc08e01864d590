-- ===== src/Browser/Rules.antt =====
-- app.js, the folder browser: what its tree is to be like, and how the browser runs.
use moment_ferry.Common.{
  take_out, ℕ, suc, List, none, some, Bool, true, false, ◌&&◌, ◌||◌, not, ◌==◌, Text, some_of,
  every, ◌≡◌,
}
use moment_ferry.Browser.{
  Row, Forest, leaf, branch, Tree, listed, Asked, for_roots, for_folders, Browser, is_element,
}
use moment_ferry.Browser.Handlers.{Click, click, Reply, roots, folders, error, answer, new_browser}

-- A request is under way for the row.
abbrev pub waits_for : Row → Asked → Bool
waits_for r (for_roots role) = false
waits_for r (for_folders role e) = is_element e r

abbrev pub is_leaf : Forest → Bool
is_leaf leaf = true
is_leaf (branch r inner rest) = false

-- `under parent path`: a folder with the path may be told of as one of the folders in the parent.
module _ (under : Text → Text → Bool) where
  -- The row stands under its parent at its depth, and its button is disabled only for good, where the
  -- folder has no folders in it, or while a request is under way.
  abbrev pub row_shown : List Asked → Text → ℕ → Row → Bool
  row_shown asked parent depth r =
      under parent r.folder.path
      && (r.depth == depth)
      && (not r.busy || not r.folder.has_children || some_of (waits_for r) asked)

  unfoldable pub shown : List Asked → Text → ℕ → Forest → Bool
  shown asked parent depth leaf = true
  shown asked parent depth (branch r inner rest) =
      row_shown asked parent depth r
      && (r.expanded || is_leaf inner)
      && shown asked r.folder.path (suc depth) inner
      && shown asked parent depth rest

  abbrev pub tree_shown : List Asked → Tree → Bool
  tree_shown asked (listed ps) = every (λ p. shown asked p.path 0 p.folders) ps
  tree_shown asked t = true

  -- A reply is of the kind that was asked for, and tells folders of the parent that was asked for.
  abbrev pub fits : Asked → Reply → Bool
  fits (for_roots role) (roots rs) = every (λ r. every (λ f. under r.path f.path) r.folders) rs
  fits (for_folders role e) (folders fs) = every (λ f. under e.path f.path) fs
  fits a (error m) = true
  fits a reply = false

  abbrev pub fits_at : ℕ → List Asked → Reply → Bool
  fits_at k asked reply = elim (take_out k asked) [ none ↦ true | some (a, rest) ↦ fits a reply ]

  pub data Reach : Browser → Type 0 where
    begun : (role : Text) → Reach (new_browser role)
    clicked : {b : Browser} (c : Click) → Reach b → Reach (click c b)
    answered :
        {b : Browser} (k : ℕ) (reply : Reply)
        → fits_at k b.asked reply ≡ true
        → Reach b
        → Reach (answer k reply b)
