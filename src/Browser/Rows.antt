-- ===== src/Browser/Rows.antt =====
-- app.js, the folder browser: what each way to change the tree keeps of its rows.
use moment_ferry.Common.{
  ℕ, suc, ◌+◌, List, [], ◌∷◌, Bool, true, false, Text, some_of, every, length, arith, ◌≡◌, refl,
  inl, inr, Bool-cases,
}
use moment_ferry.Markup.Folders.{Folder, Root}
use moment_ferry.Browser.{
  Row, Forest, leaf, branch, Tree, blank, loading, listed, failed, Element, Asked, is_element, grow,
  grow_roots, change_at, change_tree,
}
use moment_ferry.Browser.Handlers.{mark_forest, mark_tree}
use moment_ferry.Browser.Rules.{waits_for, shown, tree_shown}

module _ (under : Text → Text → Bool) where
  pub shown-grow :
      (asked : List Asked) (parent : Text) (depth n : ℕ) (path : Text) (fs : List Folder)
      → every (λ f. under parent f.path) fs ≡ true
      → shown under asked parent depth (grow n path depth fs) ≡ true
  unfolding grow shown
  shown-grow asked parent depth n path [] h = refl
  shown-grow asked parent depth n path (f ∷ fs) h =
      ground (arith, shown-grow asked parent depth (suc n) path fs)

  pub shown-grow_roots :
      (asked : List Asked) (n : ℕ) (path : Text) (rs : List Root)
      → every (λ r. every (λ f. under r.path f.path) r.folders) rs ≡ true
      → tree_shown under asked (listed (grow_roots n path rs)) ≡ true
  unfolding grow_roots
  shown-grow_roots asked n path [] h = refl
  shown-grow_roots asked n path (r ∷ rs) h = ground (
    arith,
    shown-grow asked r.path 0 n path r.folders,
    shown-grow_roots asked (n + length r.folders) path rs,
  )

  -- A change of an element keeps the rest, if the rows that are left wait for a request as before.
  module _ (f : Row → Row) (g : Row → Forest → Forest) (e : Element) (asked asked' : List Asked)
      (others : (r : Row)
        → is_element e r ≡ false
        → some_of (waits_for r) asked ≡ true
        → some_of (waits_for r) asked' ≡ true)
      (changed : (parent : Text) (depth : ℕ) (r : Row) (inner : Forest)
        → is_element e r ≡ true
        → shown under asked parent depth (branch r inner leaf) ≡ true
        → shown under asked' parent depth (branch (f r) (g r inner) leaf) ≡ true) where
    shown-change :
        (parent : Text) (depth : ℕ) (t : Forest)
        → shown under asked parent depth t ≡ true
        → shown under asked' parent depth (change_at f g e t) ≡ true
    unfolding shown change_at
    shown-change parent depth leaf h = refl
    shown-change parent depth (branch r inner rest) h = elim (Bool-cases (is_element e r)) [
      | inl same ↦
          let k : (shown under asked parent depth (branch r inner leaf) ≡ true)
              × (shown under asked parent depth rest ≡ true) =
            (ground arith, ground arith) in
          let l = shown-change parent depth rest k.1 in
          let m = changed parent depth r inner same k.0 in rw same (ground arith)
      | inr other ↦
          let l = shown-change parent depth rest (ground arith) in
          let m = shown-change r.folder.path (suc depth) inner (ground arith) in
          let w = others r other in rw other (ground arith)
    ]

    pub shown-change_tree :
        (t : Tree)
        → tree_shown under asked t ≡ true
        → tree_shown under asked' (change_tree f g e t) ≡ true
    shown-change_tree blank h = refl
    shown-change_tree loading h = refl
    shown-change_tree (failed m) h = refl
    shown-change_tree (listed []) h = refl
    shown-change_tree (listed (p ∷ ps)) h =
        let k = shown-change p.path 0 p.folders (ground arith) in
        let l = shown-change_tree (listed ps) (ground arith) in ground (arith, k, l)

  -- Rows stay shown when more requests are under way.
  module _ (asked asked' : List Asked)
      (more : (r : Row)
        → some_of (waits_for r) asked ≡ true
        → some_of (waits_for r) asked' ≡ true) where
    pub shown-more :
        (parent : Text) (depth : ℕ) (t : Forest)
        → shown under asked parent depth t ≡ true
        → shown under asked' parent depth t ≡ true
    unfolding shown
    shown-more parent depth leaf h = refl
    shown-more parent depth (branch r inner rest) h =
        let k = shown-more r.folder.path (suc depth) inner (ground arith) in
        let l = shown-more parent depth rest (ground arith) in
        let w = more r in ground (arith, k, l, w)

    pub tree_shown-more :
        (t : Tree) → tree_shown under asked t ≡ true → tree_shown under asked' t ≡ true
    tree_shown-more blank h = refl
    tree_shown-more loading h = refl
    tree_shown-more (failed m) h = refl
    tree_shown-more (listed []) h = refl
    tree_shown-more (listed (p ∷ ps)) h =
        let k = shown-more p.path 0 p.folders (ground arith) in
        let l = tree_shown-more (listed ps) (ground arith) in ground (arith, k, l)

  shown-mark :
      (asked : List Asked) (e : Element) (parent : Text) (depth : ℕ) (t : Forest)
      → shown under asked parent depth t ≡ true
      → shown under asked parent depth (mark_forest e t) ≡ true
  unfolding shown mark_forest
  shown-mark asked e parent depth leaf h = refl
  shown-mark asked e parent depth (branch r leaf rest) h =
      let l = shown-mark asked e parent depth rest (ground arith) in ground (arith, l)
  shown-mark asked e parent depth (branch r (branch x i j) rest) h =
      let k = shown-mark asked e r.folder.path (suc depth) (branch x i j) (ground arith) in
      let l = shown-mark asked e parent depth rest (ground arith) in ground (arith, k, l)

  pub shown-mark_tree :
      (asked : List Asked) (e : Element) (t : Tree)
      → tree_shown under asked t ≡ true
      → tree_shown under asked (mark_tree e t) ≡ true
  shown-mark_tree asked e blank h = refl
  shown-mark_tree asked e loading h = refl
  shown-mark_tree asked e (failed m) h = refl
  shown-mark_tree asked e (listed []) h = refl
  shown-mark_tree asked e (listed (p ∷ ps)) h =
      let k = shown-mark asked e p.path 0 p.folders (ground arith) in
      let l = shown-mark_tree asked e (listed ps) (ground arith) in ground (arith, k, l)
