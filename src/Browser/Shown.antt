-- ===== src/Browser/Shown.antt =====
-- app.js, the folder browser: what its tree shows, after any clicks and answers.
use moment_ferry.Common.{
  take_out, ℕ, zero, suc, List, [], ◌∷◌, Option, none, some, Bool, true, false, ◌||◌, not, Text,
  text_eq_iff, some_of, every, arith, ◌≡◌, refl, subst, inl, inr, Bool-cases,
}
use moment_ferry.Markup.Folders.{Folder}
use moment_ferry.Browser.{
  Row, leaf, Tree, Element, Asked, for_roots, for_folders, Browser, is_element, grow, change_tree,
  row_at,
}
use moment_ferry.Browser.Handlers.{
  change_role, browse_folders, collapsed, disabled, toggle_row, toggle_folder, select_folder, Click,
  choose_role, browse, toggle, select, click, Reply, roots, folders, error, opened, refused,
  receive, answer,
}
use moment_ferry.Browser.Rules.{
  waits_for, shown, tree_shown, fits, fits_at, Reach, begun, clicked, answered,
}
use moment_ferry.Browser.Rows.{
  shown-grow, shown-grow_roots, shown-change_tree, shown-more, shown-mark_tree,
}

module _ (under : Text → Text → Bool) where
  collapsed-shown :
      (asked : List Asked) (e : Element) (t : Tree)
      → tree_shown under asked t ≡ true
      → tree_shown under asked (change_tree collapsed (λ _ _. leaf) e t) ≡ true
  unfolding shown
  collapsed-shown asked e t h =
      shown-change_tree under collapsed (λ _ _. leaf) e asked asked (λ r o w. w)
        (λ parent depth r inner same k. ground arith) t h

  disabled-shown :
      (asked : List Asked) (role : Text) (e : Element) (t : Tree)
      → tree_shown under asked t ≡ true
      → tree_shown under (for_folders role e ∷ asked) (change_tree disabled (λ _ inner. inner) e t)
        ≡ true
  unfolding shown
  disabled-shown asked role e t h =
      shown-change_tree under disabled (λ _ inner. inner) e asked (for_folders role e ∷ asked)
        (λ r o w. ground arith)
        (λ parent depth r inner same k.
          let m =
            shown-more under asked (for_folders role e ∷ asked) (λ x w. ground arith) r.folder.path
              (suc depth) inner (ground arith) in
          ground arith)
        t h

  opened-shown :
      (asked : List Asked) (e : Element) (n : ℕ) (path : Text) (fs : List Folder) (t : Tree)
      (before : List Asked)
      → ((r : Row)
          → is_element e r ≡ false
          → some_of (waits_for r) before ≡ true
          → some_of (waits_for r) asked ≡ true)
      → every (λ f. under e.path f.path) fs ≡ true
      → tree_shown under before t ≡ true
      → tree_shown under asked (change_tree opened (λ r _. grow n path (suc r.depth) fs) e t) ≡ true
  unfolding shown
  opened-shown asked e n path fs t before others told h =
      shown-change_tree under opened (λ r _. grow n path (suc r.depth) fs) e before asked others
        (λ parent depth r inner same k.
          let paths : e.path ≡ r.folder.path =
            (text_eq_iff e.path r.folder.path).0 (ground arith) in
          let level : r.depth ≡ depth = ground arith in
          let here =
            shown-grow under asked r.folder.path (suc r.depth) n path fs
              (subst (λ x. every (λ f. under x f.path) fs ≡ true) paths told) in
          let there =
            subst
              (λ d. shown under asked r.folder.path (suc d) (grow n path (suc r.depth) fs) ≡ true)
              level here in
          ground (arith, k, there))
        t h

  refused-shown :
      (asked : List Asked) (e : Element) (m : Text) (t : Tree) (before : List Asked)
      → ((r : Row)
          → is_element e r ≡ false
          → some_of (waits_for r) before ≡ true
          → some_of (waits_for r) asked ≡ true)
      → tree_shown under before t ≡ true
      → tree_shown under asked (change_tree (refused m) (λ _ _. leaf) e t) ≡ true
  unfolding shown
  refused-shown asked e m t before others h =
      shown-change_tree under (refused m) (λ _ _. leaf) e before asked others
        (λ parent depth r inner same k. ground (arith, k)) t h

  -- Who waits when a request is taken out waits for it or for one of the others.
  abbrev Splits : Row → List Asked → Option (Asked × List Asked) → Type 0
  Splits r asked none = Unit
  Splits r asked (some (a, rest)) =
      some_of (waits_for r) asked ≡ (waits_for r a || some_of (waits_for r) rest)

  Splits-cons :
      (r : Row) (x : Asked) (xs : List Asked) (found : Option (Asked × List Asked))
      → Splits r xs found
      → Splits r (x ∷ xs) (elim found [ none ↦ none | some (a, rest) ↦ some (a, x ∷ rest) ])
  Splits-cons r x xs none h = tt
  Splits-cons r x xs (some (a, rest)) h = ground arith

  Splits-take_out : (r : Row) (k : ℕ) (asked : List Asked) → Splits r asked (take_out k asked)
  Splits-take_out r k [] = tt
  Splits-take_out r zero (x ∷ xs) = refl
  Splits-take_out r (suc k) (x ∷ xs) = Splits-cons r x xs (take_out k xs) (Splits-take_out r k xs)

  abbrev pub browser_shown : Browser → Bool
  browser_shown b = tree_shown under b.asked b.tree

  -- What comes of the request that is answered, of the tree as it was before.
  receive-shown :
      (b : Browser) (before : List Asked) (a : Asked) (reply : Reply)
      → ((r : Row) → Splits r before (some (a, b.asked)))
      → fits under a reply ≡ true
      → tree_shown under before b.tree ≡ true
      → browser_shown (receive a reply b) ≡ true
  unfolding receive
  receive-shown b before (for_roots role) (roots []) w f h = refl
  receive-shown b before (for_roots role) (roots (r ∷ rs)) w f h =
      shown-grow_roots under b.asked b.next_number b.path (r ∷ rs) f
  receive-shown b before (for_roots role) (error m) w f h = refl
  receive-shown b before (for_roots role) (folders fs) w f h = ground arith
  receive-shown b before (for_folders role e) (roots rs) w f h = ground arith
  receive-shown b before (for_folders role e) (folders fs) w f h =
      opened-shown b.asked e b.next_number b.path fs b.tree before
        (λ r o k. let s = w r in ground (arith, s, o, k)) f h
  receive-shown b before (for_folders role e) (error m) w f h =
      refused-shown b.asked e m b.tree before (λ r o k. let s = w r in ground (arith, s, o, k)) h

  answer-shown :
      (b : Browser) (k : ℕ) (reply : Reply)
      → fits_at under k b.asked reply ≡ true
      → browser_shown b ≡ true
      → browser_shown (answer k reply b) ≡ true
  answer-shown b k reply f h = taken (take_out k b.asked) (λ r. Splits-take_out r k b.asked) f
    where
      taken :
          (found : Option (Asked × List Asked))
          → ((r : Row) → Splits r b.asked found)
          → elim found [ none ↦ true | some (a, rest) ↦ fits under a reply ] ≡ true
          → browser_shown (elim found [
            | none ↦ b
            | some (a, rest) ↦ receive a reply (record b { asked = rest })
          ])
            ≡ true
      taken none w f = h
      taken (some (a, rest)) w f = receive-shown (record b { asked = rest }) b.asked a reply w f h

  toggle_row-shown :
      (e : Element) (r : Row) (b : Browser)
      → browser_shown b ≡ true
      → browser_shown (toggle_row e r b) ≡ true
  toggle_row-shown e r b h = elim (Bool-cases (r.busy || not r.folder.has_children)) [
    | inl off ↦ rw off h
    | inr on ↦ elim (Bool-cases r.expanded) [
      | inl x ↦ rw (on, x) (collapsed-shown b.asked e b.tree h)
      | inr x ↦ rw (on, x) (disabled-shown b.asked b.role e b.tree h)
    ]
  ]

  of_row :
      (found : Option Row) (b : Browser) (f : Row → Browser)
      → browser_shown b ≡ true
      → ((r : Row) → browser_shown (f r) ≡ true)
      → browser_shown (elim found [ none ↦ b | some r ↦ f r ]) ≡ true
  of_row none b f h k = h
  of_row (some r) b f h k = k r

  click-shown :
      (c : Click) (b : Browser) → browser_shown b ≡ true → browser_shown (click c b) ≡ true
  unfolding click change_role browse_folders toggle_folder select_folder
  click-shown (choose_role role) b h = elim (Bool-cases b.is_open) [
    | inl o ↦ rw o refl
    | inr o ↦ rw o h
  ]
  click-shown browse b h = elim (Bool-cases b.is_open) [ inl o ↦ rw o h | inr o ↦ rw o refl ]
  click-shown (toggle e) b h =
      of_row (row_at e b.tree) b (λ r. toggle_row e r b) h (λ r. toggle_row-shown e r b h)
  click-shown (select e) b h =
      of_row (row_at e b.tree) b _ h (λ r. shown-mark_tree under b.asked e b.tree h)

  -- Whatever is clicked in the folder browser and in whatever order the server answers, if each answer
  -- is of the kind that was asked for and tells folders of the parent that was asked for: each row of
  -- the tree stands under the parent it was told of, with the depth of its place; a row that is not
  -- expanded shows no rows in it; and the button of a row is disabled only where the folder has no folders
  -- in it, or while a request for it is under way.
  pub Reach-shown : (b : Browser) → Reach under b → browser_shown b ≡ true
  Reach-shown b (begun role) = refl
  Reach-shown b (clicked c d) = click-shown c _ (Reach-shown _ d)
  Reach-shown b (answered k reply f d) = answer-shown _ k reply f (Reach-shown _ d)
