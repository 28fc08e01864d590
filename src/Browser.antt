-- ===== src/Browser.antt =====
-- src/MomentFerry.Web/wwwroot/app.js, the folder browser of the share form: its tree and how it is
-- changed. An element is known by its number and by the path it carries; a request keeps the element it
-- was sent for, which may have left the document when the answer comes.
pub mod Handlers
pub mod Rules
pub mod Rows
pub mod Shown
mod Tests
use moment_ferry.Common.{
  ℕ, zero, suc, ◌+◌, List, [], ◌∷◌, Option, none, some, Bool, true, false, ◌&&◌, ◌||◌, not,
  if◌then◌else◌, ◌==◌, Text, text_eq, trim, length, is_empty,
}
use moment_ferry.Markup.Folders.{Folder, Root}

pub record Row : Type 0 where
  pub number : ℕ
  pub folder : Folder
  pub depth : ℕ
  -- The class `selected`, `aria-expanded`, `disabled`, and the message among the folders in it.
  pub selected : Bool
  pub expanded : Bool
  pub busy : Bool
  pub message : Option Text

-- A row, the folders in it and the folders after it.
pub data Forest : Type 0 where
  leaf : Forest
  branch : Row → Forest → Forest → Forest

pub record Planted : Type 0 where
  pub path : Text
  pub folders : Forest

pub data Tree : Type 0 where
  blank loading : Tree
  listed : List Planted → Tree
  failed : Text → Tree

pub record Element : Type 0 where
  pub number : ℕ
  pub path : Text

-- The role and the path of a request are read from the page when it is sent.
pub data Asked : Type 0 where
  for_roots : Text → Asked
  for_folders : Text → Element → Asked

pub record Browser : Type 0 where
  pub role : Text
  pub path : Text
  pub name : Text
  pub is_open : Bool
  pub tree : Tree
  pub asked : List Asked
  pub next_number : ℕ

abbrev pub is_element : Element → Row → Bool
is_element e r = (e.number == r.number) && text_eq e.path r.folder.path

abbrev pub new_row : ℕ → Text → ℕ → Folder → Row
new_row n path depth f = record {
  number = n;
  folder = f;
  depth = depth;
  selected = text_eq path f.path;
  expanded = false;
  busy = not f.has_children;
  message = none;
}

-- renderFolderNodes
pub grow : ℕ → Text → ℕ → List Folder → Forest
grow n path depth [] = leaf
grow n path depth (f ∷ fs) = branch (new_row n path depth f) leaf (grow (suc n) path depth fs)

pub grow_roots : ℕ → Text → List Root → List Planted
grow_roots n path [] = []
grow_roots n path (r ∷ rs) =
    record { path = r.path; folders = grow n path 0 r.folders }
    ∷ grow_roots (n + length r.folders) path rs

abbrev pub after_roots : ℕ → List Root → ℕ
after_roots n [] = n
after_roots n (r ∷ rs) = after_roots (n + length r.folders) rs

-- What is done to an element of the document, if it is still there.
pub change_at : (Row → Row) → (Row → Forest → Forest) → Element → Forest → Forest
change_at f g e leaf = leaf
change_at f g e (branch r inner rest) =
    let others = change_at f g e rest in
    let inside = change_at f g e inner in
    if is_element e r then branch (f r) (g r inner) others else branch r inside others

pub find_row : Element → Forest → Option Row
find_row e leaf = none
find_row e (branch r inner rest) =
    let others = find_row e rest in
    let inside = find_row e inner in
    if is_element e r then some r else elim inside [ none ↦ others | some x ↦ some x ]

abbrev pub change_all :
    (Row → Row) → (Row → Forest → Forest) → Element → List Planted → List Planted
change_all f g e [] = []
change_all f g e (p ∷ ps) =
    record { path = p.path; folders = change_at f g e p.folders } ∷ change_all f g e ps

abbrev pub find_in : Element → List Planted → Option Row
find_in e [] = none
find_in e (p ∷ ps) = elim (find_row e p.folders) [ none ↦ find_in e ps | some r ↦ some r ]

abbrev pub change_tree : (Row → Row) → (Row → Forest → Forest) → Element → Tree → Tree
change_tree f g e (listed ps) = listed (change_all f g e ps)
change_tree f g e t = t

abbrev pub row_at : Element → Tree → Option Row
row_at e (listed ps) = find_in e ps
row_at e _ = none
