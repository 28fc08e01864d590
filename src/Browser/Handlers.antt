-- ===== src/Browser/Handlers.antt =====
-- app.js, the folder browser as a machine: toggleFolder, loadFolderTree, and the handlers of the role, of
-- the browse button and of the tree.
use moment_ferry.Common.{
  take_out, ℕ, suc, ◌+◌, List, [], ◌∷◌, none, some, true, false, ◌||◌, not, if◌then◌else◌, Text,
  trim, length, is_empty,
}
use moment_ferry.Markup.Folders.{Folder, Root}
use moment_ferry.Browser.{
  Row, Forest, Planted, Tree, Element, Asked, Browser, is_element, grow, grow_roots, after_roots,
  change_tree, row_at, leaf, branch, blank, loading, listed, failed, for_roots, for_folders,
}

-- loadFolderTree, up to its request.
abbrev pub load_folder_tree : Browser → Browser
load_folder_tree b = record b { tree = loading; asked = for_roots b.role ∷ b.asked }

-- The handler of the role.
unfoldable pub change_role : Text → Browser → Browser
change_role role b =
    let emptied : Browser = record b { role = role; path = [] } in
    if b.is_open then load_folder_tree emptied else emptied

-- The handler of browseFolders.
unfoldable pub browse_folders : Browser → Browser
browse_folders b =
    if b.is_open
    then record b { is_open = false }
    else load_folder_tree (record b { is_open = true })

abbrev pub collapsed : Row → Row
collapsed r = record r { expanded = false; message = none }

abbrev pub disabled : Row → Row
disabled r = record r { busy = true }

-- toggleFolder, up to its request. A button that is disabled takes no click, nor does the placeholder
-- of a folder without children.
abbrev pub toggle_row : Element → Row → Browser → Browser
toggle_row e r b =
    if r.busy || not r.folder.has_children
    then b
    else if r.expanded
    then record b { tree = change_tree collapsed (λ _ _. leaf) e b.tree }
    else record b {
      tree = change_tree disabled (λ _ inner. inner) e b.tree;
      asked = for_folders b.role e ∷ b.asked;
    }

unfoldable pub toggle_folder : Element → Browser → Browser
toggle_folder e b = elim (row_at e b.tree) [ none ↦ b | some r ↦ toggle_row e r b ]

abbrev pub mark : Element → Row → Row
mark e r = record r { selected = is_element e r }

unfoldable pub mark_forest : Element → Forest → Forest
mark_forest e leaf = leaf
mark_forest e (branch r inner rest) = branch (mark e r) (mark_forest e inner) (mark_forest e rest)

abbrev pub mark_all : Element → List Planted → List Planted
mark_all e [] = []
mark_all e (p ∷ ps) = record { path = p.path; folders = mark_forest e p.folders } ∷ mark_all e ps

abbrev pub mark_tree : Element → Tree → Tree
mark_tree e (listed ps) = listed (mark_all e ps)
mark_tree e t = t

abbrev pub or_name : Text → Text → Text
or_name given name = if is_empty (trim given) then name else given

-- The handler of folderTree, for a click on a folder.
unfoldable pub select_folder : Element → Browser → Browser
select_folder e b = elim (row_at e b.tree) [
  | none ↦ b
  | some r ↦ record b {
    path = r.folder.path;
    name = or_name b.name r.folder.name;
    tree = mark_tree e b.tree;
  }
]

pub data Click : Type 0 where
  choose_role : Text → Click
  browse : Click
  toggle select : Element → Click

unfoldable pub click : Click → Browser → Browser
click (choose_role role) b = change_role role b
click browse b = browse_folders b
click (toggle e) b = toggle_folder e b
click (select e) b = select_folder e b

pub data Reply : Type 0 where
  roots : List Root → Reply
  folders : List Folder → Reply
  error : Text → Reply

abbrev pub opened : Row → Row
opened r = record r { expanded = true; busy = false; message = none }

abbrev pub refused : Text → Row → Row
refused m r = record r { busy = false; message = some m }

-- The rest of loadFolderTree and of toggleFolder. Whatever is in the tree, the list of roots replaces
-- it.
unfoldable pub receive : Asked → Reply → Browser → Browser
receive (for_roots role) (roots []) b = record b { tree = listed [] }
receive (for_roots role) (roots (r ∷ rs)) b = record b {
  tree = listed (grow_roots b.next_number b.path (r ∷ rs));
  next_number = after_roots b.next_number (r ∷ rs);
}
receive (for_roots role) (error m) b = record b { tree = failed m }
receive (for_folders role e) (folders fs) b = record b {
  tree = change_tree opened (λ r _. grow b.next_number b.path (suc r.depth) fs) e b.tree;
  next_number = b.next_number + length fs;
}
receive (for_folders role e) (error m) b = record b {
  tree = change_tree (refused m) (λ _ _. leaf) e b.tree;
}
receive _ _ b = b

-- One of the requests under way is answered, in whatever order.
abbrev pub answer : ℕ → Reply → Browser → Browser
answer k reply b = elim (take_out k b.asked) [
  | none ↦ b
  | some (a, rest) ↦ receive a reply (record b { asked = rest })
]

abbrev pub new_browser : Text → Browser
new_browser role = record {
  role = role;
  path = [];
  name = [];
  is_open = false;
  tree = blank;
  asked = [];
  next_number = 0;
}
