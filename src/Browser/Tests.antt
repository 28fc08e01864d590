-- ===== src/Browser/Tests.antt =====
-- The folder browser on two folders.
use moment_ferry.Common.{[], ◌∷◌, Bool, true, false, Text, codes, starts_with, ◌≡◌, refl}
use moment_ferry.Markup.Folders.{Folder, Root}
use moment_ferry.Browser.{Browser, Element, grow, grow_roots, change_at, find_row, listed}
use moment_ferry.Browser.Handlers.{
  roots, folders, choose_role, browse, toggle, select, click, change_role, browse_folders,
  toggle_folder, select_folder, receive, answer, new_browser, mark_forest,
}
use moment_ferry.Browser.Rules.{Reach, begun, clicked, answered}
use moment_ferry.Browser.Shown.{browser_shown, Reach-shown}

abbrev inside : Text → Text → Bool
inside parent path = starts_with path parent

abbrev photos : Folder
photos = record { path = codes "/data/photos"; name = codes "photos"; has_children = true }

abbrev summer : Folder
summer = record { path = codes "/data/photos/2024"; name = codes "2024"; has_children = false }

abbrev data_root : Root
data_root = record { path = codes "/data"; folders = photos ∷ [] }

abbrev at_photos : Element
at_photos = record { number = 0; path = codes "/data/photos" }

-- The browser is opened, its roots come, a folder is opened, and the folders in it come.
abbrev session : Browser
session = answer 0 (folders (summer ∷ [])) (
    click (toggle at_photos)
      (answer 0 (roots (data_root ∷ [])) (click browse (new_browser (codes "Source")))))

session-Reach : Reach inside session
unfolding click browse_folders toggle_folder receive grow_roots grow find_row
session-Reach = answered 0 (folders (summer ∷ [])) refl (
    clicked (toggle at_photos)
      (answered 0 (roots (data_root ∷ [])) refl (clicked browse (begun (codes "Source")))))

Reach-shown_example : browser_shown inside session ≡ true
Reach-shown_example = Reach-shown inside session session-Reach

-- Selecting the folder that came takes its path and its name.
selected_path :
    (click (select (record { number = 1; path = codes "/data/photos/2024" })) session).path
    ≡ codes "/data/photos/2024"
unfolding click browse_folders toggle_folder select_folder receive grow_roots grow find_row
    change_at mark_forest
selected_path = refl

-- The role is changed while the roots are on their way: the list of the former role comes last and
-- stays.
abbrev backup : Root
backup = record { path = codes "/backup"; folders = [] }

abbrev stale : Browser
stale = answer 0 (roots (data_root ∷ [])) (
    answer 0 (roots (backup ∷ []))
      (click (choose_role (codes "Destination")) (click browse (new_browser (codes "Source")))))

stale_roots : stale.tree ≡ listed (grow_roots 0 [] (data_root ∷ []))
unfolding click browse_folders change_role receive grow_roots grow
stale_roots = refl
