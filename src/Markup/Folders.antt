-- ===== src/Markup/Folders.antt =====
-- app.js, the folder browser of the share form: loadFolderTree and renderFolderNodes.
use moment_ferry.Common.{ℕ, List, [], ◌∷◌, ◌++◌, Bool, Text, codes, flat_map, text_eq, decimal}
use moment_ferry.Format.{Locale}
use moment_ferry.Markup.{Piece, lit, pick, value, word, Part, always, either, pieces, said, say}

-- A folder as the API tells it: the folders in it are asked for when it is opened.
pub record Folder : Type 0 where
  pub path : Text
  pub name : Text
  pub has_children : Bool

pub record Root : Type 0 where
  pub path : Text
  pub folders : List Folder

abbrev pub no_folders : Locale → List Part
no_folders l =
    always (
      lit (codes "<div class=\"subtle\" style=\"font-size:12px\">")
      ∷ say l "No subfolders."
      ∷ lit (codes "</div>")
      ∷ [])
    ∷ []

-- `selected` is what the field of the path holds. The button is written out for a folder with children
-- and for one without.
abbrev pub folder_node : Locale → Text → ℕ → Folder → List Part
folder_node l selected depth f =
    always (
      lit (codes "\n    <div class=\"folder-node\" data-path=\"")
      ∷ value f.path
      ∷ lit (codes "\">\n      <div class=\"folder-row\" style=\"--depth:")
      ∷ word (decimal depth)
      ∷ lit (codes "\">\n        ")
      ∷ [])
    ∷ either f.has_children
        (lit (
            codes
              "<button type=\"button\" class=\"btn folder-toggle\" aria-expanded=\"false\" aria-label=\"")
          ∷ value (said l "Expand folder")
          ∷ lit (codes "\">›</button>")
          ∷ [])
        (lit (
            codes
              "<button type=\"button\" class=\"btn folder-toggle placeholder\" disabled aria-hidden=\"true\">·</button>")
          ∷ [])
    ∷ always (
        lit (codes "\n        <button type=\"button\" class=\"folder-select")
        ∷ pick (text_eq selected f.path) (codes " selected") []
        ∷ lit (codes "\" data-folder-select=\"")
        ∷ value f.path
        ∷ lit (codes "\">\n          <span class=\"folder-name\">")
        ∷ value f.name
        ∷ lit (codes "</span>\n          <span class=\"folder-path\">")
        ∷ value f.path
        ∷ lit (
            codes
              "</span>\n        </button>\n      </div>\n      <div class=\"folder-children\"></div>\n    </div>")
        ∷ [])
    ∷ []

unfoldable pub render_folder_nodes : Locale → Text → ℕ → List Folder → List Piece
render_folder_nodes l selected depth [] = pieces (no_folders l)
render_folder_nodes l selected depth (f ∷ fs) =
    flat_map (λ x. pieces (folder_node l selected depth x)) (f ∷ fs)

abbrev pub root_open : Root → List Part
root_open r =
    always (
      lit (
        codes
          "\n          <div class=\"folder-root\">\n            <div class=\"folder-root-label\">")
      ∷ value r.path
      ∷ lit (codes "</div>\n            <div class=\"folder-children\">")
      ∷ [])
    ∷ []

abbrev pub root_close : List Part
root_close = always (lit (codes "</div>\n          </div>") ∷ []) ∷ []

abbrev pub root_node : Locale → Text → Root → List Piece
root_node l selected r =
    pieces (root_open r) ++ (render_folder_nodes l selected 0 r.folders ++ pieces root_close)

-- loadFolderTree, of the answer, and of a request that fails.
unfoldable pub render_roots : Locale → Text → List Root → List Piece
render_roots l selected [] = pieces (
    always (
      lit (codes "<div class=\"message\">")
      ∷ say l "No mounted folders found for this role."
      ∷ lit (codes "</div>")
      ∷ [])
    ∷ [])
render_roots l selected (r ∷ rs) = flat_map (root_node l selected) (r ∷ rs)

abbrev pub folder_error : Text → List Part
folder_error message =
    always (lit (codes "<div class=\"message error\">") ∷ value message ∷ lit (codes "</div>") ∷ [])
    ∷ []

unfoldable pub render_folder_error : Text → List Piece
render_folder_error message = pieces (folder_error message)
