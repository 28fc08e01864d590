-- ===== src/Markup/Sources.antt =====
-- app.js, renderSources: the card of the overview on the shares.
use moment_ferry.Common.{
  List, [], ◌∷◌, ◌++◌, Option, none, some, Bool, ◌&&◌, not, if◌then◌else◌, Text, codes, text_eq,
  find, flat_map, decimal,
}
use moment_ferry.Model.{Share, is_source}
use moment_ferry.I18n.{t}
use moment_ferry.Format.{Locale}
use moment_ferry.Markup.{Piece, lit, pick, value, Part, always, either, pieces, said, say}
use moment_ferry.Markup.Storage.{StorageInfo, StorageItem, size_text}

-- `(storageInfo?.items || []).find(x => x.shareId === share.id)`
abbrev pub storage_of : Option StorageInfo → Text → Option StorageItem
storage_of none id = none
storage_of (some info) id = find (λ x. text_eq x.share_id id) info.items

abbrev pub storage_detail : Locale → Option StorageItem → Text
storage_detail l none = said l "destination"
storage_detail l (some x) =
    if x.exists
    then t l.messages (codes "{{size}} free")
        (some ((codes "size", size_text l x.available_free_space_bytes) ∷ []))
      ++ (if x.below_reserve then codes " · " ++ said l "below reserve" else [])
    else said l "path missing"

abbrev pub source_detail : Locale → Share → Text
source_detail l s =
    (if s.recursive then said l "subfolders" else said l "top-level")
    ++ (codes " · "
        ++ t l.messages (codes "{{seconds}}s stability")
            (some ((codes "seconds", decimal s.stability_seconds) ∷ [])))

-- `share.enabled && (!storage || storage.exists)`
abbrev pub is_healthy : Share → Option StorageItem → Bool
is_healthy s none = s.enabled
is_healthy s (some x) = s.enabled && x.exists

abbrev pub source_tile : Locale → Option StorageItem → Share → List Part
source_tile l storage s =
    always (
      lit (
        codes
          "\n      <div class=\"tile\">\n        <div class=\"tile-head\">\n          <div class=\"tile-name\">")
      ∷ value s.name
      ∷ lit (codes "</div>\n          ")
      ∷ [])
    ∷ either (not (is_source s.role))
        (lit (codes "<span class=\"pill\" style=\"font-size:10.5px;padding:2px 7px\">")
          ∷ say l "Destination"
          ∷ lit (codes "</span>")
          ∷ [])
        (lit (codes "<span class=\"dot dot-sm ")
          ∷ pick (is_healthy s storage) (codes "dot-acc") (codes "dot-amb")
          ∷ lit (codes "\"></span>")
          ∷ [])
    ∷ always (
        lit (codes "\n        </div>\n        <div class=\"tile-path\">")
        ∷ value s.path
        ∷ lit (codes "</div>\n        <div class=\"tile-status\">")
        ∷ [])
    ∷ either (s.enabled)
        (value (if not (is_source s.role) then storage_detail l storage else source_detail l s)
          ∷ [])
        (say l "disabled" ∷ [])
    ∷ always (lit (codes "</div>\n      </div>") ∷ [])
    ∷ []

abbrev pub shown_source : Locale → Option StorageInfo → Share → List Part
shown_source l info s = source_tile l (storage_of info s.id) s

unfoldable pub render_sources : Locale → Option StorageInfo → List Share → List Piece
render_sources l info [] = pieces (
    always (
      lit (codes "<div class=\"empty\" style=\"grid-column:1/-1\"><strong>")
      ∷ say l "No folders watched yet"
      ∷ lit (codes "</strong>")
      ∷ say l "Add the folders your sync tool fills, plus one destination."
      ∷ lit (codes "</div>")
      ∷ [])
    ∷ [])
render_sources l info (s ∷ ss) = flat_map (λ x. pieces (shown_source l info x)) (s ∷ ss)
