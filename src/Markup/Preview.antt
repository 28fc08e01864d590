-- ===== src/Markup/Preview.antt =====
-- app.js, renderRoutingPreview: the table of the routing preview with its two filters.
use moment_ferry.Common.{
  ℕ, List, [], ◌∷◌, ◌++◌, Option, none, some, Bool, ◌&&◌, ◌||◌, not, if◌then◌else◌, ◌==◌, Text,
  codes, text_eq, map, length, flat_map, starts_with, trim, to_lower, suc, zero, is_empty, is_some,
  decimal, or_blank, is_set,
}
use moment_ferry.Model.{MediaEvent, MediaFile}
use moment_ferry.I18n.{t}
use moment_ferry.Format.{Locale, format_date}
use moment_ferry.Markup.{Piece, lit, value, word, Part, always, either, pieces, say, number}

pub record PreviewItem : Type 0 where
  pub media_file : MediaFile
  pub state : Text
  pub event : Option MediaEvent
  pub destination_path : Option Text
  pub message : Option Text

pub record PreviewResult : Type 0 where
  pub total : ℕ
  pub matched : ℕ
  pub unmatched : ℕ
  pub ambiguous : ℕ
  pub items : List PreviewItem

-- `text.includes(part)`
abbrev pub contains : Text → Text → Bool
contains [] part = is_empty part
contains (c ∷ s) part = starts_with (c ∷ s) part || contains s part

-- The two filters; `query` is what the field holds.
abbrev pub is_visible : Text → Text → PreviewItem → Bool
is_visible query state item =
    (is_empty state || text_eq item.state state)
    && (is_empty (map to_lower (trim query))
        || contains (map to_lower item.media_file.source_path) (map to_lower (trim query)))

-- The visible items with their places in the whole list.
abbrev pub visible_from : Text → Text → ℕ → List PreviewItem → List (PreviewItem × ℕ)
visible_from query state i [] = []
visible_from query state i (x ∷ xs) =
    let rest = visible_from query state (suc i) xs in
    if is_visible query state x then (x, i) ∷ rest else rest

unfoldable pub visible_items : Text → Text → List PreviewItem → List (PreviewItem × ℕ)
visible_items query state items = visible_from query state zero items

abbrev pub event_id : Option MediaEvent → Text
event_id none = []
event_id (some e) = e.id

abbrev pub match_text : Locale → PreviewItem → Text
match_text l x = elim x.event [ none ↦ t l.messages x.state none | some e ↦ e.name ]

-- `item.state === 'Matched' && event && !dry`
abbrev pub can_execute : Bool → PreviewItem → Bool
can_execute dry x = text_eq x.state (codes "Matched") && (is_some x.event && not dry)

abbrev pub preview_row : Locale → Bool → PreviewItem × ℕ → List Part
preview_row l dry (x, index) =
    always (
      lit (codes "\n      <div class=\"td strong\" title=\"")
      ∷ value x.media_file.source_path
      ∷ lit (codes "\">\n        ")
      ∷ value x.media_file.original_name
      ∷ lit (
          codes
            "\n        <div><button class=\"link-btn\" type=\"button\" onclick=\"openFileAnalysis(")
      ∷ word (decimal index)
      ∷ lit (codes ")\">")
      ∷ say l "Details"
      ∷ lit (codes "</button></div>\n      </div>\n      <div class=\"td\">")
      ∷ value (format_date l (some x.media_file.captured_at))
      ∷ lit (codes "</div>\n      <div class=\"td\">")
      ∷ value (match_text l x)
      ∷ lit (codes "</div>\n      <div class=\"td mono\">\n        ")
      ∷ [])
    ∷ either (is_set x.destination_path) (value (or_blank x.destination_path) ∷ []) []
    ∷ either (not (is_set x.destination_path) && is_set x.message) (value (or_blank x.message) ∷ [])
        []
    ∷ either (not (is_set x.destination_path) && not (is_set x.message))
        (say l "stays where it is" ∷ []) []
    ∷ always (lit (codes "\n        ") ∷ [])
    ∷ either (can_execute dry x)
        (lit (
            codes
              "<div style=\"margin-top:6px\"><button class=\"btn btn-sm\" type=\"button\" onclick=\"executeTransfer('")
          ∷ word x.media_file.id
          ∷ lit (codes "','")
          ∷ word (event_id x.event)
          ∷ lit (codes "')\">")
          ∷ say l "Execute"
          ∷ lit (codes "</button></div>")
          ∷ [])
        ([])
    ∷ always (lit (codes "\n      </div>") ∷ [])
    ∷ []

-- The counts above the table, and its head; `shown` items are visible.
abbrev pub preview_open : Locale → PreviewResult → ℕ → List Part
preview_open l r shown =
    always (
      lit (
        codes
          "\n    <div class=\"card card-flush\">\n      <div class=\"table-summary\">\n        <span><b>")
      ∷ number l r.total
      ∷ lit (codes "</b> ")
      ∷ say l "scanned"
      ∷ lit (codes "</span>\n        <span><b class=\"acc\">")
      ∷ number l r.matched
      ∷ lit (codes "</b> ")
      ∷ say l "matched an event"
      ∷ lit (codes "</span>\n        <span><b>")
      ∷ number l r.unmatched
      ∷ lit (codes "</b> ")
      ∷ say l "outside any event"
      ∷ lit (codes "</span>\n        <span><b class=\"amb\">")
      ∷ number l r.ambiguous
      ∷ lit (codes "</b> ")
      ∷ say l "need a decision"
      ∷ lit (codes "</span>\n        ")
      ∷ [])
    ∷ either (not (shown == length r.items))
        (lit (codes "<span><b>")
          ∷ number l shown
          ∷ lit (codes "</b> ")
          ∷ say l "shown"
          ∷ lit (codes "</span>")
          ∷ [])
        ([])
    ∷ always (
        lit (
          codes
            "\n      </div>\n      <div class=\"table-scroll\">\n        <div class=\"table table-preview\">\n          <div class=\"th\">")
        ∷ say l "File"
        ∷ lit (codes "</div>\n          <div class=\"th\">")
        ∷ say l "Captured"
        ∷ lit (codes "</div>\n          <div class=\"th\">")
        ∷ say l "Match"
        ∷ lit (codes "</div>\n          <div class=\"th\">")
        ∷ say l "Destination"
        ∷ lit (codes "</div>\n          ")
        ∷ [])
    ∷ []

abbrev pub preview_close : Locale → Bool → Bool → List Part
preview_close l any_item any_visible =
    always (lit (codes "\n        </div>\n      </div>\n      ") ∷ [])
    ∷ either (any_item) ([]) (
        lit (codes "<div class=\"table-empty\">")
        ∷ say l "No stable media files found yet. Scan again after the stability interval."
        ∷ lit (codes "</div>")
        ∷ [])
    ∷ always (lit (codes "\n      ") ∷ [])
    ∷ either (any_item && not any_visible)
        (lit (codes "<div class=\"table-empty\">")
          ∷ say l "No file matches the filter."
          ∷ lit (codes "</div>")
          ∷ [])
        ([])
    ∷ always (lit (codes "\n    </div>") ∷ [])
    ∷ []

abbrev pub preview_table : Locale → Bool → PreviewResult → List (PreviewItem × ℕ) → List Piece
preview_table l dry r visible =
    pieces (preview_open l r (length visible))
    ++ (flat_map (λ x. pieces (preview_row l dry x)) visible
        ++ pieces (preview_close l (not (is_empty r.items)) (not (is_empty visible))))

unfoldable pub render_routing_preview : Locale → Bool → Text → Text → PreviewResult → List Piece
unfolding visible_items
render_routing_preview l dry query state r =
    preview_table l dry r (visible_items query state r.items)
