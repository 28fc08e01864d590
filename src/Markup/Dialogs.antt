-- ===== src/Markup/Dialogs.antt =====
-- app.js, the dialog of the file analysis: what openFileAnalysis and renderEventAnalysis put into it.
use moment_ferry.Common.{
  ℕ, List, [], ◌∷◌, ◌++◌, Option, none, some, Bool, not, if◌then◌else◌, Text, codes, filter,
  flat_map, join, is_empty, every, or_blank, or_else_text,
}
use moment_ferry.Model.{MediaEvent, MediaType, image, video, other}
use moment_ferry.I18n.{t}
use moment_ferry.Format.{Locale, format_bytes, format_date, format_offset}
use moment_ferry.Analysis.{Check, status_name}
use moment_ferry.Markup.{Piece, lit, pick, value, word, Part, always, pieces, said, say}
use moment_ferry.Markup.Preview.{PreviewItem}

-- The members of a file that only this dialog shows. `captured_iso` is toISOString of the capture time.
pub record FileFacts : Type 0 where
  pub captured_iso : Text
  pub offset_minutes : Option (Bool × ℕ)
  pub is_timezone_inferred : Bool
  pub camera_make : Option Text
  pub camera_model : Option Text
  pub source_last_write_at : ℕ

abbrev pub media_type_name : MediaType → Text
media_type_name image = codes "Image"
media_type_name video = codes "Video"
media_type_name other = codes "Other"

-- `list.filter(Boolean)`
abbrev pub non_empty : List Text → List Text
non_empty = filter λ s. not (is_empty s)

abbrev pub optional_name : Option MediaEvent → Text
optional_name none = []
optional_name (some e) = e.name

unfoldable pub file_facts : Locale → PreviewItem → FileFacts → List (Text × Text)
file_facts l item facts =
    (said l "Path", item.media_file.source_path)
    ∷ (said l "Size", format_bytes l.messages (some item.media_file.size))
    ∷ (
      said l "Type",
      t l.messages (media_type_name item.media_file.media_type) none
          ++ (codes " · " ++ item.media_file.extension),
    )
    ∷ (
      said l "Captured",
      format_date l (some item.media_file.captured_at) ++ (codes " · " ++ facts.captured_iso),
    )
    ∷ (
      said l "Read from",
      or_else_text (or_blank item.media_file.timestamp_source) (said l "unknown"),
    )
    ∷ (said l "Reported offset", format_offset l.messages facts.offset_minutes)
    ∷ (
      said l "Time zone inferred",
      if facts.is_timezone_inferred then said l "yes" else said l "no",
    )
    ∷ (
      said l "Camera",
      or_else_text
          (join (codes " ")
            (non_empty (or_blank facts.camera_make ∷ or_blank facts.camera_model ∷ [])))
          (said l "unknown"),
    )
    ∷ (said l "File modified", format_date l (some facts.source_last_write_at))
    ∷ (
      said l "Preview result",
      join (codes " · ") (
          non_empty
            (t l.messages item.state none ∷ optional_name item.event ∷ or_blank item.message ∷ [])),
    )
    ∷ []

abbrev pub fact_row : Text × Text → List Part
fact_row (label, shown) =
    always (
      lit (codes "<div class=\"modal-fact\"><span>")
      ∷ value label
      ∷ lit (codes "</span><b>")
      ∷ value shown
      ∷ lit (codes "</b></div>")
      ∷ [])
    ∷ []

unfoldable pub render_facts : Locale → PreviewItem → FileFacts → List Piece
unfolding file_facts
render_facts l item facts = flat_map (λ x. pieces (fact_row x)) (file_facts l item facts)

abbrev pub no_event_option : Locale → List Part
no_event_option l =
    always
      (lit (codes "<option value=\"\">") ∷ say l "Choose an event…" ∷ lit (codes "</option>") ∷ [])
    ∷ []

abbrev pub event_option : Locale → MediaEvent → List Part
event_option l e =
    always (
      lit (codes "<option value=\"")
      ∷ word e.id
      ∷ lit (codes "\">")
      ∷ value e.name
      ∷ lit (codes " · ")
      ∷ value (t l.messages (status_name e.status) none)
      ∷ lit (codes "</option>")
      ∷ [])
    ∷ []

unfoldable pub render_event_options : Locale → List MediaEvent → List Piece
render_event_options l events =
    pieces (no_event_option l) ++ flat_map (λ x. pieces (event_option l x)) events

abbrev pub analysis_row : Check → List Part
analysis_row k =
    always (
      lit (codes "<div class=\"modal-fact\"><span>")
      ∷ value k.text
      ∷ lit (codes "</span><b class=\"")
      ∷ pick k.ok [] (codes "amb")
      ∷ lit (codes "\">")
      ∷ pick k.ok (codes "✓") (codes "✕")
      ∷ lit (codes "</b></div>")
      ∷ [])
    ∷ []

abbrev pub verdict : Locale → Bool → List Part
verdict l takes =
    always (
      lit (codes "<div class=\"setting-desc\" style=\"margin-top:10px\">")
      ∷ value (
          if takes
          then said l "This event takes the file."
          else said l "This event does not take the file.")
      ∷ lit (codes "</div>")
      ∷ [])
    ∷ []

-- renderEventAnalysis, of the checks that Analysis lists for the chosen event.
unfoldable pub render_event_analysis : Locale → List Check → List Piece
render_event_analysis l checks =
    flat_map (λ x. pieces (analysis_row x)) checks ++ pieces (verdict l (every (λ k. k.ok) checks))
