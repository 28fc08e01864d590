-- ===== src/Markup/Operations.antt =====
-- app.js, renderOperations, renderLogs, renderQuarantine and renderRecentOps.
use moment_ferry.Common.{
  List, [], ◌∷◌, ◌++◌, Option, none, some, Bool, ◌&&◌, ◌||◌, not, if◌then◌else◌, Text, codes,
  text_eq, take, flat_map, is_empty, or_blank, or_else_text, is_set,
}
use moment_ferry.Model.{Share, Operation, LogEntry}
use moment_ferry.I18n.{t}
use moment_ferry.Format.{Locale, format_date}
use moment_ferry.Paths.{base_name, share_for_path}
use moment_ferry.Markup.{Piece, lit, value, word, Part, always, either, pieces, said, say}

abbrev pub operations_header : Locale → List Part
operations_header l =
    always (
      lit (codes "\n    <div class=\"th\">")
      ∷ say l "File"
      ∷ lit (codes "</div>\n    <div class=\"th\">")
      ∷ say l "From"
      ∷ lit (codes "</div>\n    <div class=\"th\">")
      ∷ say l "Stage"
      ∷ lit (codes "</div>\n    <div class=\"th right\">")
      ∷ say l "State"
      ∷ lit (codes "</div>")
      ∷ [])
    ∷ []

-- `terminal.has(operation.state)`
abbrev pub is_terminal : Text → Bool
is_terminal state = text_eq state (codes "Completed") || text_eq state (codes "Ignored")

abbrev pub stage_text : Locale → Operation → Text
stage_text l o =
    if is_set o.last_error
    then or_blank o.last_error
    else if is_set o.destination_path
    then codes "→ " ++ or_blank o.destination_path
    else t l.messages (codes "started {{time}}")
        (some ((codes "time", format_date l (some o.started_at)) ∷ []))

abbrev pub share_name : Option Share → Text
share_name none = codes "—"
share_name (some s) = s.name

abbrev pub operation_row : Locale → Bool → Text → Operation → List Part
operation_row l dry_run from o =
    always (
      lit (codes "\n      <div class=\"td strong\" title=\"")
      ∷ value o.source_path
      ∷ lit (codes "\">")
      ∷ value (base_name o.source_path)
      ∷ lit (codes "</div>\n      <div class=\"td\">")
      ∷ value from
      ∷ lit (codes "</div>\n      <div class=\"td\">")
      ∷ value (stage_text l o)
      ∷ lit (codes "</div>\n      <div class=\"td right\">")
      ∷ value (t l.messages o.state none)
      ∷ [])
    ∷ either (is_terminal o.state && not dry_run)
        (lit (
            codes
              "<button class=\"btn btn-sm btn-ghost\" style=\"margin-left:8px\" type=\"button\" onclick=\"routeAgain('")
          ∷ word o.id
          ∷ lit (codes "')\">")
          ∷ say l "Route again"
          ∷ lit (codes "</button>")
          ∷ [])
        ([])
    ∷ always (lit (codes "</div>") ∷ [])
    ∷ []

abbrev pub operations_open : List Part
operations_open =
    always (
      lit (
        codes
          "\n    <div class=\"card card-flush\">\n      <div class=\"table-scroll\">\n        <div class=\"table table-ops\">")
      ∷ [])
    ∷ []

abbrev pub operations_close : Locale → Bool → List Part
operations_close l none_recorded =
    always (lit (codes "</div>\n      </div>\n      ") ∷ [])
    ∷ either (not none_recorded) ([]) (
        lit (codes "<div class=\"table-empty\">")
        ∷ say l "No operations recorded yet."
        ∷ lit (codes "</div>")
        ∷ [])
    ∷ always (lit (codes "\n    </div>") ∷ [])
    ∷ []

abbrev pub shown_operation : Locale → Bool → List Share → Operation → List Part
shown_operation l dry_run shares o =
    operation_row l dry_run (share_name (share_for_path shares (some o.source_path))) o

unfoldable pub render_operations : Locale → Bool → List Share → List Operation → List Piece
render_operations l dry_run shares operations =
    pieces operations_open
    ++ (pieces (operations_header l)
        ++ (flat_map (λ o. pieces (shown_operation l dry_run shares o)) operations
            ++ pieces (operations_close l (is_empty operations))))

abbrev pub log_row : Locale → LogEntry → List Part
log_row l entry =
    always (
      lit (
        codes
          "\n    <div class=\"divided-row\">\n      <div style=\"min-width:0\">\n        <div style=\"font-size:12.5px;color:var(--txt)\">")
      ∷ value entry.message
      ∷ lit (
          codes
            "</div>\n        <div class=\"mono\" style=\"font-size:11px;color:var(--mut);margin-top:2px\">")
      ∷ value (format_date l (some entry.at))
      ∷ lit (codes " · ")
      ∷ value entry.level
      ∷ lit (codes " · ")
      ∷ value entry.category
      ∷ lit (codes "</div>\n        ")
      ∷ [])
    ∷ either (is_set entry.detail)
        (lit (codes "<details class=\"log-detail\"><summary>")
          ∷ say l "Error details"
          ∷ lit (codes "</summary><pre class=\"changelog\">")
          ∷ value (or_blank entry.detail)
          ∷ lit (codes "</pre></details>")
          ∷ [])
        ([])
    ∷ always (lit (codes "\n      </div>\n    </div>") ∷ [])
    ∷ []

unfoldable pub render_logs : Locale → List LogEntry → List Piece
render_logs l [] = pieces (
    always (
      lit (codes "<div class=\"table-empty\">")
      ∷ say l "Nothing logged yet."
      ∷ lit (codes "</div>")
      ∷ [])
    ∷ [])
render_logs l (e ∷ es) = flat_map (λ x. pieces (log_row l x)) (e ∷ es)

-- The button to retry is one of two texts: with Dry Run it is disabled and says so.
abbrev pub quarantine_row : Locale → Bool → Operation → List Part
quarantine_row l dry_run o =
    always (
      lit (
        codes
          "\n    <div class=\"divided-row\">\n      <div style=\"min-width:0\">\n        <div class=\"mono\" style=\"font-size:12px;color:var(--txt)\" title=\"")
      ∷ value o.source_path
      ∷ lit (codes "\">")
      ∷ value (base_name o.source_path)
      ∷ lit
          (codes "</div>\n        <div style=\"font-size:11.5px;color:var(--mut);margin-top:2px\">")
      ∷ value (t l.messages o.state none)
      ∷ lit (codes " · ")
      ∷ value (or_else_text (or_blank o.last_error) (said l "No reason recorded."))
      ∷ lit (codes "</div>\n      </div>\n      <div class=\"card-actions\">\n        ")
      ∷ [])
    ∷ either dry_run
        (lit (codes "<button class=\"btn btn-sm btn-ghost\" type=\"button\" ")
          ∷ lit (codes "disabled title=\"")
          ∷ value (said l "Dry Run is enabled")
          ∷ lit (codes "\"")
          ∷ lit (codes " onclick=\"retryQuarantine('")
          ∷ word o.id
          ∷ lit (codes "')\">")
          ∷ [])
        (lit (codes "<button class=\"btn btn-sm btn-ghost\" type=\"button\" ")
          ∷ lit (codes " onclick=\"retryQuarantine('")
          ∷ word o.id
          ∷ lit (codes "')\">")
          ∷ [])
    ∷ always (say l "Retry" ∷ lit (codes "</button>\n        ") ∷ [])
    ∷ either (text_eq o.state (codes "Quarantined"))
        (lit (
            codes
              "<button class=\"btn btn-sm btn-ghost\" type=\"button\" onclick=\"dismissQuarantine('")
          ∷ word o.id
          ∷ lit (codes "')\">")
          ∷ say l "Dismiss safely"
          ∷ lit (codes "</button>")
          ∷ [])
        ([])
    ∷ always (lit (codes "\n      </div>\n    </div>") ∷ [])
    ∷ []

unfoldable pub render_quarantine : Locale → Bool → List Operation → List Piece
render_quarantine l dry_run [] = pieces (
    always (
      lit (
        codes
          "<div class=\"divided-row\" style=\"display:block;font-size:12.5px;color:var(--mut)\">")
      ∷ say l "Nothing is waiting. Every file so far routed cleanly."
      ∷ lit (codes "</div>")
      ∷ [])
    ∷ [])
render_quarantine l dry_run (o ∷ os) = flat_map (λ x. pieces (quarantine_row l dry_run x)) (o ∷ os)

abbrev pub recent_row : Locale → Operation → List Part
recent_row l o =
    always (
      lit (codes "\n    <div class=\"ledger-row\">\n      <span title=\"")
      ∷ value o.source_path
      ∷ lit (codes "\">")
      ∷ value (base_name o.source_path)
      ∷ lit (codes "</span>\n      <span>")
      ∷ value (t l.messages o.state none)
      ∷ lit (codes "</span>\n    </div>")
      ∷ [])
    ∷ []

unfoldable pub render_recent_ops : Locale → List Operation → List Piece
render_recent_ops l [] = pieces (
    always (
      lit (codes "<div style=\"font-size:12.5px;color:var(--mut)\">")
      ∷ say l "Nothing has run yet."
      ∷ lit (codes "</div>")
      ∷ [])
    ∷ [])
render_recent_ops l (o ∷ os) = flat_map (λ x. pieces (recent_row l x)) (take 5 (o ∷ os))
