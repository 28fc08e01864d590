-- ===== src/Markup/Overview.antt =====
-- app.js, the card of the running event on the overview: activeEvents, eventSummary,
-- eventRowList, eventHeadline and renderRunningEvent.
use moment_ferry.Common.{
  ℕ, List, [], ◌∷◌, ◌++◌, Option, none, some, Bool, true, false, not, if◌then◌else◌, ◌==◌, Text,
  codes, filter, map, take, length, flat_map, to_lower, ◌-◌, or_blank, or_else_text,
}
use moment_ferry.Model.{Share, MediaEvent, is_active, is_planned}
use moment_ferry.I18n.{t}
use moment_ferry.Format.{Locale, format_number}
use moment_ferry.Paths.{destination_path_for}
use moment_ferry.Analysis.{status_name, find_share}
use moment_ferry.Markup.{Piece, lit, value, word, Part, always, either, pieces, said, say}
use moment_ferry.Scan.{ScanState}
use moment_ferry.Markup.Events.{status_pill, mode_name, window, group_name, EventsView}
use moment_ferry.Markup.Progress.{Counters, automation_block}

abbrev pub or_first : List MediaEvent → List MediaEvent → List MediaEvent
or_first [] rest = rest
or_first (e ∷ es) rest = e ∷ es

-- activeEvents: the active events, else the planned ones, else the first of all.
unfoldable pub active_events : List MediaEvent → List MediaEvent
active_events events =
    or_first (filter (λ e. is_active e.status) events)
      (or_first (filter (λ e. is_planned e.status) events) (take 1 events))

abbrev pub destination_name : Locale → Option Share → Text
destination_name l none = said l "missing destination"
destination_name l (some s) = or_else_text s.name (said l "missing destination")

-- A row of eventRowList; `in_group` and `to` come from eventSummary.
abbrev pub event_row : Locale → Text → Text → MediaEvent → List Part
event_row l in_group to e =
    always (
        lit (
          codes
            "\n      <div class=\"list-row\" style=\"padding:11px 14px\">\n        <div class=\"list-main\">\n          <div class=\"list-heading\" style=\"margin-bottom:3px\">\n            <span class=\"list-title\">")
        ∷ value e.name
        ∷ lit (codes "</span>\n            ")
        ∷ [])
      ∷ status_pill l e.status
    ++ always (
        lit (codes "\n          </div>\n          <div class=\"list-meta\">")
        ∷ value (window l "open" e)
        ∷ lit (codes " · ")
        ∷ value in_group
        ∷ lit (codes " → ")
        ∷ value to
        ∷ lit (codes " · ")
        ∷ word (mode_name l e.operation_mode)
        ∷ lit (
            codes
              "</div>\n        </div>\n        <div class=\"card-actions\">\n          <button class=\"btn btn-sm btn-ghost\" type=\"button\" data-event-toggle=\"")
        ∷ value e.id
        ∷ lit (codes "\">\n            ")
        ∷ word (if is_active e.status then said l "Stop" else said l "Start")
        ∷ lit (codes "\n          </button>\n        </div>\n      </div>")
        ∷ [])
      ∷ []

abbrev pub row_of : Locale → EventsView → MediaEvent → List Part
row_of l v e =
    event_row l (group_name v.groups e.source_group_id (said l "unknown group"))
      (destination_name l (find_share e.destination_share_id v.shares)) e

abbrev pub rows_open : List Part
rows_open =
    always (lit (codes "<div class=\"stack\" style=\"gap:8px;margin-bottom:14px\">") ∷ []) ∷ []

-- The button to the other events, and the end of the list.
abbrev pub rows_close : Locale → ℕ → List Part
rows_close l rest =
    either (not (rest == 0))
      (lit (codes "<button class=\"btn btn-sm btn-ghost\" type=\"button\" data-view=\"events\">")
        ∷ word (
            t l.messages (codes "Show {{count}} more →")
              (some ((codes "count", format_number l (some rest)) ∷ [])))
        ∷ lit (codes "</button>")
        ∷ [])
      []
    ∷ always (lit (codes "</div>") ∷ [])
    ∷ []

abbrev pub event_row_list : Locale → EventsView → List MediaEvent → List Piece
event_row_list l v es =
    pieces rows_open
    ++ (flat_map (λ e. pieces (row_of l v e)) (take 5 es)
        ++ pieces (rows_close l (length es - length (take 5 es))))

abbrev pub headline : Locale → Text → Text → MediaEvent → List Part
headline l in_group path e =
    always (
      lit (
        codes
          "\n    <div class=\"row\" style=\"align-items:baseline;gap:10px;margin-bottom:3px\">\n      <div style=\"font-size:24px;font-weight:600;letter-spacing:-.02em\">")
      ∷ value e.name
      ∷ lit (codes "</div>\n      <div style=\"font-size:12.5px;color:var(--mut)\">")
      ∷ value (or_else_text (or_blank e.type) (said l "Event"))
      ∷ lit (codes " · ")
      ∷ word (mode_name l e.operation_mode)
      ∷ lit (
          codes
            "</div>\n    </div>\n    <div class=\"mono\" style=\"font-size:12px;color:var(--mut);margin-bottom:14px\">\n      ")
      ∷ value (window l "open" e)
      ∷ lit (codes " · ")
      ∷ value in_group
      ∷ lit (codes " → ")
      ∷ value path
      ∷ lit (codes "\n    </div>")
      ∷ [])
    ∷ []

abbrev pub event_headline : Locale → EventsView → MediaEvent → List Part
event_headline l v e =
    headline l (group_name v.groups e.source_group_id (said l "unknown group"))
      (destination_path_for l.messages (v.local_date e.start_at) e
        (find_share e.destination_share_id v.shares))
      e

abbrev pub card_open : List Part
card_open = always (lit (codes "\n    ") ∷ []) ∷ []

abbrev pub between : List Part
between = always (lit (codes "\n    ") ∷ []) ∷ []

-- The button that starts or stops the only event, and the link to the preview.
abbrev pub card_close : Locale → Bool → MediaEvent → List Part
card_close l multiple e =
    always (lit (codes "\n    <div class=\"actions\" style=\"margin-top:14px\">\n      ") ∷ [])
    ∷ either (not multiple)
        (lit (codes "<button class=\"btn btn-acc\" type=\"button\" data-event-toggle=\"")
          ∷ value e.id
          ∷ lit (codes "\">\n         ")
          ∷ word (if is_active e.status then said l "Stop event" else said l "Start event")
          ∷ lit (codes "\n       </button>")
          ∷ [])
        []
    ∷ always (
        lit (codes "\n      <button class=\"btn btn-ghost\" type=\"button\" data-view=\"preview\">")
        ∷ say l "Preview routing"
        ∷ lit (codes "</button>\n    </div>")
        ∷ [])
    ∷ []

abbrev pub no_event : Locale → List Part
no_event l =
    always (
      lit
        (codes "\n      <div style=\"font-size:13px;color:var(--mut);line-height:1.6\">\n        ")
      ∷ say l
          "No event yet. An event is a capture-time window — everything shot inside it lands in one folder."
      ∷ lit (
          codes
            "\n      </div>\n      <div class=\"actions\" style=\"margin-top:14px\">\n        <button class=\"btn btn-acc\" type=\"button\" data-view=\"events\">")
      ∷ say l "Create an event"
      ∷ lit (codes "</button>\n      </div>")
      ∷ [])
    ∷ []

abbrev pub running_card : Locale → EventsView → List Part → List MediaEvent → List Piece
running_card l v automation [] = pieces (no_event l)
running_card l v automation (e ∷ []) =
    pieces card_open
    ++ (pieces (event_headline l v e)
        ++ (pieces between ++ (pieces automation ++ pieces (card_close l false e))))
running_card l v automation (e ∷ f ∷ es) =
    pieces card_open
    ++ (event_row_list l v (e ∷ f ∷ es)
        ++ (pieces between ++ (pieces automation ++ pieces (card_close l true e))))

-- The body of renderRunningEvent; `held` is the number of operations in quarantine.
unfoldable pub render_running_event : Locale → EventsView → ℕ → Counters → ScanState → List Piece
unfolding active_events
render_running_event l v held k s =
    running_card l v (automation_block l v.dry_run held k s) (active_events v.events)

-- The pill beside the title: its text, and whether it is marked as collecting.
abbrev pub pill_of : Locale → List MediaEvent → Text × Bool
pill_of l [] = (said l "None", false)
pill_of l (e ∷ []) = (
  if is_active e.status then said l "Active" else t l.messages (status_name e.status) none,
  is_active e.status,
)
pill_of l (e ∷ f ∷ es) = (
  format_number l (some (length (e ∷ f ∷ es)))
      ++ (32
          ∷ (if is_active e.status
              then said l "active"
              else map to_lower (t l.messages (status_name e.status) none))),
  is_active e.status,
)
