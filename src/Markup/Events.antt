-- ===== src/Markup/Events.antt =====
-- app.js, eventStatusPill and renderEvents: the list of events.
use moment_ferry.Common.{
  ℕ, List, [], ◌∷◌, ◌++◌, Option, none, some, Bool, true, false, ◌&&◌, ◌||◌, not, if◌then◌else◌,
  ◌==◌, Text, codes, text_eq, filter, length, flat_map, String, is_some, or_else_text,
}
use moment_ferry.Model.{
  Share, SourceGroup, MediaEvent, EventStatus, archived, cancelled, Operation, OperationMode,
  is_active, is_planned, is_closed, is_copy,
}
use moment_ferry.I18n.{t}
use moment_ferry.Format.{Locale, format_date}
use moment_ferry.Paths.{destination_path_for}
use moment_ferry.Picker.{Civil}
use moment_ferry.Analysis.{status_name, find_share, find_group}
use moment_ferry.Markup.{Piece, lit, value, word, Part, always, either, pieces, said, say, number}

-- eventStatusPill
abbrev pub status_pill : Locale → EventStatus → List Part
status_pill l s =
    either (is_active s)
      (lit (codes "<span class=\"pill pill-acc\">")
        ∷ say l "Collecting"
        ∷ lit (codes "</span>")
        ∷ [])
      []
    ∷ either (is_planned s)
        (lit (codes "<span class=\"pill pill-amb\">")
          ∷ say l "Planned"
          ∷ lit (codes "</span>")
          ∷ [])
        []
    ∷ either (not (is_active s || is_planned s))
        (lit (codes "<span class=\"pill\">")
          ∷ value (t l.messages (status_name s) none)
          ∷ lit (codes "</span>")
          ∷ [])
        []
    ∷ []

abbrev pub mode_name : Locale → OperationMode → Text
mode_name l mode = if is_copy mode then said l "Copy" else said l "Safe Move"

-- `formatDate(startAt) → formatDate(endAt)`, with a text for an event that has no end.
abbrev pub window : Locale → String → MediaEvent → Text
window l without e =
    format_date l (some e.start_at)
    ++ (codes " → " ++ (if is_some e.end_at then format_date l e.end_at else said l without))

-- `groups.find(...)?.name || other`
abbrev pub group_name : List SourceGroup → Text → Text → Text
group_name groups id without = elim (find_group id groups) [
  | none ↦ without
  | some g ↦ or_else_text g.name without
]

-- `event.status !== 'Archived' && event.status !== 'Cancelled'`
abbrev pub can_start : EventStatus → Bool
can_start archived = false
can_start cancelled = false
can_start _ = true

-- What the list shows beside the event: `routed` operations, the group's name and the path.
abbrev pub event_card : Locale → Bool → ℕ → Text → Text → MediaEvent → List Part
event_card l dry_run routed in_group path e =
    always (
        lit (
          codes
            "\n      <article class=\"list-row\">\n        <div class=\"list-main\">\n          <div class=\"list-heading\">\n            <span class=\"list-title list-title-lg\">")
        ∷ value e.name
        ∷ lit (codes "</span>\n            ")
        ∷ [])
      ∷ status_pill l e.status
    ++ always (
        lit (
          codes
            "\n          </div>\n          <div class=\"list-meta\" style=\"margin-bottom:5px\">")
        ∷ value (window l "still open" e)
        ∷ lit (codes " · ")
        ∷ value in_group
        ∷ lit (codes " · ")
        ∷ word (mode_name l e.operation_mode)
        ∷ lit (codes "</div>\n          <div class=\"list-path\">")
        ∷ value path
        ∷ lit (codes "</div>\n        </div>\n        <div class=\"list-side\">\n          ")
        ∷ [])
      ∷ either (not (routed == 0))
          (lit (codes "<div class=\"list-count\">")
            ∷ number l routed
            ∷ lit (codes "</div><div class=\"list-meta\" style=\"margin-bottom:10px\">")
            ∷ say l "files routed"
            ∷ lit (codes "</div>")
            ∷ [])
          ([])
      ∷ always (
          lit (
            codes
              "\n          <div class=\"card-actions\">\n            <button class=\"btn btn-sm btn-ghost\" type=\"button\" onclick=\"editEvent('")
          ∷ word e.id
          ∷ lit (codes "')\">")
          ∷ say l "Edit"
          ∷ lit (
              codes
                "</button>\n            <button class=\"btn btn-sm btn-ghost\" type=\"button\" onclick=\"backfillEvent('")
          ∷ word e.id
          ∷ lit (codes "')\" title=\"")
          ∷ value (
              said l
                "Scan the source shares and route media already captured in this event's window")
          ∷ lit (codes "\">")
          ∷ say l "Sort existing media"
          ∷ lit (codes "</button>\n            ")
          ∷ [])
      ∷ either (dry_run) ([]) (
          lit (
            codes
              "<button class=\"btn btn-sm btn-ghost\" type=\"button\" onclick=\"routeEventAgain('")
          ∷ word e.id
          ∷ lit (codes "')\" title=\"")
          ∷ value (
              said l
                "Clear the finished mark on the files of this event and route them all again under the current rules")
          ∷ lit (codes "\">")
          ∷ say l "Route again"
          ∷ lit (codes "</button>")
          ∷ [])
      ∷ always (
          lit (
            codes
              "\n            <button class=\"btn btn-sm btn-ghost\" type=\"button\" onclick=\"renameRoutedFiles('")
          ∷ word e.id
          ∷ lit (codes "')\" title=\"")
          ∷ value (said l "Apply the current naming rules to the files this event already stored")
          ∷ lit (codes "\">")
          ∷ say l "Rename stored files"
          ∷ lit (codes "</button>\n            ")
          ∷ [])
      ∷ either (is_active e.status)
          (lit (codes "<button class=\"btn btn-sm\" type=\"button\" onclick=\"stopEvent('")
            ∷ word e.id
            ∷ lit (codes "')\">")
            ∷ say l "Stop"
            ∷ lit (codes "</button>")
            ∷ [])
          []
      ∷ either (not (is_active e.status) && can_start e.status)
          (lit (codes "<button class=\"btn btn-sm\" type=\"button\" onclick=\"startEvent('")
            ∷ word e.id
            ∷ lit (codes "')\">")
            ∷ word (if is_closed e.status then said l "Reopen" else said l "Start")
            ∷ lit (codes "</button>")
            ∷ [])
          []
      ∷ always (
          lit (
            codes
              "\n            <button class=\"btn btn-sm btn-danger\" type=\"button\" onclick=\"deleteEvent('")
          ∷ word e.id
          ∷ lit (codes "')\">")
          ∷ say l "Remove"
          ∷ lit (codes "</button>\n          </div>\n        </div>\n      </article>")
          ∷ [])
      ∷ []

-- `operations.filter(o => o.eventId === event.id).length`
abbrev pub routed_count : List Operation → Text → ℕ
routed_count operations id =
    length (filter (λ o. elim o.event_id [ none ↦ false | some e ↦ text_eq e id ]) operations)

-- What the page shows: its lists, and the local date of an instant.
pub record EventsView : Type 0 where
  pub dry_run : Bool
  pub groups : List SourceGroup
  pub shares : List Share
  pub events : List MediaEvent
  pub operations : List Operation
  pub local_date : ℕ → Option Civil

abbrev pub shown_event : Locale → EventsView → MediaEvent → List Part
shown_event l v e =
    event_card l v.dry_run (routed_count v.operations e.id)
      (group_name v.groups e.source_group_id e.source_group_id)
      (destination_path_for l.messages (v.local_date e.start_at) e
        (find_share e.destination_share_id v.shares))
      e

abbrev pub event_list : Locale → EventsView → List MediaEvent → List Piece
event_list l v [] = pieces (
    always (
      lit (codes "<div class=\"empty\"><strong>")
      ∷ say l "No events yet"
      ∷ lit (codes "</strong>")
      ∷ say l "An event is a capture-time window. Anything shot inside it lands in one folder."
      ∷ lit (codes "</div>")
      ∷ [])
    ∷ [])
event_list l v (e ∷ es) = flat_map (λ x. pieces (shown_event l v x)) (e ∷ es)

unfoldable pub render_events : Locale → EventsView → List Piece
render_events l v = event_list l v v.events
