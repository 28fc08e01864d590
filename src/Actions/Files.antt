-- ===== src/Actions/Files.antt =====
-- app.js, the buttons of a single file: previewRouting, executeTransfer, routeAgain, dismissQuarantine
-- and retryQuarantine.
use moment_ferry.Common.{
  List, [], ◌∷◌, ◌++◌, Option, none, some, Bool, false, if◌then◌else◌, Text, codes, text_eq, find,
  or_blank, or_else_text,
}
use moment_ferry.Model.{Operation, is_copy, MediaEvent}
use moment_ferry.I18n.{t}
use moment_ferry.Format.{Locale}
use moment_ferry.Paths.{base_name}
use moment_ferry.Analysis.{find_event, find_share}
use moment_ferry.Markup.{said}
use moment_ferry.Actions.{
  with_found, ConsoleState, ApiRequest, post, Reply, operation_list, quarantine_list, request,
  preview_job, reload, alert_box, quarantine_message, routing_summary, routing_list, text, Program,
  done, prompt, tell, ◌>>=◌, ◌>>◌, catch, await, run_task, say, if_confirmed, or_alert,
}
use moment_ferry.Actions.Shares.{share_title, labelled}
use moment_ferry.Actions.Events.{a_post}

abbrev pub a_post_of : List Text → List (Text × Text) → ApiRequest
a_post_of path body = record { verb = post; path = path; query = []; body = body }

abbrev pub preview_failure : Locale → Text → Program (Unit {0})
preview_failure l m =
    say routing_list (said l "Preview failed" ++ said l "See the message below.")
    >> tell routing_summary (text m) (done tt)

abbrev pub preview_of : ConsoleState → Text → Program (Unit {0})
preview_of c id =
    say routing_summary []
    >> say routing_list (said c.locale "Scanning stable files and evaluating events…")
    >> catch
        (do
          result ←
              run_task
                (record {
                  key = codes "routing-preview:" ++ id;
                  label =
                      labelled (said c.locale "Routing preview")
                        (share_title c.locale (find_share id c.shares) "source");
                  view = codes "preview";
                })
                (await (preview_job id))
          say routing_summary (
              if c.dry_run
              then said c.locale "Dry Run: nothing here can be moved or deleted."
              else []))
        (preview_failure c.locale)

-- previewRouting, with the value of the select of sources. What it shows of the result is
-- Markup.Preview's.
unfoldable pub preview_routing : ConsoleState → Text → Program (Unit {0})
preview_routing c [] = done tt
preview_routing c (x ∷ id) = preview_of c (x ∷ id)

-- `result.message || t('Transfer finished: {{state}}', …)`
abbrev pub transfer_text : Locale → Reply → Text
transfer_text l r = or_else_text (or_blank (r.text (codes "message"))) (
    t l.messages (codes "Transfer finished: {{state}}") (
      some ((codes "state", t l.messages (or_blank (r.text (codes "operation.state"))) none) ∷ [])))

abbrev pub copies : Option MediaEvent → Bool
copies none = false
copies (some e) = is_copy e.operation_mode

abbrev pub event_name : Locale → Option MediaEvent → Text
event_name l none = said l "event"
event_name l (some e) = or_else_text e.name (said l "event")

abbrev pub transfer_question : Locale → Option MediaEvent → Text
transfer_question l event = t l.messages (codes "MomentFerry will {{action}}. Continue?") (
    some (
      (
        codes "action",
        if copies event
            then said l "copy this media file to the verified destination"
            else said l
                "safe-move this media file; the source is only deleted after destination SHA-256 verification",
      )
      ∷ []))

-- executeTransfer; `selected` is the value of the select of sources.
unfoldable pub execute_transfer : ConsoleState → Text → Text → Text → Program (Unit {0})
unfolding preview_routing
execute_transfer c selected file_id event_id =
    if_confirmed (transfer_question c.locale (find_event event_id c.events)) (
      or_alert (do
        result ←
            run_task
              (record {
                key = codes "transfer:" ++ file_id;
                label =
                    labelled (said c.locale "Transfer")
                      (event_name c.locale (find_event event_id c.events));
                view = codes "ops";
              })
              (await (
                request (
                  a_post_of (codes "transfers" ∷ [])
                    ((codes "mediaFileId", file_id) ∷ (codes "eventId", event_id) ∷ []))))
        say alert_box (transfer_text c.locale result)
        s ← await (reload (operation_list ∷ []))
        preview_routing c selected))

abbrev pub find_operation : Text → List Operation → Option Operation
find_operation id = find λ o. text_eq o.id id

abbrev pub again_file_question : Locale → Operation → Text
again_file_question l o =
    t l.messages
      (codes
        "Route this file again with the current naming rules? The copy already at {{path}} stays where it is.")
      (some (
        (codes "path", or_else_text (or_blank o.destination_path) (said l "the destination")) ∷ []))

unfoldable pub route_again : ConsoleState → Text → Program (Unit {0})
route_again c id = with_found (find_operation id c.operations) λ operation.
    if_confirmed (again_file_question c.locale operation) (
      or_alert (do
        result ←
            run_task
              (record {
                key = codes "route-again:" ++ id;
                label = labelled (said c.locale "Route again") (base_name operation.source_path);
                view = codes "transfer";
              })
              (await (request (a_post (codes "operations" ∷ id ∷ codes "route-again" ∷ []))))
        say alert_box (transfer_text c.locale result)
        s ← await (reload (operation_list ∷ quarantine_list ∷ []))
        done tt))

-- Both handlers of a held operation show what goes wrong beside the list.
abbrev pub or_held_message : Program (Unit {0}) → Program (Unit {0})
or_held_message p = catch p (say quarantine_message)

abbrev pub dismiss_noted : ConsoleState → Text → Option Text → Program (Unit {0})
dismiss_noted c id none = done tt
dismiss_noted c id (some note) = or_held_message (do
  r ← await (
      request (
        a_post_of (codes "quarantine" ∷ id ∷ codes "dismiss" ∷ [])
          ((codes "resolutionNote", note) ∷ [])))
  say quarantine_message (said c.locale "Item dismissed. Source preserved.")
  s ← await (reload (quarantine_list ∷ operation_list ∷ []))
  done tt)

unfoldable pub dismiss_quarantine : ConsoleState → Text → Program (Unit {0})
dismiss_quarantine c id =
    prompt
      (said c.locale
        "Describe how this held operation was resolved. The source file will not be deleted.")
      (dismiss_noted c id)

unfoldable pub retry_quarantine : ConsoleState → Text → Program (Unit {0})
retry_quarantine c id =
    if_confirmed (said c.locale "Retry this held transfer from the preserved source file?") (
      or_held_message (do
        r ←
            run_task
              (record {
                key = codes "quarantine-retry:" ++ id;
                label = said c.locale "Retry held transfer";
                view = codes "ops";
              })
              (await (request (a_post (codes "operations" ∷ id ∷ codes "retry" ∷ []))))
        say quarantine_message (said c.locale "Held transfer retried.")
        s ← await (reload (quarantine_list ∷ operation_list ∷ []))
        done tt))
