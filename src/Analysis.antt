-- ===== src/Analysis.antt =====
-- src/MomentFerry.Web/wwwroot/app.js, file analysis: the checks that explain why an event does or
-- does not take a file.
pub mod Routing
mod Tests
use moment_ferry.Common.{
  ℕ, List, [], ◌∷◌, ◌++◌, Option, none, some, Bool, true, false, ◌&&◌, ◌||◌, not, if◌then◌else◌,
  ◌/◌, ltb, leb, Text, codes, text_eq, includes, find, filter, every, take, join, map, is_empty,
  is_some,
}
use moment_ferry.Model.{
  Share, SourceGroup, MediaEvent, MediaFile, EventStatus, planned, active, closed, archived,
  cancelled, is_active, is_closed, is_source,
}
use moment_ferry.I18n.{t, Messages}
use moment_ferry.Format.{Locale, format_date}

pub record Check : Type 0 where
  pub ok : Bool
  pub text : Text

-- The spelling of an event's status in the API, which is also the key of its translation.
abbrev pub status_name : EventStatus → Text
status_name planned = codes "Planned"
status_name active = codes "Active"
status_name closed = codes "Closed"
status_name archived = codes "Archived"
status_name cancelled = codes "Cancelled"

abbrev pub find_group : Text → List SourceGroup → Option SourceGroup
find_group id = find λ g. text_eq g.id id

abbrev pub find_share : Text → List Share → Option Share
find_share id = find λ s. text_eq s.id id

abbrev pub find_event : Text → List MediaEvent → Option MediaEvent
find_event id = find λ e. text_eq e.id id

-- `new Date(text)` keeps the whole milliseconds of an instant.
abbrev pub millis : ℕ → ℕ
millis ticks = ticks / 10000

-- `end && captured > end`, of dates.
abbrev pub is_after : ℕ → Option ℕ → Bool
is_after captured none = false
is_after captured (some end) = ltb (millis end) (millis captured)

-- `Boolean(group?.shareIds.includes(share.id))`
abbrev pub has_member : Option SourceGroup → Text → Bool
has_member none id = false
has_member (some g) id = includes g.share_ids id

-- `Boolean(destination?.enabled && destination.role !== 'Source')`
abbrev pub is_writable : Option Share → Bool
is_writable none = false
is_writable (some d) = d.enabled && not (is_source d.role)

-- The console's lists, as the last load left them.
pub record Console : Type 0 where
  pub locale : Locale
  pub groups : List SourceGroup
  pub shares : List Share
  pub events : List MediaEvent
  pub allow_filesystem_timestamp_fallback : Bool

window_text : Locale → MediaEvent → MediaFile → Text
window_text l event file =
    if ltb (millis file.captured_at) (millis event.start_at)
    then t l.messages (codes "Captured {{captured}}, before the event starts at {{start}}.") (
        some (
          (codes "captured", format_date l (some file.captured_at))
          ∷ (codes "start", format_date l (some event.start_at))
          ∷ []))
    else if is_after file.captured_at event.end_at
    then t l.messages (codes "Captured {{captured}}, after the event ends at {{end}}.") (
        some (
          (codes "captured", format_date l (some file.captured_at))
          ∷ (codes "end", format_date l event.end_at)
          ∷ []))
    else t l.messages (codes "Captured {{captured}}, inside the event window.")
        (some ((codes "captured", format_date l (some file.captured_at)) ∷ []))

group_text : Locale → Option SourceGroup → Share → Text
group_text l none share = t l.messages (codes "The event's source group no longer exists.") none
group_text l (some group) share =
    t l.messages
      (if has_member (some group) share.id
        then codes "{{share}} contributes through the group {{group}}."
        else codes "{{share}} is not a member of the group {{group}}.")
      (some ((codes "share", share.name) ∷ (codes "group", group.name) ∷ []))

destination_text : Locale → Option Share → Text
destination_text l none =
    t l.messages (codes "The event's destination share no longer exists.") none
destination_text l (some destination) =
    t l.messages
      (if is_writable (some destination)
        then codes "Destination {{share}} is writable."
        else codes "Destination {{share}} is disabled or not writable by role.")
      (some ((codes "share", destination.name) ∷ []))

module _ (c : Console) where
  open c use {locale, groups, shares, events, allow_filesystem_timestamp_fallback}

  pub event_checks : MediaEvent → MediaFile → Share → List Check
  unfolding window_text group_text destination_text
  event_checks event file share =
      record {
        ok = is_active event.status || is_closed event.status;
        text =
            t locale.messages
              (codes "Status is {{status}}. Only Active and Closed events take files.")
              (some ((codes "status", t locale.messages (status_name event.status) none) ∷ []));
      }
      ∷ record {
        ok =
            leb (millis event.start_at) (millis file.captured_at)
            && not (is_after file.captured_at event.end_at);
        text = window_text locale event file;
      }
      ∷ record {
        ok = has_member (find_group event.source_group_id groups) share.id;
        text = group_text locale (find_group event.source_group_id groups) share;
      }
      ∷ record {
        ok = is_writable (find_share event.destination_share_id shares);
        text = destination_text locale (find_share event.destination_share_id shares);
      }
      ∷ []

  pub event_matches : MediaEvent → MediaFile → Share → Bool
  event_matches event file share = every (λ k. k.ok) (take 3 (event_checks event file share))

  -- The other events that a file matches.
  pub other_matches : MediaEvent → MediaFile → Share → List MediaEvent
  other_matches event file share =
      filter (λ x. not (text_eq x.id event.id) && event_matches x file share) events

  -- `timestampSource === 'FileLastWriteTimeUtc' && !appInfo.allowFilesystemTimestampFallback`
  pub lacks_capture_time : MediaFile → Bool
  lacks_capture_time file = elim file.timestamp_source [
    | none ↦ false
    | some origin ↦
        text_eq origin (codes "FileLastWriteTimeUtc") && not allow_filesystem_timestamp_fallback
  ]

  -- renderEventAnalysis: all checks that are listed for the chosen event.
  pub analysis_checks : MediaEvent → MediaFile → Share → List Check
  unfolding other_matches lacks_capture_time
  analysis_checks event file share =
      event_checks event file share
      ++ ((if is_empty (other_matches event file share)
            then []
            else record {
              ok = false;
              text =
                  t locale.messages
                    (codes
                      "Also matches {{events}}. A file that matches more than one event is not routed until only one matches.")
                    (some (
                      (
                        codes "events",
                        join (codes ", ") (map (λ e. e.name) (other_matches event file share)),
                      )
                      ∷ []));
            }
              ∷ [])
          ++ (if lacks_capture_time file
              then record {
                ok = false;
                text =
                    t locale.messages
                      (codes
                        "No capture time in the metadata, and the file-date fallback is off, so automation skips this file.")
                      none;
              }
                ∷ []
              else []))

  -- "This event takes the file."
  pub takes : MediaEvent → MediaFile → Share → Bool
  unfolding analysis_checks
  takes event file share = every (λ k. k.ok) (analysis_checks event file share)
