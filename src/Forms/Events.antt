-- ===== src/Forms/Events.antt =====
-- app.js, editEvent, resetEventForm, operationModeValue, setOperationMode and the submit handler of
-- the event form.
use moment_ferry.Common.{
  ℕ, List, [], ◌∷◌, ◌++◌, Option, none, some, true, false, not, ◌&&◌, if◌then◌else◌, Text, codes,
  includes, filter, map, ◌*◌, ◌/◌, ap, ◌∙◌, ◌≡◌, ◌≢◌, refl, is_empty, or_blank,
}
use moment_ferry.Model.{
  Share, SourceGroup, MediaEvent, OperationMode, copy, safe_move, archive, ConflictStrategy,
  append_source_name, DuplicateStrategy, safe_move_to_existing, is_source,
}
use moment_ferry.Analysis.{status_name}
use moment_ferry.Forms.{choose, or_null, put, Sent, sent, NotBlank, or_null-or_blank, sent-put}

-- The browser's clock: the local text `YYYY-MM-DDTHH:mm` of an instant (toLocalInput), and the
-- instant of such a text (fromLocalInput), none where it is no date and the function throws.
pub record Zone : Type 0 where
  pub to_local_input : ℕ → Text
  pub from_local_input : Text → Option ℕ

pub record EventForm : Type 0 where
  pub event_id : Text
  pub name : Text
  pub type : Text
  pub source_group : Text
  pub destination : Text
  pub start : Text
  pub end : Text
  pub status : Text
  -- The radio button that is checked.
  pub operation : Option OperationMode
  pub conflict : ConflictStrategy
  pub duplicate : DuplicateStrategy
  pub template : Text

-- setOperationMode: there are buttons for two modes.
pub set_operation_mode : OperationMode → Option OperationMode
set_operation_mode copy = some copy
set_operation_mode safe_move = some safe_move
set_operation_mode archive = none

pub operation_mode_value : Option OperationMode → OperationMode
operation_mode_value none = safe_move
operation_mode_value (some mode) = mode

-- The options of the three selects (renderEventSelectors, index.html).
abbrev pub group_options : List SourceGroup → List Text
group_options [] = [] ∷ []
group_options (g ∷ gs) = map (λ x. x.id) (g ∷ gs)

abbrev pub listed_or_blank : List Share → List Text
listed_or_blank [] = [] ∷ []
listed_or_blank (s ∷ ss) = map (λ x. x.id) (s ∷ ss)

abbrev pub destination_options : List Share → List Text
destination_options shares =
    listed_or_blank (filter (λ s. s.enabled && not (is_source s.role)) shares)

abbrev pub status_options : List Text
status_options = codes "Planned" ∷ codes "Active" ∷ codes "Closed" ∷ []

abbrev pub end_text : Zone → Option ℕ → Text
end_text z none = []
end_text z (some at) = z.to_local_input at

unfoldable pub edit_event : Zone → List SourceGroup → List Share → MediaEvent → EventForm
unfolding choose set_operation_mode
edit_event z groups shares e = record {
  event_id = e.id;
  name = e.name;
  type = or_blank e.type;
  source_group = choose (group_options groups) e.source_group_id;
  destination = choose (destination_options shares) e.destination_share_id;
  start = z.to_local_input e.start_at;
  end = end_text z e.end_at;
  status = choose status_options (status_name e.status);
  operation = set_operation_mode e.operation_mode;
  conflict = e.conflict_strategy;
  duplicate = e.duplicate_strategy;
  template = e.destination_folder_template;
}

abbrev first_of : List Text → Text
first_of [] = []
first_of (x ∷ xs) = x

-- resetEventForm; the selects of the group and the destination show their first option.
unfoldable pub reset_event_form : Zone → List SourceGroup → List Share → ℕ → EventForm
unfolding set_operation_mode
reset_event_form z groups shares now = record {
  event_id = [];
  name = [];
  type = codes "Vacation";
  source_group = first_of (group_options groups);
  destination = first_of (destination_options shares);
  start = z.to_local_input now;
  end = [];
  status = codes "Planned";
  operation = set_operation_mode safe_move;
  conflict = append_source_name;
  duplicate = safe_move_to_existing;
  template = codes "{event.name}";
}

pub record EventRequest : Type 0 where
  pub name : Text
  pub type : Option Text
  pub start_at : ℕ
  pub end_at : Option ℕ
  pub status : Text
  pub source_group_id : Text
  pub destination_share_id : Text
  pub destination_folder_template : Text
  pub operation_mode : OperationMode
  pub conflict_strategy : ConflictStrategy
  pub duplicate_strategy : DuplicateStrategy

abbrev with_times : ℕ → Option ℕ → EventForm → Sent EventRequest
with_times start_at end_at f =
    sent (codes "/api/v1/events") (codes "/api/v1/events/") f.event_id (record {
      name = f.name;
      type = or_null f.type;
      start_at = start_at;
      end_at = end_at;
      status = f.status;
      source_group_id = f.source_group;
      destination_share_id = f.destination;
      destination_folder_template = f.template;
      operation_mode = operation_mode_value f.operation;
      conflict_strategy = f.conflict;
      duplicate_strategy = f.duplicate;
    })

abbrev with_start : Zone → EventForm → Option ℕ → Option (Sent EventRequest)
with_start z f none = none
with_start z f (some start_at) =
    if is_empty f.end then some (with_times start_at none f) else elim (z.from_local_input f.end) [
      | none ↦ none
      | some end_at ↦ some (with_times start_at (some end_at) f)
    ]

-- The submit handler of the event form, up to the request; none where a date is invalid.
unfoldable pub submit_event : Zone → EventForm → Option (Sent EventRequest)
unfolding operation_mode_value
submit_event z f = with_start z f (z.from_local_input f.start)

-- An event that the form can show: its group and its destination are options, its status is one of
-- the three, and its type is not blank.
pub record IsShown (groups : List SourceGroup) (shares : List Share) (e : MediaEvent) : Type 0 where
  pub identified : e.id ≢ []
  pub typed : NotBlank e.type
  pub group_listed : includes (group_options groups) e.source_group_id ≡ true
  pub destination_listed : includes (destination_options shares) e.destination_share_id ≡ true
  pub status_listed : includes status_options (status_name e.status) ≡ true

-- The browser's clock reads back an instant down to the minute, as it does outside the hour that a
-- clock change repeats.
abbrev pub IsReadBack : Zone → ℕ → Type 0
IsReadBack z at =
    (z.to_local_input at ≢ [])
    × (z.from_local_input (z.to_local_input at) ≡ some (at / 600000000 * 600000000))

abbrev pub EndIsReadBack : Zone → Option ℕ → Type 0
EndIsReadBack z none = Unit
EndIsReadBack z (some at) = IsReadBack z at

abbrev pub to_minute : Option ℕ → Option ℕ
to_minute none = none
to_minute (some at) = some (at / 600000000 * 600000000)

-- Archive has no button.
abbrev pub shown_mode : OperationMode → OperationMode
shown_mode copy = copy
shown_mode safe_move = safe_move
shown_mode archive = safe_move

operation_mode_value-set_operation_mode :
    (m : OperationMode) → operation_mode_value (set_operation_mode m) ≡ shown_mode m
unfolding operation_mode_value set_operation_mode
operation_mode_value-set_operation_mode copy = refl
operation_mode_value-set_operation_mode safe_move = refl
operation_mode_value-set_operation_mode archive = refl

is_empty_of : (s : Text) → s ≢ [] → is_empty s ≡ false
is_empty_of [] h = absurd (h refl)
is_empty_of (c ∷ s) h = refl

with_start_lem :
    (z : Zone) (f : EventForm) (start_at : ℕ) (end_at : Option ℕ)
    → f.end ≡ end_text z end_at
    → EndIsReadBack z end_at
    → with_start z f (some start_at) ≡ some (with_times start_at (to_minute end_at) f)
with_start_lem z f start_at none e h = rw e refl
with_start_lem z f start_at (some at) e h = rw (e, is_empty_of (z.to_local_input at) h.0, h.1) refl

-- Opening an event that the form can show, at times that the browser's clock reads back to the
-- minute, and saving it unchanged puts to its own address the event as it is, but for the seconds of
-- its times and for the mode Archive, which becomes Safe Move.
pub submit_event-edit_event :
    (z : Zone) (groups : List SourceGroup) (shares : List Share) (e : MediaEvent)
    → IsShown groups shares e
    → IsReadBack z e.start_at
    → EndIsReadBack z e.end_at
    → submit_event z (edit_event z groups shares e)
      ≡ some (record {
        method = put;
        url = codes "/api/v1/events/" ++ e.id;
        body = record {
          name = e.name;
          type = e.type;
          start_at = e.start_at / 600000000 * 600000000;
          end_at = to_minute e.end_at;
          status = status_name e.status;
          source_group_id = e.source_group_id;
          destination_share_id = e.destination_share_id;
          destination_folder_template = e.destination_folder_template;
          operation_mode = shown_mode e.operation_mode;
          conflict_strategy = e.conflict_strategy;
          duplicate_strategy = e.duplicate_strategy;
        };
      })
unfolding submit_event edit_event choose
submit_event-edit_event z groups shares e v start end =
    let f : EventForm = edit_event z groups shares e in
    ap (with_start z f) start.1
    ∙ with_start_lem z f (e.start_at / 600000000 * 600000000) e.end_at refl end
    ∙ rw
        (
          or_null-or_blank e.type v.typed,
          v.group_listed,
          v.destination_listed,
          v.status_listed,
          operation_mode_value-set_operation_mode e.operation_mode,
          sent-put (codes "/api/v1/events") (codes "/api/v1/events/") e.id _ v.identified,
        )
        refl
