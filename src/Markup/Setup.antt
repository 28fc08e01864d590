-- ===== src/Markup/Setup.antt =====
-- app.js, SETUP_STEPS, renderOnboarding and renderSetup: what is left to do before going Live.
use moment_ferry.Common.{
  ℕ, List, [], ◌∷◌, ◌++◌, Option, none, some, Bool, true, false, ◌&&◌, ◌||◌, not, if◌then◌else◌,
  ◌==◌, Text, codes, filter, length, flat_map, String, suc, is_empty, is_some, decimal, ◌-◌,
}
use moment_ferry.Model.{MediaEvent, Operation}
use moment_ferry.I18n.{t}
use moment_ferry.Format.{Locale, format_number, format_bytes}
use moment_ferry.Paths.{destination_folder}
use moment_ferry.Picker.{Civil}
use moment_ferry.Markup.{Piece, lit, pick, value, word, Part, always, pieces, said}
use moment_ferry.Markup.Storage.{StorageItem, StorageInfo}
use moment_ferry.Markup.Overview.{active_events}

pub record SetupStep : Type 0 where
  pub label : Text
  pub done : Bool
  pub view : Text

abbrev pub counted : Locale → ℕ → String → String → String → Text
counted l n none_yet one_key many_keys =
    if n == 0
    then said l none_yet
    else t l.messages (if n == 1 then codes one_key else codes many_keys)
        (some ((codes "count", format_number l (some n)) ∷ []))

-- SETUP_STEPS, from the numbers of shares and groups.
unfoldable pub setup_steps : Locale → ℕ → ℕ → Bool → List SetupStep
setup_steps l shares groups dry =
    record { label = said l "Safety reviewed"; done = true; view = codes "settings" }
    ∷ record {
      label = counted l shares "Add folders" "{{count}} share added" "{{count}} shares added";
      done = not (shares == 0);
      view = codes "shares";
    }
    ∷ record {
      label = counted l groups "Group the phones" "{{count}} group" "{{count}} groups";
      done = not (groups == 0);
      view = codes "groups";
    }
    ∷ record {
      label = if dry then said l "Verify, then go Live →" else said l "Live mode enabled";
      done = not dry;
      view = codes "setup";
    }
    ∷ []

abbrev pub guide_step : Locale → SetupStep × ℕ → List Part
guide_step l (step, number_of) =
    always (
      lit (codes "\n    <button class=\"guide-step ")
      ∷ pick step.done [] (codes "is-todo")
      ∷ lit (codes "\" type=\"button\" data-view=\"")
      ∷ word step.view
      ∷ lit (codes "\">\n      <div class=\"guide-state\">")
      ∷ word (
          if step.done
          then said l "Done"
          else t l.messages (codes "Step {{number}}")
              (some ((codes "number", decimal number_of) ∷ [])))
      ∷ lit (codes "</div>\n      <div class=\"guide-label\"")
      ∷ pick step.done [] (codes " style=\"font-weight:500\"")
      ∷ lit (codes ">")
      ∷ value step.label
      ∷ lit (codes "</div>\n    </button>")
      ∷ [])
    ∷ []

-- Each with its number from `i` on.
abbrev pub numbered {ℓ} : {A : Type ℓ} → ℕ → List A → List (A × ℕ)
numbered i [] = []
numbered i (x ∷ xs) = (x, i) ∷ numbered (suc i) xs

abbrev pub undone : List SetupStep → List SetupStep
undone = filter λ s. not s.done

-- The panel of renderOnboarding: none where it is hidden.
abbrev pub panel : Locale → Bool → List SetupStep → Option (Text × List Piece)
panel l dismissed steps =
    if is_empty (undone steps) || dismissed
    then none
    else some (
      t l.messages
          (codes
            "{{done}} of {{total}} steps done. MomentFerry stays in Dry Run until you say otherwise.")
          (some (
            (codes "done", decimal (length steps - length (undone steps)))
            ∷ (codes "total", decimal (length steps))
            ∷ [])),
      flat_map (λ x. pieces (guide_step l x)) (numbered 1 steps),
    )

unfoldable pub render_onboarding : Locale → Bool → ℕ → ℕ → Bool → Option (Text × List Piece)
unfolding setup_steps
render_onboarding l dismissed shares groups dry =
    panel l dismissed (setup_steps l shares groups dry)

-- The steps of renderSetup, and the place of the first that is not done.
abbrev pub wizard_steps : Locale → ℕ → ℕ → Bool → List (Text × Bool)
wizard_steps l shares groups dry =
    (said l "Review safety", true)
    ∷ (said l "Add folders", not (shares == 0))
    ∷ (said l "Group the phones", not (groups == 0))
    ∷ (said l "Verify and go Live", not dry)
    ∷ []

abbrev pub first_undone : ℕ → List (Text × Bool) → Option ℕ
first_undone i [] = none
first_undone i ((label, done) ∷ rest) = if done then first_undone (suc i) rest else some i

abbrev pub is_at : Option ℕ → ℕ → Bool
is_at none i = false
is_at (some k) i = k == i

abbrev pub wizard_step : Option ℕ → (Text × Bool) × ℕ → List Part
wizard_step current ((label, done), i) =
    always (
      lit (codes "\n      <div class=\"wizard-step ")
      ∷ pick (is_at current i) (codes "is-current") []
      ∷ lit (codes "\">\n        <span class=\"wizard-marker ")
      ∷ pick done (codes "is-done") []
      ∷ pick (not done && is_at current i) (codes "is-current") []
      ∷ lit (codes "\">")
      ∷ word (if done then codes "✓" else decimal (suc i))
      ∷ lit (codes "</span>\n        <span>")
      ∷ value label
      ∷ lit (codes "</span>\n      </div>")
      ∷ [])
    ∷ []

unfoldable pub render_setup_steps : Locale → ℕ → ℕ → Bool → List Piece
render_setup_steps l shares groups dry =
    flat_map (λ x. pieces (wizard_step (first_undone 0 (wizard_steps l shares groups dry)) x))
      (numbered 0 (wizard_steps l shares groups dry))

pub record SetupCheck : Type 0 where
  pub name : Text
  pub detail : Text
  pub ok : Bool
  pub mono : Bool

abbrev pub first_item : Option StorageInfo → Option StorageItem
first_item none = none
first_item (some info) = elim info.items [ [] ↦ none | x ∷ xs ↦ some x ]

-- `destinationPathFor(sampleEvent, destination)` of the first item of the storage.
abbrev pub sample_path : Locale → (ℕ → Option Civil) → Option MediaEvent → Option StorageItem → Text
sample_path l local_date none item = said l "No event and destination pair configured yet."
sample_path l local_date (some e) none = said l "No event and destination pair configured yet."
sample_path l local_date (some e) (some x) =
    x.path ++ (b'/' ∷ destination_folder l.messages (local_date e.start_at) e)

abbrev pub room_text : Locale → ℕ → Option StorageItem → Text
room_text l reserve none = said l "Destination free space is unknown."
room_text l reserve (some x) =
    if x.exists && is_some x.available_free_space_bytes
    then t l.messages (codes "{{free}} free · {{reserve}} reserve untouched") (
        some (
          (codes "free", format_bytes l.messages x.available_free_space_bytes)
          ∷ (codes "reserve", format_bytes l.messages (some reserve))
          ∷ []))
    else said l "Destination free space is unknown."

abbrev pub has_room : Option StorageItem → Bool
has_room none = false
has_room (some x) = x.exists && not x.below_reserve

abbrev pub first_event : List MediaEvent → Option MediaEvent
first_event [] = none
first_event (e ∷ es) = some e

abbrev pub reserve_of : Option StorageInfo → ℕ
reserve_of none = 0
reserve_of (some info) = info.minimum_free_space_reserve_bytes

-- The checks of renderSetup.
unfoldable pub setup_checks :
    Locale
    → (ℕ → Option Civil)
    → List MediaEvent
    → List Operation
    → Option StorageInfo
    → List SetupCheck
unfolding active_events
setup_checks l local_date events operations info =
    record {
      name = said l "Capture times look right";
      detail =
          said l
            "Run a routing preview on a source share to confirm the capture times MomentFerry reads.";
      ok = not (is_empty operations) || not (is_empty events);
      mono = false;
    }
    ∷ record {
      name = said l "Destination path looks right";
      detail = sample_path l local_date (first_event (active_events events)) (first_item info);
      ok = is_some (first_event (active_events events)) && is_some (first_item info);
      mono = true;
    }
    ∷ record {
      name = said l "There is room";
      detail = room_text l (reserve_of info) (first_item info);
      ok = has_room (first_item info);
      mono = false;
    }
    ∷ []

abbrev pub check_row : Locale → SetupCheck → List Part
check_row l check =
    always (
      lit
        (codes "\n    <div class=\"check-row\">\n      <div>\n        <div class=\"setting-name\">")
      ∷ value check.name
      ∷ lit (codes "</div>\n        <div class=\"setting-desc")
      ∷ pick check.mono (codes " mono") []
      ∷ lit (codes "\">")
      ∷ value check.detail
      ∷ lit (codes "</div>\n      </div>\n      <span class=\"pill ")
      ∷ pick check.ok (codes "pill-acc") (codes "pill-amb")
      ∷ lit (codes "\">")
      ∷ word (if check.ok then said l "Checked" else said l "Review")
      ∷ lit (codes "</span>\n    </div>")
      ∷ [])
    ∷ []

unfoldable pub render_setup_checks : Locale → List SetupCheck → List Piece
render_setup_checks l checks = flat_map (λ c. pieces (check_row l c)) checks
