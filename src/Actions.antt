-- ===== src/Actions.antt =====
-- src/MomentFerry.Web/wwwroot/app.js and settings.js: what the buttons do. A handler is a program that
-- asks the user, calls the server and tells what came of it; its text is that of the async function,
-- with `throw` as `raise` and `try … catch` as `catch`. What it calls is answered from outside, so every
-- run is one of the answers that the user and the server give.
pub mod Shares
pub mod Events
pub mod Files
pub mod Upkeep
pub mod Saving
pub mod Refreshing
pub mod Handlers
pub mod Consent
pub mod Confirmed
pub mod Honest
pub mod Reported
mod Tests
use moment_ferry.Common.{
  ℕ, List, [], ◌∷◌, ◌++◌, Option, none, some, Bool, true, false, not, ◌&&◌, ◌||◌, Text, codes,
  String, text_eq, includes, ◌⊎◌, inl, inr,
}
use moment_ferry.Model.{Share, SourceGroup, MediaEvent, Operation}
use moment_ferry.I18n.{Messages, t}
use moment_ferry.Format.{Locale}
use moment_ferry.Markup.Naming.{RenamePreset}

-- The state that the handlers read.
pub record ConsoleState : Type 0 where
  pub locale : Locale
  pub dry_run : Bool
  pub automation_enabled : Bool
  -- `automationInfo?.cycleRunning`
  pub cycle_running : Bool
  -- `scanRequestedAt` is set.
  pub scan_requested : Bool
  pub shares : List Share
  pub groups : List SourceGroup
  pub events : List MediaEvent
  pub operations : List Operation
  pub rename_presets : List RenamePreset

pub data Verb : Type 0 where
  get post put delete : Verb

-- A request: its path below /api/v1 in segments, and the members of its query and of its body.
pub record ApiRequest : Type 0 where
  pub verb : Verb
  pub path : List Text
  pub query : List (Text × Text)
  pub body : List (Text × Text)

-- The first of the samples of metadata.
pub record Sample : Type 0 where
  pub captured_at : Option Text
  pub camera_make : Option Text
  pub camera_model : Option Text
  pub error : Option Text

-- What an answer holds, by the names of its members; a member of a member has both names.
pub record Reply : Type 0 where
  pub number : Text → Option ℕ
  pub text : Text → Option Text
  pub flag : Text → Bool
  pub samples : List Sample
  pub reasons : List (Text × ℕ)

-- The lists that a handler loads again.
pub data Listing : Type 0 where
  configuration event_list operation_list quarantine_list renaming rename_samples maintenance
        status :
      Listing

pub data Call : Type 0 where
  request : ApiRequest → Call
  -- monitorAutomationCycle, from the time that was asked for.
  automation_cycle : Option ℕ → Text → Text → Call
  -- waitForRoutingPreview
  preview_job : Text → Call
  -- The refresh functions and the reload functions, one or several at once.
  reload : List Listing → Call

pub record TaskName : Type 0 where
  pub key : Text
  pub label : Text
  pub view : Text

-- Where a text is shown.
pub data Spot : Type 0 where
  alert_box maintenance_message quarantine_message settings_message update_status automation_status
        scan_schedule :
      Spot
  routing_summary routing_list : Spot
  share_state form_message : Text → Spot
  -- `location.assign`
  address : Spot

pub data Message : Type 0 where
  text : Text → Message
  -- `t(key, { error: message })`
  failing : String → Text → Message

pub message_text : Messages → Message → Text
message_text messages (text s) = s
message_text messages (failing key s) = t messages (codes key) (some ((codes "error", s) ∷ []))

abbrev pub Answer : Type 0
Answer = Reply ⊎ Text

pub data Program (A : Type 0) : Type 0 where
  done : A → Program A
  raise : Text → Program A
  ask : Text → (Bool → Program A) → Program A
  prompt : Text → (Option Text → Program A) → Program A
  tell : Spot → Message → Program A → Program A
  call : Call → (Answer → Program A) → Program A
  -- runBackgroundTask: none where the task begins, and the end of the task that runs under the key.
  start_task : TaskName → (Option Answer → Program A) → Program A

infixl 5 ◌>>=◌ ◌>>◌
abbrev pub ◌>>=◌ : {A B : Type 0} → Program A → (A → Program B) → Program B
done a >>= f = f a
raise m >>= f = raise m
ask q k >>= f = ask q (λ b. k b >>= f)
prompt q k >>= f = prompt q (λ s. k s >>= f)
tell spot m p >>= f = tell spot m (p >>= f)
call c k >>= f = call c (λ r. k r >>= f)
start_task name k >>= f = start_task name (λ r. k r >>= f)

abbrev pub ◌>>◌ : {A B : Type 0} → Program A → Program B → Program B
p >> q = p >>= λ _. q

abbrev pub catch : {A : Type 0} → Program A → (Text → Program A) → Program A
catch (done a) h = done a
catch (raise m) h = h m
catch (ask q k) h = ask q (λ b. catch (k b) h)
catch (prompt q k) h = prompt q (λ s. catch (k s) h)
catch (tell spot m p) h = tell spot m (catch p h)
catch (call c k) h = call c (λ r. catch (k r) h)
catch (start_task name k) h = start_task name (λ r. catch (k r) h)

abbrev pub settled : Answer → Program Reply
settled (inl reply) = done reply
settled (inr message) = raise message

-- `await`
abbrev pub await : Call → Program Reply
await c = call c settled

abbrev pub joined : Program Reply → Option Answer → Program Reply
joined body none = body
joined body (some answer) = settled answer

-- `await runBackgroundTask(key, label, view, body)`
abbrev pub run_task : TaskName → Program Reply → Program Reply
run_task name body = start_task name (joined body)

abbrev pub say : Spot → Text → Program (Unit {0})
say spot s = tell spot (text s) (done tt)

-- `if (!confirm(question)) return;`
abbrev pub if_confirmed : Text → Program (Unit {0}) → Program (Unit {0})
if_confirmed question body = ask question (λ b. elim b [ true ↦ body | false ↦ done tt ])

-- `if (!found) return;`
abbrev pub with_found : {A : Type 0} → Option A → (A → Program (Unit {0})) → Program (Unit {0})
with_found none k = done tt
with_found (some a) k = k a

-- `catch (error) { alert(error.message); }`
abbrev pub or_alert : Program (Unit {0}) → Program (Unit {0})
or_alert p = catch p (say alert_box)

-- What happens in a run, and what was answered.
pub data Event : Type 0 where
  asked : Text → Bool → Event
  prompted : Text → Option Text → Event
  told : Spot → Message → Event
  called : Call → Event
  failed : Text → Event
  began : TaskName → Event

-- What the user, the server and the tasks answer, in turn.
pub data Input : Type 0 where
  agree : Bool → Input
  typed : Option Text → Input
  answer : Answer → Input
  begin : Input

abbrev pub outcome : Answer → List Event
outcome (inl reply) = []
outcome (inr message) = failed message ∷ []

-- The run of a program on answers: it stops where the next answer is not there or is of another kind.
unfoldable pub run : {A : Type 0} → Program A → List Input → List Event
run (done a) inputs = []
run (raise m) inputs = []
run (tell spot m p) inputs = told spot m ∷ run p inputs
run (ask q k) (agree b ∷ inputs) = asked q b ∷ run (k b) inputs
run (prompt q k) (typed s ∷ inputs) = prompted q s ∷ run (k s) inputs
run (call c k) (answer r ∷ inputs) = called c ∷ (outcome r ++ run (k r) inputs)
run (call c k) inputs = called c ∷ []
run (start_task name k) (begin ∷ inputs) = began name ∷ run (k none) inputs
run (start_task name k) (answer r ∷ inputs) = outcome r ++ run (k (some r)) inputs
run p inputs = []
