-- ===== src/Updates.antt =====
-- src/MomentFerry.Web/wwwroot/settings.js, image updates: what the page shows of a status
-- (renderImageUpdate), and the installation with the loop that waits for the restarted service
-- (waitForUpdatedMomentFerry and the click on the button that installs).
pub mod Wait
mod Tests
use moment_ferry.Common.{
  ℕ, ◌+◌, List, [], ◌∷◌, ◌++◌, Option, none, some, Bool, true, false, ◌&&◌, not, if◌then◌else◌, ltb,
  Text, codes, text_eq, is_empty, String, or_blank, is_set,
}
use moment_ferry.I18n.{Messages, t}

-- A member that is missing or null is `none`.
pub record UpdateStatus : Type 0 where
  pub running_version : Text
  pub latest_version : Option Text
  pub update_available : Bool
  pub updater_configured : Bool
  pub last_update_completed_at : Option ℕ
  pub last_error : Option Text
  pub changelog : Option Text
  pub release_url : Option Text
  pub running_version_url : Option Text

-- What renderImageUpdate writes to the page.
pub record UpdatePage : Type 0 where
  pub accent : Bool
  pub headline : Text
  pub detail : Text
  pub changelog : Text
  pub install_hidden : Bool
  pub install_disabled : Bool
  pub install_title : Text
  -- The address and the text of the link; none where it is hidden.
  pub link : Option (Text × Text)
  pub version_running : Text
  pub version_update : Option Text

-- `t(key, { version })`
abbrev pub with_version : Messages → String → Text → Text
with_version messages key version = t messages (codes key) (some ((codes "version", version) ∷ []))

error_suffix : UpdateStatus → Text
error_suffix s = if is_set s.last_error then codes " · " ++ or_blank s.last_error else []

-- `time` spells an instant.
completed_suffix : Messages → (ℕ → Text) → UpdateStatus → Text
completed_suffix messages time s = elim s.last_update_completed_at [
  | none ↦ []
  | some at ↦
      codes " · " ++ t messages (codes "updated {{time}}") (some ((codes "time", time at) ∷ []))
]

-- `status.updateAvailable && status.latestVersion`
abbrev offers : UpdateStatus → Bool
offers s = s.update_available && is_set s.latest_version

detail_text : Messages → (ℕ → Text) → UpdateStatus → Text
unfolding error_suffix completed_suffix
detail_text messages time s =
    if offers s
    then with_version messages
        "You are running {{version}}. The update is applied by an isolated companion container, so MomentFerry can restart itself safely."
        s.running_version
      ++ error_suffix s
    else (if is_set s.latest_version
        then with_version messages "Latest stable is {{version}}." (or_blank s.latest_version)
          ++ codes " "
        else [])
      ++ (t messages (codes "No update pending.") none
          ++ (completed_suffix messages time s ++ error_suffix s))

-- `status.releaseUrl || status.runningVersionUrl`
abbrev link_url : UpdateStatus → Text
link_url s = if is_set s.release_url then or_blank s.release_url else or_blank s.running_version_url

link_text : Messages → UpdateStatus → Text
link_text messages s =
    if is_set s.release_url && is_set s.latest_version
    then with_version messages "View {{version}} release notes on GitHub"
        (or_blank s.latest_version)
    else with_version messages "View {{version}} on GitHub" s.running_version

unfoldable pub render_image_update : Messages → (ℕ → Text) → UpdateStatus → UpdatePage
unfolding detail_text link_text
render_image_update messages time s = record {
  accent = offers s;
  headline =
      if offers s
      then with_version messages "{{version}} is available" (or_blank s.latest_version)
      else with_version messages "Running {{version}}" s.running_version;
  detail = detail_text messages time s;
  changelog = or_blank s.changelog;
  install_hidden = not s.update_available;
  install_disabled = not s.updater_configured;
  install_title =
      if s.updater_configured
      then []
      else t messages (codes "Updater companion is not configured") none;
  link = if is_empty (link_url s) then none else some (link_url s, link_text messages s);
  version_running =
      if is_empty s.running_version then t messages (codes "unknown") none else s.running_version;
  version_update =
      if s.update_available
      then some (with_version messages "{{version}} available →" (or_blank s.latest_version))
      else none;
}

-- `status.runningVersion === expectedVersion && !status.updateAvailable`
abbrev pub is_updated : Text → UpdateStatus → Bool
is_updated expected s = text_eq s.running_version expected && not s.update_available

-- A round of the loop: the time of its test of the deadline, and the status that it gets 2 s later,
-- if any.
abbrev pub Round : Type 0
Round = ℕ × Option UpdateStatus

pub data Waiting : Type 0 where
  pending timed_out : Waiting
  returned : UpdateStatus → Waiting

-- What a round's answer comes to, and else what the next rounds do.
abbrev pub answered : Text → Option UpdateStatus → Waiting → Waiting
answered expected none more = more
answered expected (some s) more = if is_updated expected s then returned s else more

-- waitForUpdatedMomentFerry until its deadline.
unfoldable pub wait_for_updated : Text → ℕ → List Round → Waiting
wait_for_updated expected deadline [] = pending
wait_for_updated expected deadline ((now, reply) ∷ rest) =
    let more = wait_for_updated expected deadline rest in
    if ltb now deadline then answered expected reply more else timed_out

-- What becomes of the POST: an answer with a status of failure is final, but without an answer the
-- service may already be restarting.
pub data Posted : Type 0 where
  accepted lost : Posted
  refused : Text → Posted

pub data Installed : Type 0 where
  waiting : Installed
  -- The page reloads.
  updated : UpdateStatus → Installed
  -- The message, with the button enabled again.
  failed : Text → Installed

abbrev pub failure : Messages → Text → Installed
failure messages message =
    failed (t messages (codes "Update failed: {{error}}") (some ((codes "error", message) ∷ [])))

abbrev pub install_outcome : Messages → Text → Waiting → Installed
install_outcome messages expected pending = waiting
install_outcome messages expected (returned s) = updated s
install_outcome messages expected timed_out = failure messages (
    with_version messages
      "MomentFerry did not return with version {{version}} within three minutes." expected)

-- `timeoutMs = 180000`
abbrev pub timeout_ms : ℕ
timeout_ms = 180000

-- The click on the button that installs; the wait begins at `now`.
unfoldable pub install_image_update : Messages → Text → Posted → ℕ → List Round → Installed
unfolding wait_for_updated
install_image_update messages expected (refused message) now rounds = failure messages message
install_image_update messages expected accepted now rounds =
    install_outcome messages expected (wait_for_updated expected (now + timeout_ms) rounds)
install_image_update messages expected lost now rounds =
    install_outcome messages expected (wait_for_updated expected (now + timeout_ms) rounds)
