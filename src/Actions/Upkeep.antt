-- ===== src/Actions/Upkeep.antt =====
-- app.js, the buttons of maintenance (runMaintenance and its five actions) and of file naming
-- (deletePreset, deleteMapping); settings.js, the reset of the settings and the check for updates.
use moment_ferry.Common.{
  ℕ, List, [], ◌∷◌, ◌++◌, Option, none, some, false, if◌then◌else◌, ltb, Text, codes, text_eq, find,
  join, decimal, or_blank,
}
use moment_ferry.Model.{Share}
use moment_ferry.I18n.{t}
use moment_ferry.Format.{Locale, format_bytes}
use moment_ferry.Analysis.{find_share}
use moment_ferry.Markup.{said}
use moment_ferry.Markup.Naming.{RenamePreset, used_by}
use moment_ferry.Actions.{
  with_found, ConsoleState, post, put, Reply, configuration, renaming, maintenance, status, request,
  reload, maintenance_message, settings_message, update_status, automation_status, failing, Program,
  done, tell, ◌>>=◌, ◌>>◌, catch, await, run_task, say, if_confirmed, or_alert,
}
use moment_ferry.Actions.Shares.{a_get, a_delete, counted_in, named}
use moment_ferry.Actions.Events.{a_post, count_text}

-- The value of a task whose action returns a text.
abbrev pub saying : Text → Reply
saying m = record {
  number = λ name. none;
  text = λ name. some m;
  flag = λ name. false;
  samples = [];
  reasons = [];
}

-- runMaintenance
abbrev pub run_maintenance : Text → Text → Program Reply → Program (Unit {0})
run_maintenance key label action =
    say maintenance_message []
    >> catch
        (do
          message ←
              run_task (record { key = key; label = label; view = codes "maintenance" }) action
          say maintenance_message (or_blank (message.text (codes "message")))
          s ← await (reload (maintenance ∷ []))
          done tt)
        (say maintenance_message)

abbrev pub of_share : Option Share → Text
of_share none = []
of_share (some s) = codes " (" ++ (s.name ++ codes ")")

abbrev pub share_query : Text → List (Text × Text)
share_query [] = []
share_query (x ∷ id) = (codes "shareId", x ∷ id) ∷ []

-- The button that reads metadata again, with the value of the select of shares.
unfoldable pub reindex_metadata : ConsoleState → Text → Program (Unit {0})
reindex_metadata c id =
    run_maintenance (codes "reindex-metadata") (said c.locale "Read metadata again") (do
      result ← await (
          request (record {
            verb = post;
            path = codes "maintenance" ∷ codes "reindex-metadata" ∷ [];
            query = share_query id;
            body = [];
          }))
      done (
          saying (
            count_text c.locale
              "{{count}} files will have their metadata read again on the next cycle."
              (result.number (codes "affected"))
            ++ of_share (find_share id c.shares))))

unfoldable pub forget_missing : ConsoleState → Program (Unit {0})
forget_missing c =
    if_confirmed (said c.locale "Remove index entries whose source file no longer exists?") (
      run_maintenance (codes "forget-missing") (said c.locale "Forget missing files") (do
        result ← await (request (a_post (codes "maintenance" ∷ codes "forget-missing" ∷ [])))
        done (
            saying (
              t c.locale.messages
                (codes
                  "{{removed}} of {{missing}} missing entries removed, {{kept}} kept because they carry an operation.")
                (some (
                  (codes "removed", counted_in c.locale result "removed")
                  ∷ (codes "missing", counted_in c.locale result "missing")
                  ∷ (codes "kept", counted_in c.locale result "keptForHistory")
                  ∷ []))))))

abbrev pub or_zero : Option ℕ → ℕ
or_zero none = 0
or_zero (some n) = n

unfoldable pub compact_database : ConsoleState → Program (Unit {0})
compact_database c =
    run_maintenance (codes "compact-database") (said c.locale "Compact database") (do
      result ← await (request (a_post (codes "maintenance" ∷ codes "compact" ∷ [])))
      done (
          saying (
            t c.locale.messages (codes "Database compacted, {{size}} reclaimed.") (
              some (
                (
                  codes "size",
                  format_bytes c.locale.messages
                      (some (or_zero (result.number (codes "reclaimed")))),
                )
                ∷ [])))))

-- The PUT also has the other members of the answer to the GET: Settings.retention_body.
unfoldable pub save_retention : ConsoleState → ℕ → Program (Unit {0})
save_retention c days = run_maintenance (codes "save-retention") (said c.locale "Save") (do
  settings ← await (request (a_get (codes "settings" ∷ []) []))
  saved ← await (
      request (record {
        verb = put;
        path = codes "settings" ∷ [];
        query = [];
        body = (codes "operationRetentionDays", decimal days) ∷ [];
      }))
  done (
      saying (
        if ltb 0 days
        then count_text c.locale
            "Finished operations older than {{count}} days are removed on each full reconcile."
            (some days)
        else said c.locale "The operation history is kept for good.")))

abbrev pub prune_confirmed : ConsoleState → ℕ → Program (Unit {0})
prune_confirmed c days =
    if_confirmed
      (count_text c.locale
        "Remove finished operations older than {{count}} days now? This cannot be undone."
        (some days))
      (run_maintenance (codes "prune-operations") (said c.locale "Remove now") (do
        result ← await (
            request (record {
              verb = post;
              path = codes "maintenance" ∷ codes "prune-operations" ∷ [];
              query = (codes "olderThanDays", decimal days) ∷ [];
              body = [];
            }))
        done (
            saying (
              count_text c.locale "{{count}} finished operations removed."
                (result.number (codes "removed"))))))

unfoldable pub prune_now : ConsoleState → ℕ → Program (Unit {0})
prune_now c days =
    if ltb 0 days
    then prune_confirmed c days
    else say maintenance_message (said c.locale "Set a retention window of at least one day first.")

abbrev pub find_preset : Text → List RenamePreset → Option RenamePreset
find_preset id = find λ p. text_eq p.id id

abbrev pub preset_warning : Locale → List Text → Text
preset_warning l [] = []
preset_warning l (x ∷ names) =
    10
    ∷ 10
    ∷ t l.messages (codes "{{shares}} will stop renaming and keep original filenames.")
        (some ((codes "shares", join (codes ", ") (x ∷ names)) ∷ []))

unfoldable pub delete_preset : ConsoleState → Text → Program (Unit {0})
delete_preset c id = with_found (find_preset id c.rename_presets) λ preset.
    if_confirmed
      (named c.locale "Remove preset “{{name}}”?" preset.name
        ++ preset_warning c.locale (used_by c.shares id))
      (or_alert (do
        r ← await (request (a_delete (codes "rename-presets" ∷ id ∷ [])))
        s ← await (reload (configuration ∷ []))
        done tt))

unfoldable pub delete_mapping : Text → Program (Unit {0})
delete_mapping id = or_alert (do
  r ← await (request (a_delete (codes "camera-mappings" ∷ id ∷ [])))
  s ← await (reload (renaming ∷ []))
  done tt)

-- loadAutomationStatus tells what goes wrong itself, and does not throw.
abbrev pub load_status : Program (Unit {0})
load_status =
    catch (await (reload (status ∷ [])) >> done tt)
      (λ m. tell automation_status (failing "Status failed: {{error}}" m) (done tt))

unfoldable pub reset_settings : ConsoleState → Program (Unit {0})
reset_settings c =
    if_confirmed (said c.locale "Reset runtime settings to the Docker/application defaults?") (
      catch
        (do
          settings ← await (request (a_delete (codes "settings" ∷ [])))
          say settings_message (said c.locale "Runtime settings reset to defaults.")
          load_status)
        (say settings_message))

unfoldable pub check_image_update : ConsoleState → Program (Unit {0})
check_image_update c =
    say update_status (said c.locale "Checking for stable image updates…")
    >> catch
        (do
          update ←
              run_task
                (record {
                  key = codes "image-update-check";
                  label = said c.locale "Check for image updates";
                  view = codes "updates";
                })
                (await (request (a_post (codes "updates" ∷ codes "check" ∷ []))))
          done tt)
        (λ m. tell update_status (failing "Update check failed: {{error}}" m) (done tt))
