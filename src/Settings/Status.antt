-- ===== src/Settings/Status.antt =====
-- settings.js, what the page says of the automation, of the storage and of the credentials:
-- loadAutomationStatus, formatStorageStatus and loadAuthStatus; app.js, the summary that
-- refreshMaintenance writes.
use moment_ferry.Common.{
  ℕ, ◌+◌, List, [], ◌∷◌, ◌++◌, Option, none, some, Bool, ◌&&◌, not, if◌then◌else◌, Text, codes,
  join, map, String, or_blank, is_set,
}
use moment_ferry.I18n.{t}
use moment_ferry.Format.{Locale, format_bytes, format_number}
use moment_ferry.Markup.{said}
use moment_ferry.Markup.Storage.{StorageItem, StorageInfo}

abbrev with_value : Locale → String → String → Text → Text
with_value l key name value = t l.messages (codes key) (some ((codes name, value) ∷ []))

abbrev low_mark : Locale → Bool → Text
low_mark l below = if below then codes " " ++ said l "LOW" else []

abbrev pub storage_item_text : Locale → StorageItem → Text
storage_item_text l x =
    if not x.exists
    then x.name ++ (codes ": " ++ said l "path missing")
    else elim x.available_free_space_bytes [
      | none ↦ x.name ++ (codes ": " ++ said l "free space unknown")
      | some free ↦
          x.name
          ++ (codes ": "
              ++ (with_value l "{{size}} free" "size" (format_bytes l.messages (some free))
                  ++ low_mark l x.below_reserve))
    ]

-- `storage.items`, and the reserve.
abbrev pub storage_text : Locale → ℕ → List StorageItem → Text
storage_text l reserve [] = said l "no destination storage configured"
storage_text l reserve (x ∷ xs) =
    join (codes ", ") (map (storage_item_text l) (x ∷ xs))
    ++ (codes " · "
        ++ with_value l "reserve {{size}}" "size" (format_bytes l.messages (some reserve)))

unfoldable pub format_storage_status : Locale → Option StorageInfo → Text
format_storage_status l none = said l "no destination storage configured"
format_storage_status l (some s) = storage_text l s.minimum_free_space_reserve_bytes s.items

-- The members of the answer that the text reads.
pub record CycleStatus : Type 0 where
  pub is_live : Bool
  pub automation_enabled : Bool
  pub last_cycle_started_at : Option ℕ
  pub last_cycle_completed_at : Option ℕ
  pub last_source_shares : ℕ
  pub last_matched : ℕ
  pub last_would_move : ℕ
  pub last_executed : ℕ
  pub last_skipped : ℕ
  pub last_errors : ℕ
  pub last_error : Option Text

abbrev pub automation_dot : CycleStatus → Text
automation_dot s =
    if s.automation_enabled && not (is_set s.last_error)
    then codes "dot dot-acc"
    else if is_set s.last_error
    then codes "dot dot-red"
    else codes "dot dot-amb"

abbrev pub cycle_counts : Locale → CycleStatus → Text
cycle_counts l s =
    t l.messages
      (codes
        "{{sources}} sources · {{matched}} matched · {{wouldMove}} would move · {{executed}} executed · {{skipped}} skipped · {{errors}} errors")
      (some (
        (codes "sources", format_number l (some s.last_source_shares))
        ∷ (codes "matched", format_number l (some s.last_matched))
        ∷ (codes "wouldMove", format_number l (some s.last_would_move))
        ∷ (codes "executed", format_number l (some s.last_executed))
        ∷ (codes "skipped", format_number l (some s.last_skipped))
        ∷ (codes "errors", format_number l (some s.last_errors))
        ∷ []))

abbrev pub error_text : Locale → CycleStatus → Text
error_text l s =
    if is_set s.last_error
    then codes " · " ++ with_value l "last error: {{error}}" "error" (or_blank s.last_error)
    else []

abbrev pub mode_text : Locale → CycleStatus → Text
mode_text l s =
    (if s.automation_enabled then said l "Automation running" else said l "Automation off")
    ++ (codes " · " ++ (if s.is_live then said l "Live" else said l "Dry Run"))

-- `time` spells the time of the day, with the clock that was chosen.
abbrev pub completed_text : Locale → (ℕ → Text) → CycleStatus → Text
completed_text l time s = elim s.last_cycle_completed_at [
  | none ↦ said l "running"
  | some at ↦ time at
]

-- The status and its dot, or those of a request that failed.
unfoldable pub automation_status :
    Locale → (ℕ → Text) → Option StorageInfo → CycleStatus → Text × Text
automation_status l time storage s = (
  automation_dot s,
  elim s.last_cycle_started_at [
    | none ↦
        mode_text l s
        ++ (codes " · "
            ++ (said l "no cycle recorded yet" ++ (codes " · " ++ format_storage_status l storage)))
    | some at ↦
        mode_text l s
        ++ (codes " · "
            ++ (with_value l "last cycle {{time}}" "time" (completed_text l time s)
                ++ (codes " · "
                    ++ (cycle_counts l s
                        ++ (error_text l s ++ (codes " · " ++ format_storage_status l storage))))))
  ],
)

abbrev pub status_failed : Locale → Text → Text × Text
status_failed l message =
    (codes "dot dot-red", with_value l "Status failed: {{error}}" "error" message)

pub record CredentialStatus : Type 0 where
  pub credentials_configured : Bool
  pub credentials_issue : Option Text
  pub protection_enabled : Bool

pub record AuthView : Type 0 where
  pub toggle_disabled : Bool
  pub is_red : Bool
  pub status : Text
  pub logout_hidden : Bool

-- loadCredentialStatus; the flag is whether the switch is on. The issue is told in the words of a key.
unfoldable pub auth_view : Locale → Bool → CredentialStatus → AuthView
auth_view l checked a = record {
  toggle_disabled = not a.credentials_configured && not checked;
  is_red = is_set a.credentials_issue;
  status =
      if a.credentials_configured
      then said l "Credentials configured through environment variables."
      else if is_set a.credentials_issue
      then t l.messages (or_blank a.credentials_issue) none
      else said l "Set MOMENTFERRY_USERNAME and MOMENTFERRY_PASSWORD in your .env file first.";
  logout_hidden = not a.protection_enabled;
}

-- The answer on maintenance: `operations` counts by state.
pub record MaintenanceInfo : Type 0 where
  pub database_bytes : ℕ
  pub indexed_media_files : ℕ
  pub operations : List (Text × ℕ)

abbrev pub total_operations : List (Text × ℕ) → ℕ
total_operations [] = 0
total_operations ((state, n) ∷ rest) = n + total_operations rest

unfoldable pub maintenance_summary : Locale → MaintenanceInfo → Text
maintenance_summary l m =
    t l.messages (codes "{{size}} database · {{files}} indexed files · {{operations}} operations") (
      some (
        (codes "size", format_bytes l.messages (some m.database_bytes))
        ∷ (codes "files", format_number l (some m.indexed_media_files))
        ∷ (codes "operations", format_number l (some (total_operations m.operations)))
        ∷ []))
