-- ===== src/Settings.antt =====
-- src/MomentFerry.Web/wwwroot/settings.js: the runtime settings, the form that edits them, the body
-- that is sent, and the server that answers (src/MomentFerry.Web/Api/SettingsEndpoints.cs).
-- The number inputs hold whole numbers.
pub mod Form
pub mod Live
mod Samples
pub mod Status
mod Tests
use moment_ferry.Common.{
  ℕ, ◌+◌, ◌*◌, ◌/◌, Option, none, some, Bool, true, false, ◌&&◌, ◌||◌, not, if◌then◌else◌, leb, ltb,
  Text, codes, text_eq,
}

pub record RuntimeSettings : Type 0 where
  pub dry_run : Bool
  pub automation_enabled : Bool
  pub reconciliation_interval_seconds : ℕ
  pub max_files_per_share_per_cycle : ℕ
  pub max_parallel_metadata_reads : ℕ
  pub allow_filesystem_timestamp_fallback : Bool
  pub minimum_free_space_reserve_bytes : ℕ
  pub automatic_image_updates_enabled : Bool
  pub operation_retention_days : ℕ
  pub password_protection_enabled : Bool

-- The inputs of the form; the reserve is in MiB.
pub record SettingsForm : Type 0 where
  pub dry_run : Bool
  pub automation_enabled : Bool
  pub interval : ℕ
  pub max_files : ℕ
  pub parallel_metadata : ℕ
  pub timestamp_fallback : Bool
  pub free_space_reserve : ℕ
  pub automatic_image_updates : Bool
  pub password_protection : Bool

-- The inputs that applySettingsToForm writes; `Math.round(bytes / 1048576)`.
pub apply_settings_to_form : RuntimeSettings → SettingsForm
apply_settings_to_form s = record {
  dry_run = s.dry_run;
  automation_enabled = s.automation_enabled;
  interval = s.reconciliation_interval_seconds;
  max_files = s.max_files_per_share_per_cycle;
  parallel_metadata = s.max_parallel_metadata_reads;
  timestamp_fallback = s.allow_filesystem_timestamp_fallback;
  free_space_reserve = (s.minimum_free_space_reserve_bytes + 524288) / 1048576;
  automatic_image_updates = s.automatic_image_updates_enabled;
  password_protection = s.password_protection_enabled;
}

-- The body of a PUT; a field that is left out or null is `none`.
pub record SettingsBody : Type 0 where
  pub dry_run : Bool
  pub automation_enabled : Bool
  pub reconciliation_interval_seconds : ℕ
  pub max_files_per_share_per_cycle : ℕ
  pub max_parallel_metadata_reads : ℕ
  pub allow_filesystem_timestamp_fallback : Bool
  pub minimum_free_space_reserve_bytes : Option ℕ
  pub automatic_image_updates_enabled : Option Bool
  pub operation_retention_days : Option ℕ
  pub password_protection_enabled : Option Bool
  pub live_mode_confirmation : Option Text

-- settingsFromForm without overrides.
pub settings_from_form : SettingsForm → SettingsBody
settings_from_form f = record {
  dry_run = f.dry_run;
  automation_enabled = f.automation_enabled;
  reconciliation_interval_seconds = f.interval;
  max_files_per_share_per_cycle = f.max_files;
  max_parallel_metadata_reads = f.parallel_metadata;
  allow_filesystem_timestamp_fallback = f.timestamp_fallback;
  minimum_free_space_reserve_bytes = some (f.free_space_reserve * 1048576);
  automatic_image_updates_enabled = some f.automatic_image_updates;
  operation_retention_days = none;
  password_protection_enabled = some f.password_protection;
  live_mode_confirmation = none;
}

abbrev pub live_confirmation : Text
live_confirmation = codes "ENABLE_LIVE_TRANSFERS"

-- `{ ...settings, operationRetentionDays: days }`, the body of the retention form.
pub retention_body : RuntimeSettings → ℕ → SettingsBody
retention_body s days = record {
  dry_run = s.dry_run;
  automation_enabled = s.automation_enabled;
  reconciliation_interval_seconds = s.reconciliation_interval_seconds;
  max_files_per_share_per_cycle = s.max_files_per_share_per_cycle;
  max_parallel_metadata_reads = s.max_parallel_metadata_reads;
  allow_filesystem_timestamp_fallback = s.allow_filesystem_timestamp_fallback;
  minimum_free_space_reserve_bytes = some s.minimum_free_space_reserve_bytes;
  automatic_image_updates_enabled = some s.automatic_image_updates_enabled;
  operation_retention_days = some days;
  password_protection_enabled = some s.password_protection_enabled;
  live_mode_confirmation = none;
}

abbrev or_else {ℓ} : {A : Type ℓ} → Option A → A → A
or_else none a = a
or_else (some b) a = b

abbrev within : ℕ → ℕ → ℕ → Bool
within lo hi n = leb lo n && leb n hi

abbrev confirms : Option Text → Bool
confirms none = false
confirms (some word) = text_eq word live_confirmation

-- The ranges that the server accepts.
is_accepted_body : Bool → SettingsBody → Bool
is_accepted_body configured b =
    within 15 86400 b.reconciliation_interval_seconds
    && (within 1 2000 b.max_files_per_share_per_cycle
        && (within 1 8 b.max_parallel_metadata_reads
            && (within 0 1099511627776 (or_else b.minimum_free_space_reserve_bytes 0)
                && (within 0 3650 (or_else b.operation_retention_days 0)
                    && (not (or_else b.password_protection_enabled false) || configured)))))

-- PUT /api/v1/settings: the new settings, or none where the request is refused.
pub server_put : Bool → RuntimeSettings → SettingsBody → Option RuntimeSettings
unfolding is_accepted_body
server_put configured current b =
    if not (is_accepted_body configured b)
    then none
    else if current.dry_run && (not b.dry_run && not (confirms b.live_mode_confirmation))
    then none
    else some (record {
      dry_run = b.dry_run;
      automation_enabled = b.automation_enabled;
      reconciliation_interval_seconds = b.reconciliation_interval_seconds;
      max_files_per_share_per_cycle = b.max_files_per_share_per_cycle;
      max_parallel_metadata_reads = b.max_parallel_metadata_reads;
      allow_filesystem_timestamp_fallback = b.allow_filesystem_timestamp_fallback;
      minimum_free_space_reserve_bytes =
          or_else b.minimum_free_space_reserve_bytes current.minimum_free_space_reserve_bytes;
      automatic_image_updates_enabled =
          or_else b.automatic_image_updates_enabled current.automatic_image_updates_enabled;
      operation_retention_days =
          or_else b.operation_retention_days current.operation_retention_days;
      password_protection_enabled =
          or_else b.password_protection_enabled current.password_protection_enabled;
    })
