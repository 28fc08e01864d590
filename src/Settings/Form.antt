-- ===== src/Settings/Form.antt =====
-- settings.js, the form: saving what was loaded.
use moment_ferry.Common.{
  ℕ, ◌+◌, ◌*◌, ◌/◌, ◌≤◌, none, some, Bool, true, arith, ◌≡◌, if◌then◌else◌, leb,
}
use moment_ferry.Settings.{
  RuntimeSettings, SettingsBody, retention_body, apply_settings_to_form, settings_from_form,
  server_put,
}

-- Bounds that the server keeps on what it stores.
pub record IsStored (configured : Bool) (s : RuntimeSettings) : Type 0 where
  pub interval :
      (15 ≤ s.reconciliation_interval_seconds) × (s.reconciliation_interval_seconds ≤ 86400)
  pub files : (1 ≤ s.max_files_per_share_per_cycle) × (s.max_files_per_share_per_cycle ≤ 2000)
  pub parallel : (1 ≤ s.max_parallel_metadata_reads) × (s.max_parallel_metadata_reads ≤ 8)
  pub reserve : s.minimum_free_space_reserve_bytes ≤ 1099511627776
  pub retention : s.operation_retention_days ≤ 3650
  pub protection : s.password_protection_enabled ≡ true → configured ≡ true

-- What the server accepts keeps the bounds.
server_put-IsStored :
    (configured : Bool) (s : RuntimeSettings) (b : SettingsBody) (u : RuntimeSettings)
    → IsStored configured s
    → server_put configured s b ≡ some u
    → IsStored configured u
unfolding server_put
server_put-IsStored configured s b u v e = ground arith

-- Saving the form as it was loaded is accepted and changes nothing but the reserve, which is rounded
-- to whole MiB; a reserve of whole MiB is kept.
pub server_put-settings_from_form :
    (configured : Bool) (s : RuntimeSettings)
    → IsStored configured s
    → server_put configured s (settings_from_form (apply_settings_to_form s))
      ≡ some (record s {
        minimum_free_space_reserve_bytes =
            (s.minimum_free_space_reserve_bytes + 524288) / 1048576 * 1048576;
      })
unfolding server_put settings_from_form apply_settings_to_form
server_put-settings_from_form configured s v = ground arith

-- Saving the days for which the history of operations is kept, by sending back the settings that the
-- server just gave with the new number, is accepted for 3650 days at most, whatever the mode; it then
-- changes that number alone, and otherwise nothing.
pub server_put-retention_body :
    (configured : Bool) (s : RuntimeSettings) (days : ℕ)
    → IsStored configured s
    → server_put configured s (retention_body s days)
      ≡ (if leb days 3650 then some (record s { operation_retention_days = days }) else none)
unfolding server_put retention_body
server_put-retention_body configured s days v = ground arith
