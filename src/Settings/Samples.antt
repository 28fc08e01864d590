-- ===== src/Settings/Samples.antt =====
-- Settings to run the console's code on.
use moment_ferry.Common.{true, false}
use moment_ferry.Settings.{RuntimeSettings}

abbrev pub fresh : RuntimeSettings
fresh = record {
  dry_run = true;
  automation_enabled = true;
  reconciliation_interval_seconds = 300;
  max_files_per_share_per_cycle = 100;
  max_parallel_metadata_reads = 2;
  allow_filesystem_timestamp_fallback = false;
  minimum_free_space_reserve_bytes = 1500000;
  automatic_image_updates_enabled = false;
  operation_retention_days = 30;
  password_protection_enabled = false;
}
