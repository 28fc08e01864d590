-- ===== src/Actions/Handlers.antt =====
-- The buttons and forms of the console that this part follows, with what they are given, and the
-- handler of each. Not among them: the switch of the mode, its dialog and the form of the settings
-- (Settings), the installation of an update (Updates), the folder browser, the dialog of a file's
-- analysis, and the clicks that send nothing.
use moment_ferry.Common.{ℕ, List, Text}
use moment_ferry.Actions.{ConsoleState, Program}
use moment_ferry.Actions.Saving.{FormName, save_form}
use moment_ferry.Actions.Shares.{
  probe_share, scan_share, metadata_preview, delete_share, delete_group,
}
use moment_ferry.Actions.Events.{
  start_event, stop_event, toggle_event, backfill_event, route_event_again, rename_routed_files,
  delete_event,
}
use moment_ferry.Actions.Files.{
  preview_routing, execute_transfer, route_again, dismiss_quarantine, retry_quarantine,
}
use moment_ferry.Actions.Refreshing.{
  trigger_scan_now, refresh_operations, refresh_logs, refresh_quarantine, refresh_maintenance,
  logout,
}
use moment_ferry.Actions.Upkeep.{
  reindex_metadata, forget_missing, compact_database, save_retention, prune_now, delete_preset,
  delete_mapping, reset_settings, check_image_update, load_status,
}

pub data Button : Type 0 where
  probe scan metadata share_removal group_removal : Text → Button
  event_start event_stop event_toggle backfill event_again rename_routed event_removal :
      Text → Button
  routing_preview file_again dismiss retry : Text → Button
  transfer : Text → Text → Text → Button
  reindex preset_removal mapping_removal : Text → Button
  forget compact settings_reset update_check : Button
  scan_now operations_refresh quarantine_refresh maintenance_refresh status_refresh sign_out :
      Button
  logs_refresh : Text → Button
  retention prune : ℕ → Button
  save : FormName → Text → List (Text × Text) → Button

unfoldable pub handler : ConsoleState → Button → Program (Unit {0})
handler c (Button.probe id) = probe_share c id
handler c (Button.scan id) = scan_share c id
handler c (Button.metadata id) = metadata_preview c id
handler c (Button.share_removal id) = delete_share c id
handler c (Button.group_removal id) = delete_group c id
handler c (Button.event_start id) = start_event id
handler c (Button.event_stop id) = stop_event id
handler c (Button.event_toggle id) = toggle_event c id
handler c (Button.backfill id) = backfill_event c id
handler c (Button.event_again id) = route_event_again c id
handler c (Button.rename_routed id) = rename_routed_files c id
handler c (Button.event_removal id) = delete_event c id
handler c (Button.routing_preview id) = preview_routing c id
handler c (Button.file_again id) = route_again c id
handler c (Button.dismiss id) = dismiss_quarantine c id
handler c (Button.retry id) = retry_quarantine c id
handler c (Button.transfer selected file_id event_id) = execute_transfer c selected file_id event_id
handler c (Button.reindex id) = reindex_metadata c id
handler c (Button.preset_removal id) = delete_preset c id
handler c (Button.mapping_removal id) = delete_mapping id
handler c Button.forget = forget_missing c
handler c Button.compact = compact_database c
handler c Button.settings_reset = reset_settings c
handler c Button.update_check = check_image_update c
handler c Button.scan_now = trigger_scan_now c
handler c Button.operations_refresh = refresh_operations
handler c Button.quarantine_refresh = refresh_quarantine
handler c Button.maintenance_refresh = refresh_maintenance
handler c Button.status_refresh = load_status
handler c Button.sign_out = logout
handler c (Button.logs_refresh level) = refresh_logs level
handler c (Button.retention days) = save_retention c days
handler c (Button.prune days) = prune_now c days
handler c (Button.save form id body) = save_form form id body
