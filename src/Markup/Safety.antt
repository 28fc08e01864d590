-- ===== src/Markup/Safety.antt =====
-- app.js, the renderers put together: each puts its texts where a text can stand.
use moment_ferry.Common.{Text, ℕ, Bool, List, Option}
use moment_ferry.Model.{Share, SourceGroup, MediaEvent, Operation, LogEntry}
use moment_ferry.Format.{Locale}
use moment_ferry.Scan.{ScanState}
use moment_ferry.Markup.{Piece}
use moment_ferry.Markup.Templates.{Keeps}
use moment_ferry.Tasks.{Task}
use moment_ferry.Markup.Storage.{StorageInfo, render_storage}
use moment_ferry.Markup.Sources.{render_sources}
use moment_ferry.Markup.Preview.{PreviewResult, render_routing_preview}
use moment_ferry.Markup.TaskList.{task_rows}
use moment_ferry.Markup.Setup.{SetupCheck, render_setup_steps, render_setup_checks}
use moment_ferry.Markup.Naming.{
  RenamePreset, CameraMapping, RenameSample, render_rename_presets, render_mappings, render_samples,
}
use moment_ferry.Analysis.{Check}
use moment_ferry.Markup.Dialogs.{
  FileFacts, render_facts, render_event_options, render_event_analysis,
}
use moment_ferry.Markup.Folders.{
  Folder, Root, render_folder_nodes, render_roots, render_folder_error,
}
use moment_ferry.Markup.Boxes.{
  render_facts-Keeps, render_event_options-Keeps, render_event_analysis-Keeps,
  render_folder_nodes-Keeps, render_roots-Keeps, render_folder_error-Keeps, render_presets-Keeps,
}
use moment_ferry.Markup.Preview.{PreviewItem}
use moment_ferry.Markup.Selects.{
  SharePreset, render_presets, render_preset_choices, render_group_choices, render_group_options,
  render_destination_options, render_routing_sources, render_maintenance_shares, render_languages,
}
use moment_ferry.Markup.Choices.{
  render_rename_presets-Keeps, render_mappings-Keeps, render_samples-Keeps,
  render_preset_choices-Keeps, render_group_choices-Keeps, render_group_options-Keeps,
  render_destination_options-Keeps, render_routing_sources-Keeps, render_maintenance_shares-Keeps,
  render_languages-Keeps,
}
use moment_ferry.Markup.Cards.{
  render_storage-Keeps, render_sources-Keeps, render_routing_preview-Keeps, task_rows-Keeps,
  render_setup_steps-Keeps, render_setup_checks-Keeps,
}
use moment_ferry.Markup.Calendar.{CalendarView, render_picker, render_picker-Keeps}
use moment_ferry.Markup.Shares.{render_shares, render_groups}
use moment_ferry.Markup.Events.{EventsView, render_events}
use moment_ferry.Markup.Operations.{
  render_operations, render_logs, render_quarantine, render_recent_ops,
}
use moment_ferry.Markup.Overview.{render_running_event}
use moment_ferry.Markup.Progress.{Counters}
use moment_ferry.Markup.Lists.{
  render_shares-Keeps, render_groups-Keeps, event_list-Keeps, render_operations-Keeps,
  render_logs-Keeps, render_quarantine-Keeps, render_recent_ops-Keeps, render_running_event-Keeps,
}

-- The lists that the page renders.
pub data View : Type 0 where
  shares_view : List Share → View
  groups_view : List Share → List MediaEvent → List SourceGroup → View
  events_view : EventsView → View
  operations_view : Bool → List Share → List Operation → View
  logs_view : List LogEntry → View
  quarantine_view : Bool → List Operation → View
  recent_view : List Operation → View
  running_view : EventsView → ℕ → Counters → ScanState → View
  storage_view : Option StorageInfo → View
  sources_view : Option StorageInfo → List Share → View
  preview_view : Bool → Text → Text → PreviewResult → View
  tasks_view : ℕ → List Task → View
  setup_steps_view : ℕ → ℕ → Bool → View
  setup_checks_view : List SetupCheck → View
  presets_view : List Share → List RenamePreset → View
  mappings_view : List CameraMapping → View
  samples_view : Text → Text → List RenameSample → View
  preset_choices_view : List RenamePreset → View
  group_choices_view : List Text → List Share → View
  group_options_view : List SourceGroup → View
  destination_options_view : List Share → View
  routing_sources_view : List Share → View
  facts_view : PreviewItem → FileFacts → View
  event_options_view : List MediaEvent → View
  analysis_view : List Check → View
  folders_view : Text → ℕ → List Folder → View
  roots_view : Text → List Root → View
  folder_error_view : Text → View
  share_presets_view : List SharePreset → View
  calendar_view : CalendarView → View
  languages_view : Text → View
  maintenance_shares_view : List Share → View

unfoldable pub render : Locale → View → List Piece
render l (shares_view shares) = render_shares l shares
render l (groups_view shares events groups) = render_groups l shares events groups
render l (events_view v) = render_events l v
render l (operations_view dry_run shares operations) = render_operations l dry_run shares operations
render l (logs_view entries) = render_logs l entries
render l (quarantine_view dry_run operations) = render_quarantine l dry_run operations
render l (recent_view operations) = render_recent_ops l operations
render l (running_view v held k s) = render_running_event l v held k s
render l (storage_view info) = render_storage l info
render l (sources_view info shares) = render_sources l info shares
render l (preview_view dry query state r) = render_routing_preview l dry query state r
render l (tasks_view now tasks) = task_rows l now tasks
render l (setup_steps_view shares groups dry) = render_setup_steps l shares groups dry
render l (setup_checks_view checks) = render_setup_checks l checks
render l (presets_view shares presets) = render_rename_presets l shares presets
render l (mappings_view mappings) = render_mappings l mappings
render l (samples_view source_template destination_template samples) =
    render_samples l source_template destination_template samples
render l (preset_choices_view presets) = render_preset_choices l presets
render l (group_choices_view selected shares) = render_group_choices l selected shares
render l (group_options_view groups) = render_group_options l groups
render l (destination_options_view shares) = render_destination_options l shares
render l (routing_sources_view shares) = render_routing_sources l shares
render l (facts_view item facts) = render_facts l item facts
render l (event_options_view events) = render_event_options l events
render l (analysis_view checks) = render_event_analysis l checks
render l (folders_view selected depth folders) = render_folder_nodes l selected depth folders
render l (roots_view selected roots) = render_roots l selected roots
render l (folder_error_view message) = render_folder_error message
render l (share_presets_view presets) = render_presets l presets
render l (calendar_view v) = render_picker l v
render l (languages_view current) = render_languages current
render l (maintenance_shares_view shares) = render_maintenance_shares l shares

pub render-Keeps : (l : Locale) (v : View) → Keeps (render l v)
unfolding render render_events
render-Keeps l (shares_view shares) = render_shares-Keeps l shares
render-Keeps l (groups_view shares events groups) = render_groups-Keeps l shares events groups
render-Keeps l (events_view v) = event_list-Keeps l v v.events
render-Keeps l (operations_view dry_run shares operations) =
    render_operations-Keeps l dry_run shares operations
render-Keeps l (logs_view entries) = render_logs-Keeps l entries
render-Keeps l (quarantine_view dry_run operations) = render_quarantine-Keeps l dry_run operations
render-Keeps l (recent_view operations) = render_recent_ops-Keeps l operations
render-Keeps l (running_view v held k s) = render_running_event-Keeps l v held k s
render-Keeps l (storage_view info) = render_storage-Keeps l info
render-Keeps l (sources_view info shares) = render_sources-Keeps l info shares
render-Keeps l (preview_view dry query state r) = render_routing_preview-Keeps l dry query state r
render-Keeps l (tasks_view now tasks) = task_rows-Keeps l now tasks
render-Keeps l (setup_steps_view shares groups dry) = render_setup_steps-Keeps l shares groups dry
render-Keeps l (setup_checks_view checks) = render_setup_checks-Keeps l checks
render-Keeps l (presets_view shares presets) = render_rename_presets-Keeps l shares presets
render-Keeps l (mappings_view mappings) = render_mappings-Keeps l mappings
render-Keeps l (samples_view source_template destination_template samples) =
    render_samples-Keeps l source_template destination_template samples
render-Keeps l (preset_choices_view presets) = render_preset_choices-Keeps l presets
render-Keeps l (group_choices_view selected shares) = render_group_choices-Keeps l selected shares
render-Keeps l (group_options_view groups) = render_group_options-Keeps l groups
render-Keeps l (destination_options_view shares) = render_destination_options-Keeps l shares
render-Keeps l (routing_sources_view shares) = render_routing_sources-Keeps l shares
render-Keeps l (facts_view item facts) = render_facts-Keeps l item facts
render-Keeps l (event_options_view events) = render_event_options-Keeps l events
render-Keeps l (analysis_view checks) = render_event_analysis-Keeps l checks
render-Keeps l (folders_view selected depth folders) =
    render_folder_nodes-Keeps l selected depth folders
render-Keeps l (roots_view selected roots) = render_roots-Keeps l selected roots
render-Keeps l (folder_error_view message) = render_folder_error-Keeps l message
render-Keeps l (share_presets_view presets) = render_presets-Keeps l presets
render-Keeps l (calendar_view v) = render_picker-Keeps l v
render-Keeps l (languages_view current) = render_languages-Keeps current
render-Keeps l (maintenance_shares_view shares) = render_maintenance_shares-Keeps l shares
