-- ===== src/Markup/Reports.antt =====
-- app.js, the renderers: what a browser reads of the markup of the lists that hold names, paths and
-- messages.
use moment_ferry.Common.{ℕ, Bool, Option, List, Text, All, ◌≡◌}
use moment_ferry.Model.{Share, SourceGroup, MediaEvent, Operation, LogEntry}
use moment_ferry.Format.{Locale}
use moment_ferry.Markup.{print, tags, skeleton, outside, reach}
use moment_ferry.Markup.Storage.{StorageInfo}
use moment_ferry.Markup.Naming.{RenamePreset, CameraMapping, RenameSample}
use moment_ferry.Markup.Folders.{Folder, Root}
use moment_ferry.Markup.Pieces.{IsClean, print-Reads}
use moment_ferry.I18n.Calm.{IsCalm, AreCalm}
use moment_ferry.Markup.Words.{
  CalmIds, render_operations-IsClean, render_logs-IsClean, render_quarantine-IsClean,
  render_recent_ops-IsClean, render_rename_presets-IsClean, render_mappings-IsClean,
  render_samples-IsClean,
}
use moment_ferry.Markup.StorageWords.{render_storage-IsClean}
use moment_ferry.Markup.CardWords.{
  render_shares-IsClean, render_groups-IsClean, render_sources-IsClean, render_folder_nodes-IsClean,
  render_roots-IsClean, render_folder_error-IsClean,
}
use moment_ferry.Markup.Safety.{
  View, shares_view, groups_view, operations_view, logs_view, quarantine_view, recent_view,
  storage_view, sources_view, presets_view, mappings_view, samples_view, folders_view, roots_view,
  folder_error_view, render, render-Keeps,
}

-- The lists that put no text in as it is but translations, numbers of the code and ids.
pub data Report : Type 0 where
  shares_report : List Share → Report
  groups_report : List Share → List MediaEvent → List SourceGroup → Report
  operations_report : Bool → List Share → List Operation → Report
  logs_report : List LogEntry → Report
  quarantine_report : Bool → List Operation → Report
  recent_report : List Operation → Report
  storage_report : Option StorageInfo → Report
  sources_report : Option StorageInfo → List Share → Report
  presets_report : List Share → List RenamePreset → Report
  mappings_report : List CameraMapping → Report
  samples_report : Text → Text → List RenameSample → Report
  folders_report : Text → ℕ → List Folder → Report
  roots_report : Text → List Root → Report
  folder_error_report : Text → Report

abbrev pub view_of : Report → View
view_of (shares_report shares) = shares_view shares
view_of (groups_report shares events groups) = groups_view shares events groups
view_of (operations_report dry_run shares operations) = operations_view dry_run shares operations
view_of (logs_report entries) = logs_view entries
view_of (quarantine_report dry_run operations) = quarantine_view dry_run operations
view_of (recent_report operations) = recent_view operations
view_of (storage_report info) = storage_view info
view_of (sources_report info shares) = sources_view info shares
view_of (presets_report shares presets) = presets_view shares presets
view_of (mappings_report mappings) = mappings_view mappings
view_of (samples_report source_template destination_template samples) =
    samples_view source_template destination_template samples
view_of (folders_report selected depth folders) = folders_view selected depth folders
view_of (roots_report selected roots) = roots_view selected roots
view_of (folder_error_report message) = folder_error_view message

-- The ids of shares, groups and operations, which stand in handlers as they are.
abbrev pub HasCalmIds : Report → Type 0
HasCalmIds (shares_report shares) = All (λ s. IsCalm s.id) shares
HasCalmIds (groups_report shares events groups) = All (λ g. IsCalm g.id) groups
HasCalmIds (operations_report dry_run shares operations) = CalmIds operations
HasCalmIds (quarantine_report dry_run operations) = CalmIds operations
HasCalmIds _ = Unit

render-IsClean :
    (l : Locale) (r : Report)
    → AreCalm l.messages
    → HasCalmIds r
    → All IsClean (render l (view_of r))
unfolding render
render-IsClean l (shares_report shares) d ids = render_shares-IsClean l d shares ids
render-IsClean l (groups_report shares events groups) d ids =
    render_groups-IsClean l d shares events groups ids
render-IsClean l (operations_report dry_run shares operations) d ids =
    render_operations-IsClean l d dry_run shares operations ids
render-IsClean l (logs_report entries) d ids = render_logs-IsClean l d entries
render-IsClean l (quarantine_report dry_run operations) d ids =
    render_quarantine-IsClean l d dry_run operations ids
render-IsClean l (recent_report operations) d ids = render_recent_ops-IsClean l d operations
render-IsClean l (storage_report info) d ids = render_storage-IsClean l d info
render-IsClean l (sources_report info shares) d ids = render_sources-IsClean l d info shares
render-IsClean l (presets_report shares presets) d ids =
    render_rename_presets-IsClean l d shares presets
render-IsClean l (mappings_report mappings) d ids = render_mappings-IsClean l d mappings
render-IsClean l (samples_report source_template destination_template samples) d ids =
    render_samples-IsClean l d source_template destination_template samples
render-IsClean l (folders_report selected depth folders) d ids =
    render_folder_nodes-IsClean l d selected depth folders
render-IsClean l (roots_report selected roots) d ids = render_roots-IsClean l d selected roots
render-IsClean l (folder_error_report message) d ids = render_folder_error-IsClean l d message

-- Where no translation and no id of a share, a group or an operation holds an angle bracket or a
-- quotation mark, the markup of each of the lists of shares, groups, operations, log entries, held files,
-- recent operations, storage, sources, presets, mappings, samples of names and folders begins and ends
-- between tags, and its tags are those of the same markup with every text left out: no name, path,
-- message or error can add a tag, end one or end an attribute.
pub render-Reads :
    (l : Locale) (r : Report)
    → AreCalm l.messages
    → HasCalmIds r
    → (reach outside (print (render l (view_of r))) ≡ outside)
      × (tags outside (print (render l (view_of r)))
          ≡ tags outside (print (skeleton (render l (view_of r)))))
render-Reads l r d ids =
    print-Reads outside outside (render l (view_of r)) (render-Keeps l (view_of r))
      (render-IsClean l r d ids)
