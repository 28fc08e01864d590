-- ===== src/Markup/Boxes.antt =====
-- app.js, the dialog of the file analysis, the folder browser and the select of presets for shares: the
-- check of their templates.
use moment_ferry.Common.{ℕ, List, [], ◌∷◌, ◌++◌, Text, flat_map, every, refl}
use moment_ferry.Model.{MediaEvent}
use moment_ferry.Format.{Locale}
use moment_ferry.Analysis.{Check}
use moment_ferry.Markup.{pieces, reach, after}
use moment_ferry.Markup.Pieces.{place_after}
use moment_ferry.Markup.Templates.{
  Keeps, Keeps-flat_map, keeps-Keeps, rows-Keeps, before-Keeps, around-Keeps, keeps, keeps_part,
}
use moment_ferry.Markup.Preview.{PreviewItem}
use moment_ferry.Markup.Dialogs.{
  FileFacts, file_facts, fact_row, render_facts, no_event_option, event_option,
  render_event_options, analysis_row, verdict, render_event_analysis,
}
use moment_ferry.Markup.Folders.{
  Folder, Root, folder_node, render_folder_nodes, root_open, root_close, root_node, render_roots,
  folder_error, render_folder_error,
}
use moment_ferry.Markup.Selects.{SharePreset, plain_choice, share_preset_choice, render_presets}

module _ (l : Locale) where
  pub render_facts-Keeps :
      (item : PreviewItem) (facts : FileFacts) → Keeps (render_facts l item facts)
  unfolding render_facts keeps keeps_part place_after reach after
  render_facts-Keeps item facts = rows-Keeps fact_row (file_facts l item facts) (λ x. refl)

  pub render_event_options-Keeps :
      (events : List MediaEvent) → Keeps (render_event_options l events)
  unfolding render_event_options keeps keeps_part place_after reach after
  render_event_options-Keeps events =
      before-Keeps (no_event_option l) (flat_map (λ x. pieces (event_option l x)) events) refl
        (rows-Keeps (event_option l) events (λ x. refl))

  pub render_event_analysis-Keeps : (checks : List Check) → Keeps (render_event_analysis l checks)
  unfolding render_event_analysis keeps keeps_part place_after reach after
  render_event_analysis-Keeps checks =
      around-Keeps (flat_map (λ x. pieces (analysis_row x)) checks)
        (verdict l (every (λ k. k.ok) checks)) (rows-Keeps analysis_row checks (λ x. refl)) refl

  pub render_folder_nodes-Keeps :
      (selected : Text) (depth : ℕ) (folders : List Folder)
      → Keeps (render_folder_nodes l selected depth folders)
  unfolding render_folder_nodes keeps keeps_part place_after reach after
  render_folder_nodes-Keeps selected depth [] = refl
  render_folder_nodes-Keeps selected depth (f ∷ fs) =
      rows-Keeps (folder_node l selected depth) (f ∷ fs) (λ x. refl)

  root_node-Keeps : (selected : Text) (r : Root) → Keeps (root_node l selected r)
  unfolding keeps keeps_part place_after reach after
  root_node-Keeps selected r =
      before-Keeps (root_open r) (render_folder_nodes l selected 0 r.folders ++ pieces root_close)
        refl
        (around-Keeps (render_folder_nodes l selected 0 r.folders) root_close
          (render_folder_nodes-Keeps selected 0 r.folders) refl)

  pub render_roots-Keeps :
      (selected : Text) (roots : List Root) → Keeps (render_roots l selected roots)
  unfolding render_roots place_after reach after
  render_roots-Keeps selected [] = refl
  render_roots-Keeps selected (r ∷ rs) =
      Keeps-flat_map (root_node l selected) (r ∷ rs) (root_node-Keeps selected)

  pub render_folder_error-Keeps : (message : Text) → Keeps (render_folder_error message)
  unfolding render_folder_error keeps keeps_part place_after reach after
  render_folder_error-Keeps message = keeps-Keeps (folder_error message) refl

  pub render_presets-Keeps : (presets : List SharePreset) → Keeps (render_presets l presets)
  unfolding render_presets keeps keeps_part place_after reach after
  render_presets-Keeps presets =
      before-Keeps (plain_choice l) (flat_map (λ x. pieces (share_preset_choice x)) presets) refl
        (rows-Keeps share_preset_choice presets (λ x. refl))
