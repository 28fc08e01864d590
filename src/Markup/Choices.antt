-- ===== src/Markup/Choices.antt =====
-- app.js, the lists of file naming and the choices of the forms, and the select of i18n.js: the check of
-- their templates.
use moment_ferry.Common.{List, [], ◌∷◌, Text, String, filter, flat_map, is_empty, ◌&&◌, not, refl}
use moment_ferry.Model.{Share, SourceGroup, is_source}
use moment_ferry.Format.{Locale}
use moment_ferry.Forms.Groups.{source_shares}
use moment_ferry.Markup.{pieces, reach, after}
use moment_ferry.Markup.Pieces.{place_after}
use moment_ferry.Markup.Templates.{Keeps, rows-Keeps, before-Keeps, keeps, keeps_part}
use moment_ferry.Markup.Naming.{
  RenamePreset, CameraMapping, RenameSample, shown_preset, render_rename_presets, mapping_row,
  render_mappings, sample_row, render_samples,
}
use moment_ferry.Markup.Selects.{
  first_choice, preset_choice, render_preset_choices, group_choice, choices_of,
  render_group_choices, group_option, render_group_options, share_option, share_options,
  render_destination_options, render_routing_sources, all_shares_choice, languages, language_option,
  render_languages, named_share_choice, render_maintenance_shares,
}

module _ (l : Locale) where
  pub render_rename_presets-Keeps :
      (shares : List Share) (presets : List RenamePreset)
      → Keeps (render_rename_presets l shares presets)
  unfolding render_rename_presets keeps keeps_part place_after reach after
  render_rename_presets-Keeps shares [] = refl
  render_rename_presets-Keeps shares (p ∷ ps) =
      rows-Keeps (shown_preset l shares) (p ∷ ps) (λ x. refl)

  pub render_mappings-Keeps : (mappings : List CameraMapping) → Keeps (render_mappings l mappings)
  unfolding render_mappings keeps keeps_part place_after reach after
  render_mappings-Keeps [] = refl
  render_mappings-Keeps (m ∷ ms) = rows-Keeps (mapping_row l) (m ∷ ms) (λ x. refl)

  pub render_samples-Keeps :
      (source_template destination_template : Text) (samples : List RenameSample)
      → Keeps (render_samples l source_template destination_template samples)
  unfolding render_samples keeps keeps_part place_after reach after
  render_samples-Keeps source_template destination_template samples =
      rows-Keeps (sample_row l (is_empty source_template && is_empty destination_template)) samples
        (λ x. refl)

  pub render_preset_choices-Keeps :
      (presets : List RenamePreset) → Keeps (render_preset_choices l presets)
  unfolding render_preset_choices keeps keeps_part place_after reach after
  render_preset_choices-Keeps presets =
      before-Keeps (first_choice l) (flat_map (λ x. pieces (preset_choice x)) presets) refl
        (rows-Keeps preset_choice presets (λ x. refl))

  choices_of-Keeps :
      (selected : List Text) (shares : List Share) → Keeps (choices_of l selected shares)
  unfolding keeps keeps_part place_after reach after
  choices_of-Keeps selected [] = refl
  choices_of-Keeps selected (s ∷ ss) = rows-Keeps (group_choice selected) (s ∷ ss) (λ x. refl)

  pub render_group_choices-Keeps :
      (selected : List Text) (shares : List Share) → Keeps (render_group_choices l selected shares)
  unfolding render_group_choices
  render_group_choices-Keeps selected shares = choices_of-Keeps selected (source_shares shares)

  pub render_group_options-Keeps :
      (groups : List SourceGroup) → Keeps (render_group_options l groups)
  unfolding render_group_options keeps keeps_part place_after reach after
  render_group_options-Keeps [] = refl
  render_group_options-Keeps (g ∷ gs) = rows-Keeps group_option (g ∷ gs) (λ x. refl)

  share_options-Keeps :
      (without : String) (shares : List Share) → Keeps (share_options l without shares)
  unfolding keeps keeps_part place_after reach after
  share_options-Keeps without [] = refl
  share_options-Keeps without (s ∷ ss) = rows-Keeps share_option (s ∷ ss) (λ x. refl)

  pub render_destination_options-Keeps :
      (shares : List Share) → Keeps (render_destination_options l shares)
  unfolding render_destination_options
  render_destination_options-Keeps shares =
      share_options-Keeps "Create a destination share first"
        (filter (λ s. s.enabled && not (is_source s.role)) shares)

  pub render_routing_sources-Keeps : (shares : List Share) → Keeps (render_routing_sources l shares)
  unfolding render_routing_sources
  render_routing_sources-Keeps shares =
      share_options-Keeps "No source shares" (source_shares shares)

  pub render_maintenance_shares-Keeps :
      (shares : List Share) → Keeps (render_maintenance_shares l shares)
  unfolding render_maintenance_shares keeps keeps_part place_after reach after
  render_maintenance_shares-Keeps shares =
      before-Keeps (all_shares_choice l) (flat_map (λ s. pieces (named_share_choice s)) shares) refl
        (rows-Keeps named_share_choice shares (λ s. refl))

pub render_languages-Keeps : (current : Text) → Keeps (render_languages current)
unfolding render_languages keeps keeps_part place_after reach after
render_languages-Keeps current =
    rows-Keeps (language_option current) languages (λ (code, label). refl)
