-- ===== src/Markup/Selects.antt =====
-- app.js, the choices of the forms: renderPresets, renderPresetChoices, renderGroupChoices,
-- renderEventSelectors, renderRoutingSources and the select of refreshMaintenance; the select of the
-- language (initI18n, i18n.js).
use moment_ferry.Common.{
  text_eq, ℕ, List, [], ◌∷◌, ◌++◌, ◌&&◌, not, Text, codes, filter, flat_map, String, includes,
}
use moment_ferry.Model.{Share, SourceGroup, is_source}
use moment_ferry.Format.{Locale}
use moment_ferry.Markup.{Piece, lit, pick, value, word, Part, always, pieces, say}
use moment_ferry.Forms.Groups.{source_shares}
use moment_ferry.Markup.Naming.{RenamePreset}

abbrev pub first_choice : Locale → List Part
first_choice l =
    always (lit (codes "<option value=\"\">") ∷ say l "No renaming" ∷ lit (codes "</option>") ∷ [])
    ∷ []

abbrev pub preset_choice : RenamePreset → List Part
preset_choice p =
    always (
      lit (codes "<option value=\"")
      ∷ value p.id
      ∷ lit (codes "\">")
      ∷ value p.name
      ∷ lit (codes "</option>")
      ∷ [])
    ∷ []

unfoldable pub render_preset_choices : Locale → List RenamePreset → List Piece
render_preset_choices l presets =
    pieces (first_choice l) ++ flat_map (λ x. pieces (preset_choice x)) presets

abbrev pub group_choice : List Text → Share → List Part
group_choice selected s =
    always (
      lit (codes "\n        <label><input type=\"checkbox\" name=\"groupShare\" value=\"")
      ∷ word s.id
      ∷ lit (codes "\" ")
      ∷ pick (includes selected s.id) (codes "checked") []
      ∷ lit (codes " />")
      ∷ value s.name
      ∷ lit (codes "</label>\n      ")
      ∷ [])
    ∷ []

abbrev pub choices_of : Locale → List Text → List Share → List Piece
choices_of l selected [] = pieces (
    always (
      lit (codes "<span class=\"subtle\">")
      ∷ say l "Create at least one source share first."
      ∷ lit (codes "</span>")
      ∷ [])
    ∷ [])
choices_of l selected (s ∷ ss) = flat_map (λ x. pieces (group_choice selected x)) (s ∷ ss)

unfoldable pub render_group_choices : Locale → List Text → List Share → List Piece
render_group_choices l selected shares = choices_of l selected (source_shares shares)

abbrev pub group_option : SourceGroup → List Part
group_option g =
    always (
      lit (codes "<option value=\"")
      ∷ word g.id
      ∷ lit (codes "\">")
      ∷ value g.name
      ∷ lit (codes "</option>")
      ∷ [])
    ∷ []

-- The two selects of renderEventSelectors.
unfoldable pub render_group_options : Locale → List SourceGroup → List Piece
render_group_options l [] = pieces (
    always (
      lit (codes "<option value=\"\">")
      ∷ say l "Create a source group first"
      ∷ lit (codes "</option>")
      ∷ [])
    ∷ [])
render_group_options l (g ∷ gs) = flat_map (λ x. pieces (group_option x)) (g ∷ gs)

abbrev pub share_option : Share → List Part
share_option s =
    always (
      lit (codes "<option value=\"")
      ∷ word s.id
      ∷ lit (codes "\">")
      ∷ value s.name
      ∷ lit (codes " · ")
      ∷ value s.path
      ∷ lit (codes "</option>")
      ∷ [])
    ∷ []

abbrev pub share_options : Locale → String → List Share → List Piece
share_options l without [] =
    pieces (
      always (lit (codes "<option value=\"\">") ∷ say l without ∷ lit (codes "</option>") ∷ [])
      ∷ [])
share_options l without (s ∷ ss) = flat_map (λ x. pieces (share_option x)) (s ∷ ss)

unfoldable pub render_destination_options : Locale → List Share → List Piece
render_destination_options l shares =
    share_options l "Create a destination share first"
      (filter (λ s. s.enabled && not (is_source s.role)) shares)

unfoldable pub render_routing_sources : Locale → List Share → List Piece
render_routing_sources l shares = share_options l "No source shares" (source_shares shares)

-- A preset for shares, as the API tells it.
pub record SharePreset : Type 0 where
  pub id : Text
  pub display_name : Text
  pub stability_seconds : ℕ
  pub ignore_patterns : List Text

abbrev pub plain_choice : Locale → List Part
plain_choice l =
    always (
      lit (codes "<option value=\"\">")
      ∷ say l "Plain folder / custom"
      ∷ lit (codes "</option>")
      ∷ [])
    ∷ []

abbrev pub share_preset_choice : SharePreset → List Part
share_preset_choice p =
    always (
      lit (codes "<option value=\"")
      ∷ value p.id
      ∷ lit (codes "\">")
      ∷ value p.display_name
      ∷ lit (codes "</option>")
      ∷ [])
    ∷ []

-- renderPresets
unfoldable pub render_presets : Locale → List SharePreset → List Piece
render_presets l presets =
    pieces (plain_choice l) ++ flat_map (λ x. pieces (share_preset_choice x)) presets

abbrev pub all_shares_choice : Locale → List Part
all_shares_choice l =
    always (lit (codes "<option value=\"\">") ∷ say l "All shares" ∷ lit (codes "</option>") ∷ [])
    ∷ []

abbrev pub named_share_choice : Share → List Part
named_share_choice s =
    always (
      lit (codes "<option value=\"")
      ∷ word s.id
      ∷ lit (codes "\">")
      ∷ value s.name
      ∷ lit (codes "</option>")
      ∷ [])
    ∷ []

-- The select of refreshMaintenance.
unfoldable pub render_maintenance_shares : Locale → List Share → List Piece
render_maintenance_shares l shares =
    pieces (all_shares_choice l) ++ flat_map (λ s. pieces (named_share_choice s)) shares

-- LANGUAGES, with the names shown for them.
abbrev pub languages : List (Text × Text)
languages =
    (codes "en", codes "English")
    ∷ (codes "de", codes "Deutsch")
    ∷ (codes "ru", codes "Русский")
    ∷ (codes "pl", codes "Polski")
    ∷ (codes "it", codes "Italiano")
    ∷ (codes "fr", codes "Français")
    ∷ (codes "uk", codes "Українська")
    ∷ []

abbrev pub language_option : Text → Text × Text → List Part
language_option current (code, label) =
    always (
      lit (codes "<option value=\"")
      ∷ word code
      ∷ lit (codes "\"")
      ∷ pick (text_eq code current) (codes " selected") []
      ∷ lit (codes ">")
      ∷ word label
      ∷ lit (codes "</option>")
      ∷ [])
    ∷ []

-- The select of initI18n.
unfoldable pub render_languages : Text → List Piece
render_languages current = flat_map (λ x. pieces (language_option current x)) languages
