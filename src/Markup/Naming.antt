-- ===== src/Markup/Naming.antt =====
-- app.js, file naming: renderRenamePresets, renderMappings and the samples of refreshRenamePreview.
use moment_ferry.Common.{
  List, [], ◌∷◌, Option, none, some, Bool, false, ◌&&◌, if◌then◌else◌, Text, codes, text_eq, filter,
  map, flat_map, is_empty, join, or_blank, or_else_text, is_set,
}
use moment_ferry.Model.{Share}
use moment_ferry.I18n.{t}
use moment_ferry.Html.{escape_html}
use moment_ferry.Format.{Locale}
use moment_ferry.Markup.{Piece, lit, value, word, Part, always, either, pieces, said, say}

pub record RenamePreset : Type 0 where
  pub id : Text
  pub name : Text
  pub template : Text

pub record CameraMapping : Type 0 where
  pub id : Text
  pub from : Text
  pub to : Text

pub record RenameSample : Type 0 where
  pub original : Text
  pub result : Text
  pub origin : Option Text
  pub camera : Option Text

-- `shares.filter(s => s.renamePresetId === preset.id).map(s => s.name)`
abbrev pub used_by : List Share → Text → List Text
used_by shares id =
    map (λ s. s.name)
      (filter (λ s. elim s.rename_preset_id [ none ↦ false | some p ↦ text_eq p id ]) shares)

abbrev pub usage_text : Locale → List Text → Text
usage_text l names =
    if is_empty names
    then said l "Not attached to a share yet"
    else t l.messages (codes "Used by {{shares}}")
        (some ((codes "shares", escape_html (join (codes ", ") names)) ∷ []))

abbrev pub preset_row : Locale → List Text → RenamePreset → List Part
preset_row l names p =
    always (
      lit (
        codes
          "\n      <article class=\"list-row\">\n        <div class=\"list-main\">\n          <div class=\"list-heading\">\n            <span class=\"list-title\">")
      ∷ value p.name
      ∷ lit (codes "</span>\n          </div>\n          <div class=\"list-path\">")
      ∷ value p.template
      ∷ lit (codes "</div>\n          <div class=\"list-meta\">")
      ∷ word (usage_text l names)
      ∷ lit (
          codes
            "</div>\n        </div>\n        <div class=\"card-actions\">\n          <button class=\"btn btn-sm btn-ghost\" type=\"button\" onclick=\"editPreset('")
      ∷ value p.id
      ∷ lit (codes "')\">")
      ∷ say l "Edit"
      ∷ lit (
          codes
            "</button>\n          <button class=\"btn btn-sm btn-ghost\" type=\"button\" onclick=\"tryPreset('")
      ∷ value p.id
      ∷ lit (codes "')\">")
      ∷ say l "Preview"
      ∷ lit (
          codes
            "</button>\n          <button class=\"btn btn-sm btn-danger\" type=\"button\" onclick=\"deletePreset('")
      ∷ value p.id
      ∷ lit (codes "')\">")
      ∷ say l "Remove"
      ∷ lit (codes "</button>\n        </div>\n      </article>")
      ∷ [])
    ∷ []

abbrev pub shown_preset : Locale → List Share → RenamePreset → List Part
shown_preset l shares p = preset_row l (used_by shares p.id) p

unfoldable pub render_rename_presets : Locale → List Share → List RenamePreset → List Piece
render_rename_presets l shares [] = pieces (
    always (
      lit (codes "<div class=\"empty\"><strong>")
      ∷ say l "No presets yet"
      ∷ lit (codes "</strong>")
      ∷ say l "A preset is a filename template you can attach to a source or a destination."
      ∷ lit (codes "</div>")
      ∷ [])
    ∷ [])
render_rename_presets l shares (p ∷ ps) = flat_map (λ x. pieces (shown_preset l shares x)) (p ∷ ps)

abbrev pub mapping_row : Locale → CameraMapping → List Part
mapping_row l m =
    always (
      lit (
        codes
          "\n    <article class=\"list-row\" style=\"padding:10px 14px\">\n      <div class=\"list-main\">\n        <div class=\"mono\" style=\"font-size:12.5px\">")
      ∷ value m.from
      ∷ lit (codes " → <b>")
      ∷ value m.to
      ∷ lit (
          codes
            "</b></div>\n      </div>\n      <div class=\"card-actions\">\n        <button class=\"btn btn-sm btn-danger\" type=\"button\" onclick=\"deleteMapping('")
      ∷ value m.id
      ∷ lit (codes "')\">")
      ∷ say l "Remove"
      ∷ lit (codes "</button>\n      </div>\n    </article>")
      ∷ [])
    ∷ []

unfoldable pub render_mappings : Locale → List CameraMapping → List Piece
render_mappings l [] = pieces (
    always (
      lit (codes "<div class=\"list-meta\">")
      ∷ say l "No mappings yet. The reported model is used as-is."
      ∷ lit (codes "</div>")
      ∷ [])
    ∷ [])
render_mappings l (m ∷ ms) = flat_map (λ x. pieces (mapping_row l x)) (m ∷ ms)

abbrev pub sample_row : Locale → Bool → RenameSample → List Part
sample_row l unchanged s =
    always (
      lit (
        codes
          "\n      <div class=\"list-row\" style=\"padding:9px 13px\">\n        <div class=\"list-main\">\n          <div class=\"mono\" style=\"font-size:12px;color:var(--mut)\">")
      ∷ value s.original
      ∷ lit (codes "</div>\n          <div class=\"mono\" style=\"font-size:13px\">")
      ∷ [])
    ∷ either (unchanged)
        (lit (codes "<span style=\"color:var(--mut)\">")
          ∷ say l "unchanged until a template is set"
          ∷ lit (codes "</span>")
          ∷ [])
        (lit (codes "<b class=\"acc\">") ∷ value s.result ∷ lit (codes "</b>") ∷ [])
    ∷ always (
        lit (
          codes
            "</div>\n        </div>\n        <div class=\"list-side\">\n          <div class=\"list-meta\">")
        ∷ value (or_else_text (or_blank s.origin) (said l "sample"))
        ∷ lit (codes "</div>\n          <div class=\"list-meta\">")
        ∷ [])
    ∷ either (is_set s.camera) (value (or_blank s.camera) ∷ []) (say l "no camera" ∷ [])
    ∷ always (lit (codes "</div>\n        </div>\n      </div>") ∷ [])
    ∷ []

-- `source_template` and `destination_template` are trimmed.
unfoldable pub render_samples : Locale → Text → Text → List RenameSample → List Piece
render_samples l source_template destination_template samples =
    flat_map
      (λ x. pieces (sample_row l (is_empty source_template && is_empty destination_template) x))
      samples
