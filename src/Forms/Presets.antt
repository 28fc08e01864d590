-- ===== src/Forms/Presets.antt =====
-- app.js, editPreset, resetPresetForm and the submit handlers of the preset and the mapping form.
use moment_ferry.Common.{List, [], none, some, Text, codes, text_eq, find}
use moment_ferry.Markup.Naming.{RenamePreset}
use moment_ferry.Forms.{Sent, sent, post}

pub record PresetForm : Type 0 where
  pub preset_id : Text
  pub name : Text
  pub template : Text

pub record PresetRequest : Type 0 where
  pub name : Text
  pub template : Text

-- editPreset; an id that is not in the list leaves the form as it is.
unfoldable pub edit_preset : List RenamePreset → Text → PresetForm → PresetForm
edit_preset presets id f = elim (find (λ p. text_eq p.id id) presets) [
  | none ↦ f
  | some p ↦ record { preset_id = p.id; name = p.name; template = p.template }
]

abbrev pub reset_preset_form : PresetForm
reset_preset_form = record { preset_id = []; name = []; template = [] }

-- The submit handler of the preset form, up to the request.
unfoldable pub submit_preset : PresetForm → Sent PresetRequest
submit_preset f =
    sent (codes "/api/v1/rename-presets") (codes "/api/v1/rename-presets") f.preset_id
      (record { name = f.name; template = f.template })

pub record MappingRequest : Type 0 where
  pub from : Text
  pub to : Text

-- The submit handler of the mapping form: a mapping is only ever added.
unfoldable pub submit_mapping : Text → Text → Sent MappingRequest
submit_mapping from to = record {
  method = post;
  url = codes "/api/v1/camera-mappings";
  body = record { from = from; to = to };
}
