-- ===== src/Forms/ShareFields.antt =====
-- app.js, the share form: applyPreset, and which fields the role shows (syncShareRoleFields).
use moment_ferry.Common.{List, [], ◌∷◌, none, some, Bool, ◌||◌, not, text_eq, find, join}
use moment_ferry.Model.{ShareRole, is_source, is_destination, is_both}
use moment_ferry.Markup.Selects.{SharePreset}
use moment_ferry.Forms.Shares.{ShareForm}

-- applyPreset; the choice of no preset, and one that is not in the list, change nothing.
unfoldable pub apply_preset : List SharePreset → ShareForm → ShareForm
apply_preset presets f = elim (find (λ p. text_eq p.id f.preset) presets) [
  | none ↦ f
  | some p ↦ record f { stability = p.stability_seconds; ignore = join (10 ∷ []) p.ignore_patterns }
]

pub record RoleFields : Type 0 where
  pub extensions_hidden : Bool
  pub subfolders_hidden : Bool
  pub hint_hidden : Bool

unfoldable pub sync_share_role_fields : ShareRole → RoleFields
sync_share_role_fields role = record {
  extensions_hidden = not (is_source role || is_both role);
  subfolders_hidden = not (is_destination role || is_both role);
  hint_hidden = not (is_destination role || is_both role);
}
