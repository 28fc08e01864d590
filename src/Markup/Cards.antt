-- ===== src/Markup/Cards.antt =====
-- app.js, renderStorage, renderSources, renderRoutingPreview, renderBackgroundTasks, renderOnboarding
-- and renderSetup: the check of their templates.
use moment_ferry.Common.{
  ℕ, Bool, List, [], ◌∷◌, ◌++◌, Option, some, none, Text, codes, flat_map, take, length, is_empty,
  not, refl,
}
use moment_ferry.Model.{Share}
use moment_ferry.Format.{Locale}
use moment_ferry.Tasks.{Task}
use moment_ferry.Markup.{Piece, lit, Part, pieces, reach, after}
use moment_ferry.Markup.Pieces.{place_after}
use moment_ferry.Markup.Templates.{
  Keeps, Keeps-append, Keeps-if, rows-Keeps, before-Keeps, around-Keeps, keeps, keeps_part,
  keeps-Keeps,
}
use moment_ferry.Markup.Storage.{
  StorageItem, StorageInfo, primary, missing_path, other_item, other_items, storage_body,
  others_open, others_close, storage_others, storage_path, storage_card, render_storage,
}
use moment_ferry.Markup.Sources.{shown_source, render_sources}
use moment_ferry.Markup.Preview.{
  PreviewItem, PreviewResult, visible_items, preview_row, preview_open, preview_close,
  preview_table, render_routing_preview,
}
use moment_ferry.Markup.TaskList.{task_row, latest_first, task_rows}
use moment_ferry.Markup.Setup.{
  SetupStep, guide_step, numbered, wizard_step, wizard_steps, first_undone, render_setup_steps,
  SetupCheck, check_row, render_setup_checks,
}

module _ (l : Locale) where
  other_item-Keeps : (x : StorageItem) → Keeps (other_item l x)
  unfolding place_after reach after
  other_item-Keeps x = refl

  other_items-Keeps : (xs : List StorageItem) → Keeps (other_items l xs)
  unfolding place_after reach after
  other_items-Keeps [] = refl
  other_items-Keeps (x ∷ []) = other_item-Keeps x
  other_items-Keeps (x ∷ y ∷ rest) =
      Keeps-append (other_item l x) (lit (codes " · ") ∷ other_items l (y ∷ rest))
        (other_item-Keeps x) (other_items-Keeps (y ∷ rest))

  storage_others-Keeps : (xs : List StorageItem) → Keeps (storage_others l xs)
  unfolding keeps keeps_part place_after reach after
  storage_others-Keeps [] = refl
  storage_others-Keeps (x ∷ xs) =
      before-Keeps others_open (other_items l (x ∷ xs) ++ pieces others_close) refl
        (around-Keeps (other_items l (x ∷ xs)) others_close (other_items-Keeps (x ∷ xs)) refl)

  storage_card-Keeps :
      (reserve : ℕ) (shown : StorageItem × List StorageItem) → Keeps (storage_card l reserve shown)
  unfolding keeps keeps_part place_after reach after
  storage_card-Keeps reserve (x, others) =
      let more : List Piece = storage_others l others ++ pieces (storage_path x) in
      Keeps-if x.exists (pieces (storage_body l reserve x) ++ more) (pieces (missing_path l x))
        (before-Keeps (storage_body l reserve x) more refl (
          around-Keeps (storage_others l others) (storage_path x) (storage_others-Keeps others)
            refl))
        (keeps-Keeps (missing_path l x) refl)

  pub render_storage-Keeps : (info : Option StorageInfo) → Keeps (render_storage l info)
  unfolding render_storage place_after reach after
  render_storage-Keeps none = refl
  render_storage-Keeps (some info) = by_items info.items
    where
      by_items :
          (items : List StorageItem)
          → Keeps (render_storage l (some (record info { items = items })))
      by_items [] = refl
      by_items (x ∷ xs) = storage_card-Keeps info.minimum_free_space_reserve_bytes (primary x xs)

  pub render_sources-Keeps :
      (info : Option StorageInfo) (shares : List Share) → Keeps (render_sources l info shares)
  unfolding render_sources keeps keeps_part place_after reach after
  render_sources-Keeps info [] = refl
  render_sources-Keeps info (s ∷ ss) = rows-Keeps (shown_source l info) (s ∷ ss) (λ x. refl)

  preview_table-Keeps :
      (dry : Bool) (r : PreviewResult) (visible : List (PreviewItem × ℕ))
      → Keeps (preview_table l dry r visible)
  unfolding keeps keeps_part place_after reach after
  preview_table-Keeps dry r visible =
      let rows : List Piece = flat_map (λ x. pieces (preview_row l dry x)) visible in
      let close : List Part = preview_close l (not (is_empty r.items)) (not (is_empty visible)) in
      before-Keeps (preview_open l r (length visible)) (rows ++ pieces close) refl
        (around-Keeps rows close (rows-Keeps (preview_row l dry) visible (λ x. refl)) refl)

  pub render_routing_preview-Keeps :
      (dry : Bool) (query state : Text) (r : PreviewResult)
      → Keeps (render_routing_preview l dry query state r)
  unfolding render_routing_preview
  render_routing_preview-Keeps dry query state r =
      preview_table-Keeps dry r (visible_items query state r.items)

  pub task_rows-Keeps : (now : ℕ) (tasks : List Task) → Keeps (task_rows l now tasks)
  unfolding keeps keeps_part place_after reach after
  task_rows-Keeps now tasks = rows-Keeps (task_row l now) (take 6 (latest_first tasks)) (λ x. refl)

  pub guide-Keeps :
      (steps : List SetupStep) → Keeps (flat_map (λ x. pieces (guide_step l x)) (numbered 1 steps))
  unfolding keeps keeps_part place_after reach after
  guide-Keeps steps = rows-Keeps (guide_step l) (numbered 1 steps) (λ x. refl)

  pub render_setup_steps-Keeps :
      (shares groups : ℕ) (dry : Bool) → Keeps (render_setup_steps l shares groups dry)
  unfolding render_setup_steps keeps keeps_part place_after reach after
  render_setup_steps-Keeps shares groups dry =
      let steps : List (Text × Bool) = wizard_steps l shares groups dry in
      rows-Keeps (wizard_step (first_undone 0 steps)) (numbered 0 steps) (λ x. refl)

  pub render_setup_checks-Keeps : (checks : List SetupCheck) → Keeps (render_setup_checks l checks)
  unfolding render_setup_checks keeps keeps_part place_after reach after
  render_setup_checks-Keeps checks = rows-Keeps (check_row l) checks (λ c. refl)
