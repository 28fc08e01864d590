-- ===== src/Markup/Words.antt =====
-- app.js, renderOperations, renderLogs, renderQuarantine, renderRecentOps, renderStorage and the three
-- renderers of file naming: which texts they put into the markup as they are, without escapeHtml.
use moment_ferry.Common.{
  List, [], ◌∷◌, ◌++◌, String, Bool, true, false, ◌&&◌, if◌then◌else◌, Text, codes, take, flat_map,
  All, All-append, AreDigits, is_empty, join, arith, refl,
}
use moment_ferry.Model.{Share, Operation, LogEntry}
use moment_ferry.I18n.Calm.{IsCalm, IsCalm-inert, AreCalm, t-IsCalm, t_with-IsCalm}
use moment_ferry.Format.{Locale}
use moment_ferry.Html.{escape_html}
use moment_ferry.Html.Escaping.{escape_html-IsInert}
use moment_ferry.Markup.{Piece, lit, pick, value, word, Part, always, either, pieces, said}
use moment_ferry.Markup.Pieces.{IsClean}
use moment_ferry.Markup.Operations.{
  operations_open, operations_header, operations_close, shown_operation, render_operations, log_row,
  render_logs, quarantine_row, render_quarantine, recent_row, render_recent_ops,
}
use moment_ferry.Markup.Naming.{
  RenamePreset, CameraMapping, RenameSample, usage_text, shown_preset, render_rename_presets,
  mapping_row, render_mappings, sample_row, render_samples, used_by,
}

-- The texts that are put in as they are.
abbrev pub words : List Piece → List Text
words [] = []
words (word s ∷ xs) = s ∷ words xs
words (_ ∷ xs) = words xs

abbrev pub part_words : List Part → List Text
part_words [] = []
part_words (always xs ∷ ps) = words xs ++ part_words ps
part_words (either b xs ys ∷ ps) = words xs ++ (words ys ++ part_words ps)

pub Clean-words : (xs : List Piece) → All IsCalm (words xs) → All IsClean xs
Clean-words [] h = tt
Clean-words (word s ∷ xs) (p, h) = (p, Clean-words xs h)
Clean-words (lit s ∷ xs) h = (tt, Clean-words xs h)
Clean-words (pick b one other ∷ xs) h = (tt, Clean-words xs h)
Clean-words (value s ∷ xs) h = (tt, Clean-words xs h)

All-split : (xs ys : List Text) → All IsCalm (xs ++ ys) → All IsCalm xs × All IsCalm ys
All-split [] ys h = (tt, h)
All-split (x ∷ xs) ys (p, h) = let (a, b) = All-split xs ys h in ((p, a), b)

pub All-either :
    (b : Bool) (xs ys : List Piece)
    → All IsClean xs
    → All IsClean ys
    → All IsClean (if b then xs else ys)
All-either true xs ys h k = h
All-either false xs ys h k = k

pub pieces-IsClean : (ps : List Part) → All IsCalm (part_words ps) → All IsClean (pieces ps)
pieces-IsClean [] h = tt
pieces-IsClean (always xs ∷ ps) h =
    let (a, b) = All-split (words xs) (part_words ps) h in
    All-append IsClean xs (pieces ps) (Clean-words xs a) (pieces-IsClean ps b)
pieces-IsClean (either b xs ys ∷ ps) h =
    let (p, k) = All-split (words xs) (words ys ++ part_words ps) h in
    let (q, r) = All-split (words ys) (part_words ps) k in
    All-append IsClean (if b then xs else ys) (pieces ps)
      (All-either b xs ys (Clean-words xs p) (Clean-words ys q)) (pieces-IsClean ps r)

pub flat_map-IsClean :
    {A : Type 0} (f : A → List Piece) (Q : A → Type 0) (xs : List A)
    → All Q xs
    → ((x : A) → Q x → All IsClean (f x))
    → All IsClean (flat_map f xs)
flat_map-IsClean f Q [] h k = tt
flat_map-IsClean f Q (x ∷ xs) (p, h) k =
    All-append IsClean (f x) (flat_map f xs) (k x p) (flat_map-IsClean f Q xs h k)

pub always_true : {A : Type 0} (xs : List A) → All (λ x. Unit {0}) xs
always_true [] = tt
always_true (x ∷ xs) = (tt, always_true xs)

pub escaped-IsCalm : (s : Text) → IsCalm (escape_html s)
escaped-IsCalm s = IsCalm-inert (escape_html s) (escape_html-IsInert s)

pub digits-IsCalm : (s : Text) → AreDigits s → IsCalm s
digits-IsCalm [] h = refl
digits-IsCalm (c ∷ s) (p, h) = ground (arith, digits-IsCalm s h)

-- The entries' ids are the service's own, and stand in the markup as they are.
abbrev pub CalmIds : List Operation → Type 0
CalmIds operations = All (λ o. IsCalm o.id) operations

module _ (l : Locale) (d : AreCalm l.messages) where
  pub key-IsCalm : (key : String) → IsCalm (codes key) → IsCalm (said l key)
  key-IsCalm key k = t-IsCalm l.messages (codes key) d k

  pub render_operations-IsClean :
      (dry_run : Bool) (shares : List Share) (operations : List Operation)
      → CalmIds operations
      → All IsClean (render_operations l dry_run shares operations)
  unfolding render_operations
  render_operations-IsClean dry_run shares operations ids =
      let rows = flat_map (λ o. pieces (shown_operation l dry_run shares o)) operations in
      let close = pieces (operations_close l (is_empty operations)) in
      All-append IsClean (pieces operations_open) (pieces (operations_header l) ++ (rows ++ close))
        (pieces-IsClean operations_open tt)
        (All-append IsClean (pieces (operations_header l)) (rows ++ close)
          (pieces-IsClean (operations_header l) (
            key-IsCalm "File" refl,
            (key-IsCalm "From" refl, (key-IsCalm "Stage" refl, (key-IsCalm "State" refl, tt))),
          ))
          (All-append IsClean rows close
            (flat_map-IsClean (λ o. pieces (shown_operation l dry_run shares o)) (λ o. IsCalm o.id)
              operations ids
              λ o id.
                pieces-IsClean (shown_operation l dry_run shares o)
                  (id, (key-IsCalm "Route again" refl, tt)))
            (pieces-IsClean (operations_close l (is_empty operations))
              (key-IsCalm "No operations recorded yet." refl, tt))))

  pub render_logs-IsClean : (entries : List LogEntry) → All IsClean (render_logs l entries)
  unfolding render_logs
  render_logs-IsClean [] = (tt, (key-IsCalm "Nothing logged yet." refl, (tt, tt)))
  render_logs-IsClean (e ∷ es) =
      flat_map-IsClean (λ x. pieces (log_row l x)) (λ x. Unit {0}) (e ∷ es) (always_true (e ∷ es))
        λ x u. pieces-IsClean (log_row l x) (key-IsCalm "Error details" refl, tt)

  pub render_quarantine-IsClean :
      (dry_run : Bool) (operations : List Operation)
      → CalmIds operations
      → All IsClean (render_quarantine l dry_run operations)
  unfolding render_quarantine
  render_quarantine-IsClean dry_run [] ids =
      (tt, (key-IsCalm "Nothing is waiting. Every file so far routed cleanly." refl, (tt, tt)))
  render_quarantine-IsClean dry_run (o ∷ os) ids =
      flat_map-IsClean (λ x. pieces (quarantine_row l dry_run x)) (λ x. IsCalm x.id) (o ∷ os) ids
        λ x id.
          pieces-IsClean (quarantine_row l dry_run x)
            (id, (id, (key-IsCalm "Retry" refl, (id, (key-IsCalm "Dismiss safely" refl, tt)))))

  pub render_recent_ops-IsClean :
      (operations : List Operation) → All IsClean (render_recent_ops l operations)
  unfolding render_recent_ops
  render_recent_ops-IsClean [] = (tt, (key-IsCalm "Nothing has run yet." refl, (tt, tt)))
  render_recent_ops-IsClean (o ∷ os) =
      flat_map-IsClean (λ x. pieces (recent_row l x)) (λ x. Unit {0}) (take 5 (o ∷ os))
        (always_true (take 5 (o ∷ os))) λ x u. pieces-IsClean (recent_row l x) tt

  -- The text on the shares of a preset holds their names, which are escaped before.
  usage_text-IsCalm : (names : List Text) → IsCalm (usage_text l names)
  usage_text-IsCalm [] = key-IsCalm "Not attached to a share yet" refl
  usage_text-IsCalm (x ∷ names) =
      t_with-IsCalm l.messages ((codes "shares", escape_html (join (codes ", ") (x ∷ names))) ∷ [])
        (codes "Used by {{shares}}") d refl (escaped-IsCalm (join (codes ", ") (x ∷ names)), tt)

  pub render_rename_presets-IsClean :
      (shares : List Share) (presets : List RenamePreset)
      → All IsClean (render_rename_presets l shares presets)
  unfolding render_rename_presets
  render_rename_presets-IsClean shares [] = (
    tt,
    (
      key-IsCalm "No presets yet" refl,
      (
        tt,
        (
          key-IsCalm "A preset is a filename template you can attach to a source or a destination."
              refl,
          (tt, tt),
        ),
      ),
    ),
  )
  render_rename_presets-IsClean shares (p ∷ ps) =
      flat_map-IsClean (λ x. pieces (shown_preset l shares x)) (λ x. Unit {0}) (p ∷ ps)
        (always_true (p ∷ ps))
        λ x u. pieces-IsClean (shown_preset l shares x) (
          usage_text-IsCalm (used_by shares x.id),
          (key-IsCalm "Edit" refl, (key-IsCalm "Preview" refl, (key-IsCalm "Remove" refl, tt))),
        )

  pub render_mappings-IsClean :
      (mappings : List CameraMapping) → All IsClean (render_mappings l mappings)
  unfolding render_mappings
  render_mappings-IsClean [] =
      (tt, (key-IsCalm "No mappings yet. The reported model is used as-is." refl, (tt, tt)))
  render_mappings-IsClean (m ∷ ms) =
      flat_map-IsClean (λ x. pieces (mapping_row l x)) (λ x. Unit {0}) (m ∷ ms)
        (always_true (m ∷ ms))
        λ x u. pieces-IsClean (mapping_row l x) (key-IsCalm "Remove" refl, tt)

  pub render_samples-IsClean :
      (source_template destination_template : Text) (samples : List RenameSample)
      → All IsClean (render_samples l source_template destination_template samples)
  unfolding render_samples
  render_samples-IsClean source_template destination_template samples =
      flat_map-IsClean
        (λ x. pieces (sample_row l (is_empty source_template && is_empty destination_template) x))
        (λ x. Unit {0}) samples (always_true samples)
        λ x u.
          pieces-IsClean
            (sample_row l (is_empty source_template && is_empty destination_template) x)
            (key-IsCalm "unchanged until a template is set" refl, (key-IsCalm "no camera" refl, tt))
