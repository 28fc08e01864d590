-- ===== src/Renaming.antt =====
-- src/MomentFerry.Web/wwwroot/app.js, the preview of names: refreshRenamePreview with schedulePreview,
-- tryPreset and the two inputs, as a machine with the requests that are under way, the oldest first.
pub mod Settled
mod Tests
use moment_ferry.Common.{
  take_out, ℕ, zero, suc, List, [], ◌∷◌, ◌++◌, Option, none, some, Bool, true, false, if◌then◌else◌,
  Text, text_eq, trim, find,
}
use moment_ferry.Format.{Locale}
use moment_ferry.Markup.{Piece}
use moment_ferry.Markup.Folders.{render_folder_error}
use moment_ferry.Markup.Naming.{RenamePreset, RenameSample, render_samples}

-- The templates that were sent, and what came of them.
pub data Shown : Type 0 where
  nothing : Shown
  samples : Text × Text → List RenameSample → Shown
  failed : Text × Text → Text → Shown

pub record NamePreview : Type 0 where
  pub source_template : Text
  pub destination_template : Text
  -- The timer is set.
  pub timer : Bool
  pub in_flight : List (Text × Text)
  pub shown : Shown

pub data Reply : Type 0 where
  told : List RenameSample → Reply
  refused : Text → Reply

pub data Event : Type 0 where
  type_source type_destination : Text → Event
  -- The timer is over.
  fire : Event
  -- reloadRenaming, deleteMapping and the form of mappings refresh the preview too.
  refresh : Event
  try_preset : List RenamePreset → Text → Event
  -- One of the requests under way is answered.
  answer : ℕ → Reply → Event

abbrev pub templates : NamePreview → Text × Text
templates s = (trim s.source_template, trim s.destination_template)

-- refreshRenamePreview, up to its request.
abbrev pub refresh_rename_preview : NamePreview → NamePreview
refresh_rename_preview s = record s { in_flight = s.in_flight ++ templates s ∷ [] }

abbrev pub schedule_preview : NamePreview → NamePreview
schedule_preview s = record s { timer = true }

-- The rest of refreshRenamePreview.
abbrev pub show_reply : Text × Text → Reply → NamePreview → NamePreview
show_reply asked (told xs) s = record s { shown = samples asked xs }
show_reply asked (refused m) s = record s { shown = failed asked m }

abbrev pub answer_asked :
    Option ((Text × Text) × List (Text × Text)) → Reply → NamePreview → NamePreview
answer_asked none reply s = s
answer_asked (some (asked, rest)) reply s = show_reply asked reply (record s { in_flight = rest })

-- tryPreset; an id that is not in the list does nothing.
abbrev pub try_found : Option RenamePreset → NamePreview → NamePreview
try_found none s = s
try_found (some p) s = refresh_rename_preview (record s { destination_template = p.template })

unfoldable pub step : Event → NamePreview → NamePreview
step (type_source value) s = schedule_preview (record s { source_template = value })
step (type_destination value) s = schedule_preview (record s { destination_template = value })
step fire s = if s.timer then refresh_rename_preview (record s { timer = false }) else s
step refresh s = refresh_rename_preview s
step (try_preset presets id) s = try_found (find (λ p. text_eq p.id id) presets) s
step (answer k reply) s = answer_asked (take_out k s.in_flight) reply s

unfoldable pub run : List Event → NamePreview → NamePreview
run [] s = s
run (e ∷ es) s = run es (step e s)

-- The preview as the load of the page leaves it, with the first request under way.
abbrev pub loaded : Text → Text → NamePreview
loaded source_template destination_template = refresh_rename_preview (record {
  source_template = source_template;
  destination_template = destination_template;
  timer = false;
  in_flight = [];
  shown = nothing;
})

-- What is written into the page.
unfoldable pub render_rename_preview : Locale → Shown → List Piece
render_rename_preview l nothing = []
render_rename_preview l (samples (source, destination) xs) = render_samples l source destination xs
render_rename_preview l (failed asked message) = render_folder_error message
