-- ===== src/Renaming/Tests.antt =====
-- app.js, the preview of names: runs at concrete inputs.
use moment_ferry.Common.{List, [], ◌∷◌, some, All, codes, trim, ◌≡◌, refl}
use moment_ferry.Renaming.{
  told, refused, Event, type_source, fire, answer, templates, step, run, loaded,
}
use moment_ferry.Renaming.Settled.{shown_for, IsInOrder, run-settled}

abbrev typing : List Event
typing =
    type_source (codes "{date} ")
    ∷ fire
    ∷ answer 0 (refused (codes "Bad Gateway"))
    ∷ answer 0 (told [])
    ∷ []

typing-IsInOrder : All IsInOrder typing
typing-IsInOrder = (tt, (tt, (refl, (refl, tt))))

run-settled_example :
    shown_for (run typing (loaded [] [])).shown ≡ some (templates (run typing (loaded [] [])))
unfolding run step
run-settled_example = run-settled typing [] [] typing-IsInOrder refl refl

-- Where the first answer comes last, the page shows it, though something else is typed.
abbrev overtaken : List Event
overtaken = type_source (codes "{date}") ∷ fire ∷ answer 1 (told []) ∷ answer 0 (told []) ∷ []

stale_preview : shown_for (run overtaken (loaded [] [])).shown ≡ some ([], [])
unfolding run step trim
stale_preview = refl
