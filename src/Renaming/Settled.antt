-- ===== src/Renaming/Settled.antt =====
-- app.js, the preview of names: what it shows when nothing is under way.
use moment_ferry.Common.{
  take_out, List, [], ◌∷◌, ◌++◌, Option, none, some, Bool, true, false, if◌then◌else◌, Text, All,
  arith, ◌≡◌, ◌⊎◌, inl, inr, refl, ◌∙◌, ap, sym, subst, find, text_eq,
}
use moment_ferry.Markup.Naming.{RenamePreset}
use moment_ferry.Renaming.{
  Shown, nothing, samples, failed, NamePreview, Reply, told, refused, Event, type_source,
  type_destination, fire, refresh, try_preset, answer, templates, refresh_rename_preview,
  answer_asked, try_found, step, run, loaded,
}

abbrev pub shown_for : Shown → Option (Text × Text)
shown_for nothing = none
shown_for (samples asked xs) = some asked
shown_for (failed asked m) = some asked

-- The templates that were sent last.
abbrev pub last_asked : Option (Text × Text) → List (Text × Text) → Option (Text × Text)
last_asked o [] = o
last_asked o (a ∷ rest) = last_asked (some a) rest

last_asked-append :
    (o : Option (Text × Text)) (xs : List (Text × Text)) (a : Text × Text)
    → last_asked o (xs ++ a ∷ []) ≡ some a
last_asked-append o [] a = refl
last_asked-append o (x ∷ xs) a = last_asked-append (some x) xs a

-- The answer of an event is that of the oldest request.
abbrev pub IsInOrder : Event → Type 0
IsInOrder (answer k reply) = k ≡ 0
IsInOrder _ = Unit

-- The timer is set, or the last request is about what is typed.
abbrev IsCurrent : NamePreview → Type 0
IsCurrent s = (s.timer ≡ true) ⊎ (last_asked (shown_for s.shown) s.in_flight ≡ some (templates s))

refresh-IsCurrent : (s : NamePreview) → IsCurrent (refresh_rename_preview s)
refresh-IsCurrent s = inr (last_asked-append (shown_for s.shown) s.in_flight (templates s))

try_found-IsCurrent :
    (found : Option RenamePreset) (s : NamePreview) → IsCurrent s → IsCurrent (try_found found s)
try_found-IsCurrent none s h = h
try_found-IsCurrent (some p) s h =
    refresh-IsCurrent (record s { destination_template = p.template })

oldest-IsCurrent :
    (s : NamePreview) (asked : List (Text × Text)) (reply : Reply)
    → (s.timer ≡ true) ⊎ (last_asked (shown_for s.shown) asked ≡ some (templates s))
    → s.in_flight ≡ asked
    → IsCurrent (answer_asked (take_out 0 asked) reply s)
oldest-IsCurrent s [] reply h e = rw e h
oldest-IsCurrent s (a ∷ rest) (told xs) h e = h
oldest-IsCurrent s (a ∷ rest) (refused m) h e = h

fired-IsCurrent :
    (s : NamePreview) (set : Bool)
    → IsCurrent s
    → IsCurrent (if set then refresh_rename_preview (record s { timer = false }) else s)
fired-IsCurrent s true h = refresh-IsCurrent (record s { timer = false })
fired-IsCurrent s false h = h

step-IsCurrent : (e : Event) (s : NamePreview) → IsInOrder e → IsCurrent s → IsCurrent (step e s)
unfolding step
step-IsCurrent (type_source value) s o h = inl refl
step-IsCurrent (type_destination value) s o h = inl refl
step-IsCurrent fire s o h = fired-IsCurrent s s.timer h
step-IsCurrent refresh s o h = refresh-IsCurrent s
step-IsCurrent (try_preset presets id) s o h =
    try_found-IsCurrent (find (λ p. text_eq p.id id) presets) s h
step-IsCurrent (answer k reply) s o h =
    subst (λ n. IsCurrent (answer_asked (take_out n s.in_flight) reply s)) (sym o)
      (oldest-IsCurrent s s.in_flight reply h refl)

run-IsCurrent :
    (es : List Event) (s : NamePreview) → All IsInOrder es → IsCurrent s → IsCurrent (run es s)
unfolding run
run-IsCurrent [] s o h = h
run-IsCurrent (e ∷ es) s (o, os) h = run-IsCurrent es (step e s) os (step-IsCurrent e s o h)

settled :
    (s : NamePreview)
    → IsCurrent s
    → s.timer ≡ false
    → s.in_flight ≡ []
    → shown_for s.shown ≡ some (templates s)
settled s (inl on) off none_left = ground arith
settled s (inr e) off none_left = sym (ap (last_asked (shown_for s.shown)) none_left) ∙ e

-- Whatever is typed and refreshed in the preview of names, from the load of the page on, if the answers
-- come in the order of the requests, failures included: when no timer is set and no request is under
-- way, what is shown is the answer for the two templates that are typed.
pub run-settled :
    (es : List Event) (source_template destination_template : Text)
    → All IsInOrder es
    → (run es (loaded source_template destination_template)).timer ≡ false
    → (run es (loaded source_template destination_template)).in_flight ≡ []
    → shown_for (run es (loaded source_template destination_template)).shown
      ≡ some (templates (run es (loaded source_template destination_template)))
run-settled es a b os off none_left =
    let s = run es (loaded a b) in
    settled s (run-IsCurrent es (loaded a b) os (inr refl)) off none_left
