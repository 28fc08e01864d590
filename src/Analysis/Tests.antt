-- ===== src/Analysis/Tests.antt =====
-- app.js, file analysis: runs at concrete inputs.
use moment_ferry.Common.{List, [], ◌∷◌, some, true, false, codes, ◌≡◌, refl, decimal}
use moment_ferry.Model.{Share, MediaEvent, MediaFile}
use moment_ferry.Model.Samples.{share_at, kiel, phones, photo}
use moment_ferry.Analysis.{Console, event_checks, event_matches, takes}
use moment_ferry.Analysis.Routing.{is_matchable, list_matchable}

abbrev console : List MediaEvent → Console
console events = record {
  locale = record { messages = []; date_string = decimal; number_string = decimal };
  groups = phones ∷ [];
  shares = share_at (codes "/mnt") ∷ share_at (codes "/mnt/phone") ∷ [];
  events = events;
  allow_filesystem_timestamp_fallback = false;
}

abbrev phone : Share
phone = share_at (codes "/mnt/phone")

abbrev twin : MediaEvent
twin = record kiel { id = codes "e2" }

routed : takes (console (kiel ∷ [])) kiel photo phone ≡ true
unfolding takes event_checks
routed = refl

contested : takes (console (kiel ∷ twin ∷ [])) kiel photo phone ≡ false
unfolding takes event_checks event_matches
contested = refl

-- A file of a tick after the end of an event, in the same millisecond: the dialog says that the event takes
-- it, and the service does not.
abbrev ended : MediaEvent
ended = record kiel { end_at = some 50000000 }

abbrev late : MediaFile
late = record photo { captured_at = 50000001 }

late_shown : takes (console (ended ∷ [])) ended late phone ≡ true
unfolding takes event_checks
late_shown = refl

late_refused : list_matchable late.captured_at (ended ∷ []) ≡ []
unfolding list_matchable is_matchable
late_refused = refl
