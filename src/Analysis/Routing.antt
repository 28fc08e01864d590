-- ===== src/Analysis/Routing.antt =====
-- The service that decides: RoutingPreviewService.EvaluateCoreAsync
-- (src/MomentFerry.Application/Services/RoutingPreviewService.cs), the query for matchable events
-- (src/MomentFerry.Infrastructure/Persistence/SqliteMediaEventRepository.cs) and the guard of
-- MediaRoutingWorker (src/MomentFerry.Web/Background/MediaRoutingWorker.cs).
-- The query compares the instants as the texts of a fixed width that they are stored as, down to the tick.
-- The dictionaries by id are searches of the lists they are built from.
pub mod Agreement
use moment_ferry.Common.{
  sort_falling, insert_falling, ℕ, List, [], ◌∷◌, Option, none, some, Bool, true, false, ◌&&◌, ◌||◌,
  not, if◌then◌else◌, ltb, leb, Text, codes, text_eq, includes, find, filter, length,
}
use moment_ferry.Model.{Share, SourceGroup, MediaEvent, MediaFile, is_active, is_closed, is_source}

-- `end_at_utc IS NULL OR end_at_utc >= $captured`
is_open_at : ℕ → Option ℕ → Bool
is_open_at captured none = true
is_open_at captured (some end) = leb captured end

-- The condition of the query.
unfoldable pub is_matchable : ℕ → MediaEvent → Bool
unfolding is_open_at
is_matchable captured e =
    (is_active e.status || is_closed e.status)
    && (leb e.start_at captured && is_open_at captured e.end_at)

-- `ORDER BY start_at_utc DESC`
order_by_start : List MediaEvent → List MediaEvent
unfolding sort_falling
order_by_start = sort_falling (λ e. e.start_at)

unfoldable pub list_matchable : ℕ → List MediaEvent → List MediaEvent
unfolding order_by_start
list_matchable captured events = order_by_start (filter (is_matchable captured) events)

-- `groups.TryGetValue(e.SourceGroupId, out var group) && group.ShareIds.Contains(sourceShare.Id)`
pub contributes : List SourceGroup → Text → MediaEvent → Bool
contributes groups share_id e = elim (find (λ g. text_eq g.id e.source_group_id) groups) [
  | none ↦ false
  | some g ↦ includes g.share_ids share_id
]

pub data Decision : Type 0 where
  unmatched : Decision
  ambiguous : ℕ → Decision
  invalid_destination matched : MediaEvent → Decision

-- What becomes of the one event that matches.
destination_decision : MediaEvent → Option Share → Decision
destination_decision e none = invalid_destination e
destination_decision e (some d) =
    if not d.enabled || is_source d.role then invalid_destination e else matched e

decide_among : List Share → List MediaEvent → Decision
unfolding destination_decision
decide_among shares [] = unmatched
decide_among shares (e ∷ []) =
    destination_decision e (find (λ s. text_eq s.id e.destination_share_id) shares)
decide_among shares (e ∷ x ∷ xs) = ambiguous (length (e ∷ x ∷ xs))

-- The state of a file of a share in the routing preview.
pub evaluate : List SourceGroup → List Share → List MediaEvent → Text → MediaFile → Decision
unfolding list_matchable contributes decide_among
evaluate groups shares events share_id file =
    decide_among shares
      (filter (contributes groups share_id) (list_matchable file.captured_at events))

-- The worker moves a matched file, unless its time is that of the file system and the fallback is off.
is_fallback : Option Text → Bool
is_fallback none = false
is_fallback (some origin) = text_eq origin (codes "FileLastWriteTimeUtc")

pub worker_event : Bool → MediaFile → Decision → Option MediaEvent
unfolding is_fallback
worker_event allow_fallback file (matched e) =
    if not allow_fallback && is_fallback file.timestamp_source then none else some e
worker_event allow_fallback file _ = none
