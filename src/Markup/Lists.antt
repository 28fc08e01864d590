-- ===== src/Markup/Lists.antt =====
-- app.js, renderShares, renderGroups, renderEvents, renderOperations, renderLogs, renderQuarantine,
-- renderRecentOps and renderRunningEvent: the check of their templates.
use moment_ferry.Common.{
  ℕ, Bool, List, [], ◌∷◌, ◌++◌, true, false, flat_map, take, length, is_empty, ◌≡◌, refl, ◌-◌,
}
use moment_ferry.Model.{Share, SourceGroup, MediaEvent, Operation, LogEntry}
use moment_ferry.Format.{Locale}
use moment_ferry.Scan.{ScanState}
use moment_ferry.Markup.{Piece, Part, pieces, reach, after}
use moment_ferry.Markup.Pieces.{place_after}
use moment_ferry.Markup.Templates.{
  Keeps, Keeps-append, rows-Keeps, before-Keeps, around-Keeps, Keeps-flat_map, keeps, keeps_part,
  keeps-Keeps,
}
use moment_ferry.Markup.Shares.{
  share_card, render_shares, members, head_of, member_tile, member_tiles, group_foot, group_card,
  render_groups,
}
use moment_ferry.Markup.Events.{EventsView, shown_event, event_list}
use moment_ferry.Markup.Operations.{
  operations_header, shown_operation, operations_open, operations_close, render_operations, log_row,
  render_logs, quarantine_row, render_quarantine, recent_row, render_recent_ops,
}
use moment_ferry.Markup.Overview.{
  rows_open, rows_close, row_of, event_row_list, event_headline, card_open, between, card_close,
  no_event, running_card, render_running_event, active_events,
}
use moment_ferry.Markup.Progress.{Counters, automation_block}

module _ (l : Locale) where
  pub render_shares-Keeps : (shares : List Share) → Keeps (render_shares l shares)
  unfolding render_shares keeps keeps_part place_after reach after
  render_shares-Keeps [] = refl
  render_shares-Keeps (s ∷ ss) = rows-Keeps (share_card l) (s ∷ ss) (λ x. refl)

  member_tiles-Keeps : (shares : List Share) → Keeps (member_tiles l shares)
  unfolding keeps keeps_part place_after reach after
  member_tiles-Keeps [] = refl
  member_tiles-Keeps (s ∷ ss) = rows-Keeps member_tile (s ∷ ss) (λ x. refl)

  group_card-Keeps :
      (shares : List Share) (events : List MediaEvent) (g : SourceGroup)
      → Keeps (group_card l shares events g)
  unfolding keeps keeps_part place_after reach after
  group_card-Keeps shares events g =
      let tiles : List Piece = member_tiles l (members shares g.share_ids) in
      before-Keeps (head_of l shares events g) (tiles ++ pieces group_foot) refl
        (around-Keeps tiles group_foot (member_tiles-Keeps (members shares g.share_ids)) refl)

  pub render_groups-Keeps :
      (shares : List Share) (events : List MediaEvent) (groups : List SourceGroup)
      → Keeps (render_groups l shares events groups)
  unfolding render_groups keeps keeps_part place_after reach after
  render_groups-Keeps shares events [] = refl
  render_groups-Keeps shares events (g ∷ gs) =
      Keeps-flat_map (group_card l shares events) (g ∷ gs) (group_card-Keeps shares events)

  pub event_list-Keeps : (v : EventsView) (events : List MediaEvent) → Keeps (event_list l v events)
  unfolding keeps keeps_part place_after reach after
  event_list-Keeps v [] = refl
  event_list-Keeps v (e ∷ es) = rows-Keeps (shown_event l v) (e ∷ es) (λ x. refl)

  pub render_operations-Keeps :
      (dry_run : Bool) (shares : List Share) (operations : List Operation)
      → Keeps (render_operations l dry_run shares operations)
  unfolding render_operations keeps keeps_part place_after reach after
  render_operations-Keeps dry_run shares operations =
      let row : Operation → List Part = shown_operation l dry_run shares in
      let rows : List Piece = flat_map (λ o. pieces (row o)) operations in
      let close : List Part = operations_close l (is_empty operations) in
      before-Keeps operations_open (pieces (operations_header l) ++ (rows ++ pieces close)) refl (
        before-Keeps (operations_header l) (rows ++ pieces close) refl
          (around-Keeps rows close (rows-Keeps row operations (λ o. refl)) refl))

  pub render_logs-Keeps : (entries : List LogEntry) → Keeps (render_logs l entries)
  unfolding render_logs keeps keeps_part place_after reach after
  render_logs-Keeps [] = refl
  render_logs-Keeps (e ∷ es) = rows-Keeps (log_row l) (e ∷ es) (λ x. refl)

  pub render_quarantine-Keeps :
      (dry_run : Bool) (operations : List Operation)
      → Keeps (render_quarantine l dry_run operations)
  unfolding render_quarantine keeps keeps_part place_after reach after
  render_quarantine-Keeps dry_run [] = refl
  render_quarantine-Keeps dry_run (o ∷ os) =
      rows-Keeps (quarantine_row l dry_run) (o ∷ os) (λ x. refl)

  pub render_recent_ops-Keeps :
      (operations : List Operation) → Keeps (render_recent_ops l operations)
  unfolding render_recent_ops keeps keeps_part place_after reach after
  render_recent_ops-Keeps [] = refl
  render_recent_ops-Keeps (o ∷ os) = rows-Keeps (recent_row l) (take 5 (o ∷ os)) (λ x. refl)

  event_row_list-Keeps : (v : EventsView) (es : List MediaEvent) → Keeps (event_row_list l v es)
  unfolding keeps keeps_part place_after reach after
  event_row_list-Keeps v es =
      let rows : List Piece = flat_map (λ e. pieces (row_of l v e)) (take 5 es) in
      let close : List Part = rows_close l (length es - length (take 5 es)) in
      before-Keeps rows_open (rows ++ pieces close) refl
        (around-Keeps rows close (rows-Keeps (row_of l v) (take 5 es) (λ e. refl)) refl)

  -- The card around what it shows of the events.
  card-Keeps :
      (shown : List Piece) (automation : List Part) (multiple : Bool) (e : MediaEvent)
      → Keeps shown
      → keeps automation ≡ true
      → Keeps (
          pieces card_open
          ++ (shown ++ (pieces between ++ (pieces automation ++ pieces (card_close l multiple e)))))
  unfolding keeps keeps_part place_after reach after
  card-Keeps shown automation multiple e k h =
      let close : List Part = card_close l multiple e in
      let rest : List Piece = pieces between ++ (pieces automation ++ pieces close) in
      before-Keeps card_open (shown ++ rest) refl (
        Keeps-append shown rest k (
          before-Keeps between (pieces automation ++ pieces close) refl
            (before-Keeps automation (pieces close) h (keeps-Keeps close refl))))

  running_card-Keeps :
      (v : EventsView) (automation : List Part) (es : List MediaEvent)
      → keeps automation ≡ true
      → Keeps (running_card l v automation es)
  unfolding keeps keeps_part place_after reach after
  running_card-Keeps v automation [] h = keeps-Keeps (no_event l) refl
  running_card-Keeps v automation (e ∷ []) h =
      card-Keeps (pieces (event_headline l v e)) automation false e
        (keeps-Keeps (event_headline l v e) refl) h
  running_card-Keeps v automation (e ∷ f ∷ es) h =
      card-Keeps (event_row_list l v (e ∷ f ∷ es)) automation true e
        (event_row_list-Keeps v (e ∷ f ∷ es)) h

  pub render_running_event-Keeps :
      (v : EventsView) (held : ℕ) (k : Counters) (s : ScanState)
      → Keeps (render_running_event l v held k s)
  unfolding render_running_event keeps keeps_part place_after reach after
  render_running_event-Keeps v held k s =
      running_card-Keeps v (automation_block l v.dry_run held k s) (active_events v.events) refl
