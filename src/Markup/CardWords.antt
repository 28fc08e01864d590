-- ===== src/Markup/CardWords.antt =====
-- app.js, renderShares, renderGroups, renderSources, renderRoutingPreview and the folder browser: which
-- texts they put into the markup as they are.
use moment_ferry.Common.{
  ℕ, List, [], ◌∷◌, ◌++◌, Option, none, Bool, true, false, if◌then◌else◌, Text, codes, All,
  All-append, join, map, decimal, decimal-digits, or_else_text, refl,
}
use moment_ferry.Model.{Share, SourceGroup, MediaEvent, MediaType, image, video, other}
use moment_ferry.I18n.{t}
use moment_ferry.I18n.Calm.{IsCalm, IsCalm-append, AreCalm, t-IsCalm, t_with-IsCalm}
use moment_ferry.Format.{Locale}
use moment_ferry.Markup.{pieces, said}
use moment_ferry.Markup.Pieces.{IsClean}
use moment_ferry.Markup.Words.{
  pieces-IsClean, flat_map-IsClean, always_true, digits-IsCalm, key-IsCalm,
}
use moment_ferry.Markup.Storage.{StorageInfo}
use moment_ferry.Markup.Sources.{shown_source, render_sources}
use moment_ferry.Markup.Folders.{
  Folder, Root, no_folders, folder_node, render_folder_nodes, root_open, root_close, root_node,
  render_roots, render_folder_error,
}
use moment_ferry.Markup.Shares.{
  type_name, types_text, share_card, render_shares, members, head_of, member_tile, member_tiles,
  group_foot, group_card, render_groups,
}

decimal-IsCalm : (n : ℕ) → IsCalm (decimal n)
decimal-IsCalm n = digits-IsCalm (decimal n) (decimal-digits n)

join-IsCalm : (sep : Text) (xs : List Text) → IsCalm sep → All IsCalm xs → IsCalm (join sep xs)
join-IsCalm sep [] k h = refl
join-IsCalm sep (x ∷ []) k (p, h) = p
join-IsCalm sep (x ∷ y ∷ xs) k (p, h) =
    IsCalm-append x (sep ++ join sep (y ∷ xs)) p
      (IsCalm-append sep (join sep (y ∷ xs)) k (join-IsCalm sep (y ∷ xs) k h))

or_else-IsCalm : (s rest : Text) → IsCalm s → IsCalm rest → IsCalm (or_else_text s rest)
or_else-IsCalm [] rest h k = k
or_else-IsCalm (c ∷ s) rest h k = h

type_name-IsCalm : (kind : MediaType) → IsCalm (type_name kind)
type_name-IsCalm image = refl
type_name-IsCalm video = refl
type_name-IsCalm other = refl

module _ (l : Locale) (d : AreCalm l.messages) where
  type_names :
      (types : List MediaType) → All IsCalm (map (λ k. t l.messages (type_name k) none) types)
  type_names [] = tt
  type_names (x ∷ types) =
      (t-IsCalm l.messages (type_name x) d (type_name-IsCalm x), type_names types)

  types_text-IsCalm : (types : List MediaType) → IsCalm (types_text l types)
  types_text-IsCalm types =
      let sep = codes " " ++ (said l "and" ++ codes " ") in
      or_else-IsCalm (join sep (map (λ k. t l.messages (type_name k) none) types))
        (said l "no media types")
        (join-IsCalm sep (map (λ k. t l.messages (type_name k) none) types)
          (IsCalm-append (codes " ") (said l "and" ++ codes " ") refl
            (IsCalm-append (said l "and") (codes " ") (key-IsCalm l d "and" refl) refl))
          (type_names types))
        (key-IsCalm l d "no media types" refl)

  depth_text-IsCalm :
      (recursive : Bool) → IsCalm (if recursive then said l "subfolders" else said l "top-level")
  depth_text-IsCalm true = key-IsCalm l d "subfolders" refl
  depth_text-IsCalm false = key-IsCalm l d "top-level" refl

  share_card-IsClean : (s : Share) → IsCalm s.id → All IsClean (pieces (share_card l s))
  share_card-IsClean s id = pieces-IsClean (share_card l s) (
    key-IsCalm l d "Disabled" refl,
    (
      types_text-IsCalm s.allowed_media_types,
      (
        depth_text-IsCalm s.recursive,
        (
          t_with-IsCalm l.messages ((codes "seconds", decimal s.stability_seconds) ∷ [])
              (codes "{{seconds}}s stability") d refl (decimal-IsCalm s.stability_seconds, tt),
          (
            id,
            (
              key-IsCalm l d "Test" refl,
              (
                id,
                (
                  key-IsCalm l d "Scan" refl,
                  (
                    id,
                    (
                      key-IsCalm l d "Metadata" refl,
                      (id, (key-IsCalm l d "Edit" refl, (id, (key-IsCalm l d "Remove" refl, tt)))),
                    ),
                  ),
                ),
              ),
            ),
          ),
        ),
      ),
    ),
  )

  pub render_shares-IsClean :
      (shares : List Share) → All (λ s. IsCalm s.id) shares → All IsClean (render_shares l shares)
  unfolding render_shares
  render_shares-IsClean [] ids = (
    tt,
    (
      key-IsCalm l d "No shares yet" refl,
      (
        tt,
        (
          key-IsCalm l d "Add the folders your sync tool fills, plus one destination folder." refl,
          (tt, tt),
        ),
      ),
    ),
  )
  render_shares-IsClean (s ∷ ss) ids =
      flat_map-IsClean (λ x. pieces (share_card l x)) (λ x. IsCalm x.id) (s ∷ ss) ids
        share_card-IsClean

  member_tiles-IsClean : (ss : List Share) → All IsClean (member_tiles l ss)
  member_tiles-IsClean [] = (tt, (key-IsCalm l d "No shares in this group yet." refl, (tt, tt)))
  member_tiles-IsClean (s ∷ ss) =
      flat_map-IsClean (λ x. pieces (member_tile x)) (λ x. Unit {0}) (s ∷ ss) (always_true (s ∷ ss))
        λ x u. pieces-IsClean (member_tile x) tt

  group_card-IsClean :
      (shares : List Share) (events : List MediaEvent) (g : SourceGroup)
      → IsCalm g.id
      → All IsClean (group_card l shares events g)
  group_card-IsClean shares events g id =
      All-append IsClean (pieces (head_of l shares events g))
        (member_tiles l (members shares g.share_ids) ++ pieces group_foot)
        (pieces-IsClean (head_of l shares events g) (
          t_with-IsCalm l.messages _
              (codes "Events using it: {{events}} · Source shares: {{shares}}") d refl
              (decimal-IsCalm _, (decimal-IsCalm _, tt)),
          (id, (key-IsCalm l d "Edit" refl, (id, (key-IsCalm l d "Remove" refl, tt)))),
        ))
        (All-append IsClean (member_tiles l (members shares g.share_ids)) (pieces group_foot)
          (member_tiles-IsClean (members shares g.share_ids)) (pieces-IsClean group_foot tt))

  pub render_groups-IsClean :
      (shares : List Share) (events : List MediaEvent) (groups : List SourceGroup)
      → All (λ g. IsCalm g.id) groups
      → All IsClean (render_groups l shares events groups)
  unfolding render_groups
  render_groups-IsClean shares events [] ids = (
    tt,
    (
      key-IsCalm l d "No source groups yet" refl,
      (
        tt,
        (
          key-IsCalm l d
              "A group is just a set of phones or cameras that feed one event. Make one per family, per project, or per trip."
              refl,
          (tt, tt),
        ),
      ),
    ),
  )
  render_groups-IsClean shares events (g ∷ gs) ids =
      flat_map-IsClean (group_card l shares events) (λ x. IsCalm x.id) (g ∷ gs) ids
        (group_card-IsClean shares events)

  pub render_sources-IsClean :
      (info : Option StorageInfo) (shares : List Share) → All IsClean (render_sources l info shares)
  unfolding render_sources
  render_sources-IsClean info [] = (
    tt,
    (
      key-IsCalm l d "No folders watched yet" refl,
      (
        tt,
        (
          key-IsCalm l d "Add the folders your sync tool fills, plus one destination." refl,
          (tt, tt),
        ),
      ),
    ),
  )
  render_sources-IsClean info (s ∷ ss) =
      flat_map-IsClean (λ x. pieces (shown_source l info x)) (λ x. Unit {0}) (s ∷ ss)
        (always_true (s ∷ ss))
        λ x u.
          pieces-IsClean (shown_source l info x)
            (key-IsCalm l d "Destination" refl, (key-IsCalm l d "disabled" refl, tt))

  pub render_folder_nodes-IsClean :
      (selected : Text) (depth : ℕ) (folders : List Folder)
      → All IsClean (render_folder_nodes l selected depth folders)
  unfolding render_folder_nodes
  render_folder_nodes-IsClean selected depth [] =
      pieces-IsClean (no_folders l) (key-IsCalm l d "No subfolders." refl, tt)
  render_folder_nodes-IsClean selected depth (f ∷ fs) =
      flat_map-IsClean (λ x. pieces (folder_node l selected depth x)) (λ x. Unit {0}) (f ∷ fs)
        (always_true (f ∷ fs))
        λ x u. pieces-IsClean (folder_node l selected depth x) (decimal-IsCalm depth, tt)

  root_node-IsClean : (selected : Text) (r : Root) → All IsClean (root_node l selected r)
  root_node-IsClean selected r =
      All-append IsClean (pieces (root_open r))
        (render_folder_nodes l selected 0 r.folders ++ pieces root_close)
        (pieces-IsClean (root_open r) tt)
        (All-append IsClean (render_folder_nodes l selected 0 r.folders) (pieces root_close)
          (render_folder_nodes-IsClean selected 0 r.folders) (pieces-IsClean root_close tt))

  pub render_roots-IsClean :
      (selected : Text) (roots : List Root) → All IsClean (render_roots l selected roots)
  unfolding render_roots
  render_roots-IsClean selected [] =
      (tt, (key-IsCalm l d "No mounted folders found for this role." refl, (tt, tt)))
  render_roots-IsClean selected (r ∷ rs) =
      flat_map-IsClean (root_node l selected) (λ x. Unit {0}) (r ∷ rs) (always_true (r ∷ rs))
        λ x u. root_node-IsClean selected x

  pub render_folder_error-IsClean : (message : Text) → All IsClean (render_folder_error message)
  unfolding render_folder_error
  render_folder_error-IsClean message = (tt, (tt, (tt, tt)))
