-- ===== src/Markup/Shares.antt =====
-- app.js, renderShares and renderGroups: the cards of shares and of source groups.
use moment_ferry.Common.{
  ℕ, List, [], ◌∷◌, ◌++◌, none, some, not, if◌then◌else◌, Text, codes, text_eq, filter, map, length,
  flat_map, join, decimal, or_blank, or_else_text, is_set,
}
use moment_ferry.Model.{
  Share, SourceGroup, MediaEvent, MediaType, image, video, other, is_destination,
}
use moment_ferry.I18n.{t}
use moment_ferry.Format.{Locale}
use moment_ferry.Analysis.{find_share}
use moment_ferry.Markup.{
  Piece, lit, value, word, Part, always, either, pieces, said, say, role_name,
}

abbrev pub type_name : MediaType → Text
type_name image = codes "Image"
type_name video = codes "Video"
type_name other = codes "Other"

-- `types.map(type => t(type)).join(' and ') || t('no media types')`
abbrev pub types_text : Locale → List MediaType → Text
types_text l types =
    or_else_text
      (join (codes " " ++ (said l "and" ++ codes " "))
        (map (λ k. t l.messages (type_name k) none) types))
      (said l "no media types")

abbrev pub share_card : Locale → Share → List Part
share_card l s =
    always (
      lit (
        codes
          "\n    <article class=\"list-row\">\n      <div class=\"list-main\">\n        <div class=\"list-heading\">\n          <span class=\"list-title\">")
      ∷ value s.name
      ∷ lit (codes "</span>\n          <span class=\"pill\">")
      ∷ value (t l.messages (role_name s.role) none)
      ∷ lit (codes "</span>\n          ")
      ∷ [])
    ∷ either (is_set s.preset)
        (lit (codes "<span style=\"font-size:11px;color:var(--dim)\">")
          ∷ value (or_blank s.preset)
          ∷ lit (codes "</span>")
          ∷ [])
        ([])
    ∷ always (lit (codes "\n          ") ∷ [])
    ∷ either (s.enabled) ([]) (
        lit (codes "<span class=\"pill pill-amb\">")
        ∷ say l "Disabled"
        ∷ lit (codes "</span>")
        ∷ [])
    ∷ always (
        lit (codes "\n        </div>\n        <div class=\"list-path\">")
        ∷ value s.path
        ∷ lit (codes "</div>\n        <div class=\"list-meta\">\n          ")
        ∷ [])
    ∷ either (is_set s.owner) (value (or_blank s.owner) ∷ lit (codes " · ") ∷ []) ([])
    ∷ always (
        lit (codes "\n          ")
        ∷ word (types_text l s.allowed_media_types)
        ∷ lit (codes " ·\n          ")
        ∷ word (if s.recursive then said l "subfolders" else said l "top-level")
        ∷ lit (codes " ·\n          ")
        ∷ word (
            t l.messages (codes "{{seconds}}s stability")
              (some ((codes "seconds", decimal s.stability_seconds) ∷ [])))
        ∷ lit (codes "\n        </div>\n        <div class=\"list-meta\" id=\"state-")
        ∷ value s.id
        ∷ lit (
            codes
              "\"></div>\n      </div>\n      <div class=\"card-actions\">\n        <button class=\"btn btn-sm btn-ghost\" type=\"button\" onclick=\"probeShare('")
        ∷ word s.id
        ∷ lit (codes "')\">")
        ∷ say l "Test"
        ∷ lit (codes "</button>\n        ")
        ∷ [])
    ∷ either (not (is_destination s.role))
        (lit (codes "<button class=\"btn btn-sm btn-ghost\" type=\"button\" onclick=\"scanShare('")
          ∷ word s.id
          ∷ lit (codes "')\">")
          ∷ say l "Scan"
          ∷ lit (codes "</button>")
          ∷ [])
        ([])
    ∷ always (lit (codes "\n        ") ∷ [])
    ∷ either (not (is_destination s.role))
        (lit (
            codes
              "<button class=\"btn btn-sm btn-ghost\" type=\"button\" onclick=\"metadataPreview('")
          ∷ word s.id
          ∷ lit (codes "')\">")
          ∷ say l "Metadata"
          ∷ lit (codes "</button>")
          ∷ [])
        ([])
    ∷ always (
        lit (codes "\n        <button class=\"btn btn-sm\" type=\"button\" onclick=\"editShare('")
        ∷ word s.id
        ∷ lit (codes "')\">")
        ∷ say l "Edit"
        ∷ lit (
            codes
              "</button>\n        <button class=\"btn btn-sm btn-danger\" type=\"button\" onclick=\"deleteShare('")
        ∷ word s.id
        ∷ lit (codes "')\">")
        ∷ say l "Remove"
        ∷ lit (codes "</button>\n      </div>\n    </article>")
        ∷ [])
    ∷ []

unfoldable pub render_shares : Locale → List Share → List Piece
render_shares l [] = pieces (
    always (
      lit (codes "<div class=\"empty\"><strong>")
      ∷ say l "No shares yet"
      ∷ lit (codes "</strong>")
      ∷ say l "Add the folders your sync tool fills, plus one destination folder."
      ∷ lit (codes "</div>")
      ∷ [])
    ∷ [])
render_shares l (s ∷ ss) = flat_map (λ x. pieces (share_card l x)) (s ∷ ss)

-- `group.shareIds.map(id => shares.find(x => x.id === id)).filter(Boolean)`
abbrev pub members : List Share → List Text → List Share
members shares [] = []
members shares (id ∷ ids) = elim (find_share id shares) [
  | none ↦ members shares ids
  | some s ↦ s ∷ members shares ids
]

abbrev pub group_head : Locale → SourceGroup → ℕ → List Share → List Part
group_head l g used_by of_group =
    always (
      lit (
        codes
          "\n      <article class=\"card\">\n        <div class=\"card-head\" style=\"align-items:flex-start;margin-bottom:14px\">\n          <div>\n            <div class=\"list-title list-title-lg\" style=\"margin-bottom:4px\">")
      ∷ value g.name
      ∷ lit (codes "</div>\n            <div class=\"card-sub\">")
      ∷ word (
          t l.messages (codes "Events using it: {{events}} · Source shares: {{shares}}") (
            some (
              (codes "events", decimal used_by)
              ∷ (codes "shares", decimal (length of_group))
              ∷ [])))
      ∷ lit (
          codes
            "</div>\n          </div>\n          <div class=\"card-actions\">\n            <button class=\"btn btn-sm btn-ghost\" type=\"button\" onclick=\"editGroup('")
      ∷ word g.id
      ∷ lit (codes "')\">")
      ∷ say l "Edit"
      ∷ lit (
          codes
            "</button>\n            <button class=\"btn btn-sm btn-danger\" type=\"button\" onclick=\"deleteGroup('")
      ∷ word g.id
      ∷ lit (codes "')\">")
      ∷ say l "Remove"
      ∷ lit (
          codes
            "</button>\n          </div>\n        </div>\n        <div class=\"grid-3\" style=\"gap:10px\">\n          ")
      ∷ [])
    ∷ []

abbrev pub member_tile : Share → List Part
member_tile s =
    always (
      lit (
        codes
          "\n                <div class=\"tile\">\n                  <div class=\"tile-name\" style=\"margin-bottom:3px\">")
      ∷ value s.name
      ∷ lit (codes "</div>\n                  <div class=\"tile-path\" style=\"margin-bottom:0\">")
      ∷ value s.path
      ∷ lit (codes "</div>\n                </div>")
      ∷ [])
    ∷ []

abbrev pub member_tiles : Locale → List Share → List Piece
member_tiles l [] = pieces (
    always (
      lit (codes "<div class=\"list-meta\">")
      ∷ say l "No shares in this group yet."
      ∷ lit (codes "</div>")
      ∷ [])
    ∷ [])
member_tiles l (s ∷ ss) = flat_map (λ x. pieces (member_tile x)) (s ∷ ss)

abbrev pub group_foot : List Part
group_foot = always (lit (codes "\n        </div>\n      </article>") ∷ []) ∷ []

abbrev pub head_of : Locale → List Share → List MediaEvent → SourceGroup → List Part
head_of l shares events g =
    group_head l g (length (filter (λ e. text_eq e.source_group_id g.id) events))
      (members shares g.share_ids)

abbrev pub group_card : Locale → List Share → List MediaEvent → SourceGroup → List Piece
group_card l shares events g =
    pieces (head_of l shares events g)
    ++ (member_tiles l (members shares g.share_ids) ++ pieces group_foot)

unfoldable pub render_groups : Locale → List Share → List MediaEvent → List SourceGroup → List Piece
render_groups l shares events [] = pieces (
    always (
      lit (codes "<div class=\"empty\"><strong>")
      ∷ say l "No source groups yet"
      ∷ lit (codes "</strong>")
      ∷ say l
          "A group is just a set of phones or cameras that feed one event. Make one per family, per project, or per trip."
      ∷ lit (codes "</div>")
      ∷ [])
    ∷ [])
render_groups l shares events (g ∷ gs) = flat_map (group_card l shares events) (g ∷ gs)
