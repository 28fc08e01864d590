-- ===== src/Forms/Groups.antt =====
-- app.js, editGroup, renderGroupChoices and the submit handler of the group form.
use moment_ferry.Common.{
  List, [], ◌∷◌, Bool, true, ◌&&◌, not, Text, codes, false, some_of, includes, filter, map, text_eq,
  text_eq_iff, ◌≡◌, ap, ◌∙◌, arith,
}
use moment_ferry.Model.{Share, ShareRole, source, destination, both, SourceGroup, is_destination}
use moment_ferry.Forms.{Sent, sent, sent-body}

-- A checkbox of the form: the share's id, and whether it is checked.
pub record Choice : Type 0 where
  pub value : Text
  pub checked : Bool

pub record GroupForm : Type 0 where
  pub group_id : Text
  pub name : Text
  pub choices : List Choice

-- The shares that a group can have: `x.enabled && x.role !== 'Destination'`.
abbrev pub source_shares : List Share → List Share
source_shares = filter λ s. s.enabled && not (is_destination s.role)

-- renderGroupChoices
unfoldable pub group_choices : List Share → List Text → List Choice
group_choices shares selected =
    map (λ s. record { value = s.id; checked = includes selected s.id }) (source_shares shares)

unfoldable pub edit_group : List Share → SourceGroup → GroupForm
unfolding group_choices
edit_group shares g = record {
  group_id = g.id;
  name = g.name;
  choices = group_choices shares g.share_ids;
}

unfoldable pub reset_group_form : List Share → GroupForm
unfolding group_choices
reset_group_form shares = record { group_id = []; name = []; choices = group_choices shares [] }

pub record GroupRequest : Type 0 where
  pub name : Text
  pub share_ids : List Text

-- The submit handler of the group form, up to the request.
unfoldable pub submit_group : GroupForm → Sent GroupRequest
submit_group f =
    sent (codes "/api/v1/source-groups") (codes "/api/v1/source-groups/") f.group_id
      (record { name = f.name; share_ids = map (λ c. c.value) (filter (λ c. c.checked) f.choices) })

-- Of a role that a source can have.
abbrev pub can_be_source : ShareRole → Bool
can_be_source source = true
can_be_source both = true
can_be_source destination = false

-- The text is the id of an enabled share of such a role.
abbrev pub is_offered : List Share → Text → Bool
is_offered shares id = some_of (λ s. s.enabled && (can_be_source s.role && text_eq s.id id)) shares

-- Only one of equal texts can tell a list apart from another.
includes-eq :
    (list : List Text) (a b : Text) → text_eq a b ≡ true → includes list a ≡ includes list b
includes-eq list a b e = ap (includes list) ((text_eq_iff a b).0 e)

checked_members :
    (shares : List Share) (selected : List Text) (id : Text)
    → includes (map (λ c. c.value) (filter (λ c. c.checked) (group_choices shares selected))) id
      ≡ (includes selected id && is_offered shares id)
unfolding group_choices
checked_members [] selected id = ground arith
checked_members (s ∷ shares) selected id =
    ground (arith, checked_members shares selected id, includes-eq selected s.id id)

-- Opening a group in the form and saving it unchanged keeps, of its members, exactly those that are
-- enabled shares of a role that can be a source; the others leave the group.
pub submit_group-edit_group :
    (shares : List Share) (g : SourceGroup) (id : Text)
    → includes ((submit_group (edit_group shares g)).body.share_ids) id
      ≡ (includes g.share_ids id && is_offered shares id)
unfolding submit_group edit_group
submit_group-edit_group shares g id =
    ap (λ b. includes b.share_ids id)
      (sent-body (codes "/api/v1/source-groups") (codes "/api/v1/source-groups/") g.id
        (kept (group_choices shares g.share_ids)))
    ∙ checked_members shares g.share_ids id
  where
    kept : List Choice → GroupRequest
    kept choices = record {
      name = g.name;
      share_ids = map (λ c. c.value) (filter (λ c. c.checked) choices);
    }
