-- ===== src/Actions/Saving.antt =====
-- app.js, the submit handlers of the forms, from the request that Forms makes of the inputs to the
-- lists that are loaded again. What the form then holds is Forms' too; the preview of names that a
-- new mapping renews is not followed.
use moment_ferry.Common.{List, [], ◌∷◌, Text, codes}
use moment_ferry.Actions.{
  ApiRequest, post, put, Listing, configuration, event_list, renaming, request, reload,
  form_message, Program, done, ◌>>=◌, ◌>>◌, catch, await, say,
}

pub data FormName : Type 0 where
  share_form group_form event_form preset_form mapping_form : FormName

abbrev pub entry_path : FormName → Text
entry_path FormName.share_form = codes "shares"
entry_path FormName.group_form = codes "source-groups"
entry_path FormName.event_form = codes "events"
entry_path FormName.preset_form = codes "rename-presets"
entry_path FormName.mapping_form = codes "camera-mappings"

abbrev pub reloads : FormName → Listing
reloads FormName.event_form = event_list
reloads FormName.mapping_form = renaming
reloads _ = configuration

-- Where a new entry is posted: two of the addresses end in a slash.
abbrev pub new_path : FormName → List Text
new_path FormName.group_form = codes "source-groups" ∷ [] ∷ []
new_path FormName.event_form = codes "events" ∷ [] ∷ []
new_path form = entry_path form ∷ []

-- `id ? PUT path/id : POST path`; the form of mappings has no id.
abbrev pub saving : FormName → Text → List (Text × Text) → ApiRequest
saving form [] body = record { verb = post; path = new_path form; query = []; body = body }
saving form (c ∷ id) body = record {
  verb = put;
  path = entry_path form ∷ (c ∷ id) ∷ [];
  query = [];
  body = body;
}

-- Resetting a form empties its message.
unfoldable pub save_form : FormName → Text → List (Text × Text) → Program (Unit {0})
save_form form id body =
    catch
      (do
        r ← await (request (saving form id body))
        say (form_message (entry_path form)) []
        s ← await (reload (reloads form ∷ []))
        done tt)
      (say (form_message (entry_path form)))
