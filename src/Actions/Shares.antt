-- ===== src/Actions/Shares.antt =====
-- app.js, the buttons of a share and of a source group: probeShare, scanShare, metadataPreview,
-- deleteShare and deleteGroup.
use moment_ferry.Common.{
  List, [], ◌∷◌, ◌++◌, Option, none, some, ◌&&◌, if◌then◌else◌, Text, codes, String, or_blank,
  or_else_text, is_set,
}
use moment_ferry.Model.{Share}
use moment_ferry.I18n.{t}
use moment_ferry.Format.{Locale, format_number}
use moment_ferry.Analysis.{find_share, find_group}
use moment_ferry.Markup.{said}
use moment_ferry.Actions.{
  with_found, ConsoleState, ApiRequest, get, delete, Reply, configuration, request, reload,
  share_state, failing, Program, done, tell, ◌>>=◌, ◌>>◌, catch, await, run_task, say, if_confirmed,
  or_alert,
}

abbrev pub a_get : List Text → List (Text × Text) → ApiRequest
a_get path query = record { verb = get; path = path; query = query; body = [] }

abbrev pub a_delete : List Text → ApiRequest
a_delete path = record { verb = delete; path = path; query = []; body = [] }

-- `share?.name || t(key)`
abbrev pub share_title : Locale → Option Share → String → Text
share_title l none key = said l key
share_title l (some s) key = or_else_text s.name (said l key)

-- `${t(label)} · ${name}`
abbrev pub labelled : Text → Text → Text
labelled label name = label ++ (codes " · " ++ name)

-- A handler that shows how it goes in the line of a share.
abbrev pub on_share : Text → String → String → Locale → Program (Unit {0}) → Program (Unit {0})
on_share id beginning failure l body =
    say (share_state id) (said l beginning)
    >> catch body (λ m. tell (share_state id) (failing failure m) (done tt))

abbrev pub probe_text : Locale → Reply → Text
probe_text l r =
    if r.flag (codes "exists") && r.flag (codes "readable")
    then said l "Path OK · readable"
    else t l.messages (codes "Path problem · {{error}}") (
        some (
          (
            codes "error",
            or_else_text (or_blank (r.text (codes "error")))
                (if r.flag (codes "exists") then said l "not readable" else said l "not found"),
          )
          ∷ []))

unfoldable pub probe_share : ConsoleState → Text → Program (Unit {0})
probe_share c id = on_share id "Testing path…" "Test failed · {{error}}" c.locale (do
  result ←
      run_task
        (record {
          key = codes "share-probe:" ++ id;
          label =
              labelled (said c.locale "Test path")
                (share_title c.locale (find_share id c.shares) "share");
          view = codes "shares";
        })
        (await (request (a_get (codes "shares" ∷ id ∷ codes "probe" ∷ []) [])))
  say (share_state id) (probe_text c.locale result))

abbrev pub counted_in : Locale → Reply → String → Text
counted_in l r name = format_number l (r.number (codes name))

abbrev pub scan_text : Locale → Reply → Text
scan_text l r =
    t l.messages (codes "{{total}} media files · {{stable}} stable · {{waiting}} waiting") (
      some (
        (codes "total", counted_in l r "total")
        ∷ (codes "stable", counted_in l r "stable")
        ∷ (codes "waiting", counted_in l r "waitingStable")
        ∷ []))

unfoldable pub scan_share : ConsoleState → Text → Program (Unit {0})
scan_share c id = on_share id "Scanning…" "Scan failed · {{error}}" c.locale (do
  result ←
      run_task
        (record {
          key = codes "share-scan:" ++ id;
          label =
              labelled (said c.locale "Scan")
                (share_title c.locale (find_share id c.shares) "source");
          view = codes "shares";
        })
        (await (
          request
            (a_get (codes "shares" ∷ id ∷ codes "scan" ∷ []) ((codes "limit", codes "1") ∷ []))))
  say (share_state id) (scan_text c.locale result))

-- `[make, model].filter(Boolean).join(' ')`
abbrev pub joined_names : Option Text → Option Text → Text
joined_names make model =
    if is_set make
    then if is_set model then or_blank make ++ (32 ∷ or_blank model) else or_blank make
    else or_blank model

-- ` · ${s}`, where s is there.
abbrev pub suffix : Text → Text
suffix [] = []
suffix (c ∷ s) = codes " · " ++ (c ∷ s)

abbrev pub metadata_text : Locale → Reply → Text
metadata_text l r = elim r.samples [
  | [] ↦ said l "No stable media yet. Scan again after the stability interval."
  | first ∷ rest ↦
      t l.messages (codes "{{count}} metadata samples · {{captured}}") (
        some (
          (codes "count", counted_in l r "total")
          ∷ (codes "captured", or_else_text (or_blank first.captured_at) (said l "no capture time"))
          ∷ []))
      ++ (suffix (joined_names first.camera_make first.camera_model)
          ++ suffix (or_blank first.error))
]

unfoldable pub metadata_preview : ConsoleState → Text → Program (Unit {0})
metadata_preview c id = on_share id "Reading metadata…" "Metadata failed · {{error}}" c.locale (do
  result ←
      run_task
        (record {
          key = codes "metadata-preview:" ++ id;
          label =
              labelled (said c.locale "Metadata")
                (share_title c.locale (find_share id c.shares) "source");
          view = codes "shares";
        })
        (await (
          request (
            a_get (codes "shares" ∷ id ∷ codes "metadata-preview" ∷ [])
              ((codes "limit", codes "5") ∷ []))))
  say (share_state id) (metadata_text c.locale result))

-- `t(key, { name })`
abbrev pub named : Locale → String → Text → Text
named l key name = t l.messages (codes key) (some ((codes "name", name) ∷ []))

-- Asks, sends a DELETE, and loads lists again.
unfoldable pub delete_share : ConsoleState → Text → Program (Unit {0})
delete_share c id = with_found (find_share id c.shares) λ share.
    if_confirmed (named c.locale "Remove share “{{name}}”? No media files are deleted." share.name)
      (or_alert (do
        r ← await (request (a_delete (codes "shares" ∷ id ∷ [])))
        s ← await (reload (configuration ∷ []))
        done tt))

unfoldable pub delete_group : ConsoleState → Text → Program (Unit {0})
delete_group c id = with_found (find_group id c.groups) λ group.
    if_confirmed (named c.locale "Remove source group “{{name}}”?" group.name) (
      or_alert (do
        r ← await (request (a_delete (codes "source-groups" ∷ id ∷ [])))
        s ← await (reload (configuration ∷ []))
        done tt))
