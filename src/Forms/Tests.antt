-- ===== src/Forms/Tests.antt =====
-- app.js, the forms: runs at concrete inputs.
use moment_ferry.Common.{
  ◌*◌, ◌/◌, ◌&&◌, ◌++◌, List, [], ◌∷◌, none, some, false, Text, codes, includes, decimal,
  read_decimal, read_decimal-decimal, ap, All, ◌≡◌, ◌≢◌, refl, trim,
}
use moment_ferry.Model.{Share, MediaEvent, image, video, other, archive, safe_move}
use moment_ferry.Model.Samples.{share_at, kiel, phones}
use moment_ferry.Forms.{put, lines_to_list}
use moment_ferry.Forms.Lines.{IsLine}
use moment_ferry.Forms.Shares.{
  edit_share, submit_share, request_of, boxed, IsStoredShare, submit_share-edit_share,
}
use moment_ferry.Forms.Groups.{edit_group, submit_group, is_offered, submit_group-edit_group}
use moment_ferry.Forms.Events.{
  Zone, edit_event, submit_event, IsShown, IsReadBack, submit_event-edit_event,
}

listed : lines_to_list (codes " *.tmp\n\n.nomedia ") ≡ codes "*.tmp" ∷ codes ".nomedia" ∷ []
unfolding lines_to_list trim
listed = refl

abbrev patterns : List Text
patterns = codes "*.tmp" ∷ codes ".nomedia" ∷ []

abbrev phone : Share
phone = record (share_at (codes "/mnt/phone")) {
  id = codes "s1";
  owner = some (codes "Anna");
  group = some (codes "family");
  ignore_patterns = patterns;
  allowed_media_types = video ∷ other ∷ image ∷ [];
  image_subfolder = some (codes "Photos");
}

patterns-IsLine : All IsLine patterns
unfolding trim
patterns-IsLine = (
  (refl, (λ e. cc e), (refl, (refl, (refl, (refl, (refl, tt)))))),
  ((refl, (λ e. cc e), (refl, (refl, (refl, (refl, (refl, (refl, (refl, (refl, tt))))))))), tt),
)

phone-IsStoredShare : IsStoredShare [] [] phone
phone-IsStoredShare = record {
  identified = λ e. cc e;
  preset_listed = tt;
  rename_preset_listed = tt;
  owned = λ e. cc e;
  zoned = tt;
  patterns = patterns-IsLine;
}

-- The subfolder and the group of the share are not in the request.
submit_share-edit_share_example : submit_share (edit_share [] [] phone) ≡ record {
  method = put;
  url = codes "/api/v1/shares/" ++ codes "s1";
  body = record (request_of phone) {
    allowed_media_types = boxed phone.allowed_media_types;
    group = none;
    image_extensions = none;
    video_extensions = none;
    image_subfolder = none;
    video_subfolder = none;
  };
}
submit_share-edit_share_example = submit_share-edit_share [] [] phone phone-IsStoredShare

abbrev disabled_phone : Share
disabled_phone = record phone { id = codes "/mnt/phone"; enabled = false }

-- A disabled share leaves its group.
submit_group-edit_group_example :
    includes
      ((submit_group (edit_group (disabled_phone ∷ []) phones)).body.share_ids)
      (codes "/mnt/phone")
    ≡ (includes phones.share_ids (codes "/mnt/phone")
        && is_offered (disabled_phone ∷ []) (codes "/mnt/phone"))
submit_group-edit_group_example =
    submit_group-edit_group (disabled_phone ∷ []) phones (codes "/mnt/phone")

-- A clock that writes the minutes since the epoch.
abbrev minutes : Zone
minutes = record {
  to_local_input = λ at. decimal (at / 600000000);
  from_local_input = λ s. some (read_decimal 0 s * 600000000);
}

abbrev archived : MediaEvent
archived = record kiel { operation_mode = archive; start_at = 610000000 }

one_minute : decimal 1 ≢ []
unfolding decimal
one_minute e = cc e

archived-IsReadBack : IsReadBack minutes 610000000
archived-IsReadBack = (one_minute, ap (λ n. some (n * 600000000)) (read_decimal-decimal 1))

archived-IsShown : IsShown (phones ∷ []) (share_at (codes "/mnt") ∷ []) archived
archived-IsShown = record {
  identified = λ e. cc e;
  typed = λ e. cc e;
  group_listed = refl;
  destination_listed = refl;
  status_listed = refl;
}

submit_event-edit_event_example :
    submit_event minutes (edit_event minutes (phones ∷ []) (share_at (codes "/mnt") ∷ []) archived)
    ≡ some (record {
      method = put;
      url = codes "/api/v1/events/" ++ codes "e1";
      body = record {
        name = archived.name;
        type = archived.type;
        start_at = 610000000 / 600000000 * 600000000;
        end_at = none;
        status = codes "Active";
        source_group_id = codes "g";
        destination_share_id = codes "/mnt";
        destination_folder_template = archived.destination_folder_template;
        operation_mode = safe_move;
        conflict_strategy = archived.conflict_strategy;
        duplicate_strategy = archived.duplicate_strategy;
      };
    })
submit_event-edit_event_example =
    submit_event-edit_event minutes (phones ∷ []) (share_at (codes "/mnt") ∷ []) archived
      archived-IsShown archived-IsReadBack tt
