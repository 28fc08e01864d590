-- ===== src/Model/Samples.antt =====
-- A share, an event, a group and a file to run the console's code on.
use moment_ferry.Common.{[], ◌∷◌, none, some, true, Text, codes}
use moment_ferry.Model.{
  Share, SourceGroup, MediaEvent, MediaFile, both, image, active, copy, append_counter,
  keep_existing,
}

abbrev pub share_at : Text → Share
share_at path = record {
  id = path;
  name = path;
  path = path;
  role = both;
  enabled = true;
  owner = none;
  group = none;
  preset = none;
  stability_seconds = 30;
  recursive = true;
  default_time_zone = none;
  ignore_patterns = [];
  allowed_media_types = [];
  image_extensions = [];
  video_extensions = [];
  rename_preset_id = none;
  image_subfolder = none;
  video_subfolder = none;
}

abbrev pub kiel : MediaEvent
kiel = record {
  id = codes "e1";
  name = codes "Kiel: 1/2";
  type = some (codes "Trip");
  start_at = 10000000;
  end_at = none;
  status = active;
  source_group_id = codes "g";
  destination_share_id = codes "/mnt";
  destination_folder_template = codes "{year}/{month} {event.name}/{source}";
  operation_mode = copy;
  conflict_strategy = append_counter;
  duplicate_strategy = keep_existing;
}

abbrev pub phones : SourceGroup
phones = record { id = codes "g"; name = codes "Phones"; share_ids = codes "/mnt/phone" ∷ [] }

abbrev pub photo : MediaFile
photo = record {
  id = codes "f1";
  source_path = codes "/mnt/phone/a.jpg";
  original_name = codes "a.jpg";
  size = 4096;
  extension = codes ".jpg";
  media_type = image;
  captured_at = 50000000;
  timestamp_source = some (codes "ExifDateTimeOriginal");
}
