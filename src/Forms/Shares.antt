-- ===== src/Forms/Shares.antt =====
-- app.js, editShare, resetShareForm and the submit handler of the share form.
use moment_ferry.Common.{
  refl, filter, is_empty, not, arith, ℕ, List, [], ◌∷◌, ◌++◌, Option, none, some, Bool, true, false,
  if◌then◌else◌, Text, codes, join, All, ◌≡◌, ◌≢◌, or_blank,
}
use moment_ferry.Model.{Share, ShareRole, source, MediaType, image, video, other}
use moment_ferry.Forms.{
  choose, or_null, lines_to_list, put, Sent, sent, IsOption, NotBlank, or_null-or_blank,
  or_null-choose, sent-put,
}
use moment_ferry.Forms.Lines.{IsLine, lines_to_list-join}

abbrev pub default_image_extensions : List Text
default_image_extensions =
    codes ".jpg"
    ∷ codes ".jpeg"
    ∷ codes ".png"
    ∷ codes ".heic"
    ∷ codes ".heif"
    ∷ codes ".webp"
    ∷ codes ".gif"
    ∷ codes ".tif"
    ∷ codes ".tiff"
    ∷ codes ".dng"
    ∷ codes ".arw"
    ∷ codes ".cr2"
    ∷ codes ".cr3"
    ∷ codes ".nef"
    ∷ codes ".raf"
    ∷ []

abbrev pub default_video_extensions : List Text
default_video_extensions =
    codes ".mp4"
    ∷ codes ".mov"
    ∷ codes ".m4v"
    ∷ codes ".avi"
    ∷ codes ".mkv"
    ∷ codes ".3gp"
    ∷ codes ".webm"
    ∷ codes ".mts"
    ∷ codes ".m2ts"
    ∷ []

pub record ShareForm : Type 0 where
  pub share_id : Text
  pub name : Text
  pub path : Text
  pub role : ShareRole
  pub preset : Text
  pub owner : Text
  pub timezone : Text
  pub stability : ℕ
  pub ignore : Text
  pub enabled : Bool
  pub recursive : Bool
  pub images : Bool
  pub videos : Bool
  pub image_extensions : Text
  pub video_extensions : Text
  pub share_preset : Text
  pub image_subfolder : Text
  pub video_subfolder : Text

abbrev has_image : List MediaType → Bool
has_image [] = false
has_image (image ∷ rest) = true
has_image (_ ∷ rest) = has_image rest

abbrev has_video : List MediaType → Bool
has_video [] = false
has_video (video ∷ rest) = true
has_video (_ ∷ rest) = has_video rest

abbrev or_default : List Text → List Text → List Text
or_default [] defaults = defaults
or_default (x ∷ xs) defaults = x ∷ xs

-- editShare; `presets` and `rename_presets` are the options of its two selects.
unfoldable pub edit_share : List Text → List Text → Share → ShareForm
unfolding choose
edit_share presets rename_presets s = record {
  share_id = s.id;
  name = s.name;
  path = s.path;
  role = s.role;
  preset = choose presets (or_blank s.preset);
  owner = or_blank s.owner;
  timezone = or_blank s.default_time_zone;
  stability = s.stability_seconds;
  ignore = join (10 ∷ []) s.ignore_patterns;
  enabled = s.enabled;
  recursive = s.recursive;
  images = has_image s.allowed_media_types;
  videos = has_video s.allowed_media_types;
  image_extensions = join (10 ∷ []) (or_default s.image_extensions default_image_extensions);
  video_extensions = join (10 ∷ []) (or_default s.video_extensions default_video_extensions);
  share_preset = choose rename_presets (or_blank s.rename_preset_id);
  image_subfolder = or_blank s.image_subfolder;
  video_subfolder = or_blank s.video_subfolder;
}

-- resetShareForm. A form's own reset leaves the role and the preset at the first option.
unfoldable pub reset_share_form : Text → ShareForm
reset_share_form first_preset = record {
  share_id = [];
  name = [];
  path = [];
  role = source;
  preset = first_preset;
  owner = [];
  timezone = [];
  stability = 30;
  ignore = [];
  enabled = true;
  recursive = true;
  images = true;
  videos = true;
  image_extensions = join (10 ∷ []) default_image_extensions;
  video_extensions = join (10 ∷ []) default_video_extensions;
  share_preset = [];
  image_subfolder = [];
  video_subfolder = [];
}

-- What the API takes for a share; a member that is null or left out is `none`.
pub record ShareRequest : Type 0 where
  pub name : Text
  pub path : Text
  pub role : ShareRole
  pub enabled : Bool
  pub owner : Option Text
  pub group : Option Text
  pub preset : Option Text
  pub rename_preset_id : Option Text
  pub stability_seconds : ℕ
  pub recursive : Bool
  pub default_time_zone : Option Text
  pub ignore_patterns : List Text
  pub allowed_media_types : List MediaType
  pub image_extensions : Option (List Text)
  pub video_extensions : Option (List Text)
  pub image_subfolder : Option Text
  pub video_subfolder : Option Text

abbrev media_types : Bool → Bool → List MediaType
media_types images videos =
    (if images then image ∷ [] else []) ++ (if videos then video ∷ [] else [])

-- The submit handler of the share form, up to the request.
unfoldable pub submit_share : ShareForm → Sent ShareRequest
unfolding lines_to_list
submit_share f = sent (codes "/api/v1/shares") (codes "/api/v1/shares") f.share_id (record {
  name = f.name;
  path = f.path;
  role = f.role;
  enabled = f.enabled;
  owner = or_null f.owner;
  group = none;
  preset = or_null f.preset;
  rename_preset_id = or_null f.share_preset;
  stability_seconds = f.stability;
  recursive = f.recursive;
  default_time_zone = or_null f.timezone;
  ignore_patterns = lines_to_list f.ignore;
  allowed_media_types = media_types f.images f.videos;
  image_extensions = none;
  video_extensions = none;
  image_subfolder = none;
  video_subfolder = none;
})

-- A share as the service stores it: no blank members, trimmed patterns.
pub record IsStoredShare (presets rename_presets : List Text) (s : Share) : Type 0 where
  pub identified : s.id ≢ []
  pub preset_listed : IsOption presets s.preset
  pub rename_preset_listed : IsOption rename_presets s.rename_preset_id
  pub owned : NotBlank s.owner
  pub zoned : NotBlank s.default_time_zone
  pub patterns : All IsLine s.ignore_patterns

abbrev is_type : MediaType → MediaType → Bool
is_type image image = true
is_type video video = true
is_type _ _ = false

abbrev holds : MediaType → List MediaType → Bool
holds kind types = not (is_empty (filter (is_type kind) types))

-- Images and videos, in this order, where the types have them.
abbrev pub boxed : List MediaType → List MediaType
boxed types = filter (λ kind. holds kind types) (image ∷ video ∷ [])

has_image-holds : (types : List MediaType) → has_image types ≡ holds image types
has_image-holds [] = refl
has_image-holds (image ∷ rest) = refl
has_image-holds (video ∷ rest) = has_image-holds rest
has_image-holds (other ∷ rest) = has_image-holds rest

has_video-holds : (types : List MediaType) → has_video types ≡ holds video types
has_video-holds [] = refl
has_video-holds (image ∷ rest) = has_video-holds rest
has_video-holds (video ∷ rest) = refl
has_video-holds (other ∷ rest) = has_video-holds rest

media_types-boxed :
    (types : List MediaType) → media_types (has_image types) (has_video types) ≡ boxed types
media_types-boxed types = ground (arith, has_image-holds types, has_video-holds types)

-- The request that would store the share as it is.
abbrev pub request_of : Share → ShareRequest
request_of s = record {
  name = s.name;
  path = s.path;
  role = s.role;
  enabled = s.enabled;
  owner = s.owner;
  group = s.group;
  preset = s.preset;
  rename_preset_id = s.rename_preset_id;
  stability_seconds = s.stability_seconds;
  recursive = s.recursive;
  default_time_zone = s.default_time_zone;
  ignore_patterns = s.ignore_patterns;
  allowed_media_types = s.allowed_media_types;
  image_extensions = some s.image_extensions;
  video_extensions = some s.video_extensions;
  image_subfolder = s.image_subfolder;
  video_subfolder = s.video_subfolder;
}

-- Opening a stored share, whose presets the selects list and whose patterns hold no line break, in the
-- form and saving it unchanged puts to the share's own address the request that stores it as it is, but
-- for the group, the two lists of extensions and the two subfolders, which the request leaves out, and
-- the allowed types, of which the request keeps images and videos, in this order, and no other type.
pub submit_share-edit_share :
    (presets rename_presets : List Text) (s : Share)
    → IsStoredShare presets rename_presets s
    → submit_share (edit_share presets rename_presets s) ≡ record {
      method = put;
      url = codes "/api/v1/shares/" ++ s.id;
      body = record (request_of s) {
        allowed_media_types = boxed s.allowed_media_types;
        group = none;
        image_extensions = none;
        video_extensions = none;
        image_subfolder = none;
        video_subfolder = none;
      };
    }
unfolding submit_share edit_share
submit_share-edit_share presets rename_presets s v =
    rw
      (
        or_null-choose presets s.preset v.preset_listed,
        or_null-choose rename_presets s.rename_preset_id v.rename_preset_listed,
        or_null-or_blank s.owner v.owned,
        or_null-or_blank s.default_time_zone v.zoned,
        lines_to_list-join s.ignore_patterns v.patterns,
        media_types-boxed s.allowed_media_types,
      )
      (sent-put (codes "/api/v1/shares") (codes "/api/v1/shares") s.id _ v.identified)
