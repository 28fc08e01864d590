-- ===== src/Model.antt =====
-- The data that the console keeps, as its API serialises it: src/MomentFerry.Core/Domain. Instants
-- are ticks of 100 ns since the epoch, as the service keeps and sends them, and `none` is null.
pub mod Samples
use moment_ferry.Common.{ℕ, Bool, true, false, List, Option, Text, codes}

pub data ShareRole : Type 0 where
  source destination both : ShareRole

pub data MediaType : Type 0 where
  image video other : MediaType

pub record Share : Type 0 where
  pub id : Text
  pub name : Text
  pub path : Text
  pub role : ShareRole
  pub enabled : Bool
  pub owner : Option Text
  pub group : Option Text
  pub preset : Option Text
  pub stability_seconds : ℕ
  pub recursive : Bool
  pub default_time_zone : Option Text
  pub ignore_patterns : List Text
  pub allowed_media_types : List MediaType
  pub image_extensions : List Text
  pub video_extensions : List Text
  pub rename_preset_id : Option Text
  pub image_subfolder : Option Text
  pub video_subfolder : Option Text

pub record SourceGroup : Type 0 where
  pub id : Text
  pub name : Text
  pub share_ids : List Text

pub data EventStatus : Type 0 where
  planned active closed archived cancelled : EventStatus

pub data OperationMode : Type 0 where
  copy safe_move archive : OperationMode

pub data ConflictStrategy : Type 0 where
  append_source_name append_counter quarantine : ConflictStrategy

pub data DuplicateStrategy : Type 0 where
  keep_existing keep_both skip_and_record safe_move_to_existing : DuplicateStrategy

pub record MediaEvent : Type 0 where
  pub id : Text
  pub name : Text
  pub type : Option Text
  pub start_at : ℕ
  pub end_at : Option ℕ
  pub status : EventStatus
  pub source_group_id : Text
  pub destination_share_id : Text
  pub destination_folder_template : Text
  pub operation_mode : OperationMode
  pub conflict_strategy : ConflictStrategy
  pub duplicate_strategy : DuplicateStrategy

pub record MediaFile : Type 0 where
  pub id : Text
  pub source_path : Text
  pub original_name : Text
  pub size : ℕ
  pub extension : Text
  pub media_type : MediaType
  pub captured_at : ℕ
  pub timestamp_source : Option Text

pub record Operation : Type 0 where
  pub id : Text
  pub event_id : Option Text
  pub source_path : Text
  pub destination_path : Option Text
  pub state : Text
  pub last_error : Option Text
  pub started_at : ℕ

-- An entry of the activity log.
pub record LogEntry : Type 0 where
  pub at : ℕ
  pub level : Text
  pub category : Text
  pub message : Text
  pub detail : Option Text

abbrev pub is_source : ShareRole → Bool
is_source source = true
is_source _ = false

abbrev pub is_destination : ShareRole → Bool
is_destination destination = true
is_destination _ = false

abbrev pub is_both : ShareRole → Bool
is_both both = true
is_both _ = false

abbrev pub is_active : EventStatus → Bool
is_active active = true
is_active _ = false

abbrev pub is_planned : EventStatus → Bool
is_planned planned = true
is_planned _ = false

abbrev pub is_closed : EventStatus → Bool
is_closed closed = true
is_closed _ = false

abbrev pub is_copy : OperationMode → Bool
is_copy copy = true
is_copy _ = false
