-- ===== src/Proto/Requests.antt =====
-- Requests and responses. The field `Data` of a response is named for what it holds.
use milvus_backup.Base.{Bool, List, Option}
use milvus_backup.Base.Text.{Text}
use milvus_backup.Base.Dict.{Dict}
use milvus_backup.Proto.Enums.{ResponseCode}
use milvus_backup.Proto.Backup.{BackupInfo}
use milvus_backup.Proto.Restore.{RestoreBackupTask}

-- What `db_collections`, a `structpb.Value`, can be for the program: a text, a JSON object, or
-- something else (null, a number, a list, a Boolean, or no value).
pub data DbCollectionsValue : Type 0 where
  string_value : Text → DbCollectionsValue
  struct_value : Text → DbCollectionsValue
  other_value : DbCollectionsValue

pub record CreateBackupRequest : Type 0 where
  pub request_id : Text
  pub backup_name : Text
  pub collection_names : List Text
  pub async : Bool
  pub db_collections : Option DbCollectionsValue
  pub force : Bool
  pub meta_only : Bool

pub record BackupInfoResponse : Type 0 where
  pub request_id : Text
  pub code : ResponseCode
  pub msg : Text
  pub backup : Option BackupInfo

pub record GetBackupRequest : Type 0 where
  pub request_id : Text
  pub backup_name : Text
  pub backup_id : Text
  pub bucket_name : Text
  pub path : Text
  pub without_detail : Bool

pub record ListBackupsRequest : Type 0 where
  pub request_id : Text
  pub collection_name : Text

pub record ListBackupsResponse : Type 0 where
  pub request_id : Text
  pub code : ResponseCode
  pub msg : Text
  pub backups : List BackupInfo

pub record DeleteBackupRequest : Type 0 where
  pub request_id : Text
  pub backup_name : Text

pub record DeleteBackupResponse : Type 0 where
  pub request_id : Text
  pub code : ResponseCode
  pub msg : Text

pub record RestoreBackupRequest : Type 0 where
  pub request_id : Text
  pub backup_name : Text
  pub collection_names : List Text
  pub collection_suffix : Text
  pub collection_renames : Dict Text Text
  pub async : Bool
  pub bucket_name : Text
  pub path : Text
  pub db_collections : Option DbCollectionsValue
  pub meta_only : Bool
  pub restore_index : Bool
  pub use_auto_index : Bool
  pub drop_exist_collection : Bool
  pub drop_exist_index : Bool
  pub skip_create_collection : Bool

pub record RestoreBackupResponse : Type 0 where
  pub request_id : Text
  pub code : ResponseCode
  pub msg : Text
  pub task : Option RestoreBackupTask

pub record GetRestoreStateRequest : Type 0 where
  pub request_id : Text
  pub id : Text
