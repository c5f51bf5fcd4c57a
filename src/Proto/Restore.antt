-- ===== src/Proto/Restore.antt =====
-- The tasks of a restore.
use milvus_backup.Base.{ℕ, Bool, List, Option}
use milvus_backup.Base.Text.{Text}
use milvus_backup.Base.Int64.{Int64}
use milvus_backup.Proto.Enums.{RestoreTaskStateCode}
use milvus_backup.Proto.Backup.{CollectionBackupInfo, PartitionBackupInfo}

pub record RestorePartitionTask : Type 0 where
  pub id : Text
  pub state_code : RestoreTaskStateCode
  pub error_message : Text
  pub start_time : Int64
  pub end_time : Int64
  pub progress : ℕ
  pub part_backup : Option PartitionBackupInfo

pub record RestoreCollectionTask : Type 0 where
  pub id : Text
  pub state_code : RestoreTaskStateCode
  pub error_message : Text
  pub start_time : Int64
  pub end_time : Int64
  pub coll_backup : Option CollectionBackupInfo
  pub target_collection_name : Text
  pub partition_restore_tasks : List RestorePartitionTask
  pub restored_size : Int64
  pub to_restore_size : Int64
  pub progress : ℕ
  pub target_db_name : Text
  pub meta_only : Bool
  pub restore_index : Bool
  pub use_auto_index : Bool
  pub drop_exist_collection : Bool
  pub drop_exist_index : Bool
  pub skip_create_collection : Bool

pub record RestoreBackupTask : Type 0 where
  pub id : Text
  pub state_code : RestoreTaskStateCode
  pub error_message : Text
  pub start_time : Int64
  pub end_time : Int64
  pub collection_restore_tasks : List RestoreCollectionTask
  pub restored_size : Int64
  pub to_restore_size : Int64
  pub progress : ℕ
