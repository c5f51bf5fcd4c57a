-- ===== src/Proto/Backup.antt =====
-- What a backup consists of: collections, partitions, segments and their log files.
use milvus_backup.Base.{ℕ, Bool, List}
use milvus_backup.Base.Text.{Text}
use milvus_backup.Base.Dict.{Dict}
use milvus_backup.Base.Int64.{Int64}
use milvus_backup.Proto.Enums.{BackupTaskStateCode}

pub record KeyValuePair : Type 0 where
  pub key : Text
  pub value : Text

pub record FieldSchema : Type 0 where
  pub field_id : Int64
  pub name : Text
  pub is_primary_key : Bool
  pub description : Text
  pub data_type : ℕ
  pub type_params : List KeyValuePair
  pub index_params : List KeyValuePair
  pub auto_id : Bool
  pub element_type : ℕ
  pub is_dynamic : Bool
  pub is_partition_key : Bool

pub record CollectionSchema : Type 0 where
  pub name : Text
  pub description : Text
  pub auto_id : Bool
  pub fields : List FieldSchema
  pub enable_dynamic_field : Bool

pub record IndexInfo : Type 0 where
  pub field_name : Text
  pub index_name : Text
  pub index_type : Text
  pub params : Dict Text Text

pub record Binlog : Type 0 where
  pub entries_num : Int64
  pub timestamp_from : ℕ
  pub timestamp_to : ℕ
  pub log_path : Text
  pub log_size : Int64

pub record FieldBinlog : Type 0 where
  pub field_id : Int64
  pub binlogs : List Binlog

pub record SegmentBackupInfo : Type 0 where
  pub segment_id : Int64
  pub collection_id : Int64
  pub partition_id : Int64
  pub num_of_rows : Int64
  pub binlogs : List FieldBinlog
  pub statslogs : List FieldBinlog
  pub deltalogs : List FieldBinlog
  pub size : Int64
  pub group_id : Int64

pub record PartitionBackupInfo : Type 0 where
  pub partition_id : Int64
  pub partition_name : Text
  pub collection_id : Int64
  pub segment_backups : List SegmentBackupInfo
  pub size : Int64
  pub load_state : Text

pub record CollectionBackupInfo : Type 0 where
  pub id : Text
  pub state_code : BackupTaskStateCode
  pub error_message : Text
  pub start_time : Int64
  pub end_time : Int64
  pub progress : ℕ
  pub collection_id : Int64
  pub db_name : Text
  pub collection_name : Text
  pub schema : CollectionSchema
  pub shards_num : ℕ
  pub consistency_level : ℕ
  pub partition_backups : List PartitionBackupInfo
  pub backup_timestamp : ℕ
  pub size : Int64
  pub has_index : Bool
  pub index_infos : List IndexInfo
  pub load_state : Text
  pub backup_physical_timestamp : ℕ

pub record BackupInfo : Type 0 where
  pub id : Text
  pub state_code : BackupTaskStateCode
  pub error_message : Text
  pub start_time : Int64
  pub end_time : Int64
  pub progress : ℕ
  pub name : Text
  pub backup_timestamp : ℕ
  pub collection_backups : List CollectionBackupInfo
  pub size : Int64
  pub milvus_version : Text

pub record CollectionLevelBackupInfo : Type 0 where
  pub infos : List CollectionBackupInfo

pub record PartitionLevelBackupInfo : Type 0 where
  pub infos : List PartitionBackupInfo

pub record SegmentLevelBackupInfo : Type 0 where
  pub infos : List SegmentBackupInfo
