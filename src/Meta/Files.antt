-- ===== src/Meta/Files.antt =====
-- serialize and deserialize of core/backup_meta.go. encoding/json is not under the repository: what
-- the code calls of it is a parameter, one coder for each type of message.
use milvus_backup.Base.{Option, none, some, [], Result, ok, err, ◌>>=◌}
use milvus_backup.Base.Text.{Text}
use milvus_backup.Proto.{
  BackupInfo, backup_initial, CollectionLevelBackupInfo, PartitionLevelBackupInfo,
  SegmentLevelBackupInfo,
}
use milvus_backup.Meta.Levels.{tree_to_level, level_to_tree}

-- json.Marshal, and json.Unmarshal into a message: the message after the call, and the error.
pub record Coder (A : Type 0) : Type 0 where
  pub marshal : A → Result Text Text
  pub unmarshal : Text → A → A × Option Text

pub record Json : Type 0 where
  pub backup : Coder BackupInfo
  pub collections : Coder CollectionLevelBackupInfo
  pub partitions : Coder PartitionLevelBackupInfo
  pub segments : Coder SegmentLevelBackupInfo

pub record BackupMetaBytes : Type 0 where
  pub backup_meta_bytes : Text
  pub collection_meta_bytes : Text
  pub partition_meta_bytes : Text
  pub segment_meta_bytes : Text
  pub full_meta_bytes : Text

-- &backuppb.BackupInfo{}
abbrev pub empty_backup : BackupInfo
empty_backup = record {
  id = [];
  state_code = backup_initial;
  error_message = [];
  start_time = 0;
  end_time = 0;
  progress = 0;
  name = [];
  backup_timestamp = 0;
  collection_backups = [];
  size = 0;
  milvus_version = [];
}

abbrev pub no_collections : CollectionLevelBackupInfo
no_collections = record { infos = [] }

abbrev pub no_partitions : PartitionLevelBackupInfo
no_partitions = record { infos = [] }

abbrev pub no_segments : SegmentLevelBackupInfo
no_segments = record { infos = [] }

module _ (json : Json) where
  unfoldable pub serialize : BackupInfo → Result Text BackupMetaBytes
  serialize backup =
      let level = tree_to_level backup in
      do
        collection_bytes ← json.collections.marshal level.collection_level
        partition_bytes ← json.partitions.marshal level.partition_level
        segment_bytes ← json.segments.marshal level.segment_level
        backup_bytes ← json.backup.marshal level.backup_level
        full_bytes ← json.backup.marshal backup
        ok (record {
          backup_meta_bytes = backup_bytes;
          collection_meta_bytes = collection_bytes;
          partition_meta_bytes = partition_bytes;
          segment_meta_bytes = segment_bytes;
          full_meta_bytes = full_bytes;
        })

  -- The errors of the last three calls are overwritten and never tested.
  unfoldable pub deserialize : BackupMetaBytes → Result Text BackupInfo
  deserialize m =
      let (backup_info, failure) = json.backup.unmarshal m.backup_meta_bytes empty_backup in
      let (collection_level, _) =
        json.collections.unmarshal m.collection_meta_bytes no_collections in
      let (partition_level, _) = json.partitions.unmarshal m.partition_meta_bytes no_partitions in
      let (segment_level, _) = json.segments.unmarshal m.segment_meta_bytes no_segments in
      elim failure [
        | some e ↦ err e
        | none ↦ ok (
            level_to_tree (record {
              backup_level = backup_info;
              collection_level = collection_level;
              partition_level = partition_level;
              segment_level = segment_level;
            }))
      ]
