-- ===== src/Meta/Levels.antt =====
-- treeToLevel and levelToTree of core/backup_meta.go.
use milvus_backup.Base.{List, [], ◌∷◌, ◌++◌, map, concat_map}
use milvus_backup.Base.Text.{Text, text_key}
use milvus_backup.Base.Dict.{Dict, lookup, or_nil}
use milvus_backup.Base.Int64.{Int64, sum64}
use milvus_backup.Base.Decimal.{print_int64, dash}
use milvus_backup.Base.Group.{group_into}
use milvus_backup.Base.{nat_key}
use milvus_backup.Proto.{
  BackupInfo, CollectionBackupInfo, PartitionBackupInfo, SegmentBackupInfo, backup_initial,
  CollectionLevelBackupInfo, PartitionLevelBackupInfo, SegmentLevelBackupInfo,
}

pub record LeveledBackupInfo : Type 0 where
  pub backup_level : BackupInfo
  pub collection_level : CollectionLevelBackupInfo
  pub partition_level : PartitionLevelBackupInfo
  pub segment_level : SegmentLevelBackupInfo

-- cloneCollectionBackup: the fields that the literal does not name have their zero values.
unfoldable pub clone_collection : CollectionBackupInfo → CollectionBackupInfo
clone_collection c = record {
  id = [];
  state_code = backup_initial;
  error_message = [];
  start_time = 0;
  end_time = 0;
  progress = 0;
  collection_id = c.collection_id;
  db_name = c.db_name;
  collection_name = c.collection_name;
  schema = c.schema;
  shards_num = c.shards_num;
  consistency_level = c.consistency_level;
  partition_backups = [];
  backup_timestamp = c.backup_timestamp;
  size = c.size;
  has_index = c.has_index;
  index_infos = c.index_infos;
  load_state = c.load_state;
  backup_physical_timestamp = c.backup_physical_timestamp;
}

-- clonePartitionBackupInfo
unfoldable pub clone_partition : PartitionBackupInfo → PartitionBackupInfo
clone_partition p = record {
  partition_id = p.partition_id;
  partition_name = p.partition_name;
  collection_id = p.collection_id;
  segment_backups = [];
  size = p.size;
  load_state = p.load_state;
}

-- The nested loops append, collection by collection and partition by partition.
abbrev pub all_partitions : List CollectionBackupInfo → List PartitionBackupInfo
all_partitions = concat_map (λ c. c.partition_backups)

abbrev pub all_segments : List PartitionBackupInfo → List SegmentBackupInfo
all_segments = concat_map (λ p. p.segment_backups)

-- The error that treeToLevel returns is always nil.
unfoldable pub tree_to_level : BackupInfo → LeveledBackupInfo
unfolding clone_collection clone_partition
tree_to_level b = record {
  backup_level = record {
    id = b.id;
    state_code = b.state_code;
    error_message = b.error_message;
    start_time = b.start_time;
    end_time = b.end_time;
    progress = b.progress;
    name = b.name;
    backup_timestamp = b.backup_timestamp;
    collection_backups = [];
    size = b.size;
    milvus_version = b.milvus_version;
  };
  collection_level = record { infos = map clone_collection b.collection_backups };
  partition_level = record {
    infos = concat_map (λ c. map clone_partition c.partition_backups) b.collection_backups;
  };
  segment_level = record {
    infos =
        concat_map (λ c. concat_map (λ p. p.segment_backups) c.partition_backups)
          b.collection_backups;
  };
}

-- fmt.Sprintf("%d-%d", collectionId, partitionId)
unfoldable pub unique_id : Int64 → Int64 → Text
unique_id collection_id partition_id = print_int64 collection_id ++ dash ∷ print_int64 partition_id

unfoldable pub segment_key : SegmentBackupInfo → Text
segment_key s = unique_id s.collection_id s.partition_id

-- The round of the loop over partitions that sets `partition.SegmentBackups`.
unfoldable pub attach_segments :
    Dict Text (List SegmentBackupInfo) → PartitionBackupInfo → PartitionBackupInfo
attach_segments segment_dict p = record p {
  segment_backups = or_nil (lookup (unique_id p.collection_id p.partition_id) segment_dict);
}

-- The round of the loop over collections.
unfoldable pub attach_partitions :
    Dict Int64 (List PartitionBackupInfo) → CollectionBackupInfo → CollectionBackupInfo
attach_partitions partition_dict c = record c {
  partition_backups = or_nil (lookup c.collection_id partition_dict);
  size = sum64 (map (λ p. p.size) (or_nil (lookup c.collection_id partition_dict)));
}

-- The error that levelToTree returns is always nil. The Go code writes into the messages of the
-- level that it is given; its callers use that level no more.
unfoldable pub level_to_tree : LeveledBackupInfo → BackupInfo
unfolding segment_key attach_segments attach_partitions
level_to_tree level =
    let segment_dict = group_into segment_key level.segment_level.infos [] in
    let partitions = map (attach_segments segment_dict) level.partition_level.infos in
    let partition_dict = group_into (λ p. p.collection_id) partitions [] in
    record {
      id = level.backup_level.id;
      state_code = level.backup_level.state_code;
      error_message = level.backup_level.error_message;
      start_time = level.backup_level.start_time;
      end_time = level.backup_level.end_time;
      progress = level.backup_level.progress;
      name = level.backup_level.name;
      backup_timestamp = level.backup_level.backup_timestamp;
      collection_backups = map (attach_partitions partition_dict) level.collection_level.infos;
      size = level.backup_level.size;
      milvus_version = level.backup_level.milvus_version;
    }
