-- ===== src/Restore/Partition.antt =====
-- getBackupPartitionPaths and getBackupPartitionPathsWithGroupID: the directories of log files that
-- a restore hands to the bulk insert.
use milvus_backup.Base.{
  Bool, true, false, List, [], ◌∷◌, ◌++◌, ◌≡◌, ◌≢◌, Result, ok, ◌>>=◌, if◌then◌else◌, append_assoc,
}
use milvus_backup.Base.Text.{Text, has_prefix, has_prefix-append, occurs}
use milvus_backup.Base.Int64.{Int64}
use milvus_backup.Base.Decimal.{print_int64}
use milvus_backup.Proto.{PartitionBackupInfo}
use milvus_backup.Meta.Paths.{
  slash, binlog_dir, insert_log_dir, delta_log_dir, backup_binlog_dir_path,
}
use milvus_backup.Storage.{ChunkManager}
use milvus_backup.Create.Paths.{target_path, target_path-layout}

-- The directory of a partition's logs, of one kind, up to the slash behind the partition's id.
unfoldable pub partition_dir : Text → Text → PartitionBackupInfo → Text → Text
partition_dir backup_path log_dir p rest =
    backup_path
    ++ (slash
        ++ (binlog_dir
            ++ (slash
                ++ (log_dir
                    ++ (slash
                        ++ (print_int64 p.collection_id
                            ++ (slash ++ (print_int64 p.partition_id ++ (slash ++ rest)))))))))

unfoldable pub group_dir : Text → Text → PartitionBackupInfo → Int64 → Text
unfolding partition_dir
group_dir backup_path log_dir p group_id =
    partition_dir backup_path log_dir p (print_int64 group_id ++ slash)

module _ (cm : ChunkManager) where
  abbrev paths_of : Text → Text → Bool → List Text
  paths_of insert_path delta_path exist =
      if exist then insert_path ∷ delta_path ∷ [] else insert_path ∷ [] ∷ []

  unfoldable pub get_backup_partition_paths :
      cm.Store → Text → Text → PartitionBackupInfo → Result Text (List Text)
  unfolding partition_dir
  get_backup_partition_paths s bucket_name backup_path p = do
    exist ← cm.exist s bucket_name (partition_dir backup_path delta_log_dir p [])
    ok (
        paths_of (partition_dir backup_path insert_log_dir p [])
          (partition_dir backup_path delta_log_dir p []) exist)

  unfoldable pub get_backup_partition_paths_with_group_id :
      cm.Store → Text → Text → PartitionBackupInfo → Int64 → Result Text (List Text)
  unfolding group_dir
  get_backup_partition_paths_with_group_id s bucket_name backup_path p group_id = do
    exist ← cm.exist s bucket_name (group_dir backup_path delta_log_dir p group_id)
    ok (
        paths_of (group_dir backup_path insert_log_dir p group_id)
          (group_dir backup_path delta_log_dir p group_id) exist)

-- `/insert_log/<collection>`, or of the delta logs.
abbrev pub middle : Text → Int64 → Text
middle log_dir collection_id = slash ++ (log_dir ++ (slash ++ print_int64 collection_id))

-- The two ways to put the path together.
layout :
    (r n d l c p g f : Text)
    → (r ++ (slash ++ (n ++ (slash ++ d))))
        ++ ((slash ++ (l ++ (slash ++ c))) ++ b'/' ∷ (p ++ b'/' ∷ (g ++ (slash ++ f))))
      ≡ ((r ++ (slash ++ n))
          ++ (slash
              ++ (d
                  ++ (slash
                      ++ (l ++ (slash ++ (c ++ (slash ++ (p ++ (slash ++ (g ++ slash)))))))))))
        ++ f
layout r n d l c p g f = simp append_assoc

-- The path to which a backup copies a log file of a segment with a group lies in the directory
-- that the restore of this group hands to the bulk insert, for the same kind of log, collection
-- and partition, if the cluster's root is not empty, the group is not 0, and the text of the
-- partition's id does not occur in the backup's directory of logs followed by the kind and the
-- collection's id.
pub target_path-group_dir :
    (root backup_root name log_dir file : Text) (p : PartitionBackupInfo) (g : Int64)
    → g ≢ 0
    → root ≢ []
    → occurs
        (print_int64 p.partition_id)
        (backup_binlog_dir_path backup_root name ++ middle log_dir p.collection_id)
      ≡ false
    → has_prefix
        (target_path root (backup_binlog_dir_path backup_root name) p.partition_id g (
          root
          ++ (middle log_dir p.collection_id
              ++ b'/' ∷ (print_int64 p.partition_id ++ (slash ++ file)))))
        (group_dir (backup_root ++ (slash ++ name)) log_dir p g)
      ≡ true
unfolding group_dir partition_dir backup_binlog_dir_path
target_path-group_dir root backup_root name log_dir file p g hg hr o =
    rw
      (
        target_path-layout root (backup_binlog_dir_path backup_root name) p.partition_id g
            (middle log_dir p.collection_id) (slash ++ file) hg hr o,
        layout backup_root name binlog_dir log_dir (print_int64 p.collection_id)
            (print_int64 p.partition_id) (print_int64 g) file,
      )
      (has_prefix-append (group_dir (backup_root ++ (slash ++ name)) log_dir p g) file)
