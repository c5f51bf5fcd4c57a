-- ===== src/Restore/Insert/Expected.antt =====
-- The bulk inserts that the restore of a partition should ask for.
use milvus_backup.Base.{Bool, List, [], ◌∷◌, map, Result, ok, err, if◌then◌else◌}
use milvus_backup.Base.Text.{Text}
use milvus_backup.Base.Int64.{Int64}
use milvus_backup.Proto.{PartitionBackupInfo, RestoreCollectionTask}
use milvus_backup.Milvus.Inserts.{Insertion}
use milvus_backup.Restore.Groups.{collect_group_ids_from_segments}
use milvus_backup.Restore.Partition.{
  get_backup_partition_paths, get_backup_partition_paths_with_group_id,
}
use milvus_backup.Restore.Run.{Site, World}
use milvus_backup.Restore.Insert.{Place, timestamp_of, has_no_groups, add_restored}
use milvus_backup.Restore.Insert.Effects.{real_file, insertion}

-- The files that the storage's answer gives; none if it fails.
abbrev pub answered : Result Text (List Text) → List Text
answered (ok files) = files
answered (err e) = []

module _ (site : Site) where
  -- What the storage of this world answers for a group, and for the partition as a whole.
  abbrev pub group_files : World site → PartitionBackupInfo → Int64 → Result Text (List Text)
  group_files w p g =
      get_backup_partition_paths_with_group_id site.cm w.store site.backup_bucket_name
        site.backup_path p g

  abbrev pub whole_files : World site → PartitionBackupInfo → Result Text (List Text)
  whole_files w p =
      get_backup_partition_paths site.cm w.store site.backup_bucket_name site.backup_path p

  -- The bulk insert of these files, as the cluster will see them.
  abbrev pub insertion_of : Place → Text → World site → List Text → Insertion
  insertion_of place temp_dir w files =
      insertion site place (map (real_file site temp_dir) files) (timestamp_of w.task)

  unfoldable pub group_insertion :
      Place → Text → PartitionBackupInfo → World site → Int64 → Insertion
  group_insertion place temp_dir p w g =
      insertion_of place temp_dir w (answered (group_files w p g))

  unfoldable pub partition_insertions :
      Place → Text → PartitionBackupInfo → World site → List Insertion
  unfolding group_insertion
  partition_insertions place temp_dir p w =
      let group_ids = collect_group_ids_from_segments p.segment_backups in
      if has_no_groups site group_ids
      then insertion_of place temp_dir w (answered (whole_files w p)) ∷ []
      else map (group_insertion place temp_dir p w) group_ids

  -- The bulk inserts of a partition, and the task behind it.
  abbrev pub new_insertions :
      Place → Text → PartitionBackupInfo → Bool → World site → List Insertion
  new_insertions place temp_dir p meta_only w =
      if meta_only then [] else partition_insertions place temp_dir p w

  abbrev pub counted : PartitionBackupInfo → Bool → RestoreCollectionTask → RestoreCollectionTask
  counted p meta_only task =
      if meta_only then record task { progress = 100 } else add_restored p.size task
