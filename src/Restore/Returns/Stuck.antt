-- ===== src/Restore/Returns/Stuck.antt =====
-- A restore on a pool that an earlier restore has left cancelled.
use milvus_backup.Base.{Bool, true, false, List, [], ◌∷◌}
use milvus_backup.Base.Text.{Text}
use milvus_backup.Base.Int64.{Int64}
use milvus_backup.Proto.{PartitionBackupInfo, RestoreCollectionTask}
use milvus_backup.Restore.Collection.{collection_of}

abbrev is_some_partition : List PartitionBackupInfo → Bool
is_some_partition [] = false
is_some_partition (p ∷ ps) = true

-- The collection has partitions.
abbrev pub has_partitions : RestoreCollectionTask → Bool
has_partitions task = is_some_partition (collection_of task).partition_backups
