-- ===== src/Restore/Insert.antt =====
-- executeBulkInsert, copyAndBulkInsert and restorePartition.
pub mod Effects
pub mod Expected
pub mod Layout
pub mod Once
use milvus_backup.Base.{
  ℕ, ◌*◌, Bool, false, not, List, [], ◌∷◌, ◌++◌, Option, none, some, ok, err, if◌then◌else◌, nat_eq,
}
use milvus_backup.Base.Text.{Text, text_eq}
use milvus_backup.Base.Int64.{Int64, add64, mul64, div64, to_int32}
use milvus_backup.Proto.{PartitionBackupInfo, RestoreCollectionTask}
use milvus_backup.Context.Get.{is_empty}
use milvus_backup.Retry.Config.{attempts, sleep}
use milvus_backup.Milvus.Wrapper.{bulk_insert, has_partition, create_partition, retried, second}
use milvus_backup.Restore.Watch.{watch_bulk_insert_state}
use milvus_backup.Restore.Groups.{collect_group_ids_from_segments}
use milvus_backup.Restore.Partition.{
  get_backup_partition_paths, get_backup_partition_paths_with_group_id,
}
use milvus_backup.Restore.Run.{
  Run, Site, R, ◌>>=◌, ◌>>◌, pure, on_cluster, on_store, ask_store, get_task, set_task,
}

-- BULKINSERT_TIMEOUT, in seconds.
abbrev pub bulkinsert_timeout : ℕ
bulkinsert_timeout = 60 * 60

abbrev pub timestamp_of : RestoreCollectionTask → Int64
timestamp_of task = elim task.coll_backup [ none ↦ 0 | some c ↦ c.backup_timestamp ]

-- Where a collection is restored to: the database, the collection, the partition.
pub record Place : Type 0 where
  pub db : Text
  pub coll : Text
  pub partition : Text

-- `RestoredSize` and `Progress` at the end of a partition.
unfoldable pub add_restored : Int64 → RestoreCollectionTask → RestoreCollectionTask
add_restored size task =
    let restored = add64 task.restored_size size in
    record task {
      restored_size = restored;
      progress =
          if nat_eq task.to_restore_size 0
          then 100
          else to_int32 (div64 (mul64 100 restored) task.to_restore_size);
    }

abbrev pub ended_watch : {S : Type 0} → Option (Option Text) → Run S Unit
ended_watch none w = none
ended_watch (some none) w = some (ok tt, w)
ended_watch (some (some e)) w = some (err e, w)

module _ (site : Site) where
  -- The watch asks the cluster until it ends, and leaves it as it then is.
  unfoldable pub watch_task : Int64 → R site Unit
  watch_task task_id w =
      let seen = site.watched w.cluster task_id in
      ended_watch (watch_bulk_insert_state bulkinsert_timeout seen.start seen.polls)
        (record w { cluster = site.watch_ends w.cluster task_id })

  abbrev pub end_ts : Int64 → Option Int64
  end_ts end_time = if nat_eq end_time 0 then none else some end_time

  unfoldable pub execute_bulk_insert : Place → List Text → Int64 → R site Unit
  unfolding watch_task
  execute_bulk_insert place files end_time = do
    task_id ←
        on_cluster site
          (bulk_insert site.client place.db place.coll place.partition files (end_ts end_time))
    watch_task task_id

  -- A file in another bucket is copied below the temporary directory first. An empty name stands for
  -- no delta logs.
  unfoldable pub copy_file : Text → Text → R site Text
  copy_file temp_dir file = if is_empty file then pure file else do
    on_store site (λ s.
        site.cm.copy s site.backup_bucket_name site.milvus_bucket_name file (temp_dir ++ file))
    pure (temp_dir ++ file)

  unfoldable pub copy_files : Text → List Text → R site (List Text)
  unfolding copy_file
  copy_files temp_dir [] = pure []
  copy_files temp_dir (file ∷ files) = do
    real_file ← copy_file temp_dir file
    real_files ← copy_files temp_dir files
    pure (real_file ∷ real_files)

  abbrev pub is_same_bucket : Bool
  is_same_bucket = text_eq site.milvus_bucket_name site.backup_bucket_name

  unfoldable pub copy_and_bulk_insert : Place → Text → List Text → R site Unit
  unfolding copy_files execute_bulk_insert
  copy_and_bulk_insert place temp_dir files = do
    real_files ← if not is_same_bucket then copy_files temp_dir files else pure files
    task ← get_task site
    execute_bulk_insert place real_files (timestamp_of task)

  unfoldable pub ensure_partition : Place → R site Unit
  ensure_partition place = do
    exist ← on_cluster site (has_partition site.client place.db place.coll place.partition)
    if not exist
        then on_cluster site (
            retried site.client (attempts 10 ∷ sleep second ∷ [])
              (create_partition site.client place.db place.coll place.partition))
        else pure tt

  unfoldable pub insert_group : Place → Text → PartitionBackupInfo → Int64 → R site Unit
  unfolding copy_and_bulk_insert
  insert_group place temp_dir p group_id = do
    files ← ask_store site (λ s.
        get_backup_partition_paths_with_group_id site.cm s site.backup_bucket_name site.backup_path
          p group_id)
    copy_and_bulk_insert place temp_dir files

  unfoldable pub insert_groups : Place → Text → PartitionBackupInfo → List Int64 → R site Unit
  unfolding insert_group
  insert_groups place temp_dir p [] = pure tt
  insert_groups place temp_dir p (group_id ∷ group_ids) = do
    insert_group place temp_dir p group_id
    insert_groups place temp_dir p group_ids

  -- The backups of earlier versions have no groups, and are inserted as a whole.
  unfoldable pub insert_whole : Place → Text → PartitionBackupInfo → R site Unit
  unfolding copy_and_bulk_insert
  insert_whole place temp_dir p = do
    files ←
        ask_store site
          (λ s. get_backup_partition_paths site.cm s site.backup_bucket_name site.backup_path p)
    copy_and_bulk_insert place temp_dir files

  abbrev pub has_no_groups : List Int64 → Bool
  has_no_groups (group_id ∷ []) = nat_eq group_id 0
  has_no_groups _ = false

  unfoldable pub insert_partition : Place → Text → PartitionBackupInfo → R site Unit
  unfolding insert_whole insert_groups
  insert_partition place temp_dir p =
      let group_ids = collect_group_ids_from_segments p.segment_backups in
      if has_no_groups group_ids
      then insert_whole place temp_dir p
      else insert_groups place temp_dir p group_ids

  unfoldable pub restore_partition : Text → Text → Text → PartitionBackupInfo → R site Unit
  unfolding ensure_partition insert_partition add_restored
  restore_partition db coll temp_dir p =
      let place : Place = record { db = db; coll = coll; partition = p.partition_name } in
      do
        ensure_partition place
        task ← get_task site
        if task.meta_only
            then set_task site (λ t. record t { progress = 100 })
            else (do insert_partition place temp_dir p; set_task site (add_restored p.size))
