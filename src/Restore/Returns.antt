-- ===== src/Restore/Returns.antt =====
-- When a restore by one worker returns.
pub mod Backup
pub mod Stuck
use milvus_backup.Base.{
  ℕ, Bool, true, false, not, List, [], ◌∷◌, ◌++◌, Option, none, some, ◌≡◌, ◌≢◌, refl, ◌∙◌, ap, sym,
  Result, ok, err, if◌then◌else◌, arith, Bool-cases, Option-cases, inl, inr, none-ne_some,
}
use milvus_backup.Base.Text.{Text}
use milvus_backup.Base.Int64.{Int64}
use milvus_backup.Proto.{
  PartitionBackupInfo, RestoreCollectionTask, RestoreBackupTask, FieldSchema, IndexInfo,
}
use milvus_backup.Milvus.Client.{Call, Field}
use milvus_backup.Milvus.Wrapper.{bulk_insert, has_partition, create_partition, retried, second}
use milvus_backup.Retry.Config.{attempts, sleep}
use milvus_backup.Restore.Partition.{
  get_backup_partition_paths, get_backup_partition_paths_with_group_id,
}
use milvus_backup.Restore.Watch.{watch_bulk_insert_state}
use milvus_backup.Restore.Groups.{collect_group_ids_from_segments}
use milvus_backup.Restore.Run.{
  Run, Site, World, R, ◌>>=◌, ◌>>◌, pure, on_cluster, on_store, ask_store, get_task, set_task,
}
use milvus_backup.Restore.Insert.{
  Place, watch_task, execute_bulk_insert, copy_file, copy_files, copy_and_bulk_insert,
  is_same_bucket, timestamp_of, ensure_partition, insert_group, insert_groups, insert_whole,
  insert_partition, has_no_groups, restore_partition, end_ts, add_restored, ended_watch,
  bulkinsert_timeout,
}

abbrev pub Returns : {S A : Type 0} → Run S A → Type 0
Returns {S} m = (s : S) → m s ≢ none

module _ {S A : Type 0} where
  pub some-Returns : {r : Result Text A × S} → ◌≢◌ {A = Option (Result Text A × S)} (some r) none
  some-Returns h = none-ne_some (sym h)

  pub if-Returns : (b : Bool) {m k : Run S A} → Returns m → Returns k → Returns (if b then m else k)
  if-Returns true h h' = h
  if-Returns false h h' = h'

module _ {S A B : Type 0} (m : Run S A) (f : A → Run S B) where
  pub bind-Returns : Returns m → ((a : A) → Returns (f a)) → Returns (m >>= f)
  bind-Returns hm hf s = split (m s) (hm s)
    where
      split :
          (o : Option (Result Text A × S))
          → o ≢ none
          → ◌≢◌ {A = Option (Result Text B × S)}
              (elim o [
                | none ↦ none
                | some (r, s') ↦ elim r [ ok a ↦ f a s' | err e ↦ some (err e, s') ]
              ])
              none
      split none h = absurd (h refl)
      split (some (ok a, s')) h = hf a s'
      split (some (err e, s')) h = some-Returns

module _ (site : Site) where
  -- Every watch ends within what it will see.
  abbrev pub WatchesEnd : Type 0
  WatchesEnd =
      (c : site.client.State) (id : Int64)
      → watch_bulk_insert_state bulkinsert_timeout (site.watched c id).start
          (site.watched c id).polls
        ≢ none

  module _ (ends : WatchesEnd) where
    pub call-Returns :
        {A : Type 0} (call : Call site.client.State A) → Returns (on_cluster site call)
    call-Returns call w = some-Returns

    watch_task-Returns : (id : Int64) → Returns (watch_task site id)
    unfolding watch_task
    watch_task-Returns id w =
        ended
          (watch_bulk_insert_state bulkinsert_timeout (site.watched w.cluster id).start
            (site.watched w.cluster id).polls)
          _ (ends w.cluster id)
      where
        ended : (o : Option (Option Text)) (w' : World site) → o ≢ none → ended_watch o w' ≢ none
        ended none w' h = absurd (h refl)
        ended (some none) w' h = some-Returns
        ended (some (some e)) w' h = some-Returns

    execute_bulk_insert-Returns :
        (place : Place) (files : List Text) (end_time : Int64)
        → Returns (execute_bulk_insert site place files end_time)
    unfolding execute_bulk_insert
    execute_bulk_insert-Returns place files end_time =
        bind-Returns
          (on_cluster site (
            bulk_insert site.client place.db place.coll place.partition files
              (end_ts site end_time)))
          (watch_task site) (call-Returns _) watch_task-Returns

    copy_file-Returns : (temp_dir file : Text) → Returns (copy_file site temp_dir file)
    unfolding copy_file
    copy_file-Returns temp_dir file w = ground arith

    copy_files-Returns :
        (temp_dir : Text) (files : List Text) → Returns (copy_files site temp_dir files)
    unfolding copy_files
    copy_files-Returns temp_dir [] = λ w. some-Returns
    copy_files-Returns temp_dir (file ∷ files) =
        bind-Returns (copy_file site temp_dir file)
          (λ r. copy_files site temp_dir files >>= λ rs. pure (r ∷ rs))
          (copy_file-Returns temp_dir file)
          (λ r.
            bind-Returns (copy_files site temp_dir files) (λ rs. pure (r ∷ rs))
              (copy_files-Returns temp_dir files) (λ rs w. some-Returns))

    copy_and_bulk_insert-Returns :
        (place : Place) (temp_dir : Text) (files : List Text)
        → Returns (copy_and_bulk_insert site place temp_dir files)
    unfolding copy_and_bulk_insert
    copy_and_bulk_insert-Returns place temp_dir files =
        bind-Returns
          (if not (is_same_bucket site) then copy_files site temp_dir files else pure files)
          (λ real. get_task site >>= λ (task : RestoreCollectionTask).
            execute_bulk_insert site place real (timestamp_of task))
          (if-Returns (not (is_same_bucket site)) (copy_files-Returns temp_dir files)
            (λ w. some-Returns))
          (λ real w. execute_bulk_insert-Returns place real (timestamp_of w.task) w)

    ask-Returns :
        (place : Place) (temp_dir : Text) (ask : site.cm.Store → Result Text (List Text))
        → Returns (ask_store site ask >>= copy_and_bulk_insert site place temp_dir)
    ask-Returns place temp_dir ask =
        bind-Returns (ask_store site ask) (copy_and_bulk_insert site place temp_dir)
          (λ w. some-Returns) (copy_and_bulk_insert-Returns place temp_dir)

    insert_groups-Returns :
        (place : Place) (temp_dir : Text) (p : PartitionBackupInfo) (groups : List Int64)
        → Returns (insert_groups site place temp_dir p groups)
    unfolding insert_groups insert_group
    insert_groups-Returns place temp_dir p [] = λ w. some-Returns
    insert_groups-Returns place temp_dir p (g ∷ groups) =
        bind-Returns (insert_group site place temp_dir p g)
          (λ _. insert_groups site place temp_dir p groups)
          (ask-Returns place temp_dir (λ s.
            get_backup_partition_paths_with_group_id site.cm s site.backup_bucket_name
              site.backup_path p g))
          (λ _. insert_groups-Returns place temp_dir p groups)

    insert_partition-Returns :
        (place : Place) (temp_dir : Text) (p : PartitionBackupInfo)
        → Returns (insert_partition site place temp_dir p)
    unfolding insert_partition insert_whole
    insert_partition-Returns place temp_dir p =
        if-Returns (has_no_groups site (collect_group_ids_from_segments p.segment_backups))
          (ask-Returns place temp_dir
            (λ s. get_backup_partition_paths site.cm s site.backup_bucket_name site.backup_path p))
          (insert_groups-Returns place temp_dir p
            (collect_group_ids_from_segments p.segment_backups))

    ensure_partition-Returns : (place : Place) → Returns (ensure_partition site place)
    unfolding ensure_partition
    ensure_partition-Returns place =
        bind-Returns
          (on_cluster site (has_partition site.client place.db place.coll place.partition))
          (λ exist. if not exist then creation else pure tt) (call-Returns _)
          (λ exist. if-Returns (not exist) (call-Returns _) (λ w. some-Returns))
      where
        creation : R site Unit
        creation = on_cluster site (
            retried site.client (attempts 10 ∷ sleep second ∷ [])
              (create_partition site.client place.db place.coll place.partition))

    pub restore_partition-Returns :
        (db coll temp_dir : Text) (p : PartitionBackupInfo)
        → Returns (restore_partition site db coll temp_dir p)
    unfolding restore_partition
    restore_partition-Returns db coll temp_dir p =
        bind-Returns (ensure_partition site (place))
          (λ _. get_task site >>= λ (task : RestoreCollectionTask). rest task.meta_only)
          (ensure_partition-Returns place)
          (λ _ w.
            if-Returns w.task.meta_only (λ _. some-Returns)
              (bind-Returns (insert_partition site place temp_dir p)
                (λ _. set_task site (add_restored p.size))
                (insert_partition-Returns place temp_dir p) (λ _ _. some-Returns))
              w)
      where
        place : Place
        place = record { db = db; coll = coll; partition = p.partition_name }

        rest : Bool → R site Unit
        rest meta_only =
            if meta_only
            then set_task site (λ t. record t { progress = 100 })
            else (insert_partition site place temp_dir p >> set_task site (add_restored p.size))
