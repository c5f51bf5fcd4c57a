-- ===== src/Restore/Returns/Backup.antt =====
-- From the partitions to the whole restore.
use milvus_backup.Base.{
  Bool, true, false, ◌≡◌, Option, some, not, List, [], ◌∷◌, none, ◌≢◌, Result, ok, err, arith,
  Option-cases, inl, inr, none-ne_some, sym,
}
use milvus_backup.Base.Text.{Text}
use milvus_backup.Base.Int64.{Int64}
use milvus_backup.Proto.{
  PartitionBackupInfo, RestoreCollectionTask, RestoreBackupTask, FieldSchema, IndexInfo, executing,
}
use milvus_backup.Milvus.Client.{Field}
use milvus_backup.Milvus.Wrapper.{create_index, drop_index, describe_index}
use milvus_backup.Restore.Run.{Site, World, R, ◌>>◌, on_cluster}
use milvus_backup.Restore.Insert.{restore_partition}
use milvus_backup.Restore.Index.{
  drop_indexes, drop_described, drop_all_indexes, create_indexes, restored_index, attempted,
  is_no_index,
}
use milvus_backup.Restore.Collection.{
  run_partitions, restore_data, drop_existing, create_new, drop_old_indexes, restore_indexes,
  drop_msg, create_msg, or_fail_task, collection_of, execute_restore_collection_task, temp_dir_of,
}
use milvus_backup.Restore.Execute.{
  Workers, no_worker, one_worker, Restored, add_restored_collection, and_others, with_task,
  run_collections, execute_restore_backup_task,
}
use milvus_backup.Restore.Returns.{
  Returns, WatchesEnd, some-Returns, if-Returns, bind-Returns, call-Returns,
  restore_partition-Returns,
}

module _ (site : Site) (ends : WatchesEnd site) (fresh : site.pool_cancelled ≡ false) where
  run_partitions-Returns :
      (temp_dir : Text) (ps : List PartitionBackupInfo) (task : RestoreCollectionTask)
      → Returns (run_partitions site temp_dir ps task)
  unfolding run_partitions
  run_partitions-Returns temp_dir [] task w = some-Returns
  run_partitions-Returns temp_dir (p ∷ ps) task w =
      elim (Option-cases
        (restore_partition site task.target_db_name task.target_collection_name temp_dir p w)) [
          | inl gone ↦ absurd (
              restore_partition-Returns site ends task.target_db_name task.target_collection_name
                temp_dir p w gone)
          | inr (r, e) ↦ ground (arith, run_partitions-Returns temp_dir ps task r.1)
        ]

  restore_data-Returns :
      (temp_dir : Text) (task : RestoreCollectionTask) → Returns (restore_data site temp_dir task)
  unfolding restore_data
  restore_data-Returns temp_dir task w =
      ground (arith, run_partitions-Returns temp_dir (collection_of task).partition_backups task w)

  module _ (db coll : Text) where
    drop_indexes-Returns : (indexes : List IndexInfo) → Returns (drop_indexes site db coll indexes)
    unfolding drop_indexes
    drop_indexes-Returns [] = λ w. some-Returns
    drop_indexes-Returns (index ∷ indexes) =
        bind-Returns (on_cluster site (drop_index site.client db coll index.index_name))
          (λ _. drop_indexes site db coll indexes) (call-Returns site ends _)
          (λ _. drop_indexes-Returns indexes)

    drop_described-Returns :
        (described : Result Text (List IndexInfo)) → Returns (drop_described site db coll described)
    unfolding drop_described
    drop_described-Returns (err e) =
        if-Returns (is_no_index e) (λ w. some-Returns) (λ w. some-Returns)
    drop_described-Returns (ok indexes) = drop_indexes-Returns indexes

    drop_all_indexes-Returns :
        (fields : List FieldSchema) → Returns (drop_all_indexes site db coll fields)
    unfolding drop_all_indexes
    drop_all_indexes-Returns [] = λ w. some-Returns
    drop_all_indexes-Returns (field ∷ fields) =
        bind-Returns (attempted site db coll (describe_index site.client db coll field.name))
          (λ described.
            drop_described site db coll described >> drop_all_indexes site db coll fields)
          (λ w. some-Returns)
          (λ described.
            bind-Returns (drop_described site db coll described)
              (λ _. drop_all_indexes site db coll fields) (drop_described-Returns described)
              (λ _. drop_all_indexes-Returns fields))

    create_indexes-Returns :
        (fields : List Field) (auto : Bool) (indexes : List IndexInfo)
        → Returns (create_indexes site db coll fields auto indexes)
    unfolding create_indexes
    create_indexes-Returns fields auto [] = λ w. some-Returns
    create_indexes-Returns fields auto (index ∷ indexes) =
        bind-Returns
          (on_cluster site (
            create_index site.client db coll index.field_name
              (restored_index site.client fields auto index) true))
          (λ _. create_indexes site db coll fields auto indexes) (call-Returns site ends _)
          (λ _. create_indexes-Returns fields auto indexes)

  or_fail_task-Returns :
      (msg : Text) (m : R site Unit) → Returns m → Returns (or_fail_task site msg m)
  unfolding or_fail_task
  or_fail_task-Returns msg m h w = ground (arith, h w)

  drop_existing-Returns : (task : RestoreCollectionTask) → Returns (drop_existing site task)
  unfolding drop_existing
  drop_existing-Returns task =
      if-Returns task.drop_exist_collection
        (or_fail_task-Returns (drop_msg task) _ (call-Returns site ends _)) (λ w. some-Returns)

  create_new-Returns : (task : RestoreCollectionTask) → Returns (create_new site task)
  unfolding create_new
  create_new-Returns task =
      if-Returns (not task.skip_create_collection)
        (or_fail_task-Returns (create_msg task) _ (call-Returns site ends _)) (λ w. some-Returns)

  drop_old_indexes-Returns : (task : RestoreCollectionTask) → Returns (drop_old_indexes site task)
  unfolding drop_old_indexes
  drop_old_indexes-Returns task =
      if-Returns task.drop_exist_index
        (drop_all_indexes-Returns task.target_db_name task.target_collection_name
          (collection_of task).schema.fields)
        (λ w. some-Returns)

  restore_indexes-Returns : (task : RestoreCollectionTask) → Returns (restore_indexes site task)
  unfolding restore_indexes
  restore_indexes-Returns task =
      if-Returns task.restore_index
        (create_indexes-Returns task.target_db_name task.target_collection_name _
          task.use_auto_index (collection_of task).index_infos)
        (λ w. some-Returns)

  execute_restore_collection_task-Returns :
      (id : Text) → Returns (execute_restore_collection_task site id)
  unfolding execute_restore_collection_task
  execute_restore_collection_task-Returns id w = body (record w.task { state_code = executing }) _
    where
      body :
          (task : RestoreCollectionTask)
          → Returns (
              drop_existing site task
              >> (create_new site task
                  >> (drop_old_indexes site task
                      >> (restore_indexes site task
                          >> restore_data site (temp_dir_of id task) task))))
      body task = bind-Returns (drop_existing site task) _ (drop_existing-Returns task) (λ _.
          bind-Returns (create_new site task) _ (create_new-Returns task) (λ _.
            bind-Returns (drop_old_indexes site task) _ (drop_old_indexes-Returns task) (λ _.
              bind-Returns (restore_indexes site task) _ (restore_indexes-Returns task)
                (λ _. restore_data-Returns (temp_dir_of id task) task))))

  abbrev started : RestoreCollectionTask → site.client.State → site.cm.Store → World site
  started t c s = record { cluster = c; store = s; task = t; pool_failed = false }

  some_Restored : {done : Restored site} → ◌≢◌ {A = Option (Restored site)} (some done) none
  some_Restored h = none-ne_some (sym h)

  run_collections-Returns :
      (id : Text) (ts : List RestoreCollectionTask) (task : RestoreBackupTask)
      (c : site.client.State) (s : site.cm.Store)
      → run_collections site id ts task c s ≢ none
  unfolding run_collections and_others with_task
  run_collections-Returns id [] task c s = λ h. none-ne_some (sym h)
  run_collections-Returns id (t ∷ ts) task c s =
      elim (Option-cases (execute_restore_collection_task site id (started t c s))) [
        | inl gone ↦ absurd (execute_restore_collection_task-Returns id (started t c s) gone)
        | inr ((r, w), e) ↦ ground (
          arith,
          run_collections-Returns id ts (add_restored_collection w.task.restored_size task)
              w.cluster w.store,
        )
      ]

  -- If every watch of a bulk insert ends, and no job has failed before on the pool of the
  -- partitions, then the execution of a restore by one worker, or by none, returns, whatever the
  -- cluster and the storage answer to its calls.
  pub execute_restore_backup_task-returns :
      (workers : Workers) (end_time : Int64) (task : RestoreBackupTask) (c : site.client.State)
      (s : site.cm.Store)
      → execute_restore_backup_task site workers end_time task c s ≢ none
  unfolding execute_restore_backup_task
  execute_restore_backup_task-returns no_worker end_time task c s = some_Restored
  execute_restore_backup_task-returns one_worker end_time task c s = ground (
    arith,
    run_collections-Returns task.id task.collection_restore_tasks
        (record task { state_code = executing }) c s,
  )
