-- ===== src/Restore/Execute.antt =====
-- executeRestoreBackupTask with one worker or none (`backup.parallelism.restoreCollection`, which is 1
-- where the configuration is silent). One worker runs the jobs of the collections one after the
-- other; an error cancels the pool's context before the next job may start, so that the jobs behind
-- are refused. The tables hold pointers to the task, and have its last state.
pub mod Ended
use milvus_backup.Base.{
  ℕ, Bool, true, false, List, [], ◌∷◌, ◌++◌, map, Option, none, some, ◌≡◌, Result, ok, err,
  if◌then◌else◌, nat_eq,
}
use milvus_backup.Base.Text.{Text, codes, text_key}
use milvus_backup.Base.Int64.{Int64, add64, mul64, div64, to_int32}
use milvus_backup.Proto.{RestoreBackupTask, RestoreCollectionTask, executing, succeeded}
use milvus_backup.WorkerPool.Pool.{worker_num_msg}
use milvus_backup.Restore.Run.{Site, World}
use milvus_backup.Restore.Collection.{execute_restore_collection_task}

-- The parallelism of restores, of the collections and of the partitions.
pub data Workers : Type 0 where
  no_worker one_worker : Workers

-- The end of a collection's job.
unfoldable pub add_restored_collection : Int64 → RestoreBackupTask → RestoreBackupTask
add_restored_collection size task =
    let restored = add64 task.restored_size size in
    record task {
      restored_size = restored;
      progress =
          if nat_eq task.to_restore_size 0
          then 100
          else to_int32 (div64 (mul64 100 restored) task.to_restore_size);
    }

-- The error that the pool makes of a job's error.
abbrev pub job_error : Text → Text
job_error e = codes "workerpool: execute job " ++ e

-- What the jobs have left: the first error, the tasks of the collections, the task of the backup, the
-- cluster and the storage, and whether a job of a partition has failed.
pub record Restored (site : Site) : Type 0 where
  pub failure : Option Text
  pub tasks : List RestoreCollectionTask
  pub task : RestoreBackupTask
  pub cluster : site.client.State
  pub store : site.cm.Store
  pub pool_failed : Bool

module _ (site : Site) where
  -- A task in front of those that the jobs behind have left.
  unfoldable pub with_task : RestoreCollectionTask → Option (Restored site) → Option (Restored site)
  with_task ended none = none
  with_task ended (some rest) = some (record rest { tasks = ended ∷ rest.tasks })

  -- Behind the job of a collection come the others, unless it fails.
  unfoldable pub and_others :
      List RestoreCollectionTask
      → (RestoreBackupTask → site.client.State → site.cm.Store → Option (Restored site))
      → RestoreBackupTask
      → Option (Result Text Unit × World site)
      → Option (Restored site)
  unfolding add_restored_collection with_task
  and_others ts others task none = none
  and_others ts others task (some (err e, w)) = some (record {
    failure = some (job_error e);
    tasks = w.task ∷ ts;
    task = task;
    cluster = w.cluster;
    store = w.store;
    pool_failed = w.pool_failed;
  })
  and_others ts others task (some (ok _, w)) =
      with_task (record w.task { state_code = succeeded })
        (others (add_restored_collection w.task.restored_size task) w.cluster w.store)

  unfoldable pub run_collections :
      Text
      → List RestoreCollectionTask
      → RestoreBackupTask
      → site.client.State
      → site.cm.Store
      → Option (Restored site)
  unfolding execute_restore_collection_task and_others
  run_collections id [] task c s = some (record {
    failure = none;
    tasks = [];
    task = task;
    cluster = c;
    store = s;
    pool_failed = false;
  })
  run_collections id (t ∷ ts) task c s = and_others ts (run_collections id ts) task (
      execute_restore_collection_task site id
        (record { cluster = c; store = s; task = t; pool_failed = false }))

  -- The state of a failed restore stays "executing".
  unfoldable pub ended_restore : Int64 → Restored site → Restored site
  ended_restore end_time done =
      let task : RestoreBackupTask = record done.task { collection_restore_tasks = done.tasks } in
      elim done.failure [
        | some e ↦ record done { task = task }
        | none ↦ record done { task = record task { state_code = succeeded; end_time = end_time } }
      ]

  -- A pool without workers is refused before the task is entered into the table.
  unfoldable pub execute_restore_backup_task :
      Workers
      → Int64
      → RestoreBackupTask
      → site.client.State
      → site.cm.Store
      → Option (Restored site)
  unfolding run_collections ended_restore
  execute_restore_backup_task no_worker end_time task c s = some (record {
    failure = some worker_num_msg;
    tasks = task.collection_restore_tasks;
    task = task;
    cluster = c;
    store = s;
    pool_failed = false;
  })
  execute_restore_backup_task one_worker end_time task c s =
      elim (run_collections task.id task.collection_restore_tasks
        (record task { state_code = executing }) c s) [
          | none ↦ none
          | some done ↦ some (ended_restore end_time done)
        ]
