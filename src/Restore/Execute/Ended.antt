-- ===== src/Restore/Execute/Ended.antt =====
-- How the execution of a restore ends.
use milvus_backup.Base.{
  ap, length, suc, ◌++◌, false, List, [], ◌∷◌, map, Option, none, some, ◌≡◌, refl, subst, Result,
  ok, err, All, some-inj, none-ne_some,
}
use milvus_backup.Base.Text.{Text}
use milvus_backup.Base.Int64.{Int64, sum64_from, add64}
use milvus_backup.Proto.{RestoreBackupTask, RestoreCollectionTask, executing, succeeded}
use milvus_backup.Restore.Run.{Site, World}
use milvus_backup.Restore.Collection.{execute_restore_collection_task}
use milvus_backup.Restore.Execute.{
  Restored, one_worker, add_restored_collection, run_collections, ended_restore,
  execute_restore_backup_task, with_task, and_others,
}

abbrev pub sizes : List RestoreCollectionTask → List Int64
sizes ts = map (λ t. t.restored_size) ts

abbrev pub Succeeded : RestoreCollectionTask → Type 0
Succeeded t = t.state_code ≡ succeeded

-- Tasks that have succeeded, in front of one that has failed and others that were not started.
pub record Stopped (given ended : List RestoreCollectionTask) (size total : Int64) : Type 0 where
  pub done : List RestoreCollectionTask
  pub failing : RestoreCollectionTask
  pub refused : List RestoreCollectionTask
  pub are : ended ≡ done ++ failing ∷ refused
  pub succeed : All Succeeded done
  pub counted : total ≡ sum64_from size (sizes done)
  pub earlier : List RestoreCollectionTask
  pub failing_before : RestoreCollectionTask
  pub were : given ≡ earlier ++ failing_before ∷ refused
  pub as_many : length earlier ≡ length done

module _ (site : Site) where
  -- What the jobs have left, by whether there was an error.
  abbrev Counted :
      Option Text → List RestoreCollectionTask → List RestoreCollectionTask → Int64 → Int64 → Type 0
  Counted (some e) given ended size total = Stopped given ended size total
  Counted none given ended size total =
      All Succeeded ended × (length ended ≡ length given) × (total ≡ sum64_from size (sizes ended))

  record Ran (given : List RestoreCollectionTask) (before : RestoreBackupTask)
      (done : Restored site) : Type 0 where
    state_code : done.task.state_code ≡ before.state_code
    counted : Counted done.failure given done.tasks before.restored_size done.task.restored_size

  -- A collection that has succeeded in front of others.
  joined :
      (t t' : RestoreCollectionTask) (given ended : List RestoreCollectionTask) (size total : Int64)
      (failure : Option Text)
      → t'.state_code ≡ succeeded
      → Counted failure given ended (add64 size t'.restored_size) total
      → Counted failure (t ∷ given) (t' ∷ ended) size total
  unfolding sum64_from
  joined t t' given ended size total none ok' (all, same, sum) = ((ok', all), ap suc same, sum)
  joined t t' given ended size total (some e) ok' h = record {
    done = t' ∷ h.done;
    failing = h.failing;
    refused = h.refused;
    are = ap (λ l. t' ∷ l) h.are;
    succeed = (ok', h.succeed);
    counted = h.counted;
    earlier = t ∷ h.earlier;
    failing_before = h.failing_before;
    were = ap (λ l. t ∷ l) h.were;
    as_many = ap suc h.as_many;
  }

  with_task-Ran :
      (t : RestoreCollectionTask) (w : World site) (ts : List RestoreCollectionTask)
      (task : RestoreBackupTask) (others : Option (Restored site)) (done : Restored site)
      → with_task site (record w.task { state_code = succeeded }) others ≡ some done
      → ((rest : Restored site)
          → others ≡ some rest
          → Ran ts (add_restored_collection w.task.restored_size task) rest)
      → Ran (t ∷ ts) task done
  unfolding with_task add_restored_collection
  with_task-Ran t w ts task none done h ih = absurd (none-ne_some h)
  with_task-Ran t w ts task (some rest) done h ih =
      let ran = ih rest refl in
      subst (Ran (t ∷ ts) task) (some-inj h) (record {
        state_code = ran.state_code;
        counted =
            joined t (record w.task { state_code = succeeded }) ts rest.tasks task.restored_size
              rest.task.restored_size rest.failure refl ran.counted;
      })

  and_others-Ran :
      (t : RestoreCollectionTask) (ts : List RestoreCollectionTask)
      (others : RestoreBackupTask → site.client.State → site.cm.Store → Option (Restored site))
      (task : RestoreBackupTask) (o : Option (Result Text Unit × World site)) (done : Restored site)
      → and_others site ts others task o ≡ some done
      → ((counted : RestoreBackupTask) (c : site.client.State) (s : site.cm.Store)
            (rest : Restored site)
          → others counted c s ≡ some rest
          → Ran ts counted rest)
      → Ran (t ∷ ts) task done
  unfolding and_others sum64_from
  and_others-Ran t ts others task none done h ih = absurd (none-ne_some h)
  and_others-Ran t ts others task (some (err e, w)) done h ih =
      subst (Ran (t ∷ ts) task) (some-inj h) (record {
        state_code = refl;
        counted = record {
          done = [];
          failing = w.task;
          refused = ts;
          are = refl;
          succeed = tt;
          counted = refl;
          earlier = [];
          failing_before = t;
          were = refl;
          as_many = refl;
        };
      })
  and_others-Ran t ts others task (some (ok _, w)) done h ih =
      with_task-Ran t w ts task
        (others (add_restored_collection w.task.restored_size task) w.cluster w.store) done h
        (ih (add_restored_collection w.task.restored_size task) w.cluster w.store)

  run_collections-Ran :
      (id : Text) (ts : List RestoreCollectionTask) (task : RestoreBackupTask)
      (c : site.client.State) (s : site.cm.Store) (done : Restored site)
      → run_collections site id ts task c s ≡ some done
      → Ran ts task done
  unfolding run_collections sum64_from
  run_collections-Ran id [] task c s done h =
      subst (Ran [] task) (some-inj h) (record { state_code = refl; counted = (tt, refl, refl) })
  run_collections-Ran id (t ∷ ts) task c s done h =
      and_others-Ran t ts (run_collections site id ts) task
        (execute_restore_collection_task site id
          (record { cluster = c; store = s; task = t; pool_failed = false }))
        done h (run_collections-Ran id ts)

  -- How a restore has ended, by whether there was an error.
  abbrev pub HasEnded : RestoreBackupTask → Int64 → Option Text → RestoreBackupTask → Type 0
  HasEnded before end_time (some e) task =
      (task.state_code ≡ executing)
      × Stopped before.collection_restore_tasks task.collection_restore_tasks before.restored_size
          task.restored_size
  HasEnded before end_time none task =
      (task.state_code ≡ succeeded)
      × (task.end_time ≡ end_time)
      × All Succeeded task.collection_restore_tasks
      × (length task.collection_restore_tasks ≡ length before.collection_restore_tasks)
      × (task.restored_size ≡ sum64_from before.restored_size (sizes task.collection_restore_tasks))

  ended_restore-HasEnded :
      (end_time : Int64) (given : RestoreBackupTask) (done : Restored site)
      → Ran given.collection_restore_tasks (record given { state_code = executing }) done
      → HasEnded given end_time
          (ended_restore site end_time done).failure
          (ended_restore site end_time done).task
  unfolding ended_restore
  ended_restore-HasEnded end_time given done ran = split done.failure ran.counted
    where
      split :
          (failure : Option Text)
          → Counted failure given.collection_restore_tasks done.tasks given.restored_size
              done.task.restored_size
          → HasEnded given end_time
              (ended_restore site end_time (record done { failure = failure })).failure
              (ended_restore site end_time (record done { failure = failure })).task
      split none (all, same, size) = (refl, refl, all, same, size)
      split (some e) k = (ran.state_code, k)

  -- The execution of a restore by one worker, if it returns: without an error, the task and those
  -- of all its collections have succeeded, as many as were given, it has its end time, and its
  -- restored size has grown by theirs, on int64; with an error, its state is still "executing",
  -- the tasks in front of the failing one have succeeded and their sizes are counted, and those
  -- behind it are as they were given.
  pub execute_restore_backup_task-HasEnded :
      (end_time : Int64) (task : RestoreBackupTask) (c : site.client.State) (s : site.cm.Store)
      (done : Restored site)
      → execute_restore_backup_task site one_worker end_time task c s ≡ some done
      → HasEnded task end_time done.failure done.task
  unfolding execute_restore_backup_task
  execute_restore_backup_task-HasEnded end_time task c s done h =
      split (run_collections site task.id task.collection_restore_tasks started c s) refl h
    where
      started : RestoreBackupTask
      started = record task { state_code = executing }

      split :
          (o : Option (Restored site))
          → run_collections site task.id task.collection_restore_tasks started c s ≡ o
          → ◌≡◌ {A = Option (Restored site)}
              (elim o [ none ↦ none | some d ↦ some (ended_restore site end_time d) ])
              (some done)
          → HasEnded task end_time done.failure done.task
      split none e k = absurd (none-ne_some k)
      split (some d) e k =
          subst (λ (x : Restored site). HasEnded task end_time x.failure x.task) (some-inj k)
            (ended_restore-HasEnded end_time task d
              (run_collections-Ran task.id task.collection_restore_tasks started c s d e))
