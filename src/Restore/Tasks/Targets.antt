-- ===== src/Restore/Tasks/Targets.antt =====
-- What making the tasks of a restore does: no target exists before, and the tasks are those of the
-- collections.
use milvus_backup.Base.{
  ℕ, suc, false, List, [], ◌∷◌, ◌≡◌, refl, ◌∙◌, sym, ap, ok, arith, All, All-weaken,
}
use milvus_backup.Base.Text.{Text}
use milvus_backup.Proto.{CollectionBackupInfo, RestoreBackupRequest, RestoreBackupTask}
use milvus_backup.Create.Collections.{CollectionStruct}
use milvus_backup.Milvus.Client.{Client, bind-ok, bind-keeps, ◌>>◌}
use milvus_backup.Milvus.Laws.{Shows, has_collection-answer, has_collection-keeps}
use milvus_backup.Restore.Renames.{target_of}
use milvus_backup.Restore.Tasks.{
  Stamp, ensure_database, refuse_existing, make_tasks, new_collection_task, add_collection_task,
}

module _ (client : Client) (shows : Shows client) (stamps : ℕ → Stamp)
    (request : RestoreBackupRequest) where
  ensure_database-has :
      (db : Text) (s : client.State) (d n : Text)
      → shows.has (ensure_database client stamps request db s).1 d n ≡ shows.has s d n
  unfolding ensure_database
  ensure_database-has db s d n = ground (
    arith,
    shows.list_databases-has s d n,
    shows.create_database-has db (client.list_databases s).1 d n,
  )

  refuse_existing-has :
      (c : CollectionBackupInfo) (t : CollectionStruct) (s : client.State) (d n : Text)
      → shows.has (refuse_existing client stamps request c t s).1 d n ≡ shows.has s d n
  unfolding refuse_existing
  refuse_existing-has c t s d n =
      ground (arith, has_collection-keeps client shows t.db t.collection_name s d n)

  refuse_existing-absent :
      (c : CollectionBackupInfo) (t : CollectionStruct) (s : client.State)
      → request.skip_create_collection ≡ false
      → (refuse_existing client stamps request c t s).0 ≡ ok tt
      → shows.has s t.db t.collection_name ≡ false
  unfolding refuse_existing
  refuse_existing-absent c t s checks h =
      ground (arith, has_collection-answer client shows t.db t.collection_name s false)

  -- One round that ends without an error: neither step has failed, and the rest goes on behind them.
  make_tasks-ok :
      (round : ℕ) (c : CollectionBackupInfo) (collections : List CollectionBackupInfo)
      (task task' : RestoreBackupTask) (s : client.State)
      → (make_tasks client stamps request round (c ∷ collections) task s).0 ≡ ok task'
      → (request.skip_create_collection ≡ false
          → shows.has s (target_of request c).db (target_of request c).collection_name ≡ false)
        × (rest : client.State) × ((make_tasks client stamps request
              (suc round)
              collections
              (add_collection_task (new_collection_task (stamps round) request c) task)
              rest).0
            ≡ ok task')
        × ((d n : Text) → shows.has rest d n ≡ shows.has s d n)
  unfolding make_tasks
  make_tasks-ok round c collections task task' s h =
      let t = target_of request c in
      let first = ensure_database client stamps request t.db in
      let second = refuse_existing client stamps request c t in
      let loop =
        make_tasks client stamps request (suc round) collections
          (add_collection_task (new_collection_task (stamps round) request c) task) in
      let (_, _, e) = bind-ok first (λ _. second >> loop) s task' h in
      let (_, r, e') = bind-ok second (λ _. loop) (first s).1 task' (rw e at h) in
      (
        λ checks.
            sym (ensure_database-has t.db s t.db t.collection_name)
            ∙ refuse_existing-absent c t (first s).1 checks r,
        (second (first s).1).1,
        ap (λ x. x.0) (sym e') ∙ rw e at h,
        λ d n. refuse_existing-has c t (first s).1 d n ∙ ensure_database-has t.db s d n,
      )

  -- Making the tasks without an error, and without being told to skip this check: no target existed.
  pub make_tasks-absent :
      (round : ℕ) (collections : List CollectionBackupInfo) (task task' : RestoreBackupTask)
      (s : client.State)
      → request.skip_create_collection ≡ false
      → (make_tasks client stamps request round collections task s).0 ≡ ok task'
      → All
          (λ c. shows.has s (target_of request c).db (target_of request c).collection_name ≡ false)
          collections
  make_tasks-absent round [] task task' s checks h = tt
  make_tasks-absent round (c ∷ collections) task task' s checks h =
      let (absent, rest, again, same) = make_tasks-ok round c collections task task' s h in
      (
        absent checks,
        All-weaken collections
            (λ c' hc.
              sym (same (target_of request c').db (target_of request c').collection_name) ∙ hc)
            (make_tasks-absent (suc round) collections _ task' rest checks again),
      )

  -- Whether or not it fails, making the tasks leaves the collections that there are as they are.
  pub make_tasks-has :
      (round : ℕ) (collections : List CollectionBackupInfo) (task : RestoreBackupTask)
      (s : client.State) (d n : Text)
      → shows.has (make_tasks client stamps request round collections task s).1 d n
        ≡ shows.has s d n
  unfolding make_tasks
  make_tasks-has round [] task s d n = refl
  make_tasks-has round (c ∷ collections) task s d n =
      let t = target_of request c in
      let first = ensure_database client stamps request t.db in
      let second = refuse_existing client stamps request c t in
      let loop =
        make_tasks client stamps request (suc round) collections
          (add_collection_task (new_collection_task (stamps round) request c) task) in
      bind-keeps first (λ _. second >> loop) (λ x. shows.has x d n) (shows.has s d n) s
        (ensure_database-has t.db s d n)
        (λ _.
          bind-keeps second (λ _. loop) (λ x. shows.has x d n) (shows.has s d n) (first s).1
            (refuse_existing-has c t (first s).1 d n ∙ ensure_database-has t.db s d n)
            (λ _.
              make_tasks-has (suc round) collections _ (second (first s).1).1 d n
              ∙ refuse_existing-has c t (first s).1 d n
              ∙ ensure_database-has t.db s d n))
