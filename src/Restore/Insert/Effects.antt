-- ===== src/Restore/Insert/Effects.antt =====
-- What the steps of a partition's restore leave behind when they end without an error: the bulk
-- inserts that the cluster has taken on, and what stays.
use milvus_backup.Base.{
  false, List, [], ◌∷◌, ◌++◌, map, Option, none, some, ◌≡◌, refl, ◌∙◌, ap, sym, ok, if◌then◌else◌,
  Bool-cases, inl, inr, append_assoc, append-nil, some-inj, none-ne_some, subst,
}
use milvus_backup.Base.Text.{Text}
use milvus_backup.Base.Int64.{Int64}
use milvus_backup.Context.Get.{is_empty}
use milvus_backup.Milvus.Inserts.{Insertion, Logs, bulk_insert-log}
use milvus_backup.Milvus.Wrapper.{bulk_insert}
use milvus_backup.Milvus.Client.{Call}
use milvus_backup.Restore.Run.{
  Site, World, pure, ◌>>=◌, bind-ok, returned-inj, raised-ne_returned, on_cluster, on_store,
}
use milvus_backup.Restore.Watch.{watch_bulk_insert_state}
use milvus_backup.Restore.Insert.{
  Place, copy_file, watch_task, execute_bulk_insert, copy_files, is_same_bucket, end_ts,
  ended_watch, bulkinsert_timeout,
}

-- Watching changes nothing that the log shows; a copy into the cluster's bucket does not change what
-- there is in a different bucket of backups.
pub record IsQuiet (site : Site) (logs : Logs site.client) : Type 0 where
  pub watch_ends-log :
      (c : site.client.State) (id : Int64) → logs.log (site.watch_ends c id) ≡ logs.log c
  pub copy-exist :
      (s : site.cm.Store) (p q r : Text)
      → is_same_bucket site ≡ false
      → site.cm.exist
          (site.cm.copy s site.backup_bucket_name site.milvus_bucket_name p q).1
          site.backup_bucket_name
          r
        ≡ site.cm.exist s site.backup_bucket_name r

module _ (site : Site) where
  -- The file as the cluster will see it.
  abbrev pub real_file : Text → Text → Text
  real_file temp_dir file =
      if is_empty file then file else if is_same_bucket site then file else temp_dir ++ file

  abbrev pub insertion : Place → List Text → Int64 → Insertion
  insertion place files end_time = record {
    db = place.db;
    coll = place.coll;
    partition = place.partition;
    files = files;
    end_ts = end_ts site end_time;
  }

module _ (site : Site) (logs : Logs site.client) (quiet : IsQuiet site logs) where
  -- From the first world to the second: new bulk inserts, the same task, the same answers of the
  -- bucket of the backups.
  pub record After (w w' : World site) (inserted : List Insertion) : Type 0 where
    pub log : logs.log w'.cluster ≡ logs.log w.cluster ++ inserted
    pub task : w'.task ≡ w.task
    pub exist :
        (r : Text)
        → site.cm.exist w'.store site.backup_bucket_name r
          ≡ site.cm.exist w.store site.backup_bucket_name r

  pub After-refl : (w : World site) → After w w []
  After-refl w = record {
    log = sym (append-nil (logs.log w.cluster));
    task = refl;
    exist = λ r. refl;
  }

  pub After-trans :
      {w w' w'' : World site} {xs ys : List Insertion}
      → After w w' xs
      → After w' w'' ys
      → After w w'' (xs ++ ys)
  After-trans {w} {w'} {w''} {xs} {ys} h k = record {
    log = k.log ∙ ap (λ l. l ++ ys) h.log ∙ append_assoc (logs.log w.cluster) xs ys;
    task = k.task ∙ h.task;
    exist = λ r. k.exist r ∙ h.exist r;
  }

  -- A call that the log does not show.
  pub quiet_call :
      {A : Type 0} (call : Call site.client.State A) (w w' : World site) (a : A)
      → ((s : site.client.State) → logs.log (call s).1 ≡ logs.log s)
      → on_cluster site call w ≡ some (ok a, w')
      → After w w' []
  quiet_call call w w' a keeps h =
      subst (λ x. After w x []) (ap (λ r. r.1) (some-inj h))
        (record {
          log = keeps w.cluster ∙ sym (append-nil (logs.log w.cluster));
          task = refl;
          exist = λ r. refl;
        })

  ended_watch-ok :
      (o : Option (Option Text)) (w w' : World site) → ended_watch o w ≡ some (ok tt, w') → w ≡ w'
  ended_watch-ok none w w' h = absurd (none-ne_some h)
  ended_watch-ok (some none) w w' h = (returned-inj h).1
  ended_watch-ok (some (some e)) w w' h = absurd (raised-ne_returned h)

  watch_task-After :
      (id : Int64) (w w' : World site) → watch_task site id w ≡ some (ok tt, w') → After w w' []
  unfolding watch_task
  watch_task-After id w w' h =
      let seen = site.watched w.cluster id in
      subst (λ x. After w x [])
        (ended_watch-ok (watch_bulk_insert_state bulkinsert_timeout seen.start seen.polls) _ w' h)
        (record {
          log = quiet.watch_ends-log w.cluster id ∙ sym (append-nil (logs.log w.cluster));
          task = refl;
          exist = λ r. refl;
        })

  asked-After :
      (place : Place) (files : List Text) (end_time : Int64) (w w' : World site) (id : Int64)
      → on_cluster site
          (bulk_insert site.client place.db place.coll place.partition files (end_ts site end_time))
          w
        ≡ some (ok id, w')
      → After w w' (insertion site place files end_time ∷ [])
  asked-After place files end_time w w' id h =
      subst (λ x. After w x (insertion site place files end_time ∷ [])) (ap (λ r. r.1) (some-inj h))
        (record {
          log =
              bulk_insert-log site.client logs place.db place.coll place.partition files
                (end_ts site end_time) w.cluster id (ap (λ r. r.0) (some-inj h));
          task = refl;
          exist = λ r. refl;
        })

  pub execute_bulk_insert-After :
      (place : Place) (files : List Text) (end_time : Int64) (w w' : World site)
      → execute_bulk_insert site place files end_time w ≡ some (ok tt, w')
      → After w w' (insertion site place files end_time ∷ [])
  unfolding execute_bulk_insert
  execute_bulk_insert-After place files end_time w w' h =
      let asking = on_cluster site (
        bulk_insert site.client place.db place.coll place.partition files (end_ts site end_time)) in
      let (id, _, asked, watched) = bind-ok asking (watch_task site) w w' tt h in
      After-trans (asked-After place files end_time w _ id asked) (watch_task-After id _ w' watched)

  copied-After :
      (temp_dir file : Text) (w w' : World site)
      → is_same_bucket site ≡ false
      → on_store site
          (λ s.
            site.cm.copy s site.backup_bucket_name site.milvus_bucket_name file (temp_dir ++ file))
          w
        ≡ some (ok tt, w')
      → After w w' []
  copied-After temp_dir file w w' other h =
      subst (λ x. After w x []) (ap (λ r. r.1) (some-inj h))
        (record {
          log = sym (append-nil (logs.log w.cluster));
          task = refl;
          exist = λ r. quiet.copy-exist w.store file (temp_dir ++ file) r other;
        })

  copy_file-After :
      (temp_dir file real : Text) (w w' : World site)
      → is_same_bucket site ≡ false
      → copy_file site temp_dir file w ≡ some (ok real, w')
      → (real ≡ real_file site temp_dir file) × After w w' []
  unfolding copy_file
  copy_file-After temp_dir file real w w' other h = elim (Bool-cases (is_empty file)) [
    | inl empty ↦
        let e = returned-inj (rw empty at h) in
        (rw empty (sym e.0), subst (λ x. After w x []) e.1 (After-refl w))
    | inr full ↦
        let copying = on_store site (λ s.
          site.cm.copy s site.backup_bucket_name site.milvus_bucket_name file (temp_dir ++ file)) in
        let (_, w1, copies, k) =
          bind-ok copying (λ _. pure (temp_dir ++ file)) w w' real (rw full at h) in
        let e = returned-inj k in
        (
          rw (full, other) (sym e.0),
          subst (λ x. After w x []) e.1 (copied-After temp_dir file w w1 other copies),
        )
  ]

  -- Copying gives the names of the copies, and changes only the storage.
  pub copy_files-After :
      (temp_dir : Text) (files real : List Text) (w w' : World site)
      → is_same_bucket site ≡ false
      → copy_files site temp_dir files w ≡ some (ok real, w')
      → (real ≡ map (real_file site temp_dir) files) × After w w' []
  unfolding copy_files
  copy_files-After temp_dir [] real w w' other h =
      (sym (returned-inj h).0, subst (λ x. After w x []) (returned-inj h).1 (After-refl w))
  copy_files-After temp_dir (file ∷ files) real w w' other h =
      let (r, w1, one, k) =
        bind-ok (copy_file site temp_dir file)
          (λ r. copy_files site temp_dir files >>= λ rs. pure (r ∷ rs)) w w' real h in
      let (rs, w2, others, k') =
        bind-ok (copy_files site temp_dir files) (λ rs. pure (r ∷ rs)) w1 w' real k in
      let (named, first) = copy_file-After temp_dir file r w w1 other one in
      let (all_named, rest) = copy_files-After temp_dir files rs w1 w2 other others in
      let e = returned-inj k' in
      (
        sym e.0 ∙ ap (λ x. x ∷ rs) named ∙ ap (λ xs. real_file site temp_dir file ∷ xs) all_named,
        subst (λ x. After w x []) e.1 (After-trans first rest),
      )
