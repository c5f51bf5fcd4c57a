-- ===== src/Restore/Insert/Once.antt =====
-- The restore of a partition hands each group of segments to the bulk insert once.
use milvus_backup.Base.{
  Bool, true, false, not, List, [], ◌∷◌, ◌++◌, map, Option, some, ◌≡◌, refl, ◌∙◌, ap, sym, Result,
  ok, err, if◌then◌else◌, arith, Bool-cases, inl, inr, append-nil, subst,
}
use milvus_backup.Base.Text.{Text}
use milvus_backup.Base.Int64.{Int64}
use milvus_backup.Proto.{PartitionBackupInfo, RestoreCollectionTask}
use milvus_backup.Milvus.Inserts.{
  Insertion, Logs, has_partition-log, create_partition-log, retried-log,
}
use milvus_backup.Milvus.Wrapper.{has_partition, create_partition, retried, second}
use milvus_backup.Retry.Config.{attempts, sleep}
use milvus_backup.Restore.Groups.{collect_group_ids_from_segments}
use milvus_backup.Restore.Partition.{
  get_backup_partition_paths, get_backup_partition_paths_with_group_id,
}
use milvus_backup.Restore.Run.{
  Site, World, R, ◌>>=◌, ◌>>◌, pure, bind-ok, returned-inj, raised-ne_returned, on_cluster,
  get_task, ask_store, set_task,
}
use milvus_backup.Restore.Insert.{
  Place, execute_bulk_insert, copy_files, copy_and_bulk_insert, is_same_bucket, timestamp_of,
  ensure_partition, insert_group, insert_groups, insert_whole, insert_partition, has_no_groups,
  restore_partition, add_restored,
}
use milvus_backup.Restore.Insert.Expected.{
  answered, whole_files, insertion_of, group_insertion, partition_insertions, new_insertions,
  counted,
}
use milvus_backup.Restore.Insert.Layout.{
  asked_insertions, grown, new_insertions-asked, counted-grown,
}
use milvus_backup.Restore.Insert.Effects.{
  IsQuiet, After, After-refl, After-trans, quiet_call, real_file, insertion,
  execute_bulk_insert-After, copy_files-After,
}

module _ (site : Site) (logs : Logs site.client) (quiet : IsQuiet site logs) where
  real_file-same :
      (temp_dir : Text) (files : List Text)
      → is_same_bucket site ≡ true
      → files ≡ map (real_file site temp_dir) files
  real_file-same temp_dir [] same = refl
  real_file-same temp_dir (file ∷ files) same = ground (arith, real_file-same temp_dir files same)

  real_files-After :
      (temp_dir : Text) (files real : List Text) (w w' : World site)
      → (if not (is_same_bucket site) then copy_files site temp_dir files else pure files) w
        ≡ some (ok real, w')
      → (real ≡ map (real_file site temp_dir) files) × After site logs quiet w w' []
  real_files-After temp_dir files real w w' h = elim (Bool-cases (is_same_bucket site)) [
    | inl same ↦
        let e = returned-inj (rw same at h) in
        (
          sym e.0 ∙ real_file-same temp_dir files same,
          subst (λ x. After site logs quiet w x []) e.1 (After-refl site logs quiet w),
        )
    | inr other ↦ copy_files-After site logs quiet temp_dir files real w w' other (rw other at h)
  ]

  copy_and_bulk_insert-After :
      (place : Place) (temp_dir : Text) (files : List Text) (w w' : World site)
      → copy_and_bulk_insert site place temp_dir files w ≡ some (ok tt, w')
      → After site logs quiet w w'
          (insertion site place (map (real_file site temp_dir) files) (timestamp_of w.task) ∷ [])
  unfolding copy_and_bulk_insert
  copy_and_bulk_insert-After place temp_dir files w w' h =
      let copying =
        if not (is_same_bucket site) then copy_files site temp_dir files else pure files in
      let insert_now = λ (real : List Text). get_task site >>= λ (task : RestoreCollectionTask).
      execute_bulk_insert site place real (timestamp_of task) in
      let (real, w1, copies, k) = bind-ok copying insert_now w w' tt h in
      let (named, first) = real_files-After temp_dir files real w w1 copies in
      let second_part =
        execute_bulk_insert-After site logs quiet place real (timestamp_of w1.task) w1 w' k in
      subst
        (λ (x : List Text × Int64). After site logs quiet w w' (insertion site place x.0 x.1 ∷ []))
        (λ i. (named i, timestamp_of (first.task i)))
        (After-trans site logs quiet first second_part)

  asked-files :
      (files : Result Text (List Text)) (found : List Text) (w w' : World site)
      → ◌≡◌ {A = Option (Result Text (List Text) × World site)}
          (some (files, w))
          (some (ok found, w'))
      → (found ≡ answered files) × (w ≡ w')
  asked-files (ok files) found w w' h = (sym (returned-inj h).0, (returned-inj h).1)
  asked-files (err e) found w w' h = absurd (raised-ne_returned h)

  -- A group or a whole partition: what is asked of the storage is inserted.
  asked-After :
      (place : Place) (temp_dir : Text) (ask : site.cm.Store → Result Text (List Text))
      (w w' : World site)
      → (ask_store site ask >>= copy_and_bulk_insert site place temp_dir) w ≡ some (ok tt, w')
      → After site logs quiet w w'
          (insertion_of site place temp_dir w (answered (ask w.store)) ∷ [])
  asked-After place temp_dir ask w w' h =
      let (found, w1, answers, k) =
        bind-ok (ask_store site ask) (copy_and_bulk_insert site place temp_dir) w w' tt h in
      let (named, same) = asked-files (ask w.store) found w w1 answers in
      subst (λ files. After site logs quiet w w' (insertion_of site place temp_dir w files ∷ []))
        named
        (copy_and_bulk_insert-After place temp_dir found w w' (
          subst (λ x. copy_and_bulk_insert site place temp_dir found x ≡ some (ok tt, w'))
            (sym same) k))

  -- Behind a step the storage answers the same, and the task is the same.
  group_insertion-After :
      (place : Place) (temp_dir : Text) (p : PartitionBackupInfo) (w w' : World site)
      (inserted : List Insertion) (g : Int64)
      → After site logs quiet w w' inserted
      → group_insertion site place temp_dir p w' g ≡ group_insertion site place temp_dir p w g
  unfolding group_insertion get_backup_partition_paths_with_group_id
  group_insertion-After place temp_dir p w w' inserted g h = rw (h.task, h.exist) refl

  insert_groups-After :
      (place : Place) (temp_dir : Text) (p : PartitionBackupInfo) (groups : List Int64)
      (w w' : World site)
      → insert_groups site place temp_dir p groups w ≡ some (ok tt, w')
      → After site logs quiet w w' (map (group_insertion site place temp_dir p w) groups)
  unfolding insert_groups insert_group group_insertion
  insert_groups-After place temp_dir p [] w w' h =
      subst (λ x. After site logs quiet w x []) (returned-inj h).1 (After-refl site logs quiet w)
  insert_groups-After place temp_dir p (g ∷ groups) w w' h =
      let (_, w1, one, k) =
        bind-ok (insert_group site place temp_dir p g)
          (λ _. insert_groups site place temp_dir p groups) w w' tt h in
      let first =
        asked-After place temp_dir
          (λ s.
            get_backup_partition_paths_with_group_id site.cm s site.backup_bucket_name
              site.backup_path p g)
          w w1 one in
      subst (λ xs. After site logs quiet w w' (group_insertion site place temp_dir p w g ∷ xs))
        (λ i. map (λ g'. group_insertion-After place temp_dir p w w1 _ g' first i) groups)
        (After-trans site logs quiet first (insert_groups-After place temp_dir p groups w1 w' k))

  insert_partition-After :
      (place : Place) (temp_dir : Text) (p : PartitionBackupInfo) (w w' : World site)
      → insert_partition site place temp_dir p w ≡ some (ok tt, w')
      → After site logs quiet w w' (partition_insertions site place temp_dir p w)
  unfolding insert_partition partition_insertions insert_whole
  insert_partition-After place temp_dir p w w' h =
      elim (Bool-cases (has_no_groups site (collect_group_ids_from_segments p.segment_backups))) [
        | inl old ↦ rw old (
            asked-After place temp_dir
              (λ s. get_backup_partition_paths site.cm s site.backup_bucket_name site.backup_path p)
              w w' (rw old at h))
        | inr grouped ↦ rw grouped (
            insert_groups-After place temp_dir p (collect_group_ids_from_segments p.segment_backups)
              w w' (rw grouped at h))
      ]

  ensure_partition-After :
      (place : Place) (w w' : World site)
      → ensure_partition site place w ≡ some (ok tt, w')
      → After site logs quiet w w' []
  unfolding ensure_partition
  ensure_partition-After place w w' h =
      let (exist, w1, asked, k) =
        bind-ok (on_cluster site (has_partition site.client place.db place.coll place.partition))
          (λ exist. if not exist then creation else pure tt) w w' tt h in
      let first =
        quiet_call site logs quiet (has_partition site.client place.db place.coll place.partition) w
          w1 exist (has_partition-log site.client logs place.db place.coll place.partition) asked in
      After-trans site logs quiet first (elim (Bool-cases exist) [
        | inl there ↦
            subst (λ x. After site logs quiet w1 x []) (returned-inj (rw there at k)).1
              (After-refl site logs quiet w1)
        | inr missing ↦
            quiet_call site logs quiet
              (retried site.client (attempts 10 ∷ sleep second ∷ [])
                (create_partition site.client place.db place.coll place.partition))
              w1 w' tt
              (retried-log site.client logs (attempts 10 ∷ sleep second ∷ []) _
                (create_partition-log site.client logs place.db place.coll place.partition))
              (rw missing at k)
      ])
    where
      creation : R site Unit
      creation = on_cluster site (
          retried site.client (attempts 10 ∷ sleep second ∷ [])
            (create_partition site.client place.db place.coll place.partition))

  partition_insertions-After :
      (place : Place) (temp_dir : Text) (p : PartitionBackupInfo) (w w' : World site)
      (inserted : List Insertion)
      → After site logs quiet w w' inserted
      → partition_insertions site place temp_dir p w' ≡ partition_insertions site place temp_dir p w
  unfolding partition_insertions get_backup_partition_paths
  partition_insertions-After place temp_dir p w w' inserted h i =
      if has_no_groups site (collect_group_ids_from_segments p.segment_backups)
      then insertion_of site place temp_dir (record w { task = h.task i }) (answered (whole i)) ∷ []
      else map (λ g. group_insertion-After place temp_dir p w w' inserted g h i)
          (collect_group_ids_from_segments p.segment_backups)
    where
      whole : whole_files site w' p ≡ whole_files site w p
      whole = rw h.exist refl

  -- The part behind the creation of the partition, for the metadata alone or not.
  insert_or_not : Place → Text → PartitionBackupInfo → Bool → R site Unit
  insert_or_not place temp_dir p meta_only =
      if meta_only
      then set_task site (λ t. record t { progress = 100 })
      else (insert_partition site place temp_dir p >> set_task site (add_restored p.size))

  insert_or_not-ok :
      (place : Place) (temp_dir : Text) (p : PartitionBackupInfo) (meta_only : Bool)
      (w w' : World site)
      → insert_or_not place temp_dir p meta_only w ≡ some (ok tt, w')
      → (logs.log w'.cluster
          ≡ logs.log w.cluster ++ new_insertions site place temp_dir p meta_only w)
        × (w'.task ≡ counted site p meta_only w.task)
  unfolding insert_or_not
  insert_or_not-ok place temp_dir p true w w' h =
      let e = (returned-inj h).1 in
      (
        ap (λ (x : World site). logs.log x.cluster) (sym e) ∙ sym (append-nil (logs.log w.cluster)),
        ap (λ (x : World site). x.task) (sym e),
      )
  insert_or_not-ok place temp_dir p false w w' h =
      let (_, w1, inserts, k) =
        bind-ok (insert_partition site place temp_dir p) (λ _. set_task site (add_restored p.size))
          w w' tt h in
      let e = (returned-inj k).1 in
      let step = insert_partition-After place temp_dir p w w1 inserts in
      (
        ap (λ (x : World site). logs.log x.cluster) (sym e) ∙ step.log,
        ap (λ (x : World site). x.task) (sym e) ∙ ap (add_restored p.size) step.task,
      )

  restore_partition_ok :
      (db coll temp_dir : Text) (p : PartitionBackupInfo) (w w' : World site)
      → restore_partition site db coll temp_dir p w ≡ some (ok tt, w')
      → (logs.log w'.cluster
          ≡ logs.log w.cluster
            ++ new_insertions site
                (record { db = db; coll = coll; partition = p.partition_name })
                temp_dir
                p
                w.task.meta_only
                w)
        × (w'.task ≡ counted site p w.task.meta_only w.task)
  unfolding restore_partition insert_or_not
  restore_partition_ok db coll temp_dir p w w' h =
      let place : Place = record { db = db; coll = coll; partition = p.partition_name } in
      let (_, w1, ensured, k) =
        bind-ok (ensure_partition site place)
          (λ _. get_task site >>= λ (task : RestoreCollectionTask).
            insert_or_not place temp_dir p task.meta_only)
          w w' tt h in
      let first = ensure_partition-After place w w1 ensured in
      let (logged, ended) = insert_or_not-ok place temp_dir p w1.task.meta_only w1 w' k in
      (
        logged
            ∙ ap (λ l. l ++ new_insertions site place temp_dir p w1.task.meta_only w1)
                (first.log ∙ append-nil (logs.log w.cluster))
            ∙ λ i.
                logs.log w.cluster
                ++ (if (first.task i).meta_only
                    then []
                    else partition_insertions-After place temp_dir p w w1 [] first i),
        ended ∙ ap (λ (t : RestoreCollectionTask). counted site p t.meta_only t) first.task,
      )

  -- If the restore of a partition ends without an error, then the cluster has taken on, behind the
  -- bulk inserts before it, none for a task of the metadata alone, and otherwise one for each
  -- group id of the partition's segments, in the order of their first segments, or just one for
  -- the whole partition where the only group id is 0. Each is of the directory of insert logs that
  -- the layout of a backup has for the group or the whole, and of that of delta logs, or an empty
  -- name where the bucket of the backups has none, both below the temporary directory where this
  -- bucket is not the cluster's. The restored size of the task has grown by the partition's size,
  -- on int64, and its progress is the restored part in percent, or 100 for the metadata alone. The
  -- log of bulk inserts is that of a client library that keeps one, watching does not change it,
  -- and copies into the cluster's bucket do not change what another bucket has.
  pub restore_partition-insertions :
      (db coll temp_dir : Text) (p : PartitionBackupInfo) (w w' : World site)
      → restore_partition site db coll temp_dir p w ≡ some (ok tt, w')
      → (logs.log w'.cluster
          ≡ logs.log w.cluster
            ++ asked_insertions site
                (record { db = db; coll = coll; partition = p.partition_name })
                temp_dir
                p
                w.task.meta_only
                w)
        × (w'.task ≡ grown site p w.task.meta_only w.task)
  restore_partition-insertions db coll temp_dir p w w' h =
      let place : Place = record { db = db; coll = coll; partition = p.partition_name } in
      let (logged, ended) = restore_partition_ok db coll temp_dir p w w' h in
      (
        logged
            ∙ ap (λ l. logs.log w.cluster ++ l)
                (new_insertions-asked site place temp_dir p w.task.meta_only w),
        ended ∙ counted-grown site p w.task.meta_only w.task,
      )
