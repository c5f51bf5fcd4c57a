-- ===== src/Restore/Insert/Layout.antt =====
-- The bulk inserts that the restore of a partition should ask for, by the layout of a backup:
-- `<backup>/binlogs/<kind>/<collection>/<partition>/<group>/`, where `kind` is insert_log or
-- delta_log; and the task behind them.
use milvus_backup.Base.{
  ℕ, ◌+◌, ◌*◌, ◌%◌, ◌^◌, Bool, true, false, List, [], ◌∷◌, ◌++◌, map, none, some, ◌≡◌, refl, ap,
  ◌∙◌, Bool-cases, inl, inr, Result, ok, err, if◌then◌else◌, nat_eq,
}
use milvus_backup.Base.Text.{Text, codes, text_eq}
use milvus_backup.Base.Int64.{Int64, div64, add64, mul64, to_int32}
use milvus_backup.Base.Decimal.{print_int64}
use milvus_backup.Proto.{PartitionBackupInfo, RestoreCollectionTask}
use milvus_backup.Milvus.Inserts.{Insertion}
use milvus_backup.Restore.Groups.{collect_group_ids_from_segments}
use milvus_backup.Restore.Partition.{
  get_backup_partition_paths, get_backup_partition_paths_with_group_id, group_dir, partition_dir,
}
use milvus_backup.Restore.Run.{Site, World}
use milvus_backup.Restore.Insert.{Place, add_restored, has_no_groups, timestamp_of}
use milvus_backup.Restore.Insert.Effects.{real_file, insertion}
use milvus_backup.Restore.Insert.Expected.{
  answered, group_files, whole_files, group_insertion, partition_insertions, counted, insertion_of,
  new_insertions,
}

module _ (site : Site) where
  -- The directory of one kind of logs: of the group, or, with nothing behind, of the partition.
  abbrev pub logs_dir : Text → PartitionBackupInfo → Text → Text
  logs_dir kind p behind =
      site.backup_path
      ++ (codes "/binlogs/"
          ++ (kind
              ++ (codes "/"
                  ++ (print_int64 p.collection_id
                      ++ (codes "/" ++ (print_int64 p.partition_id ++ (codes "/" ++ behind)))))))

  -- The directory of the insert logs, and that of the delta logs, or an empty name where the bucket
  -- of the backups has none; nothing where the bucket does not answer.
  abbrev pub dirs_of : World site → PartitionBackupInfo → Text → List Text
  dirs_of w p behind =
      elim (site.cm.exist w.store site.backup_bucket_name (logs_dir (codes "delta_log") p behind)) [
        | ok true ↦
            logs_dir (codes "insert_log") p behind ∷ logs_dir (codes "delta_log") p behind ∷ []
        | ok false ↦ logs_dir (codes "insert_log") p behind ∷ [] ∷ []
        | err _ ↦ []
      ]

  -- From another bucket, the files are copied below the temporary directory first.
  abbrev pub in_cluster_bucket : Text → Text → Text
  in_cluster_bucket temp_dir [] = []
  in_cluster_bucket temp_dir (l ∷ dir) =
      if text_eq site.milvus_bucket_name site.backup_bucket_name
      then l ∷ dir
      else temp_dir ++ l ∷ dir

  abbrev pub insertion_under : Place → Text → PartitionBackupInfo → World site → Text → Insertion
  insertion_under place temp_dir p w behind =
      let backup_timestamp : ℕ = elim w.task.coll_backup [
        | none ↦ 0
        | some c ↦ c.backup_timestamp
      ] in
      record {
        db = place.db;
        coll = place.coll;
        partition = place.partition;
        files = map (in_cluster_bucket temp_dir) (dirs_of w p behind);
        end_ts = if nat_eq backup_timestamp 0 then none else some backup_timestamp;
      }

  abbrev pub in_group : Int64 → Text
  in_group g = print_int64 g ++ codes "/"

  -- One for each group, or one for the whole of a partition whose only group is 0.
  abbrev pub insertions_of_groups :
      Place → Text → PartitionBackupInfo → World site → List Int64 → List Insertion
  insertions_of_groups place temp_dir p w [] = []
  insertions_of_groups place temp_dir p w (g ∷ []) =
      insertion_under place temp_dir p w (if nat_eq g 0 then [] else in_group g) ∷ []
  insertions_of_groups place temp_dir p w (g ∷ h ∷ gs) =
      map (λ g'. insertion_under place temp_dir p w (in_group g')) (g ∷ h ∷ gs)

  abbrev pub asked_insertions :
      Place → Text → PartitionBackupInfo → Bool → World site → List Insertion
  asked_insertions place temp_dir p true w = []
  asked_insertions place temp_dir p false w =
      insertions_of_groups place temp_dir p w (collect_group_ids_from_segments p.segment_backups)

  -- The size of the partition is added, on int64, and the progress is the restored part in percent.
  abbrev pub grown : PartitionBackupInfo → Bool → RestoreCollectionTask → RestoreCollectionTask
  grown p true task = record task { progress = 100 }
  grown p false task =
      let restored = (task.restored_size + p.size) % 2 ^ 64 in
      record task {
        restored_size = restored;
        progress =
            if nat_eq task.to_restore_size 0
            then 100
            else div64 (100 * restored % 2 ^ 64) task.to_restore_size % 2 ^ 32;
      }

  pub counted-grown :
      (p : PartitionBackupInfo) (meta_only : Bool) (task : RestoreCollectionTask)
      → counted site p meta_only task ≡ grown p meta_only task
  unfolding add_restored add64 mul64 to_int32
  counted-grown p true task = refl
  counted-grown p false task = refl

  group_files-dirs :
      (w : World site) (p : PartitionBackupInfo) (g : Int64)
      → answered (group_files site w p g) ≡ dirs_of w p (in_group g)
  unfolding get_backup_partition_paths_with_group_id group_dir partition_dir
  group_files-dirs w p g =
      by
        (site.cm.exist w.store site.backup_bucket_name
          (logs_dir (codes "delta_log") p (in_group g)))
        refl
    where
      by :
          (r : Result Text Bool)
          → site.cm.exist w.store site.backup_bucket_name
              (logs_dir (codes "delta_log") p (in_group g))
            ≡ r
          → answered (group_files site w p g) ≡ dirs_of w p (in_group g)
      by (ok true) h = rw (h, dirs_of) refl
      by (ok false) h = rw (h, dirs_of) refl
      by (err e) h = rw (h, dirs_of) refl

  whole_files-dirs :
      (w : World site) (p : PartitionBackupInfo) → answered (whole_files site w p) ≡ dirs_of w p []
  unfolding get_backup_partition_paths partition_dir
  whole_files-dirs w p =
      by (site.cm.exist w.store site.backup_bucket_name (logs_dir (codes "delta_log") p [])) refl
    where
      by :
          (r : Result Text Bool)
          → site.cm.exist w.store site.backup_bucket_name (logs_dir (codes "delta_log") p []) ≡ r
          → answered (whole_files site w p) ≡ dirs_of w p []
      by (ok true) h = rw (h, dirs_of) refl
      by (ok false) h = rw (h, dirs_of) refl
      by (err e) h = rw (h, dirs_of) refl

  real_file-in_bucket :
      (temp_dir : Text) (files : List Text)
      → map (real_file site temp_dir) files ≡ map (in_cluster_bucket temp_dir) files
  unfolding text_eq
  real_file-in_bucket temp_dir [] = refl
  real_file-in_bucket temp_dir ([] ∷ files) = cc (real_file-in_bucket temp_dir files)
  real_file-in_bucket temp_dir ((l ∷ file) ∷ files) = cc (real_file-in_bucket temp_dir files)

  insertion_of-under :
      (place : Place) (temp_dir : Text) (p : PartitionBackupInfo) (w : World site)
      (files : List Text) (behind : Text)
      → files ≡ dirs_of w p behind
      → insertion_of site place temp_dir w files ≡ insertion_under place temp_dir p w behind
  insertion_of-under place temp_dir p w files behind h =
      ap (λ fs. insertion site place fs (timestamp_of w.task))
        (real_file-in_bucket temp_dir files ∙ ap (map (in_cluster_bucket temp_dir)) h)

  group_insertion-under :
      (place : Place) (temp_dir : Text) (p : PartitionBackupInfo) (w : World site) (g : Int64)
      → group_insertion site place temp_dir p w g ≡ insertion_under place temp_dir p w (in_group g)
  unfolding group_insertion
  group_insertion-under place temp_dir p w g =
      insertion_of-under place temp_dir p w (answered (group_files site w p g)) (in_group g)
        (group_files-dirs w p g)

  partition_insertions-asked :
      (place : Place) (temp_dir : Text) (p : PartitionBackupInfo) (w : World site)
      → partition_insertions site place temp_dir p w
        ≡ insertions_of_groups place temp_dir p w
            (collect_group_ids_from_segments p.segment_backups)
  unfolding partition_insertions
  partition_insertions-asked place temp_dir p w =
      by (collect_group_ids_from_segments p.segment_backups)
    where
      by :
          (ids : List Int64)
          → (if has_no_groups site ids
              then insertion_of site place temp_dir w (answered (whole_files site w p)) ∷ []
              else map (group_insertion site place temp_dir p w) ids)
            ≡ insertions_of_groups place temp_dir p w ids
      by [] = refl
      by (g ∷ []) = elim (Bool-cases (nat_eq g 0)) [
        | inl old ↦ rw old (
            ap (λ x. x ∷ [])
              (insertion_of-under place temp_dir p w (answered (whole_files site w p)) []
                (whole_files-dirs w p)))
        | inr grouped ↦ rw grouped (ap (λ x. x ∷ []) (group_insertion-under place temp_dir p w g))
      ]
      by (g ∷ h ∷ gs) = λ i. map (λ g'. group_insertion-under place temp_dir p w g' i) (g ∷ h ∷ gs)

  pub new_insertions-asked :
      (place : Place) (temp_dir : Text) (p : PartitionBackupInfo) (meta_only : Bool)
      (w : World site)
      → new_insertions site place temp_dir p meta_only w
        ≡ asked_insertions place temp_dir p meta_only w
  new_insertions-asked place temp_dir p true w = refl
  new_insertions-asked place temp_dir p false w = partition_insertions-asked place temp_dir p w
