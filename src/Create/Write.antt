-- ===== src/Create/Write.antt =====
-- The end of executeCreateBackup: the five files of a backup's metadata.
use mathlib.Core.List.{append_cancel_left}
use milvus_backup.Base.{
  true, false, ◌++◌, Option, none, some, ◌≡◌, ◌≢◌, refl, Result, ok, err, arith, append_assoc,
}
use milvus_backup.Base.Text.{Text, text_eq, text_eq_iff}
use milvus_backup.Proto.{BackupInfo}
use milvus_backup.Meta.Files.{Json, BackupMetaBytes, serialize, deserialize}
use milvus_backup.Meta.RoundTrip.{IsConsistent, durable}
use milvus_backup.Meta.Stored.{LevelsSurvive, deserialize-serialize}
use milvus_backup.Meta.Paths.{
  slash, meta_prefix, backup_meta_file, collection_meta_file, partition_meta_file,
  segment_meta_file, full_meta_file, backup_meta_path, collection_meta_path, partition_meta_path,
  segment_meta_path, full_meta_path, backup_meta_dir_path,
}
use milvus_backup.Storage.{ChunkManager, IsLawful}
use milvus_backup.Context.Get.{read_backup}

-- Files of different names in one directory have different paths.
paths_ne : (dir file other : Text) → file ≢ other → dir ++ (slash ++ file) ≢ dir ++ (slash ++ other)
paths_ne dir file other h e = h (
    append_cancel_left slash file other (append_cancel_left dir (slash ++ file) (slash ++ other) e))

texts_ne : (s t : Text) → text_eq s t ≡ false → s ≢ t
texts_ne s t h e = absurd (ground (arith, text_eq_iff s t))

-- The directory that readBackup makes of the path of a backup is the one written to.
meta_dir :
    (root name : Text)
    → (root ++ (slash ++ name)) ++ (slash ++ meta_prefix) ≡ backup_meta_dir_path root name
unfolding backup_meta_dir_path
meta_dir root name = append_assoc root (slash ++ name) (slash ++ meta_prefix)

module _ (cm : ChunkManager) where
  -- A call of Write whose error is not looked at.
  unfoldable pub write_anyway : cm.Store → Text → Text → Text → cm.Store
  write_anyway s bucket path content = (cm.write s bucket path content).1

  unfoldable pub write_files : cm.Store → Text → Text → Text → BackupMetaBytes → cm.Store
  unfolding write_anyway
  write_files s bucket root name output =
      let s1 = write_anyway s bucket (backup_meta_path root name) output.backup_meta_bytes in
      let s2 =
        write_anyway s1 bucket (collection_meta_path root name) output.collection_meta_bytes in
      let s3 = write_anyway s2 bucket (partition_meta_path root name) output.partition_meta_bytes in
      let s4 = write_anyway s3 bucket (segment_meta_path root name) output.segment_meta_bytes in
      write_anyway s4 bucket (full_meta_path root name) output.full_meta_bytes

  -- `none` is a panic: serialize returns nil with its error, which is not looked at.
  unfoldable pub write_meta : Json → cm.Store → Text → Text → BackupInfo → Option cm.Store
  unfolding write_files
  write_meta json s bucket root backup = elim (serialize json backup) [
    | err e ↦ none
    | ok output ↦ some (write_files s bucket root backup.name output)
  ]

  -- Writes to the bucket do not fail.
  abbrev pub Writable : Text → Type 0
  Writable bucket = (s : cm.Store) (p c : Text) → (cm.write s bucket p c).0 ≡ none

  module _ (law : IsLawful cm) (bucket : Text) (w : Writable bucket) where
    read_same : (s : cm.Store) (p c : Text) → cm.read (write_anyway s bucket p c) bucket p ≡ ok c
    unfolding write_anyway
    read_same s p c =
        law.read-write s (cm.write s bucket p c).1 bucket p c (ground (arith, w s p c))

    read_other :
        (s : cm.Store) (p c q d : Text)
        → q ≢ p
        → cm.read s bucket q ≡ ok d
        → cm.read (write_anyway s bucket p c) bucket q ≡ ok d
    unfolding write_anyway
    read_other s p c q d =
        law.read-write_ne s (cm.write s bucket p c).1 bucket p c q d (ground (arith, w s p c))

    exist_same :
        (s : cm.Store) (p c : Text) → cm.exist (write_anyway s bucket p c) bucket p ≡ ok true
    unfolding write_anyway
    exist_same s p c =
        law.exist-write s (cm.write s bucket p c).1 bucket p c (ground (arith, w s p c))

    exist_other :
        (s : cm.Store) (p c q : Text)
        → cm.exist s bucket q ≡ ok true
        → cm.exist (write_anyway s bucket p c) bucket q ≡ ok true
    unfolding write_anyway
    exist_other s p c q =
        law.exist-write_ne s (cm.write s bucket p c).1 bucket p c q (ground (arith, w s p c))

    -- The file that was written before the others is still there.
    files_read :
        (s : cm.Store) (root name : Text) (m : BackupMetaBytes)
        → let t = write_files s bucket root name m in
          (cm.exist t bucket (backup_meta_path root name) ≡ ok true)
          × (cm.read t bucket (backup_meta_path root name) ≡ ok m.backup_meta_bytes)
          × (cm.read t bucket (collection_meta_path root name) ≡ ok m.collection_meta_bytes)
          × (cm.read t bucket (partition_meta_path root name) ≡ ok m.partition_meta_bytes)
          × (cm.read t bucket (segment_meta_path root name) ≡ ok m.segment_meta_bytes)
    unfolding write_files backup_meta_path collection_meta_path partition_meta_path
        segment_meta_path full_meta_path text_eq
    files_read s root name m =
        let dir = backup_meta_dir_path root name in
        let b = backup_meta_path root name in
        let c = collection_meta_path root name in
        let p = partition_meta_path root name in
        let g = segment_meta_path root name in
        let f = full_meta_path root name in
        let s1 = write_anyway s bucket b m.backup_meta_bytes in
        let s2 = write_anyway s1 bucket c m.collection_meta_bytes in
        let s3 = write_anyway s2 bucket p m.partition_meta_bytes in
        let s4 = write_anyway s3 bucket g m.segment_meta_bytes in
        let ne = λ (file other : Text) (h : text_eq file other ≡ false).
          paths_ne dir file other (texts_ne file other h) in
        let last = λ (q d : Text). read_other s4 f m.full_meta_bytes q d in
        let fourth = λ (q d : Text). read_other s3 g m.segment_meta_bytes q d in
        let third = λ (q d : Text). read_other s2 p m.partition_meta_bytes q d in
        let second = λ (q d : Text). read_other s1 c m.collection_meta_bytes q d in
        (
          exist_other s4 f m.full_meta_bytes b (
              exist_other s3 g m.segment_meta_bytes b (
                exist_other s2 p m.partition_meta_bytes b (
                  exist_other s1 c m.collection_meta_bytes b
                    (exist_same s b m.backup_meta_bytes)))),
          last b m.backup_meta_bytes (ne backup_meta_file full_meta_file refl) (
              fourth b m.backup_meta_bytes (ne backup_meta_file segment_meta_file refl) (
                third b m.backup_meta_bytes (ne backup_meta_file partition_meta_file refl) (
                  second b m.backup_meta_bytes (ne backup_meta_file collection_meta_file refl)
                    (read_same s b m.backup_meta_bytes)))),
          last c m.collection_meta_bytes (ne collection_meta_file full_meta_file refl) (
              fourth c m.collection_meta_bytes (ne collection_meta_file segment_meta_file refl) (
                third c m.collection_meta_bytes (ne collection_meta_file partition_meta_file refl)
                  (read_same s1 c m.collection_meta_bytes))),
          last p m.partition_meta_bytes (ne partition_meta_file full_meta_file refl) (
              fourth p m.partition_meta_bytes (ne partition_meta_file segment_meta_file refl)
                (read_same s2 p m.partition_meta_bytes)),
          last g m.segment_meta_bytes (ne segment_meta_file full_meta_file refl)
              (read_same s3 g m.segment_meta_bytes),
        )

    -- readBackup looks at the same four files.
    read_files :
        (json : Json) (t : cm.Store) (path dir : Text) (m : BackupMetaBytes) (b : BackupInfo)
        → path ++ (slash ++ meta_prefix) ≡ dir
        → cm.exist t bucket (dir ++ (slash ++ backup_meta_file)) ≡ ok true
        → cm.read t bucket (dir ++ (slash ++ backup_meta_file)) ≡ ok m.backup_meta_bytes
        → cm.read t bucket (dir ++ (slash ++ collection_meta_file)) ≡ ok m.collection_meta_bytes
        → cm.read t bucket (dir ++ (slash ++ partition_meta_file)) ≡ ok m.partition_meta_bytes
        → cm.read t bucket (dir ++ (slash ++ segment_meta_file)) ≡ ok m.segment_meta_bytes
        → deserialize json m ≡ ok b
        → read_backup cm json t bucket path ≡ ok (some b)
    unfolding read_backup deserialize
    read_files json t path dir m b e ex rb rc rp rs d =
        rw (e, ex, rb, rc, rp, rs) (ground (arith, d))

    -- On a lawful storage, where writes to the bucket do not fail and the coders read back the
    -- four levels, the metadata that a create writes for a consistent backup is found under the
    -- backup's directory and read back as the durable part of the backup.
    pub read_backup-write_meta :
        (json : Json) (s t : cm.Store) (root : Text) (b : BackupInfo)
        → LevelsSurvive json b
        → IsConsistent b
        → write_meta json s bucket root b ≡ some t
        → read_backup cm json t bucket (root ++ (slash ++ b.name)) ≡ ok (some (durable b))
    unfolding write_meta backup_meta_path collection_meta_path partition_meta_path segment_meta_path
    read_backup-write_meta json s t root b survive v h =
        let (m, es, e) = written (serialize json b) refl h in
        let f = files_read s root b.name m in
        rw (← e) (
          read_files json (write_files s bucket root b.name m) (root ++ (slash ++ b.name))
            (backup_meta_dir_path root b.name) m (durable b) (meta_dir root b.name) f.0 f.1 f.2 f.3
            f.4 (deserialize-serialize json b m survive v es))
      where
        written :
            (r : Result Text BackupMetaBytes)
            → serialize json b ≡ r
            → elim r [ err e ↦ none | ok output ↦ some (write_files s bucket root b.name output) ]
              ≡ some t
            → (m : BackupMetaBytes) × (serialize json b ≡ ok m)
              × (write_files s bucket root b.name m ≡ t)
        written (err e) es e' = absurd (ground arith)
        written (ok m) es e' = (m, es, ground arith)
