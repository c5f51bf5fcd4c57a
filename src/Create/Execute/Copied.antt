-- ===== src/Create/Execute/Copied.antt =====
-- backupCollectionExecute: the collections of the backup behind it.
use milvus_backup.Base.{
  true, false, List, [], ◌∷◌, ◌++◌, map, Option, none, some, ◌≡◌, refl, ◌∙◌, ap, sym, ok, All,
  Bool-cases, inl, inr, some-inj, none-ne_some, subst, arith,
}
use milvus_backup.Base.Text.{Text}
use milvus_backup.Base.Dict.{lookup}
use milvus_backup.Base.{nat_key}
use milvus_backup.Base.Int64.{Int64}
use milvus_backup.Proto.{CollectionBackupInfo, SegmentBackupInfo}
use milvus_backup.Storage.{ChunkManager}
use milvus_backup.Create.Collections.{CollectionStruct}
use milvus_backup.Create.Copy.{plan_segments}
use milvus_backup.Create.Execute.{
  Fill, segments_of, with_partitions, placed_segments, settled, copy_segments, copied_collection,
  is_collection, backup_collection_execute,
}
use milvus_backup.Create.Execute.Filled.{filled_segment, in_place, partitions_filled}

module _ (cm : ChunkManager) (milvus_bucket backup_bucket root_path dst_path : Text)
    (fill : Fill) where
  copy_segments-planned :
      (segments : List SegmentBackupInfo) (s : cm.Store)
      → (copy_segments cm milvus_bucket backup_bucket root_path dst_path fill segments s).0 ≡ none
      → (plan_segments root_path dst_path fill segments).1 ≡ none
  unfolding copy_segments
  copy_segments-planned segments s h = ground arith

  abbrev pub copied_all : Int64 → CollectionBackupInfo → CollectionBackupInfo
  copied_all end_time c = record c {
    partition_backups = map (in_place (filled_segment root_path dst_path fill)) c.partition_backups;
    end_time = end_time;
  }

  -- What an execution without an error makes of the collections.
  pub record Copied (collection : CollectionStruct) (end_time : Int64)
      (cs cs' : List CollectionBackupInfo) : Type 0 where
    pub before : List CollectionBackupInfo
    pub copied : CollectionBackupInfo
    pub after : List CollectionBackupInfo
    pub were : cs ≡ before ++ copied ∷ after
    pub none_before : All (λ c. is_collection collection c ≡ false) before
    pub is_it : is_collection collection copied ≡ true
    pub all_fill : All (λ s. (f : SegmentBackupInfo) × (fill s ≡ ok f)) (segments_of copied)
    pub are : cs' ≡ before ++ copied_all end_time copied ∷ after

  copied_collection-none :
      (end_time : Int64) (c : CollectionBackupInfo) (failure : Option Text)
      → failure ≡ none
      → with_partitions
          (λ n. lookup n (settled root_path dst_path fill (placed_segments c)))
          0
          c.partition_backups
        ≡ map (in_place (filled_segment root_path dst_path fill)) c.partition_backups
      → copied_collection cm milvus_bucket backup_bucket root_path dst_path fill end_time failure c
        ≡ copied_all end_time c
  copied_collection-none end_time c none h e =
      ap (λ ps. record c { partition_backups = ps; end_time = end_time }) e
  copied_collection-none end_time c (some x) h e = absurd (none-ne_some (sym h))

  here :
      (collection : CollectionStruct) (end_time : Int64) (c : CollectionBackupInfo)
      (cs cs' : List CollectionBackupInfo) (s s' : cm.Store)
      → is_collection collection c ≡ true
      → backup_collection_execute cm milvus_bucket backup_bucket root_path dst_path fill end_time
          collection
          (c ∷ cs)
          s
        ≡ some (none, cs', s')
      → Copied collection end_time (c ∷ cs) cs'
  unfolding backup_collection_execute
  here collection end_time c cs cs' s s' is_it h =
      let e = some-inj (rw is_it at h) in
      let planned =
        copy_segments-planned (map (λ p. p.1) (placed_segments c)) s (ap (λ r. r.0) e) in
      let (partitions, all) = partitions_filled root_path dst_path fill c planned in
      record {
        before = [];
        copied = c;
        after = cs;
        were = refl;
        none_before = tt;
        is_it = is_it;
        all_fill = all;
        are =
            sym (ap (λ r. r.1) e)
            ∙ ap (λ x. x ∷ cs) (copied_collection-none end_time c _ (ap (λ r. r.0) e) partitions);
      }

  after_other :
      (collection : CollectionStruct) (end_time : Int64) (c : CollectionBackupInfo)
      (cs cs' : List CollectionBackupInfo)
      → is_collection collection c ≡ false
      → Copied collection end_time cs cs'
      → Copied collection end_time (c ∷ cs) (c ∷ cs')
  after_other collection end_time c cs cs' other h = record {
    before = c ∷ h.before;
    copied = h.copied;
    after = h.after;
    were = ap (λ l. c ∷ l) h.were;
    none_before = (other, h.none_before);
    is_it = h.is_it;
    all_fill = h.all_fill;
    are = ap (λ l. c ∷ l) h.are;
  }

  -- If backupCollectionExecute ends without an error and without a panic, then the first
  -- collection of the backup with the given name and database has all its segments filled, each in
  -- its own place with the group that copying gives it, whatever order the sizes put them in, and
  -- the end time; the other collections, and its other fields, are as they were.
  pub backup_collection_execute-Copied :
      (collection : CollectionStruct) (end_time : Int64) (cs cs' : List CollectionBackupInfo)
      (s s' : cm.Store)
      → backup_collection_execute cm milvus_bucket backup_bucket root_path dst_path fill end_time
          collection cs s
        ≡ some (none, cs', s')
      → Copied collection end_time cs cs'
  unfolding backup_collection_execute
  backup_collection_execute-Copied collection end_time [] cs' s s' h = absurd (none-ne_some h)
  backup_collection_execute-Copied collection end_time (c ∷ cs) cs' s s' h =
      elim (Bool-cases (is_collection collection c)) [
        | inl is_it ↦ here collection end_time c cs cs' s s' is_it h
        | inr other ↦
            split
              (backup_collection_execute cm milvus_bucket backup_bucket root_path dst_path fill
                end_time collection cs s)
              other (λ x x'. backup_collection_execute-Copied collection end_time cs x s x')
              (rw other at h)
      ]
    where
      split :
          (r : Option (Option Text × List CollectionBackupInfo × cm.Store))
          → is_collection collection c ≡ false
          → ((x : List CollectionBackupInfo) (x' : cm.Store)
              → r ≡ some (none, x, x')
              → Copied collection end_time cs x)
          → (elim r as (λ _. Option (Option Text × List CollectionBackupInfo × cm.Store)) [
            | none ↦ none
            | some (failure', cs', s'') ↦ some (failure', c ∷ cs', s'')
          ])
            ≡ some (none, cs', s')
          → Copied collection end_time (c ∷ cs) cs'
      split none other ih h' = absurd (none-ne_some h')
      split (some (none, x, x')) other ih h' =
          subst (Copied collection end_time (c ∷ cs)) (ap (λ r. r.1) (some-inj h'))
            (after_other collection end_time c cs x other (ih x x' refl))
      split (some (some e, x, x')) other ih h' =
          absurd (none-ne_some (sym (ap (λ r. r.0) (some-inj h'))))
