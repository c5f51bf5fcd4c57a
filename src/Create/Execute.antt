-- ===== src/Create/Execute.antt =====
-- backupCollectionExecute, with copySegments as a whole: the segments of a collection in the order of
-- their sizes, their copies, and what the segments are afterwards. The slice that is sorted holds
-- pointers to the segments of the partitions, so each segment goes by its place among them. The jobs
-- run behind the loop that submits them, on a pool with one worker; those submitted before an error of
-- the loop run too.
pub mod Filled
pub mod Copied
use milvus_backup.Base.{
  ℕ, Bool, ◌&&◌, ◌==◌, ◌+◌, nat_key, map, List, [], ◌∷◌, Option, none, some, Result, ok, err,
  if◌then◌else◌, length, concat_map,
}
use milvus_backup.Base.Text.{Text, text_eq}
use milvus_backup.Base.Dict.{Dict, lookup}
use milvus_backup.Base.Int64.{Int64, lt64}
use milvus_backup.Proto.{CollectionBackupInfo, PartitionBackupInfo, SegmentBackupInfo}
use milvus_backup.Storage.{ChunkManager}
use milvus_backup.Create.Collections.{CollectionStruct}
use milvus_backup.Create.Copy.{plan_segments, plan_segment, group_of, run_copy_jobs}

-- Segments, each under its place.
abbrev pub Placed : Type 0
Placed = Dict ℕ SegmentBackupInfo

unfoldable pub numbered : ℕ → List SegmentBackupInfo → Placed
numbered n [] = []
numbered n (s ∷ segments) = (n, s) ∷ numbered (n + 1) segments

unfoldable pub insert_by_size : ℕ → SegmentBackupInfo → Placed → Placed
insert_by_size n s [] = (n, s) ∷ []
insert_by_size n s ((m, t) ∷ rest) =
    let behind = insert_by_size n s rest in
    if lt64 t.size s.size then (m, t) ∷ behind else (n, s) ∷ (m, t) ∷ rest

-- sort.SliceStable by the sizes.
unfoldable pub sort_by_size : Placed → Placed
unfolding insert_by_size
sort_by_size [] = []
sort_by_size ((n, s) ∷ rest) = insert_by_size n s (sort_by_size rest)

abbrev pub Fill : Type 0
Fill = SegmentBackupInfo → Result Text SegmentBackupInfo

unfoldable pub segments_of : CollectionBackupInfo → List SegmentBackupInfo
segments_of c = concat_map (λ p. p.segment_backups) c.partition_backups

unfoldable pub with_segments :
    (ℕ → Option SegmentBackupInfo) → ℕ → List SegmentBackupInfo → List SegmentBackupInfo
with_segments look n [] = []
with_segments look n (s ∷ segments) =
    let rest = with_segments look (n + 1) segments in
    elim (look n) [ some t ↦ t ∷ rest | none ↦ s ∷ rest ]

unfoldable pub with_partitions :
    (ℕ → Option SegmentBackupInfo) → ℕ → List PartitionBackupInfo → List PartitionBackupInfo
unfolding with_segments
with_partitions look n [] = []
with_partitions look n (p ∷ partitions) =
    record p { segment_backups = with_segments look n p.segment_backups }
    ∷ with_partitions look (n + length p.segment_backups) partitions

abbrev pub placed_segments : CollectionBackupInfo → Placed
placed_segments c = sort_by_size (numbered 0 (segments_of c))

abbrev pub is_collection : CollectionStruct → CollectionBackupInfo → Bool
is_collection collection c =
    text_eq c.collection_name collection.collection_name && text_eq c.db_name collection.db

module _ (root_path dst_path : Text) (fill : Fill) where
  -- What a filled segment is behind its round.
  abbrev pub grouped : SegmentBackupInfo → SegmentBackupInfo
  grouped s = record s { group_id = group_of root_path dst_path s }

  abbrev stopped : Option Text → Placed → Placed → Placed
  stopped none done same = done
  stopped (some e) done same = same

  -- The segments behind the loop of copySegments; those that it does not reach stay as they are.
  unfoldable pub settled : Placed → Placed
  settled [] = []
  settled ((n, s) ∷ rest) =
      let behind = settled rest in
      elim (fill s) [
        | err e ↦ (n, s) ∷ rest
        | ok f ↦ (n, grouped f) ∷ stopped (plan_segment root_path dst_path f).1 behind rest
      ]

module _ (cm : ChunkManager) (milvus_bucket backup_bucket root_path dst_path : Text) where
  -- copySegments: the error, and the store; `fill` is fillSegmentBackupInfo.
  unfoldable pub copy_segments : Fill → List SegmentBackupInfo → cm.Store → Option Text × cm.Store
  unfolding plan_segments run_copy_jobs
  copy_segments fill segments s =
      let (jobs, stop) = plan_segments root_path dst_path fill segments in
      let (failure, s') = run_copy_jobs cm milvus_bucket backup_bucket jobs s in
      elim stop [ some e ↦ (some e, s') | none ↦ (failure, s') ]

  abbrev pub copied_collection :
      Fill → Int64 → Option Text → CollectionBackupInfo → CollectionBackupInfo
  copied_collection fill end_time failure c =
      let placed = settled root_path dst_path fill (placed_segments c) in
      record c {
        partition_backups = with_partitions (λ n. lookup n placed) 0 c.partition_backups;
        end_time = elim failure [ none ↦ end_time | some e ↦ c.end_time ];
      }

  -- `none` is the panic at the end time of no collection.
  unfoldable pub backup_collection_execute :
      Fill
      → Int64
      → CollectionStruct
      → List CollectionBackupInfo
      → cm.Store
      → Option (Option Text × List CollectionBackupInfo × cm.Store)
  unfolding copy_segments settled with_partitions
  backup_collection_execute fill end_time collection [] s = none
  backup_collection_execute fill end_time collection (c ∷ cs) s =
      let later = backup_collection_execute fill end_time collection cs s in
      let (failure, s') = copy_segments fill (map (λ p. p.1) (placed_segments c)) s in
      if is_collection collection c
      then some (failure, copied_collection fill end_time failure c ∷ cs, s')
      else (elim later [ none ↦ none | some (failure', cs', s'') ↦ some (failure', c ∷ cs', s'') ])
