-- ===== src/Create/Segments.antt =====
-- backupCollectionPrepare: which segments of a collection are backed up, and its partitions. What
-- the cluster answers is an argument.
use milvus_backup.Base.{
  ℕ, Bool, true, false, List, [], ◌∷◌, ◌++◌, Option, none, some, ◌≡◌, refl, if◌then◌else◌, arith,
  map, nat_eq, nat_key, length, keep, any, keep-append, length-append, ◌&&◌, ◌||◌,
}
use milvus_backup.Base.Text.{Text, codes, text_key}
use milvus_backup.Base.Dict.{Dict, lookup, insert, delete, or_nil, lookup-delete, lookup-insert}
use milvus_backup.Base.Int64.{Int64, sum64, sum64_from}
use milvus_backup.Base.Group.{group_into, lookup-group_into}
use milvus_backup.Proto.{SegmentBackupInfo, PartitionBackupInfo}
use milvus_backup.Utils.KeyValue.{array_to_map, array_into_map}

-- entity.Segment and entity.Partition of the client library, as far as the code reads them.
pub record Segment : Type 0 where
  pub id : Int64
  pub collection_id : Int64
  pub partition_id : Int64
  pub num_rows : Int64

pub record Partition : Type 0 where
  pub id : Int64
  pub name : Text

-- A loop over segments that takes those whose id is left in the map, and takes the id out.
unfoldable pub take_segments : List Segment → Dict Int64 Bool → List Segment × Dict Int64 Bool
take_segments [] dict = ([], dict)
take_segments (seg ∷ segs) dict =
    let taken = take_segments segs (delete seg.id dict) in
    let skipped = take_segments segs dict in
    elim (lookup seg.id dict) [ some _ ↦ (seg ∷ taken.0, taken.1) | none ↦ skipped ]

-- The segments that flushing names: those listed after it first, and then those listed before it.
-- Ids that neither list has are only logged.
unfoldable pub select_segments :
    List Int64 → List Segment → List Segment → List Segment × Dict Int64 Bool
unfolding take_segments
select_segments flush_segment_ids before_flush after_flush =
    let (first, dict) = take_segments after_flush (array_to_map flush_segment_ids) in
    let (second, left) = take_segments before_flush dict in (first ++ second, left)

abbrev pub has_id : Int64 → Segment → Bool
has_id i s = nat_eq s.id i

abbrev pub count : Int64 → List Segment → ℕ
count i segs = length (keep (has_id i) segs)

abbrev is_some : {A : Type 0} → Option A → Bool
is_some none = false
is_some (some _) = true

-- What is taken out of the map.
take_segments-left :
    (i : Int64) (segs : List Segment) (dict : Dict Int64 Bool)
    → lookup i (take_segments segs dict).1 ≡ (if any (has_id i) segs then none else lookup i dict)
unfolding take_segments
take_segments-left i [] dict = refl
take_segments-left i (seg ∷ segs) dict = ground (
  arith,
  lookup-delete i seg.id dict,
  take_segments-left i segs dict,
  take_segments-left i segs (delete seg.id dict),
)

-- What is taken, and how often.
take_segments-count :
    (i : Int64) (segs : List Segment) (dict : Dict Int64 Bool)
    → count i (take_segments segs dict).0
      ≡ (if any (has_id i) segs && is_some (lookup i dict) then 1 else 0)
unfolding take_segments
take_segments-count i [] dict = refl
take_segments-count i (seg ∷ segs) dict = ground (
  arith,
  lookup-delete i seg.id dict,
  take_segments-count i segs dict,
  take_segments-count i segs (delete seg.id dict),
)

array_into_map-lookup :
    (i : Int64) (ids : List Int64) (m : Dict Int64 Bool)
    → is_some (lookup i (array_into_map ids m)) ≡ any (λ j. nat_eq j i) ids || is_some (lookup i m)
unfolding array_into_map
array_into_map-lookup i [] m = refl
array_into_map-lookup i (j ∷ ids) m =
    ground (arith, array_into_map-lookup i ids (insert j true m), lookup-insert i j true m)

-- A segment's id is selected exactly once if flushing names it and one of the two lists has it,
-- and not at all otherwise, however often the lists and the flushed ids repeat it.
pub select_segments-count :
    (i : Int64) (ids : List Int64) (before after : List Segment)
    → count i (select_segments ids before after).0 ≡ (
        if any (λ j. nat_eq j i) ids && (any (has_id i) after || any (has_id i) before)
        then 1
        else 0)
unfolding select_segments lookup
select_segments-count i ids before after =
    let (first, dict) = take_segments after (array_to_map ids) in
    rw
      (
        keep-append (has_id i) first (take_segments before dict).0,
        length-append (keep (has_id i) first) (keep (has_id i) (take_segments before dict).0),
      )
      (ground (
        arith,
        take_segments-count i after (array_to_map ids),
        take_segments-count i before dict,
        take_segments-left i after (array_to_map ids),
        array_into_map-lookup i ids [],
      ))

abbrev pub not_load : Text
not_load = codes "NotLoad"

abbrev pub load_state_loading : Text
load_state_loading = codes "Loading"

abbrev pub loaded : Text
loaded = codes "Loaded"

unfoldable pub load_state_of : Int64 → Text
load_state_of progress =
    if nat_eq progress 0
    then not_load
    else if nat_eq progress 100
    then loaded
    else load_state_loading

unfoldable pub segment_backup_info : Segment → SegmentBackupInfo
segment_backup_info segment = record {
  segment_id = segment.id;
  collection_id = segment.collection_id;
  partition_id = segment.partition_id;
  num_of_rows = segment.num_rows;
  binlogs = [];
  statslogs = [];
  deltalogs = [];
  size = 0;
  group_id = 0;
}

abbrev pub or_text : Option Text → Text
or_text none = []
or_text (some t) = t

-- The partitions, each with the segments that the loop before has grouped under its id. The sizes of
-- the segments are not known yet.
unfoldable pub partition_backup_infos :
    Int64 → Dict Text Text → List Partition → List Segment → List PartitionBackupInfo
unfolding segment_backup_info
partition_backup_infos collection_id states partitions segments =
    let part_seg_info_map =
      group_into (λ (s : SegmentBackupInfo). s.partition_id) (map segment_backup_info segments)
        [] in
    map
      (λ (p : Partition).
        let partition_segments = or_nil (lookup p.id part_seg_info_map) in
        record {
          partition_id = p.id;
          partition_name = p.name;
          collection_id = collection_id;
          segment_backups = partition_segments;
          size = sum64 (map (λ s. s.size) partition_segments);
          load_state = or_text (lookup p.name states);
        })
      partitions

abbrev pub of_partition : Int64 → SegmentBackupInfo → Bool
of_partition i s = nat_eq s.partition_id i

-- A segment of the cluster in a new backup.
abbrev pub new_segment : Segment → SegmentBackupInfo
new_segment s = record {
  segment_id = s.id;
  collection_id = s.collection_id;
  partition_id = s.partition_id;
  num_of_rows = s.num_rows;
  binlogs = [];
  statslogs = [];
  deltalogs = [];
  size = 0;
  group_id = 0;
}

abbrev pub lies_in : Int64 → Segment → Bool
lies_in i s = nat_eq s.partition_id i

keep-new_segment :
    (i : Int64) (segs : List Segment)
    → keep (of_partition i) (map segment_backup_info segs) ≡ map new_segment (keep (lies_in i) segs)
unfolding segment_backup_info
keep-new_segment i [] = refl
keep-new_segment i (s ∷ segs) = ground (arith, keep-new_segment i segs)

sizes_zero :
    (i : Int64) (segs : List Segment)
    → sum64_from 0 (map (λ s. s.size) (keep (of_partition i) (map segment_backup_info segs))) ≡ 0
unfolding sum64_from segment_backup_info
sizes_zero i [] = refl
sizes_zero i (s ∷ segs) = ground (arith, sizes_zero i segs)

-- The partitions of a prepared collection are the ones listed, in the same order, each with just
-- the selected segments of the cluster that lie in it, in their order, with their ids,
-- collections, partitions and numbers of rows and nothing else yet; the sizes of the partitions
-- are zero, whatever the segments hold, and their load states are those recorded under their
-- names.
pub partition_backup_infos_lem :
    (collection_id : Int64) (states : Dict Text Text) (partitions : List Partition)
    (segments : List Segment)
    → partition_backup_infos collection_id states partitions segments
      ≡ map
          (λ (p : Partition). record {
            partition_id = p.id;
            partition_name = p.name;
            collection_id = collection_id;
            segment_backups = map new_segment (keep (lies_in p.id) segments);
            size = 0;
            load_state = elim (lookup p.name states) [ none ↦ [] | some state ↦ state ];
          })
          partitions
unfolding partition_backup_infos lookup sum64_from
partition_backup_infos_lem collection_id states [] segments = refl
partition_backup_infos_lem collection_id states (p ∷ ps) segments =
    rw
      (
        lookup-group_into (λ (s : SegmentBackupInfo). s.partition_id) p.id
            (map segment_backup_info segments) [],
        sizes_zero p.id segments,
        keep-new_segment p.id segments,
      )
      (cc (partition_backup_infos_lem collection_id states ps segments))
