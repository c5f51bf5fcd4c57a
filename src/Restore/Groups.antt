-- ===== src/Restore/Groups.antt =====
-- collectGroupIdsFromSegments.
use milvus_backup.Base.{
  ℕ, Bool, true, false, List, [], ◌∷◌, Option, none, some, ◌≡◌, if◌then◌else◌, arith, keep, any,
  length, nat_eq, nat_key, ◌&&◌,
}
use milvus_backup.Base.Dict.{Dict, lookup, insert, lookup-insert}
use milvus_backup.Base.Int64.{Int64}
use milvus_backup.Proto.{SegmentBackupInfo}

unfoldable pub collect_into : Dict Int64 Bool → List SegmentBackupInfo → List Int64
collect_into dict [] = []
collect_into dict (seg ∷ segments) =
    let added = collect_into (insert seg.group_id true dict) segments in
    let skipped = collect_into dict segments in
    elim (lookup seg.group_id dict) [ none ↦ seg.group_id ∷ added | some _ ↦ skipped ]

unfoldable pub collect_group_ids_from_segments : List SegmentBackupInfo → List Int64
unfolding collect_into
collect_group_ids_from_segments segments = collect_into [] segments

abbrev pub count_id : Int64 → List Int64 → ℕ
count_id g ids = length (keep (λ j. nat_eq j g) ids)

abbrev pub has_group : Int64 → List SegmentBackupInfo → Bool
has_group g = any (λ s. nat_eq s.group_id g)

abbrev is_none : {A : Type 0} → Option A → Bool
is_none none = true
is_none (some _) = false

collect_into-count :
    (g : Int64) (dict : Dict Int64 Bool) (segments : List SegmentBackupInfo)
    → count_id g (collect_into dict segments)
      ≡ (if is_none (lookup g dict) && has_group g segments then 1 else 0)
unfolding collect_into
collect_into-count g dict [] = ground arith
collect_into-count g dict (seg ∷ segments) = ground (
  arith,
  collect_into-count g dict segments,
  collect_into-count g (insert seg.group_id true dict) segments,
  lookup-insert g seg.group_id true dict,
)

-- A group id is collected exactly once if a segment has it, and not at all otherwise.
pub collect_group_ids_from_segments-count :
    (g : Int64) (segments : List SegmentBackupInfo)
    → count_id g (collect_group_ids_from_segments segments)
      ≡ (if has_group g segments then 1 else 0)
unfolding collect_group_ids_from_segments lookup
collect_group_ids_from_segments-count g segments = collect_into-count g [] segments
