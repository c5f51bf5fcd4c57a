-- ===== src/Create/Paths.antt =====
-- Where copySegments copies a log file to: backupPathFunc, and the segment's id put in behind the
-- partition's as the group.
use milvus_backup.Base.{ℕ, false, [], ◌∷◌, ◌++◌, ◌≡◌, ◌≢◌, refl, if◌then◌else◌, arith, append_assoc}
use milvus_backup.Base.Text.{
  Text, replace_once, occurs, Lacks, text_eq, replace_once-across, replace_once-prefix,
}
use milvus_backup.Base.Int64.{Int64}
use milvus_backup.Base.Decimal.{print_int64, print_int64-Lacks, print_int64-cons}
use milvus_backup.Base.{nat_eq}
use milvus_backup.Meta.Paths.{slash}

-- dst_path is BackupBinlogDirPath of the backup.
unfoldable pub backup_path : Text → Text → Text → Text
backup_path root_path dst_path binlog_path =
    if text_eq root_path []
    then dst_path ++ (slash ++ binlog_path)
    else replace_once binlog_path root_path dst_path

unfoldable pub with_group : Int64 → Int64 → Text → Text
with_group partition_id group_id target =
    if nat_eq group_id 0
    then target
    else replace_once target (print_int64 partition_id)
        (print_int64 partition_id ++ (slash ++ print_int64 group_id))

unfoldable pub target_path : Text → Text → Int64 → Int64 → Text → Text
unfolding backup_path with_group
target_path root_path dst_path partition_id group_id binlog_path =
    with_group partition_id group_id (backup_path root_path dst_path binlog_path)

-- Behind a part that lacks the text of the id, the id is replaced where it stands.
with_group-found :
    (p g : Int64) (head rest : Text)
    → g ≢ 0
    → occurs (print_int64 p) head ≡ false
    → with_group p g (head ++ b'/' ∷ (print_int64 p ++ rest))
      ≡ head ++ b'/' ∷ (print_int64 p ++ (b'/' ∷ (print_int64 g ++ rest)))
unfolding with_group
with_group-found p g head rest h o =
    found (print_int64 p) (print_int64-cons p)
      (print_int64-Lacks b'/' p (omega arith) (λ e. omega arith)) o
  where
    found :
        (t : Text)
        → (c : ℕ) × (s : Text) × (t ≡ c ∷ s)
        → Lacks b'/' t
        → occurs t head ≡ false
        → (if nat_eq g 0
            then head ++ b'/' ∷ (t ++ rest)
            else replace_once (head ++ b'/' ∷ (t ++ rest)) t (t ++ (slash ++ print_int64 g)))
          ≡ head ++ b'/' ∷ (t ++ (b'/' ∷ (print_int64 g ++ rest)))
    found [] (c, s, e) l o = absurd (ground arith)
    found (c ∷ s) _ l o = ground (
      arith,
      replace_once-across b'/' c s head ((c ∷ s) ++ rest) ((c ∷ s) ++ (slash ++ print_int64 g)) l o,
      replace_once-prefix c s rest ((c ∷ s) ++ (slash ++ print_int64 g)),
      append_assoc (c ∷ s) (slash ++ print_int64 g) rest,
    )

-- A log file below the cluster's root, whose path is the root, `middle`, the partition's id as a
-- part of its own, and `rest`, is copied to the backup's directory with the same path and the
-- group's id put in behind the partition's, if the root is not empty, the group is not 0, and the
-- text of the partition's id does not occur in the backup's directory followed by `middle`.
pub target_path-layout :
    (root dst : Text) (p g : Int64) (middle rest : Text)
    → g ≢ 0
    → root ≢ []
    → occurs (print_int64 p) (dst ++ middle) ≡ false
    → target_path root dst p g (root ++ (middle ++ b'/' ∷ (print_int64 p ++ rest)))
      ≡ dst ++ (middle ++ b'/' ∷ (print_int64 p ++ b'/' ∷ (print_int64 g ++ rest)))
unfolding target_path backup_path text_eq
target_path-layout [] dst p g middle rest hg hr o = absurd (hr refl)
target_path-layout (c ∷ root) dst p g middle rest hg hr o =
    rw
      (
        replace_once-prefix c root (middle ++ b'/' ∷ (print_int64 p ++ rest)) dst,
        ← append_assoc dst middle (b'/' ∷ (print_int64 p ++ rest)),
        ← append_assoc dst middle (b'/' ∷ (print_int64 p ++ b'/' ∷ (print_int64 g ++ rest))),
      )
      (with_group-found p g (dst ++ middle) rest hg o)
