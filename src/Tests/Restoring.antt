-- ===== src/Tests/Restoring.antt =====
-- Restoring at concrete inputs.
use milvus_backup.Base.{
  ◌+◌, true, List, [], ◌∷◌, ◌++◌, none, some, ◌≡◌, refl, ok, if◌then◌else◌, arith, any, leb,
}
use milvus_backup.Base.Text.{codes, occurs, has_prefix}
use milvus_backup.Base.Decimal.{print_int64}
use milvus_backup.Meta.Paths.{slash, insert_log_dir, backup_binlog_dir_path}
use milvus_backup.Create.Paths.{target_path}
use milvus_backup.Restore.Watch.{
  Poll, other_state, watch_bulk_insert_state, timeout_msg, watch_bulk_insert_state-IsHalfway,
  watch_bulk_insert_state-IsIdle,
}
use milvus_backup.Restore.Groups.{
  collect_group_ids_from_segments, count_id, has_group, collect_group_ids_from_segments-count,
}
use milvus_backup.Restore.Partition.{middle, group_dir, target_path-group_dir}
use milvus_backup.Tests.Sample.{partition, segment}

abbrev halfway : Poll
halfway = record { answer = ok (other_state 50); current_timestamp = 9000; now = 9000 }

watch_bulk_insert_state-IsHalfway_example :
    watch_bulk_insert_state 3600 1000 (halfway ∷ record halfway { current_timestamp = 99000 } ∷ [])
    ≡ none
watch_bulk_insert_state-IsHalfway_example =
    watch_bulk_insert_state-IsHalfway 3600 1000
      (halfway ∷ record halfway { current_timestamp = 99000 } ∷ [])
      ((50, omega arith, refl), ((50, omega arith, refl), tt))

abbrev idle : List Poll
idle = record { answer = ok (other_state 0); current_timestamp = 4600; now = 4600 } ∷ []

watch_bulk_insert_state-IsIdle_example : watch_bulk_insert_state 3600 1000 idle ≡ (
    if any (λ p. leb (1000 + 3600) p.current_timestamp) idle then some (some timeout_msg) else none)
watch_bulk_insert_state-IsIdle_example = watch_bulk_insert_state-IsIdle 3600 1000 idle (refl, tt)

collect_group_ids_from_segments-count_example :
    count_id 0 (collect_group_ids_from_segments (segment ∷ segment ∷ []))
    ≡ (if has_group 0 (segment ∷ segment ∷ []) then 1 else 0)
collect_group_ids_from_segments-count_example =
    collect_group_ids_from_segments-count 0 (segment ∷ segment ∷ [])

target_path-group_dir_example :
    has_prefix
      (target_path (codes "files") (backup_binlog_dir_path (codes "backup") (codes "b")) 2 3 (
        codes "files"
        ++ (middle insert_log_dir 1 ++ b'/' ∷ (print_int64 2 ++ (slash ++ codes "3/100/9")))))
      (group_dir (codes "backup" ++ (slash ++ codes "b")) insert_log_dir partition 3)
    ≡ true
unfolding occurs print_int64 backup_binlog_dir_path
target_path-group_dir_example =
    target_path-group_dir (codes "files") (codes "backup") (codes "b") insert_log_dir
      (codes "3/100/9") partition 3 (λ e. omega arith) (λ e. absurd (ground arith)) refl
