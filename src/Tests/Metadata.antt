-- ===== src/Tests/Metadata.antt =====
-- The metadata of a backup at concrete inputs.
use milvus_backup.Base.{
  ◌*◌, ◌/◌, ◌≤◌, false, [], ◌∷◌, none, some, ◌≡◌, arith, nat_eq, if◌then◌else◌,
}
use milvus_backup.Base.Text.{codes}
use milvus_backup.Proto.{
  BackupInfoResponse, RestoreBackupTask, RestoreCollectionTask, executing, success,
}
use milvus_backup.Meta.Levels.{tree_to_level, level_to_tree}
use milvus_backup.Meta.RoundTrip.{durable, level_to_tree-tree_to_level}
use milvus_backup.Meta.Progress.{
  total, restored_sizes, update_restore_backup_task, update_restore_backup_task-progress,
}
use milvus_backup.Tests.Sample.{backup, consistent}

level_to_tree-tree_to_level_example : level_to_tree (tree_to_level backup) ≡ durable backup
level_to_tree-tree_to_level_example = level_to_tree-tree_to_level backup consistent

abbrev response : BackupInfoResponse
response = record { request_id = codes "r"; code = success; msg = []; backup = some backup }

abbrev collection_task : RestoreCollectionTask
collection_task = record {
  id = codes "t1";
  state_code = executing;
  error_message = [];
  start_time = 0;
  end_time = 0;
  coll_backup = none;
  target_collection_name = codes "books";
  partition_restore_tasks = [];
  restored_size = 50;
  to_restore_size = 80;
  progress = 0;
  target_db_name = [];
  meta_only = false;
  restore_index = false;
  use_auto_index = false;
  drop_exist_collection = false;
  drop_exist_index = false;
  skip_create_collection = false;
}

abbrev pub task : RestoreBackupTask
task = record {
  id = codes "t";
  state_code = executing;
  error_message = [];
  start_time = 0;
  end_time = 0;
  collection_restore_tasks = collection_task ∷ [];
  restored_size = 0;
  to_restore_size = 80;
  progress = 0;
}

update_restore_backup_task-progress_example :
    ((update_restore_backup_task task).progress ≤ 100)
    × ((update_restore_backup_task task).progress ≡ (
        if nat_eq task.to_restore_size 0
        then 100
        else total (restored_sizes task) * 100 / task.to_restore_size))
update_restore_backup_task-progress_example =
    update_restore_backup_task-progress task (omega arith) (omega arith)
