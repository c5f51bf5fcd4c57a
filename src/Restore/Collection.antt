-- ===== src/Restore/Collection.antt =====
-- executeRestoreCollectionTask, with the shared pool of the partitions at one worker.
use milvus_backup.Base.{
  true, Bool, false, not, ◌&&◌, List, [], ◌∷◌, ◌++◌, map, any, length, none, some, ok, err,
  if◌then◌else◌,
}
use milvus_backup.Base.Text.{Text, codes, text_key}
use milvus_backup.Proto.{
  CollectionBackupInfo, CollectionSchema, FieldSchema, PartitionBackupInfo, RestoreCollectionTask,
  executing, failed, backup_initial,
}
use milvus_backup.Utils.KeyValue.{kv_pairs_map}
use milvus_backup.Retry.Config.{attempts, sleep}
use milvus_backup.Milvus.Client.{Field, Schema, CreateOptions}
use milvus_backup.Milvus.Wrapper.{create_collection, drop_collection, retried, second}
use milvus_backup.Restore.Run.{Site, World, R, ◌>>=◌, ◌>>◌, pure, on_cluster, get_task, set_task}
use milvus_backup.Restore.Index.{drop_all_indexes, create_indexes}
use milvus_backup.Restore.Insert.{restore_partition, is_same_bucket}

unfoldable pub entity_field : FieldSchema → Field
entity_field field = record {
  id = field.field_id;
  name = field.name;
  primary_key = field.is_primary_key;
  auto_id = field.auto_id;
  description = field.description;
  data_type = field.data_type;
  type_params = kv_pairs_map field.type_params;
  index_params = kv_pairs_map field.index_params;
  is_dynamic = field.is_dynamic;
  is_partition_key = field.is_partition_key;
  element_type = field.element_type;
}

unfoldable pub entity_schema : Text → CollectionSchema → Schema
unfolding entity_field
entity_schema collection_name schema = record {
  collection_name = collection_name;
  description = schema.description;
  auto_id = schema.auto_id;
  fields = map entity_field schema.fields;
  enable_dynamic_field = schema.enable_dynamic_field;
}

abbrev pub has_partition_key : CollectionSchema → Bool
has_partition_key schema = any (λ field. field.is_partition_key) schema.fields

-- With a partition key the number of partitions is given.
unfoldable pub create_options : CollectionBackupInfo → CreateOptions
create_options c = record {
  consistency_level = c.consistency_level;
  partition_num = if has_partition_key c.schema then some (length c.partition_backups) else none;
}

unfoldable pub temp_dir_of : Text → RestoreCollectionTask → Text
temp_dir_of parent_task_id task =
    codes "restore-temp-"
    ++ (parent_task_id
        ++ (codes "-"
            ++ (task.target_db_name ++ (codes "-" ++ (task.target_collection_name ++ codes "/")))))

-- What the getters give of no collection at all.
abbrev no_collection : CollectionBackupInfo
no_collection = record {
  id = [];
  state_code = backup_initial;
  error_message = [];
  start_time = 0;
  end_time = 0;
  progress = 0;
  collection_id = 0;
  db_name = [];
  collection_name = [];
  schema = record {
    name = [];
    description = [];
    auto_id = false;
    fields = [];
    enable_dynamic_field = false;
  };
  shards_num = 0;
  consistency_level = 0;
  partition_backups = [];
  backup_timestamp = 0;
  size = 0;
  has_index = false;
  index_infos = [];
  load_state = [];
  backup_physical_timestamp = 0;
}

abbrev pub collection_of : RestoreCollectionTask → CollectionBackupInfo
collection_of task = elim task.coll_backup [ none ↦ no_collection | some c ↦ c ]

abbrev pub drop_msg : RestoreCollectionTask → Text
drop_msg task =
    codes "fail to drop collection, CollectionName: "
    ++ (task.target_db_name ++ (codes "." ++ (task.target_collection_name ++ codes " err: ")))

abbrev pub create_msg : RestoreCollectionTask → Text
create_msg task =
    codes "fail to create collection, targetCollectionName: "
    ++ (task.target_collection_name ++ codes " err: ")

module _ (site : Site) where
  -- A failure is also recorded in the task.
  unfoldable pub or_fail_task : Text → R site Unit → R site Unit
  or_fail_task msg m w = elim (m w) [
    | none ↦ none
    | some (r, w') ↦ elim r [
      | ok _ ↦ some (ok tt, w')
      | err e ↦ some (
        err e,
        record w' { task = record w'.task { state_code = failed; error_message = msg ++ e } },
      )
    ]
  ]

  -- The jobs of the partitions, on a shared pool with one worker. The first error cancels the pool's
  -- context before the next job may start; the jobs behind it are refused, and WaitJobs returns the
  -- error. On a pool that is cancelled from the start, all jobs are refused, no status is ever stored,
  -- and WaitJobs does not return.
  unfoldable pub run_partitions :
      Text → List PartitionBackupInfo → RestoreCollectionTask → R site Unit
  unfolding restore_partition
  run_partitions temp_dir [] task w = some (ok tt, w)
  run_partitions temp_dir (p ∷ ps) task w =
      if site.pool_cancelled
      then none
      else (elim (restore_partition site task.target_db_name task.target_collection_name temp_dir p
          w) [
            | none ↦ none
            | some (r, w') ↦ elim r [
              | err e ↦ some (err e, record w' { pool_failed = true })
              | ok _ ↦ run_partitions temp_dir ps task w'
            ]
          ])

  -- The deferred removal; its error is only logged.
  unfoldable pub clean_temp_files : Text → World site → World site
  clean_temp_files temp_dir w =
      if not (is_same_bucket site) && not site.keep_temp_files
      then record w {
        store = (site.cm.remove_with_prefix w.store site.milvus_bucket_name temp_dir).1;
      }
      else w

  unfoldable pub restore_data : Text → RestoreCollectionTask → R site Unit
  unfolding run_partitions clean_temp_files
  restore_data temp_dir task w =
      elim (run_partitions temp_dir (collection_of task).partition_backups task w) [
        | none ↦ none
        | some (r, w') ↦ some (r, clean_temp_files temp_dir w')
      ]

  unfoldable pub drop_existing : RestoreCollectionTask → R site Unit
  unfolding or_fail_task
  drop_existing task =
      if task.drop_exist_collection
      then or_fail_task (drop_msg task) (
          on_cluster site
            (drop_collection site.client task.target_db_name task.target_collection_name))
      else pure tt

  -- The client's call is retried, although the client retries it itself.
  unfoldable pub create_new : RestoreCollectionTask → R site Unit
  unfolding or_fail_task entity_schema create_options
  create_new task =
      let c = collection_of task in
      if not task.skip_create_collection
      then or_fail_task (create_msg task) (
          on_cluster site (
            retried site.client (attempts 10 ∷ sleep second ∷ []) (
              create_collection site.client task.target_db_name
                (entity_schema task.target_collection_name c.schema) c.shards_num
                (create_options c))))
      else pure tt

  unfoldable pub drop_old_indexes : RestoreCollectionTask → R site Unit
  unfolding drop_all_indexes
  drop_old_indexes task =
      if task.drop_exist_index
      then drop_all_indexes site task.target_db_name task.target_collection_name
          (collection_of task).schema.fields
      else pure tt

  unfoldable pub restore_indexes : RestoreCollectionTask → R site Unit
  unfolding create_indexes entity_schema
  restore_indexes task =
      let c = collection_of task in
      if task.restore_index
      then create_indexes site task.target_db_name task.target_collection_name
          (entity_schema task.target_collection_name c.schema).fields task.use_auto_index
          c.index_infos
      else pure tt

  unfoldable pub execute_restore_collection_task : Text → R site Unit
  unfolding drop_existing create_new drop_old_indexes restore_indexes restore_data temp_dir_of
  execute_restore_collection_task parent_task_id = do
    set_task site (λ t. record t { state_code = executing })
    task ← get_task site
    drop_existing task
    create_new task
    drop_old_indexes task
    restore_indexes task
    restore_data (temp_dir_of parent_task_id task) task
