-- ===== src/Tests/Restored.antt =====
-- Restoring a whole backup at concrete inputs.
use milvus_backup.Base.{
  Bool, true, false, [], ◌∷◌, ◌++◌, map, Option, none, some, ◌≡◌, ◌≢◌, refl, Result, ok, err, any,
  ◌&&◌, arith,
}
use milvus_backup.Base.Text.{Text, codes, text_eq, occurs, strip_prefix}
use milvus_backup.Base.Dict.{lookup, insert}
use milvus_backup.Proto.{
  PartitionBackupInfo, RestoreBackupRequest, RestoreBackupTask, RestoreCollectionTask,
}
use milvus_backup.Utils.Requests.{get_restore_db_collections}
use milvus_backup.Restore.Watch.{bulk_insert_completed, watch_bulk_insert_state}
use milvus_backup.Milvus.Wrapper.{
  drop_collection, has_partition, bulk_insert, retried, create_collection,
}
use milvus_backup.Base.Int64.{lt64, mul64}
use milvus_backup.Retry.Config.{new_default_config}
use milvus_backup.Restore.Groups.{collect_group_ids_from_segments}
use milvus_backup.Restore.Partition.{
  get_backup_partition_paths, get_backup_partition_paths_with_group_id,
}
use milvus_backup.Restore.Select.{
  Decoders, select_collections, is_wanted, in_some_db, with_default_db, select_collections-any,
  full_name,
}
use milvus_backup.Restore.Renames.{target_of, target_of-renamed, target_of-inj}
use milvus_backup.Restore.Tasks.{Stamp, new_collection_task}
use milvus_backup.Restore.Run.{Site, World}
use milvus_backup.Restore.Insert.{restore_partition}
use milvus_backup.Restore.Insert.Effects.{IsQuiet}
use milvus_backup.Restore.Insert.Once.{restore_partition-insertions}
use milvus_backup.Restore.Insert.Layout.{asked_insertions, grown}
use milvus_backup.Restore.Execute.{Restored, one_worker, execute_restore_backup_task}
use milvus_backup.Restore.Execute.Ended.{HasEnded, execute_restore_backup_task-HasEnded}
use milvus_backup.Restore.Returns.{WatchesEnd}
use milvus_backup.Restore.Returns.Backup.{execute_restore_backup_task-returns}
use milvus_backup.Restore.Start.{Setting, new_restore_task}
use milvus_backup.Tests.Store.{memory}
use milvus_backup.Tests.Sample.{backup, collection, partition, segment, json}
use milvus_backup.Tests.Cluster.{Memory, test_client, test_client-Logs}

abbrev request : RestoreBackupRequest
request = record {
  request_id = codes "r1";
  backup_name = codes "b1";
  collection_names = codes "books" ∷ [];
  collection_suffix = codes "_copy";
  collection_renames = [];
  async = false;
  bucket_name = [];
  path = [];
  db_collections = none;
  meta_only = false;
  restore_index = true;
  use_auto_index = true;
  drop_exist_collection = false;
  drop_exist_index = false;
  skip_create_collection = false;
}

abbrev decoders : Decoders
decoders = record {
  marshal_to_string = λ j. ok j;
  decode_db_collections = λ s. ok ((s, []) ∷ []);
  print_value = λ r. [];
}

select_collections-any_example :
    any (λ c. text_eq c.collection_name (codes "books")) (collection ∷ [])
    ≡ any
        (λ c. text_eq c.collection_name (codes "books") && is_wanted decoders request c)
        (map in_some_db backup.collection_backups)
unfolding select_collections with_default_db lookup insert text_eq occurs strip_prefix
    get_restore_db_collections
select_collections-any_example =
    select_collections-any decoders request backup (collection ∷ [])
      (λ c. text_eq c.collection_name (codes "books")) refl

abbrev renaming : RestoreBackupRequest
renaming = record request { collection_renames = (codes "books", codes "new.novels") ∷ [] }

target_of-renamed_example :
    target_of renaming collection ≡ record { db = codes "new"; collection_name = codes "novels" }
unfolding occurs strip_prefix full_name
target_of-renamed_example =
    target_of-renamed renaming collection [] [] (codes "books") (codes "new.novels") (codes "new")
      (codes "novels") refl tt refl refl (ground arith) (ground arith)

target_of-inj_example :
    (collection.db_name ≡ collection.db_name) × (collection.schema.name ≡ collection.schema.name)
target_of-inj_example = target_of-inj request collection collection refl refl

abbrev site : Site
site = record {
  cm = memory;
  client = test_client;
  milvus_bucket_name = codes "a-bucket";
  backup_bucket_name = codes "a-bucket";
  backup_path = codes "backup/b1";
  keep_temp_files = false;
  pool_cancelled = false;
  watched = λ c id. record {
    start = 0;
    polls = record { answer = ok bulk_insert_completed; current_timestamp = 1; now = 1 } ∷ [];
  };
  watch_ends = λ c id. c;
}

abbrev empty_cluster : Memory
empty_cluster = record { db = codes "default"; collections = []; inserts = [] }

abbrev stamp : Stamp
stamp = record { id = codes "t1"; start_time = 30 }

abbrev collection_task : RestoreCollectionTask
collection_task = new_collection_task stamp request collection

abbrev world : World site
world = record { cluster = empty_cluster; store = []; task = collection_task; pool_failed = false }

abbrev two_groups : PartitionBackupInfo
two_groups = record partition {
  segment_backups = record segment { group_id = 3 } ∷ record segment { group_id = 4 } ∷ [];
  size = 14;
}

true-ne_false : ◌≢◌ {A = Bool} true false
true-ne_false h = cc

quiet : IsQuiet site test_client-Logs
unfolding text_eq
quiet = record { watch_ends-log = λ c id. refl; copy-exist = λ s p q r h. absurd (true-ne_false h) }

abbrev end_of : Option (Result Text Unit × World site) → World site
end_of none = world
end_of (some (r, w)) = w

abbrev restored_world : World site
unfolding restore_partition
restored_world =
    end_of (restore_partition site (codes "default") (codes "books_copy") [] two_groups world)

restore_partition-insertions_example :
    (test_client-Logs.log restored_world.cluster
      ≡ test_client-Logs.log empty_cluster
        ++ asked_insertions site
            (record {
              db = codes "default";
              coll = codes "books_copy";
              partition = two_groups.partition_name;
            })
            []
            two_groups
            false
            world)
    × (restored_world.task ≡ grown site two_groups false collection_task)
unfolding restored_world new_collection_task has_partition collect_group_ids_from_segments lookup
    insert get_backup_partition_paths_with_group_id text_eq bulk_insert watch_bulk_insert_state
restore_partition-insertions_example =
    restore_partition-insertions site test_client-Logs quiet (codes "default") (codes "books_copy")
      [] two_groups world restored_world refl

abbrev task : RestoreBackupTask
task = record (new_restore_task stamp) { collection_restore_tasks = collection_task ∷ [] }

ends : WatchesEnd site
unfolding watch_bulk_insert_state
ends c id h = absurd (some-ne_none h)
  where
    some-ne_none : ◌≢◌ {A = Option (Option Text)} (some none) none
    some-ne_none k = cc

execute_restore_backup_task-returns_example :
    execute_restore_backup_task site one_worker 99 task empty_cluster [] ≢ none
execute_restore_backup_task-returns_example =
    execute_restore_backup_task-returns site ends refl one_worker 99 task empty_cluster []

abbrev restored_of : Option (Restored site) → Restored site
restored_of (some done) = done
restored_of none = record {
  failure = none;
  tasks = [];
  task = task;
  cluster = empty_cluster;
  store = [];
  pool_failed = false;
}

abbrev done_restore : Restored site
unfolding execute_restore_backup_task
done_restore = restored_of (execute_restore_backup_task site one_worker 99 task empty_cluster [])

execute_restore_backup_task-HasEnded_example :
    HasEnded site task 99 done_restore.failure done_restore.task
unfolding done_restore new_collection_task retried lt64 new_default_config mul64 create_collection
    has_partition collect_group_ids_from_segments lookup get_backup_partition_paths text_eq
    bulk_insert watch_bulk_insert_state
execute_restore_backup_task-HasEnded_example =
    execute_restore_backup_task-HasEnded site 99 task empty_cluster [] done_restore refl

-- The pool is cancelled, and the cluster refuses to drop the collection, so that the restore ends.
abbrev cancelled_site : Site
cancelled_site = record {
  cm = memory;
  client = record test_client { drop_collection = λ name s. (err (codes "no"), s) };
  milvus_bucket_name = codes "a-bucket";
  backup_bucket_name = codes "a-bucket";
  backup_path = codes "backup/b1";
  keep_temp_files = false;
  pool_cancelled = true;
  watched = site.watched;
  watch_ends = site.watch_ends;
}

abbrev dropping_task : RestoreBackupTask
dropping_task = record task {
  collection_restore_tasks = record collection_task { drop_exist_collection = true } ∷ [];
}

abbrev stopped_of : Option (Restored cancelled_site) → Restored cancelled_site
stopped_of (some done) = done
stopped_of none = record {
  failure = none;
  tasks = [];
  task = dropping_task;
  cluster = empty_cluster;
  store = [];
  pool_failed = false;
}

abbrev stopped_restore : Restored cancelled_site
unfolding execute_restore_backup_task
stopped_restore =
    stopped_of
      (execute_restore_backup_task cancelled_site one_worker 99 dropping_task empty_cluster [])

abbrev setting : Setting
setting = record {
  cm = memory;
  client = test_client;
  json = json;
  decoders = decoders;
  keep_temp_files = false;
  restore_parallelism = one_worker;
  watched = site.watched;
  watch_ends = site.watch_ends;
  uuid = codes "u1";
  get_uuid = codes "u2";
  stamp = stamp;
  stamps = λ n. stamp;
  end_time = 99;
}

abbrev full_cluster : Memory
full_cluster = record empty_cluster { collections = (codes "default", codes "books_copy") ∷ [] }
