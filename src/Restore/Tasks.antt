-- ===== src/Restore/Tasks.antt =====
-- RestoreBackup: the tasks of the selected collections. A missing target database is created, and a
-- target collection that exists already ends the call.
pub mod Targets
use milvus_backup.Base.{
  ℕ, suc, Bool, true, false, not, List, [], ◌∷◌, ◌++◌, map, Option, none, some, ◌≡◌, refl, ◌∙◌, sym,
  ap, Result, ok, err, if◌then◌else◌, arith, All, any, length, Result-cases, Bool-cases, inl, inr,
  append_assoc, append-nil,
}
use milvus_backup.Base.Text.{Text, codes, text_eq, text_key}
use milvus_backup.Base.Int64.{Int64, add64, sum64, sum64_from}
use milvus_backup.Proto.{
  CollectionBackupInfo, RestoreBackupRequest, RestoreBackupTask, RestoreCollectionTask, initial,
}
use milvus_backup.Create.Collections.{CollectionStruct, dot}
use milvus_backup.Milvus.Client.{Client, Call, ◌>>=◌, ◌>>◌, pure, raise, explain}
use milvus_backup.Milvus.Wrapper.{list_databases, create_database, has_collection}
use milvus_backup.Milvus.Laws.{Shows, has_collection-answer, has_collection-keeps}
use milvus_backup.Restore.Renames.{target_of, schema_name_in_db}

-- A fresh UUID and the clock, for each round of the loop.
pub record Stamp : Type 0 where
  pub id : Text
  pub start_time : Int64

abbrev pub full_target : CollectionStruct → Text
full_target t = t.db ++ dot ∷ t.collection_name

abbrev pub list_databases_msg : Text
list_databases_msg = codes "fail to list databases, err: "

abbrev pub create_database_msg : Text → Text
create_database_msg db = codes "fail to create database " ++ (db ++ codes ", err: ")

abbrev pub has_collection_msg : CollectionStruct → Text
has_collection_msg t =
    codes "fail to check whether the collection is exist, collection_name: "
    ++ (full_target t ++ codes ", err: ")

abbrev pub exists_already_msg : CollectionBackupInfo → CollectionStruct → Text
exists_already_msg c t =
    codes "The collection to restore already exists, backupCollectName: "
    ++ (schema_name_in_db c ++ (codes ", targetCollectionName: " ++ full_target t))

-- toRestoreSize
abbrev pub to_restore_size_of : CollectionBackupInfo → Int64
to_restore_size_of c = sum64 (map (λ p. p.size) c.partition_backups)

unfoldable pub new_collection_task :
    Stamp → RestoreBackupRequest → CollectionBackupInfo → RestoreCollectionTask
new_collection_task stamp request c =
    let t = target_of request c in
    record {
      id = stamp.id;
      state_code = initial;
      error_message = [];
      start_time = stamp.start_time;
      end_time = 0;
      coll_backup = some c;
      target_collection_name = t.collection_name;
      partition_restore_tasks = [];
      restored_size = 0;
      to_restore_size = to_restore_size_of c;
      progress = 0;
      target_db_name = t.db;
      meta_only = request.meta_only;
      restore_index = request.restore_index;
      use_auto_index = request.use_auto_index;
      drop_exist_collection = request.drop_exist_collection;
      drop_exist_index = request.drop_exist_index;
      skip_create_collection = request.skip_create_collection;
    }

unfoldable pub add_collection_task : RestoreCollectionTask → RestoreBackupTask → RestoreBackupTask
add_collection_task t task = record task {
  collection_restore_tasks = task.collection_restore_tasks ++ t ∷ [];
  to_restore_size = add64 task.to_restore_size t.to_restore_size;
}

module _ (client : Client) (stamps : ℕ → Stamp) (request : RestoreBackupRequest) where
  abbrev M : Type 0 → Type 0
  M A = Call client.State A

  unfoldable pub ensure_database : Text → M Unit
  ensure_database db = do
    dbs ← explain list_databases_msg (list_databases client)
    if any (λ name. text_eq name db) dbs
        then pure tt
        else explain (create_database_msg db) (create_database client db)

  unfoldable pub refuse_existing : CollectionBackupInfo → CollectionStruct → M Unit
  refuse_existing c t =
      if not request.skip_create_collection
      then (do
        exist ← explain (has_collection_msg t) (has_collection client t.db t.collection_name)
        if exist then raise (exists_already_msg c t) else pure tt)
      else pure tt

  unfoldable pub make_tasks :
      ℕ → List CollectionBackupInfo → RestoreBackupTask → M RestoreBackupTask
  unfolding ensure_database refuse_existing new_collection_task add_collection_task
  make_tasks round [] task = pure task
  make_tasks round (c ∷ collections) task = do
    ensure_database (target_of request c).db
    refuse_existing c (target_of request c)
    make_tasks (suc round) collections
        (add_collection_task (new_collection_task (stamps round) request c) task)
