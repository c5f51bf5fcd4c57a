-- ===== src/Meta/Responses.antt =====
-- SimpleListBackupsResponse, SimpleBackupResponse and SimpleRestoreResponse of core/backup_meta.go.
use milvus_backup.Base.{Option, none, some, List, [], map, ◌≡◌, refl, map-map, false}
use milvus_backup.Proto.{
  BackupInfo, CollectionBackupInfo, ListBackupsResponse, BackupInfoResponse, RestoreCollectionTask,
  RestoreBackupTask, RestoreBackupResponse, initial,
}
use milvus_backup.Meta.Files.{empty_backup}

unfoldable pub simple_list_entry : BackupInfo → BackupInfo
simple_list_entry b = record empty_backup {
  id = b.id;
  name = b.name;
  state_code = b.state_code;
  error_message = b.error_message;
  backup_timestamp = b.backup_timestamp;
  size = b.size;
  start_time = b.start_time;
  end_time = b.end_time;
  milvus_version = b.milvus_version;
}

unfoldable pub simple_list_backups_response : ListBackupsResponse → ListBackupsResponse
unfolding simple_list_entry
simple_list_backups_response r = record {
  request_id = r.request_id;
  code = r.code;
  msg = r.msg;
  backups = map simple_list_entry r.backups;
}

-- Shards, consistency level and times are left out, and so are the partitions.
unfoldable pub simple_collection : CollectionBackupInfo → CollectionBackupInfo
simple_collection c = record {
  id = [];
  state_code = c.state_code;
  error_message = c.error_message;
  start_time = 0;
  end_time = 0;
  progress = c.progress;
  collection_id = c.collection_id;
  db_name = c.db_name;
  collection_name = c.collection_name;
  schema = c.schema;
  shards_num = 0;
  consistency_level = 0;
  partition_backups = [];
  backup_timestamp = c.backup_timestamp;
  size = c.size;
  has_index = c.has_index;
  index_infos = c.index_infos;
  load_state = c.load_state;
  backup_physical_timestamp = c.backup_physical_timestamp;
}

-- The getters of a nil message read zero values.
abbrev pub backup_or_empty : Option BackupInfo → BackupInfo
backup_or_empty none = empty_backup
backup_or_empty (some b) = b

unfoldable pub simple_backup_response : BackupInfoResponse → BackupInfoResponse
unfolding simple_collection
simple_backup_response r =
    let b : BackupInfo = backup_or_empty r.backup in
    record {
      request_id = r.request_id;
      code = r.code;
      msg = r.msg;
      backup = some (record {
        id = b.id;
        name = b.name;
        state_code = b.state_code;
        error_message = b.error_message;
        backup_timestamp = b.backup_timestamp;
        collection_backups = map simple_collection b.collection_backups;
        milvus_version = b.milvus_version;
        start_time = b.start_time;
        end_time = b.end_time;
        progress = b.progress;
        size = b.size;
      });
    }

unfoldable pub simple_restore_collection_task : RestoreCollectionTask → RestoreCollectionTask
simple_restore_collection_task t = record {
  id = t.id;
  state_code = t.state_code;
  error_message = t.error_message;
  start_time = t.start_time;
  end_time = t.end_time;
  coll_backup = none;
  target_collection_name = t.target_collection_name;
  partition_restore_tasks = [];
  restored_size = t.restored_size;
  to_restore_size = t.to_restore_size;
  progress = t.progress;
  target_db_name = t.target_db_name;
  meta_only = false;
  restore_index = false;
  use_auto_index = false;
  drop_exist_collection = false;
  drop_exist_index = false;
  skip_create_collection = false;
}

-- &backuppb.RestoreBackupTask{}
abbrev pub empty_restore : RestoreBackupTask
empty_restore = record {
  id = [];
  state_code = initial;
  error_message = [];
  start_time = 0;
  end_time = 0;
  collection_restore_tasks = [];
  restored_size = 0;
  to_restore_size = 0;
  progress = 0;
}

abbrev pub restore_or_empty : Option RestoreBackupTask → RestoreBackupTask
restore_or_empty none = empty_restore
restore_or_empty (some t) = t

unfoldable pub simple_restore_response : RestoreBackupResponse → RestoreBackupResponse
unfolding simple_restore_collection_task
simple_restore_response r =
    let t : RestoreBackupTask = restore_or_empty r.task in
    record {
      request_id = r.request_id;
      code = r.code;
      msg = r.msg;
      task = some (record empty_restore {
        id = t.id;
        state_code = t.state_code;
        error_message = t.error_message;
        start_time = t.start_time;
        end_time = t.end_time;
        collection_restore_tasks = map simple_restore_collection_task t.collection_restore_tasks;
        progress = t.progress;
      });
    }

simple_collections_twice :
    (cs : List CollectionBackupInfo)
    → map simple_collection (map simple_collection cs) ≡ map simple_collection cs
unfolding simple_collection
simple_collections_twice cs = map-map simple_collection simple_collection cs

-- Shortening a response again changes nothing, and the short form always carries a backup, also
-- where the response had none.
pub simple_backup_response_idem :
    (r : BackupInfoResponse)
    → (simple_backup_response (simple_backup_response r) ≡ simple_backup_response r)
      × ((b : BackupInfo) × ((simple_backup_response r).backup ≡ some b))
unfolding simple_backup_response
simple_backup_response_idem r = (
  λ i. record (simple_backup_response r) {
    backup = some (record (short (backup_or_empty r.backup)) {
      collection_backups = simple_collections_twice (backup_or_empty r.backup).collection_backups i;
    });
  },
  (short (backup_or_empty r.backup), refl),
)
  where
    short : BackupInfo → BackupInfo
    short b = record b { collection_backups = map simple_collection b.collection_backups }
