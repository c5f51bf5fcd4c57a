-- ===== src/Tests/Serving.antt =====
-- The calls of the context at concrete inputs.
use milvus_backup.Base.{List, true, [], ◌∷◌, ◌≡◌, ◌≢◌, ◌↔◌, refl, ok, concat_map, ◌&&◌}
use milvus_backup.Base.Text.{Text, codes, strip_prefix, text_eq, text_key, has_prefix, replace_once}
use milvus_backup.Base.Int64.{Int64}
use milvus_backup.Base.Dict.{lookup, insert}
use milvus_backup.Proto.{
  GetBackupRequest, DeleteBackupRequest, DeleteBackupResponse, ListBackupsRequest,
  GetRestoreStateRequest, fail, success, parameter_error, request_object_not_found,
}
use milvus_backup.Meta.Files.{deserialize}
use milvus_backup.Create.Write.{write_files}
use milvus_backup.Meta.Paths.{
  backup_meta_path, backup_meta_dir_path, collection_meta_path, partition_meta_path,
  segment_meta_path, full_meta_path, backup_path_to_name,
}
use milvus_backup.Context.State.{BackupContext, ensure_started}
use milvus_backup.Context.Get.{
  is_empty, request_id_or, success_msg, get_backup, get_backup-code, backup_location, read_backup,
}
use milvus_backup.Context.List.{named, list_backups}
use milvus_backup.Context.List.Shown.{list_backups_lem, shown_at}
use milvus_backup.Context.Delete.{
  delete_backup, refusal, get_backup-delete_backup_known, get_backup-delete_backup_unknown,
}
use milvus_backup.Tests.Store.{memory, memory-IsLawful}
use milvus_backup.Tests.Sample.{backup, json, context, storage}
use milvus_backup.Tests.Metadata.{task}

-- The storage holds the backup, and the tables do not.
abbrev stored : BackupContext memory
stored = record context { storage = storage }

-- The tables hold the backup.
abbrev known : BackupContext memory
known = record context {
  storage = storage;
  backup_name_id_dict = (codes "b1", codes "id1") ∷ [];
  backup_tasks = (codes "id1", backup) ∷ [];
}

abbrev id_request : GetBackupRequest
id_request = record (named []) { backup_id = codes "id7" }

get_backup-code_example :
    ((get_backup memory json (codes "u") stored id_request).0.code ≢ fail)
    × (((get_backup memory json (codes "u") stored id_request).0.code ≡ parameter_error)
        ↔ ((is_empty id_request.backup_id && is_empty id_request.backup_name) ≡ true))
get_backup-code_example = get_backup-code memory json (codes "u") stored id_request

abbrev list_request : ListBackupsRequest
list_request = record { request_id = codes "r"; collection_name = codes "books" }

-- The directory of a backup in the storage, which the tables know.
abbrev listing : BackupContext memory
listing = record known { storage = (codes "backup/b1/", []) ∷ [] }

abbrev listed_paths : List (Text × Int64)
listed_paths = (codes "backup/b1/", 1) ∷ []

list_backups_example : list_backups memory json (codes "u") listing list_request ≡ (
  record {
    request_id = request_id_or (codes "r") (codes "u");
    code = success;
    msg = success_msg;
    backups =
        concat_map
          (shown_at memory json (codes "u") (ensure_started memory listing) (codes "books"))
          listed_paths;
  },
  ensure_started memory listing,
)
unfolding ensure_started has_prefix strip_prefix
list_backups_example =
    list_backups_lem memory json (codes "u") listing list_request (ok listed_paths) refl

-- It is listed once, for its one collection of the name.
list_backups_once :
    (list_backups memory json (codes "u") listing list_request).0.backups ≡ backup ∷ []
unfolding list_backups get_backup text_eq lookup has_prefix backup_path_to_name replace_once
list_backups_once = refl

abbrev delete_request : DeleteBackupRequest
delete_request = record { request_id = codes "r"; backup_name = codes "b1" }

get_backup-delete_backup_known_example :
    (get_backup memory json
      (codes "v")
      (delete_backup memory json (codes "u") known delete_request).1
      (named (codes "b1"))).0
    ≡ record {
      request_id = request_id_or [] (codes "v");
      code = success;
      msg = success_msg;
      backup = lookup (codes "id1") known.backup_tasks;
    }
unfolding text_eq lookup
get_backup-delete_backup_known_example =
    get_backup-delete_backup_known memory json (codes "u") (codes "v") known delete_request
      (codes "id1") refl refl refl

abbrev deleted : DeleteBackupResponse
deleted = record { request_id = codes "r"; code = success; msg = success_msg }

get_backup-delete_backup_unknown_example :
    (get_backup memory json
      (codes "v")
      (delete_backup memory json (codes "u") stored delete_request).1
      (named (codes "b1"))).0.code
    ≡ request_object_not_found
unfolding text_eq lookup delete_backup get_backup read_backup json storage backup_location
    request_id_or deserialize refusal has_prefix write_files insert backup_meta_path
    backup_meta_dir_path collection_meta_path partition_meta_path segment_meta_path full_meta_path
get_backup-delete_backup_unknown_example =
    get_backup-delete_backup_unknown memory json memory-IsLawful (codes "u") (codes "v") stored
      delete_request deleted refl refl refl refl refl

abbrev restoring : BackupContext memory
restoring = record context { restore_tasks = (codes "t", task) ∷ [] }

abbrev restore_request : GetRestoreStateRequest
restore_request = record { request_id = codes "r"; id = codes "t" }
