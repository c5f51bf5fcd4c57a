-- ===== src/Restore/Start.antt =====
-- RestoreBackup. The clock, fresh UUIDs, the decoders and the configuration are parameters.
pub mod Refusal
use milvus_backup.Base.{
  ℕ, Bool, true, false, not, ◌&&◌, ◌||◌, List, [], ◌∷◌, ◌++◌, Option, none, some, Result, ok, err,
  if◌then◌else◌, nat_eq,
}
use milvus_backup.Base.Text.{Text, codes, text_key}
use milvus_backup.Base.Dict.{Dict, insert}
use milvus_backup.Base.Int64.{Int64}
use milvus_backup.Proto.{
  BackupInfo, BackupInfoResponse, CollectionBackupInfo, GetBackupRequest, RestoreBackupRequest,
  RestoreBackupResponse, RestoreBackupTask, success, fail, parameter_error, initial,
}
use milvus_backup.Meta.Files.{Json}
use milvus_backup.Utils.Validate.{validate_type, name_error_msg}
use milvus_backup.Storage.{ChunkManager}
use milvus_backup.Context.State.{BackupContext, ensure_started}
use milvus_backup.Context.Get.{is_empty, success_msg, request_id_or, get_backup, backup_location}
use milvus_backup.Milvus.Client.{Client}
use milvus_backup.Restore.Select.{Decoders, select_collections}
use milvus_backup.Restore.Tasks.{Stamp, make_tasks}
use milvus_backup.Restore.Run.{Site, Watched}
use milvus_backup.Restore.Execute.{
  Workers, no_worker, one_worker, Restored, execute_restore_backup_task,
}

-- What RestoreBackup gets from elsewhere.
pub record Setting : Type 1 where
  pub cm : ChunkManager
  pub client : Client
  pub json : Json
  pub decoders : Decoders
  pub keep_temp_files : Bool
  pub restore_parallelism : Workers
  pub watched : client.State → Int64 → Watched
  pub watch_ends : client.State → Int64 → client.State
  pub uuid : Text
  pub get_uuid : Text
  pub stamp : Stamp
  pub stamps : ℕ → Stamp
  pub end_time : Int64

abbrev pub suffix_type : Text
suffix_type = codes "COLLECTION_RENAME_SUFFIX"

abbrev pub suffix_msg : Text
suffix_msg = codes "illegal collection rename suffix"

abbrev pub no_backup_msg : Text
no_backup_msg = codes "backup doesn't exist"

abbrev pub restore_async_msg : Text
restore_async_msg = codes "restore backup is executing asynchronously"

-- The answer, the context and the cluster.
pub record Served (setting : Setting) : Type 0 where
  pub answer : RestoreBackupResponse
  pub context : BackupContext setting.cm
  pub cluster : setting.client.State

unfoldable pub get_request : RestoreBackupRequest → GetBackupRequest
get_request request = record {
  request_id = [];
  backup_name = request.backup_name;
  backup_id = [];
  bucket_name = request.bucket_name;
  path = request.path;
  without_detail = false;
}

abbrev pub new_restore_task : Stamp → RestoreBackupTask
new_restore_task stamp = record {
  id = stamp.id;
  state_code = initial;
  error_message = [];
  start_time = stamp.start_time;
  end_time = 0;
  collection_restore_tasks = [];
  restored_size = 0;
  to_restore_size = 0;
  progress = 0;
}

-- The suffix is looked at only if there is one.
unfoldable pub suffix_error : RestoreBackupRequest → Option Text
suffix_error request =
    if is_empty request.collection_suffix
    then none
    else (elim (validate_type request.collection_suffix suffix_type) [
      | none ↦ none
      | some e ↦ some (suffix_msg ++ name_error_msg e)
    ])

module _ (setting : Setting) where
  abbrev Context : Type 0
  Context = BackupContext setting.cm

  unfoldable pub site_of : Context → RestoreBackupRequest → Site
  unfolding get_request backup_location
  site_of b request =
      let place = backup_location b (get_request request) in
      record {
        cm = setting.cm;
        client = setting.client;
        milvus_bucket_name = b.milvus_bucket_name;
        backup_bucket_name = place.0;
        backup_path = place.1;
        keep_temp_files = setting.keep_temp_files;
        pool_cancelled = b.restore_pool_cancelled;
        watched = setting.watched;
        watch_ends = setting.watch_ends;
      }

  abbrev pub refused :
      RestoreBackupResponse → Context → setting.client.State → Option (Served setting)
  refused resp b c = some (record { answer = resp; context = b; cluster = c })

  -- The end of the execution; a restore whose pool could not be made is not in the table.
  unfoldable pub restored :
      RestoreBackupResponse
      → (b : Context) → (request : RestoreBackupRequest) → Option (Restored (site_of b request))
      → Option (Served setting)
  unfolding site_of
  restored resp b request none = none
  restored resp b request (some done) =
      let table : Dict Text RestoreBackupTask = elim setting.restore_parallelism [
        | no_worker ↦ b.restore_tasks
        | one_worker ↦ insert done.task.id done.task b.restore_tasks
      ] in
      some (record {
        answer = elim done.failure [
          | none ↦ record resp { task = some done.task; code = success; msg = success_msg }
          | some e ↦ record resp { task = some done.task; code = fail; msg = e }
        ];
        context = record b {
          storage = done.store;
          restore_tasks = table;
          restore_pool_cancelled = b.restore_pool_cancelled || done.pool_failed;
        };
        cluster = done.cluster;
      })

  -- An asynchronous call answers at once; its execution is the call of execute_restore_backup_task on
  -- the context, the cluster and the task that are answered.
  unfoldable pub begin_restore :
      RestoreBackupResponse
      → Context
      → RestoreBackupRequest
      → Result Text RestoreBackupTask × setting.client.State
      → Option (Served setting)
  unfolding restored site_of
  begin_restore resp b request (err e, c) = refused (record resp { code = fail; msg = e }) b c
  begin_restore resp b request (ok task, c) =
      if request.async
      then refused (record resp { code = success; msg = restore_async_msg; task = some task }) b c
      else restored resp b request (
          execute_restore_backup_task (site_of b request) setting.restore_parallelism
            setting.end_time task c b.storage)

  unfoldable pub selected_restore :
      RestoreBackupResponse
      → Context
      → RestoreBackupRequest
      → setting.client.State
      → Result Text (List CollectionBackupInfo)
      → Option (Served setting)
  unfolding begin_restore make_tasks
  selected_restore resp b request c (err e) = refused (record resp { code = fail; msg = e }) b c
  selected_restore resp b request c (ok collections) = begin_restore resp b request (
      make_tasks setting.client setting.stamps request 0 collections
        (new_restore_task setting.stamp) c)

  unfoldable pub found_restore :
      RestoreBackupResponse
      → Context
      → RestoreBackupRequest
      → setting.client.State
      → BackupInfoResponse
      → Option (Served setting)
  unfolding selected_restore
  found_restore resp b request c got = elim got.code [
    | success ↦ elim got.backup [
      | none ↦ refused (record resp { code = parameter_error; msg = no_backup_msg }) b c
      | some backup ↦
          selected_restore resp b request c (select_collections setting.decoders request backup)
    ]
    | _ ↦ refused (record resp { code = fail; msg = got.msg }) b c
  ]

  unfoldable pub restore_backup :
      Context → setting.client.State → RestoreBackupRequest → Option (Served setting)
  unfolding found_restore suffix_error ensure_started request_id_or get_request
  restore_backup b c request =
      let b' = ensure_started setting.cm b in
      let resp : RestoreBackupResponse = record {
        request_id = request_id_or request.request_id setting.uuid;
        code = success;
        msg = [];
        task = none;
      } in
      elim (suffix_error request) [
        | some e ↦ refused (record resp { code = parameter_error; msg = e }) b' c
        | none ↦
            found_restore resp b' request c
              (get_backup setting.cm setting.json setting.get_uuid b' (get_request request)).0
      ]
