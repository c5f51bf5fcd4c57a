-- ===== src/Create/Start.antt =====
-- CreateBackup and executeCreateBackup. The work of the collections (preparing them, copying them,
-- the pool's jobs) is a parameter of the call, as are the clock, the clients' answers and the UUID.
pub mod Outcome
pub mod Prefix
use milvus_backup.Base.{
  Bool, true, false, not, [], ◌∷◌, ◌++◌, List, map, Option, none, some, ◌≡◌, ◌↔◌, Result, ok, err,
  if◌then◌else◌, arith,
}
use milvus_backup.Base.Text.{Text, codes, text_key, text_eq}
use milvus_backup.Base.Dict.{lookup, insert, lookup-insert}
use milvus_backup.Base.Int64.{Int64, sum64}
use milvus_backup.Proto.{
  BackupInfo, CollectionBackupInfo, BackupInfoResponse, CreateBackupRequest, success, fail,
  parameter_error, backup_initial, backup_executing, backup_success, backup_fail,
}
use milvus_backup.Meta.Files.{Json}
use milvus_backup.Meta.Paths.{slash}
use milvus_backup.Meta.Levels.{tree_to_level}
use milvus_backup.Utils.Validate.{validate_type, name_error_msg}
use milvus_backup.Storage.{ChunkManager}
use milvus_backup.Context.State.{BackupContext, ensure_started}
use milvus_backup.Context.Get.{is_empty, request_id_or, success_msg}
use milvus_backup.Create.Collections.{CollectionStruct, Cluster, parse_backup_collections}
use milvus_backup.Create.Write.{write_meta}

abbrev pub not_text : Option Text → Bool
not_text none = true
not_text (some _) = false

abbrev pub exists_msg : Text → Text
exists_msg name = codes "backup already exist with the name: " ++ name

abbrev pub check_failed_msg : Text → Text → Text
check_failed_msg name e =
    codes "fail to check whether exist backup with name: " ++ (name ++ (codes "/n" ++ e))

abbrev pub async_msg : Text
async_msg = codes "create backup is executing asynchronously"

abbrev pub backup_name_type : Text
backup_name_type = codes "BACKUP_NAME"

-- What CreateBackup gets from elsewhere: the name for a request without one, the version of the
-- cluster, the clock at each of its three uses, jsonpb, what the cluster lists, and the jobs of
-- backupCollectionPrepare and of backupCollectionExecute with the wait for them.
pub record Work (cm : ChunkManager) : Type 0 where
  pub generated_name : Text
  pub version : Result Text Text
  pub start_time : Int64
  pub timestamp : Int64
  pub end_time : Int64
  pub marshal_to_string : Text → Result Text Text
  pub cluster : Cluster
  pub prepare : Bool → List CollectionStruct → Option Text × List CollectionBackupInfo
  pub execute :
      List CollectionStruct
      → List CollectionBackupInfo
      → cm.Store
      → Option Text × List CollectionBackupInfo × cm.Store

-- A call's state when it ends: the context, the backup, and the error.
pub record Executed (cm : ChunkManager) : Type 0 where
  pub context : BackupContext cm
  pub task : BackupInfo
  pub failure : Option Text

module _ (cm : ChunkManager) (json : Json) (work : Work cm) where
  -- refreshBackupCache; the map holds a pointer, so the last state of the backup is what counts.
  unfoldable pub refresh_backup_cache : BackupContext cm → BackupInfo → BackupContext cm
  refresh_backup_cache b backup = record b { backup_tasks = insert backup.id backup b.backup_tasks }

  unfoldable pub failed_create : BackupContext cm → BackupInfo → Text → Executed cm
  unfolding refresh_backup_cache
  failed_create b backup e =
      let ended : BackupInfo = record backup { state_code = backup_fail; error_message = e } in
      record { context = refresh_backup_cache b ended; task = ended; failure = some e }

  ended : BackupContext cm → BackupInfo → Option cm.Store → Option (Executed cm)
  unfolding refresh_backup_cache
  ended b backup none = none
  ended b backup (some s) = some (record {
    context = refresh_backup_cache (record b { storage = s }) backup;
    task = backup;
    failure = none;
  })

  -- The last part: the metadata is written, `none` if that panics.
  unfoldable pub finish_create : BackupContext cm → BackupInfo → Option (Executed cm)
  unfolding ended
  finish_create b backup =
      ended b backup (write_meta cm json b.storage b.backup_bucket_name b.backup_root_path backup)

  copied :
      BackupContext cm
      → BackupInfo
      → Option Text × List CollectionBackupInfo × cm.Store
      → Option (Executed cm)
  unfolding failed_create finish_create
  copied b backup (some e, collections, s) = some (
      failed_create (record b { storage = s }) (record backup { collection_backups = collections })
        e)
  copied b backup (none, collections, s) =
      let copied_backup : BackupInfo = record backup { collection_backups = collections } in
      finish_create (record b { storage = s })
        (record copied_backup {
          size = sum64 (map (λ c. c.size) (tree_to_level copied_backup).collection_level.infos);
          end_time = work.end_time;
          state_code = backup_success;
        })

  prepared :
      BackupContext cm
      → CreateBackupRequest
      → BackupInfo
      → List CollectionStruct
      → Option Text × List CollectionBackupInfo
      → Option (Executed cm)
  unfolding failed_create finish_create copied
  prepared b request backup collections (some e, infos) =
      some (failed_create b (record backup { collection_backups = infos }) e)
  prepared b request backup collections (none, infos) =
      if request.meta_only
      then finish_create b (record backup { collection_backups = infos })
      else copied b (record backup { collection_backups = infos })
          (work.execute collections infos b.storage)

  parsed_create :
      BackupContext cm
      → CreateBackupRequest
      → BackupInfo
      → Result Text (List CollectionStruct)
      → Option (Executed cm)
  unfolding failed_create prepared
  parsed_create b request running (err e) = some (failed_create b running e)
  parsed_create b request running (ok collections) =
      prepared b request running collections (work.prepare request.force collections)

  unfoldable pub execute_create_backup :
      BackupContext cm → CreateBackupRequest → BackupInfo → Option (Executed cm)
  unfolding parsed_create parse_backup_collections
  execute_create_backup b request backup =
      let running : BackupInfo = record backup {
        backup_timestamp = work.timestamp;
        state_code = backup_executing;
      } in
      parsed_create b request running
        (parse_backup_collections work.cluster work.marshal_to_string request)

  abbrev pub name_of : CreateBackupRequest → Text
  name_of request =
      if is_empty request.backup_name then work.generated_name else request.backup_name

  abbrev answer_create : BackupInfoResponse → Executed cm → BackupInfoResponse × BackupContext cm
  answer_create resp done = elim done.failure [
    | some e ↦ (record resp { backup = some done.task; code = fail; msg = e }, done.context)
    | none ↦
        (record resp { backup = some done.task; code = success; msg = success_msg }, done.context)
  ]

  abbrev ended_create :
      BackupInfoResponse → Option (Executed cm) → Option (BackupInfoResponse × BackupContext cm)
  ended_create resp none = none
  ended_create resp (some done) = some (answer_create resp done)

  abbrev new_backup : Text → Text → Text → BackupInfo
  new_backup id name version = record {
    id = id;
    state_code = backup_initial;
    error_message = [];
    start_time = work.start_time;
    end_time = 0;
    progress = 0;
    name = name;
    backup_timestamp = 0;
    collection_backups = [];
    size = 0;
    milvus_version = version;
  }

  -- From the registration on. An asynchronous call answers at once; its execution is the call of
  -- execute_create_backup on the context and the backup that are answered.
  begin_create :
      BackupContext cm
      → CreateBackupRequest
      → BackupInfoResponse
      → BackupInfo
      → Option (BackupInfoResponse × BackupContext cm)
  unfolding execute_create_backup
  begin_create b request resp backup =
      let registered : BackupContext cm = record b {
        backup_tasks = insert backup.id backup b.backup_tasks;
        backup_name_id_dict = insert backup.name backup.id b.backup_name_id_dict;
      } in
      if request.async
      then some (record resp { code = success; msg = async_msg; backup = some backup }, registered)
      else ended_create resp (execute_create_backup registered request backup)

  unfoldable pub create_backup :
      Text → BackupContext cm → CreateBackupRequest → Option (BackupInfoResponse × BackupContext cm)
  unfolding begin_create ensure_started request_id_or
  create_backup uuid b request =
      let b' = ensure_started cm b in
      let name = name_of request in
      let resp : BackupInfoResponse = record {
        request_id = request_id_or request.request_id uuid;
        code = success;
        msg = [];
        backup = none;
      } in
      elim (cm.exist b'.storage b'.backup_bucket_name (b'.backup_root_path ++ (slash ++ name))) [
        | err e ↦ some (record resp { code = fail; msg = check_failed_msg name e }, b')
        | ok true ↦ some (record resp { code = parameter_error; msg = exists_msg name }, b')
        | ok false ↦ elim (validate_type name backup_name_type) [
          | some e ↦ some (record resp { code = parameter_error; msg = name_error_msg e }, b')
          | none ↦ elim work.version [
            | err e ↦ some (record resp { code = fail; msg = e }, b')
            | ok version ↦ begin_create b' request resp (new_backup resp.request_id name version)
          ]
        ]
      ]
