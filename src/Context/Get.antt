-- ===== src/Context/Get.antt =====
-- readBackup and GetBackup of core/backup_context.go.
use milvus_backup.Base.{
  Bool, true, false, not, ◌&&◌, ◌||◌, [], ◌++◌, Option, none, some, ◌≡◌, ◌≢◌, ◌↔◌, Result, ok, err,
  ◌>>=◌, if◌then◌else◌, arith,
}
use milvus_backup.Base.Text.{Text, text_key, text_eq, codes}
use milvus_backup.Base.Dict.{lookup}
use milvus_backup.Proto.{
  BackupInfo, BackupInfoResponse, GetBackupRequest, success, fail, parameter_error,
  request_object_not_found,
}
use milvus_backup.Meta.Files.{Json, deserialize}
use milvus_backup.Meta.Paths.{
  slash, meta_prefix, backup_meta_file, collection_meta_file, partition_meta_file,
  segment_meta_file,
}
use milvus_backup.Meta.Responses.{simple_backup_response}
use milvus_backup.Storage.{ChunkManager}
use milvus_backup.Context.State.{BackupContext, ensure_started}

abbrev pub is_empty : Text → Bool
is_empty s = text_eq s []

abbrev pub success_msg : Text
success_msg = codes "success"

abbrev pub not_found_msg : Text
not_found_msg = codes "not found"

abbrev pub empty_name_and_id_msg : Text
empty_name_and_id_msg = codes "empty backup name and backup id"

-- `if request.GetRequestId() == "" { request.RequestId = utils.UUID() }`
unfoldable pub request_id_or : Text → Text → Text
request_id_or request_id uuid = if is_empty request_id then uuid else request_id

-- The bucket and the path of a backup: the request's, if it gives both, or the configured ones.
unfoldable pub backup_location :
    {cm : ChunkManager} → BackupContext cm → GetBackupRequest → Text × Text
backup_location b request =
    if is_empty request.bucket_name || is_empty request.path
    then (b.backup_bucket_name, b.backup_root_path ++ (slash ++ request.backup_name))
    else (request.bucket_name, request.path ++ (slash ++ request.backup_name))

module _ (cm : ChunkManager) (json : Json) where
  -- No backup and no error if the file of the backup level is missing.
  unfoldable pub read_backup : cm.Store → Text → Text → Result Text (Option BackupInfo)
  read_backup s bucket_name backup_path =
      let meta_dir : Text = backup_path ++ (slash ++ meta_prefix) in
      let file = λ (name : Text). meta_dir ++ (slash ++ name) in
      do
        exist ← cm.exist s bucket_name (file backup_meta_file)
        if not exist then ok none else do
          backup_bytes ← cm.read s bucket_name (file backup_meta_file)
          collection_bytes ← cm.read s bucket_name (file collection_meta_file)
          partition_bytes ← cm.read s bucket_name (file partition_meta_file)
          segment_bytes ← cm.read s bucket_name (file segment_meta_file)
          backup_info ← deserialize json (record {
            backup_meta_bytes = backup_bytes;
            collection_meta_bytes = collection_bytes;
            partition_meta_bytes = partition_bytes;
            segment_meta_bytes = segment_bytes;
            full_meta_bytes = [];
          })
          ok (some backup_info)

  -- What is set after readBackup has returned: the code that the error sets is overwritten.
  after_read : BackupInfoResponse → Result Text (Option BackupInfo) → BackupInfoResponse
  after_read resp (err e) =
      let failed = record resp { code = fail; msg = e } in
      record failed { backup = none; code = request_object_not_found; msg = not_found_msg }
  after_read resp (ok none) = record resp {
    backup = none;
    code = request_object_not_found;
    msg = not_found_msg;
  }
  after_read resp (ok (some backup)) = record resp {
    backup = some backup;
    code = success;
    msg = success_msg;
  }

  by_id : BackupContext cm → BackupInfoResponse → Text → BackupInfoResponse
  by_id b resp id = elim (lookup id b.backup_tasks) [
    | none ↦ resp
    | some backup ↦ record resp { code = success; msg = success_msg; backup = some backup }
  ]

  by_name : BackupContext cm → BackupInfoResponse → GetBackupRequest → BackupInfoResponse
  unfolding after_read
  by_name b resp request = elim (lookup request.backup_name b.backup_name_id_dict) [
    | some id ↦ record resp { code = success; msg = success_msg; backup = lookup id b.backup_tasks }
    | none ↦
        let (bucket_name, backup_path) = backup_location b request in
        after_read resp (read_backup b.storage bucket_name backup_path)
  ]

  -- The context changes only by its start. The code of a fresh response is the zero value, success.
  unfoldable pub get_backup :
      Text → BackupContext cm → GetBackupRequest → BackupInfoResponse × BackupContext cm
  unfolding by_id by_name ensure_started request_id_or
  get_backup uuid b request =
      let b' = ensure_started cm b in
      let resp : BackupInfoResponse = record {
        request_id = request_id_or request.request_id uuid;
        code = success;
        msg = [];
        backup = none;
      } in
      let answer =
        if is_empty request.backup_id && is_empty request.backup_name
        then record resp { code = parameter_error; msg = empty_name_and_id_msg }
        else if not (is_empty request.backup_id)
        then by_id b' resp request.backup_id
        else by_name b' resp request in
      (if request.without_detail then simple_backup_response answer else answer, b')

  -- Whatever the storage and the decoder answer, GetBackup never reports a failure, and it reports
  -- a parameter error exactly if the request has neither a name nor an id.
  pub get_backup-code :
      (uuid : Text) (b : BackupContext cm) (request : GetBackupRequest)
      → ((get_backup uuid b request).0.code ≢ fail)
        × (((get_backup uuid b request).0.code ≡ parameter_error)
            ↔ ((is_empty request.backup_id && is_empty request.backup_name) ≡ true))
  unfolding get_backup simple_backup_response
  get_backup-code uuid b request = (ground arith, (ground arith, ground arith))

  -- A request for all details by an id that is not among the tasks of the started context is
  -- answered by success without a backup, and the context is the started one.
  pub get_backup-unknown_id :
      (uuid : Text) (b : BackupContext cm) (request : GetBackupRequest)
      → is_empty request.backup_id ≡ false
      → lookup request.backup_id (ensure_started cm b).backup_tasks ≡ none
      → request.without_detail ≡ false
      → get_backup uuid b request ≡ (
        record {
          request_id = request_id_or request.request_id uuid;
          code = success;
          msg = [];
          backup = none;
        },
        ensure_started cm b,
      )
  unfolding get_backup
  get_backup-unknown_id uuid b request named unknown detailed = ground arith

  -- In a started context a known name is answered by what the tasks hold under its id.
  pub get_backup-known_name :
      (uuid : Text) (b : BackupContext cm) (request : GetBackupRequest) (id : Text)
      → b.started ≡ true
      → is_empty request.backup_id ≡ true
      → is_empty request.backup_name ≡ false
      → request.without_detail ≡ false
      → lookup request.backup_name b.backup_name_id_dict ≡ some id
      → (get_backup uuid b request).0 ≡ record {
        request_id = request_id_or request.request_id uuid;
        code = success;
        msg = success_msg;
        backup = lookup id b.backup_tasks;
      }
  unfolding get_backup
  get_backup-known_name uuid b request id running no_id a_name detailed known = ground arith

  -- In a started context an unknown name is looked for in the storage.
  pub get_backup-unknown_name :
      (uuid : Text) (b : BackupContext cm) (request : GetBackupRequest)
      → b.started ≡ true
      → is_empty request.backup_id ≡ true
      → is_empty request.backup_name ≡ false
      → request.without_detail ≡ false
      → lookup request.backup_name b.backup_name_id_dict ≡ none
      → read_backup b.storage (backup_location b request).0 (backup_location b request).1 ≡ ok none
      → (get_backup uuid b request).0.code ≡ request_object_not_found
  unfolding get_backup
  get_backup-unknown_name uuid b request running no_id a_name detailed unknown gone = ground arith

  -- Nothing is read where the file of the backup level is missing.
  pub read_backup-missing :
      (s : cm.Store) (bucket_name backup_path : Text)
      → cm.exist s bucket_name
          ((backup_path ++ (slash ++ meta_prefix)) ++ (slash ++ backup_meta_file))
        ≡ ok false
      → read_backup s bucket_name backup_path ≡ ok none
  unfolding read_backup
  read_backup-missing s bucket_name backup_path h = rw h
