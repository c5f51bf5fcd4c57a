-- ===== src/Create/Start/Prefix.antt =====
-- CreateBackup on MinIO: its test for a backup of the same name also finds longer names.
use milvus_backup.Base.{◌++◌, none, some, ◌≡◌, arith, refl}
use milvus_backup.Base.Text.{Text, has_prefix-append}
use milvus_backup.Proto.{BackupInfoResponse, CreateBackupRequest, parameter_error}
use milvus_backup.Meta.Files.{Json}
use milvus_backup.Meta.Paths.{slash}
use milvus_backup.Storage.Minio.{ObjectClient, minio_chunk_manager}
use milvus_backup.Storage.Minio.Laws.{IsObjectStore, exist-key}
use milvus_backup.Context.State.{BackupContext, ensure_started}
use milvus_backup.Context.Get.{request_id_or}
use milvus_backup.Create.Start.{Work, create_backup, name_of, exists_msg}

module _ (client : ObjectClient) (store : IsObjectStore client) (json : Json)
    (work : Work (minio_chunk_manager client)) where
  -- On MinIO, if the started context's bucket has a file whose path begins with the root of the
  -- backups, a slash and the name of the backup to make, whatever follows, then CreateBackup
  -- answers that a backup of this name exists, with a parameter error, and leaves the started
  -- context as it is, for a client library that keeps objects by key.
  pub create_backup-prefix :
      (uuid rest c : Text) (b : BackupContext (minio_chunk_manager client))
      (request : CreateBackupRequest)
      → store.content
          (ensure_started (minio_chunk_manager client) b).storage
          (ensure_started (minio_chunk_manager client) b).backup_bucket_name
          (((ensure_started (minio_chunk_manager client) b).backup_root_path
              ++ (slash ++ name_of (minio_chunk_manager client) json work request))
            ++ rest)
        ≡ some c
      → (resp : BackupInfoResponse) × (create_backup
            (minio_chunk_manager client)
            json
            work
            uuid
            b
            request
          ≡ some (resp, ensure_started (minio_chunk_manager client) b))
        × (resp.code ≡ parameter_error)
        × (resp.msg ≡ exists_msg (name_of (minio_chunk_manager client) json work request))
  unfolding create_backup
  create_backup-prefix uuid rest c b request there =
      let b' = ensure_started (minio_chunk_manager client) b in
      let path =
        b'.backup_root_path ++ (slash ++ name_of (minio_chunk_manager client) json work request) in
      let found =
        exist-key client store b'.storage b'.backup_bucket_name path (path ++ rest) c there
          (has_prefix-append path rest) in
      (
        record {
          request_id = request_id_or request.request_id uuid;
          code = parameter_error;
          msg = exists_msg (name_of (minio_chunk_manager client) json work request);
          backup = none;
        },
        ground (arith, found),
        refl,
        refl,
      )
