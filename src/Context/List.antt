-- ===== src/Context/List.antt =====
-- ListBackups of core/backup_context.go.
pub mod Shown
use milvus_backup.Base.{
  ℕ, zero, suc, Option, ap, true, false, List, [], ◌∷◌, ◌++◌, map, none, some, ◌≡◌, refl, Result,
  ok, err, ◌==◌, if◌then◌else◌, arith, keep, concat_map, append_assoc, append-nil, length,
  length-map,
}
use milvus_backup.Base.Text.{Text, text_key, text_eq}
use milvus_backup.Base.Int64.{Int64}
use milvus_backup.Proto.{
  CollectionBackupInfo, ResponseCode, not_support, no_permission, parameter_error,
  request_object_not_found, BackupInfo, BackupInfoResponse, GetBackupRequest, ListBackupsRequest,
  ListBackupsResponse, success, fail,
}
use milvus_backup.Meta.Files.{Json}
use milvus_backup.Meta.Paths.{slash, backup_path_to_name}
use milvus_backup.Storage.{ChunkManager}
use milvus_backup.Context.State.{BackupContext, ensure_started}
use milvus_backup.Context.Get.{is_empty, success_msg, request_id_or, get_backup}

-- A request for a backup by its name alone.
abbrev pub named : Text → GetBackupRequest
named name = record {
  request_id = [];
  backup_name = name;
  backup_id = [];
  bucket_name = [];
  path = [];
  without_detail = false;
}

-- With a collection name the backup is appended once for each collection of that name.
unfoldable pub wanted : Text → BackupInfo → List BackupInfo
wanted collection_name backup =
    if is_empty collection_name
    then backup ∷ []
    else map (λ _. backup)
        (keep (λ c. c.collection_name == collection_name) backup.collection_backups)

-- What the body of the loop appends for the answer of GetBackup.
unfoldable pub listed : Text → BackupInfoResponse → List BackupInfo
unfolding wanted
listed collection_name r = elim r.code [
  | success ↦ elim r.backup [ none ↦ [] | some backup ↦ wanted collection_name backup ]
  | _ ↦ []
]

module _ (cm : ChunkManager) (json : Json) where
  unfoldable pub list_loop :
      Text
      → BackupContext cm
      → Text
      → List (Text × Int64)
      → List BackupInfo
      → List BackupInfo × BackupContext cm
  unfolding listed
  list_loop uuid b collection_name [] backup_infos = (backup_infos, b)
  list_loop uuid b collection_name ((backup_path, _) ∷ paths) backup_infos =
      let (resp, b') =
        get_backup cm json uuid b (named (backup_path_to_name b.backup_root_path backup_path)) in
      list_loop uuid b' collection_name paths (backup_infos ++ listed collection_name resp)

  pub answer_list :
      Text
      → BackupContext cm
      → ListBackupsRequest
      → Result Text (List (Text × Int64))
      → ListBackupsResponse × BackupContext cm
  unfolding list_loop request_id_or
  answer_list uuid b request (err e) = (
    record {
      request_id = request_id_or request.request_id uuid;
      code = fail;
      msg = e;
      backups = [];
    },
    b,
  )
  answer_list uuid b request (ok backup_paths) =
      let (backup_infos, b') = list_loop uuid b request.collection_name backup_paths [] in
      (
        record {
          request_id = request_id_or request.request_id uuid;
          code = success;
          msg = success_msg;
          backups = backup_infos;
        },
        b',
      )

  unfoldable pub list_backups :
      Text → BackupContext cm → ListBackupsRequest → ListBackupsResponse × BackupContext cm
  unfolding answer_list ensure_started
  list_backups uuid b request =
      let b' = ensure_started cm b in
      answer_list uuid b' request
        (cm.list_with_prefix b'.storage b'.backup_bucket_name (b'.backup_root_path ++ slash) false)

  -- What GetBackup finds at a path, in a started context.
  abbrev pub found_at : Text → BackupContext cm → Text → Text × Int64 → List BackupInfo
  found_at uuid b collection_name (path, _) =
      listed collection_name
        (get_backup cm json uuid b (named (backup_path_to_name b.backup_root_path path))).0

  pub get_backup-started :
      (uuid : Text) (b : BackupContext cm) (request : GetBackupRequest)
      → b.started ≡ true
      → (get_backup cm json uuid b request).1 ≡ b
  unfolding get_backup
  get_backup-started uuid b request h = ground arith

  pub list_loop-eq :
      (uuid : Text) (b : BackupContext cm) (collection_name : Text) (paths : List (Text × Int64))
      (backup_infos : List BackupInfo)
      → b.started ≡ true
      → list_loop uuid b collection_name paths backup_infos
        ≡ (backup_infos ++ concat_map (found_at uuid b collection_name) paths, b)
  unfolding list_loop
  list_loop-eq uuid b collection_name [] backup_infos h = rw (append-nil backup_infos)
  list_loop-eq uuid b collection_name ((path, sz) ∷ paths) backup_infos h = rw (
    get_backup-started uuid b (named (backup_path_to_name b.backup_root_path path)) h,
    list_loop-eq uuid b collection_name paths
        (backup_infos ++ found_at uuid b collection_name (path, sz)) h,
    append_assoc,
  )

  pub ensure_started-started : (b : BackupContext cm) → (ensure_started cm b).started ≡ true
  unfolding ensure_started
  ensure_started-started b = ground arith

-- With a collection name, a backup is listed as often as it has collections of that name.
pub length-wanted :
    (collection_name : Text) (backup : BackupInfo)
    → is_empty collection_name ≡ false
    → length (wanted collection_name backup)
      ≡ length (keep (λ c. c.collection_name == collection_name) backup.collection_backups)
unfolding wanted
length-wanted collection_name backup h = rw h (length-map _ _)
