-- ===== src/Context/Delete.antt =====
-- DeleteBackup of core/backup_context.go.
use milvus_backup.Base.{
  true, false, [], ◌++◌, Option, none, some, ◌≡◌, refl, ap, ◌∙◌, ok, if◌then◌else◌, arith,
  append_assoc,
}
use milvus_backup.Base.Text.{Text, text_key, text_eq, codes, has_prefix, has_prefix-append}
use milvus_backup.Base.Dict.{lookup}
use milvus_backup.Proto.{
  BackupInfoResponse, DeleteBackupRequest, DeleteBackupResponse, success, fail, parameter_error,
  request_object_not_found,
}
use milvus_backup.Meta.Files.{Json}
use milvus_backup.Meta.Paths.{slash, backup_dir_path, meta_prefix, backup_meta_file}
use milvus_backup.Storage.{ChunkManager, IsLawful}
use milvus_backup.Context.State.{BackupContext, ensure_started}
use milvus_backup.Context.Get.{
  is_empty, success_msg, request_id_or, get_backup, get_backup-known_name, get_backup-unknown_name,
  read_backup-missing, backup_location,
}
use milvus_backup.Context.List.{named, get_backup-started}

abbrev pub empty_name_msg : Text
empty_name_msg = codes "empty backup name"

abbrev pub not_exist_msg : Text
not_exist_msg = codes "backup does not exist: "

-- The answer to what GetBackup has found, if that ends the call.
unfoldable pub refusal : Text → Text → BackupInfoResponse → Option DeleteBackupResponse
refusal request_id name got = elim got.code [
  | request_object_not_found ↦
      some (record { request_id = request_id; code = request_object_not_found; msg = got.msg })
  | success ↦ elim got.backup [
    | none ↦ some (record {
      request_id = request_id;
      code = request_object_not_found;
      msg = not_exist_msg ++ name;
    })
    | some _ ↦ none
  ]
  | _ ↦ some (record { request_id = request_id; code = fail; msg = got.msg })
]

module _ (cm : ChunkManager) (json : Json) where
  -- A failed removal is answered by nil, `none`.
  removal :
      Text
      → BackupContext cm
      → Option Text × cm.Store
      → Option DeleteBackupResponse × BackupContext cm
  removal request_id b (some e, s) = (none, record b { storage = s })
  removal request_id b (none, s) = (
    some (record { request_id = request_id; code = success; msg = success_msg }),
    record b { storage = s },
  )

  unfoldable pub delete_backup :
      Text → BackupContext cm → DeleteBackupRequest → Option DeleteBackupResponse × BackupContext cm
  unfolding removal refusal ensure_started request_id_or
  delete_backup uuid b request =
      let b' = ensure_started cm b in
      let request_id = request_id_or request.request_id uuid in
      let (got, b'') = get_backup cm json uuid b' (named request.backup_name) in
      let removed =
        cm.remove_with_prefix b''.storage b''.backup_bucket_name
          (backup_dir_path b''.backup_root_path request.backup_name) in
      if is_empty request.backup_name
      then (
        some (record { request_id = request_id; code = parameter_error; msg = empty_name_msg }),
        b',
      )
      else (elim (refusal request_id request.backup_name got) [
        | some answer ↦ (some answer, b'')
        | none ↦ removal request_id b'' removed
      ])

  -- DeleteBackup leaves the names and the tasks of the started context as they are.
  pub delete_backup-keeps_tasks :
      (uuid : Text) (b : BackupContext cm) (request : DeleteBackupRequest)
      → ((delete_backup uuid b request).1.backup_tasks ≡ (ensure_started cm b).backup_tasks)
        × ((delete_backup uuid b request).1.backup_name_id_dict
            ≡ (ensure_started cm b).backup_name_id_dict)
  unfolding delete_backup get_backup
  delete_backup-keeps_tasks uuid b request = ground arith

  delete_backup-started :
      (uuid : Text) (b : BackupContext cm) (request : DeleteBackupRequest)
      → b.started ≡ true
      → (delete_backup uuid b request).1.started ≡ true
  unfolding delete_backup get_backup
  delete_backup-started uuid b request h = ground arith

  ensure_started_id : (b : BackupContext cm) → b.started ≡ true → ensure_started cm b ≡ b
  unfolding ensure_started
  ensure_started_id b h = rw h

  -- In a started context, a backup whose name is not empty and in the tables is still answered,
  -- with success and what the tasks hold under its id, after DeleteBackup, whatever that answered.
  pub get_backup-delete_backup_known :
      (uuid uuid' : Text) (b : BackupContext cm) (request : DeleteBackupRequest) (id : Text)
      → b.started ≡ true
      → is_empty request.backup_name ≡ false
      → lookup request.backup_name b.backup_name_id_dict ≡ some id
      → (get_backup cm json uuid' (delete_backup uuid b request).1 (named request.backup_name)).0
        ≡ record {
          request_id = request_id_or [] uuid';
          code = success;
          msg = success_msg;
          backup = lookup id b.backup_tasks;
        }
  unfolding text_eq
  get_backup-delete_backup_known uuid uuid' b request id running a_name known =
      let kept = delete_backup-keeps_tasks uuid b request in
      get_backup-known_name cm json uuid' (delete_backup uuid b request).1
        (named request.backup_name) id (delete_backup-started uuid b request running) refl a_name
        refl
        (ap (lookup request.backup_name) (
            kept.1
            ∙ ap (λ (c : BackupContext cm). c.backup_name_id_dict) (ensure_started_id b running))
          ∙ known)
      ∙ λ i. record {
        request_id = request_id_or [] uuid';
        code = success;
        msg = success_msg;
        backup = lookup id (
            (kept.0 ∙ ap (λ (c : BackupContext cm). c.backup_tasks) (ensure_started_id b running))
              i);
      }

  -- A successful call has removed everything below the directory of the backup, and nothing else
  -- of the context has changed.
  delete_backup-success :
      (uuid : Text) (b : BackupContext cm) (request : DeleteBackupRequest)
      (answer : DeleteBackupResponse)
      → b.started ≡ true
      → (delete_backup uuid b request).0 ≡ some answer
      → answer.code ≡ success
      → cm.remove_with_prefix b.storage b.backup_bucket_name
          (backup_dir_path b.backup_root_path request.backup_name)
        ≡ (none, (delete_backup uuid b request).1.storage)
  unfolding delete_backup
  delete_backup-success uuid b request answer running h ok' = ground (
    arith,
    ensure_started_id b running,
    get_backup-started cm json uuid b (named request.backup_name) running,
  )

  delete_backup-keeps_location :
      (uuid : Text) (b : BackupContext cm) (request : DeleteBackupRequest)
      → b.started ≡ true
      → ((delete_backup uuid b request).1.backup_bucket_name ≡ b.backup_bucket_name)
        × ((delete_backup uuid b request).1.backup_root_path ≡ b.backup_root_path)
  unfolding delete_backup
  delete_backup-keeps_location uuid b request running = ground (
    arith,
    ensure_started_id b running,
    get_backup-started cm json uuid b (named request.backup_name) running,
  )

  -- The metadata file of a backup lies below its directory.
  meta_file-below :
      (root name file : Text)
      → has_prefix
          (((root ++ (slash ++ name)) ++ (slash ++ meta_prefix)) ++ (slash ++ file))
          (backup_dir_path root name)
        ≡ true
  unfolding backup_dir_path
  meta_file-below root name file =
      rw regrouped
        (has_prefix-append (root ++ (slash ++ (name ++ slash))) (meta_prefix ++ (slash ++ file)))
    where
      regrouped :
          ((root ++ (slash ++ name)) ++ (slash ++ meta_prefix)) ++ (slash ++ file)
          ≡ (root ++ (slash ++ (name ++ slash))) ++ (meta_prefix ++ (slash ++ file))
      regrouped = simp append_assoc

  location-named :
      (b : BackupContext cm) (name : Text)
      → backup_location b (named name)
        ≡ (b.backup_bucket_name, b.backup_root_path ++ (slash ++ name))
  unfolding backup_location text_eq
  location-named b name = refl

  -- In a started context with a lawful storage, a backup whose name is not empty and not in the
  -- tables is not found after a successful DeleteBackup.
  pub get_backup-delete_backup_unknown :
      IsLawful cm
      → (uuid uuid' : Text) (b : BackupContext cm) (request : DeleteBackupRequest)
        (answer : DeleteBackupResponse)
      → b.started ≡ true
      → is_empty request.backup_name ≡ false
      → lookup request.backup_name b.backup_name_id_dict ≡ none
      → (delete_backup uuid b request).0 ≡ some answer
      → answer.code ≡ success
      → (get_backup cm json uuid'
          (delete_backup uuid b request).1
          (named request.backup_name)).0.code
        ≡ request_object_not_found
  unfolding text_eq
  get_backup-delete_backup_unknown lawful uuid uuid' b request answer running a_name unknown h
        done =
      get_backup-unknown_name cm json uuid' after (named request.backup_name)
        (delete_backup-started uuid b request running) refl a_name refl
        (ap (lookup request.backup_name) (
            (delete_backup-keeps_tasks uuid b request).1
            ∙ ap (λ (c : BackupContext cm). c.backup_name_id_dict) (ensure_started_id b running))
          ∙ unknown)
        (rw location-named (
          read_backup-missing cm json after.storage after.backup_bucket_name
            (after.backup_root_path ++ (slash ++ request.backup_name)) gone))
    where
      after : BackupContext cm
      after = (delete_backup uuid b request).1

      gone :
          cm.exist after.storage after.backup_bucket_name (
            ((after.backup_root_path ++ (slash ++ request.backup_name)) ++ (slash ++ meta_prefix))
            ++ (slash ++ backup_meta_file))
          ≡ ok false
      gone =
          rw
            (
              (delete_backup-keeps_location uuid b request running).0,
              (delete_backup-keeps_location uuid b request running).1,
            )
            (lawful.exist-remove_with_prefix b.storage after.storage b.backup_bucket_name
              (backup_dir_path b.backup_root_path request.backup_name) _
              (delete_backup-success uuid b request answer running h done)
              (meta_file-below b.backup_root_path request.backup_name backup_meta_file))
