-- ===== src/Context/Restores.antt =====
-- GetRestore of core/backup_context.go.
use milvus_backup.Base.{true, false, [], none, some, ◌≡◌, ◌↔◌, ◌⊎◌, if◌then◌else◌, arith}
use milvus_backup.Base.Text.{Text, text_key, codes, text_eq_iff}
use milvus_backup.Base.Dict.{lookup, insert, lookup-insert}
use milvus_backup.Proto.{
  RestoreBackupTask, RestoreBackupResponse, GetRestoreStateRequest, success, fail,
}
use milvus_backup.Meta.Progress.{update_restore_backup_task}
use milvus_backup.Storage.{ChunkManager}
use milvus_backup.Context.State.{BackupContext, ensure_started}
use milvus_backup.Context.Get.{is_empty, success_msg, request_id_or}

abbrev pub empty_restore_id_msg : Text
empty_restore_id_msg = codes "empty restore id"

abbrev pub no_restore_msg : Text
no_restore_msg = codes "restore id not exist in context"

module _ (cm : ChunkManager) where
  -- The task is updated in place, so the table holds the updated one.
  unfoldable pub get_restore :
      Text → BackupContext cm → GetRestoreStateRequest → RestoreBackupResponse × BackupContext cm
  unfolding ensure_started request_id_or
  get_restore uuid b request =
      let b' = ensure_started cm b in
      let resp : RestoreBackupResponse = record {
        request_id = request_id_or request.request_id uuid;
        code = success;
        msg = [];
        task = none;
      } in
      if is_empty request.id
      then (record resp { code = fail; msg = empty_restore_id_msg }, b')
      else (elim (lookup request.id b'.restore_tasks) [
        | none ↦ (record resp { code = fail; msg = no_restore_msg }, b')
        | some value ↦
            let updated = update_restore_backup_task value in
            (
              record resp { code = success; msg = success_msg; task = some updated },
              record b' { restore_tasks = insert request.id updated b'.restore_tasks },
            )
      ])

  -- In a started context, a restore that is in the table under an id that is not empty is answered
  -- with success and the task whose progress is brought up to date, and then the table holds that
  -- task under the id.
  pub get_restore-found :
      (uuid : Text) (b : BackupContext cm) (request : GetRestoreStateRequest)
      (value : RestoreBackupTask)
      → b.started ≡ true
      → is_empty request.id ≡ false
      → lookup request.id b.restore_tasks ≡ some value
      → ((get_restore uuid b request).0.code ≡ success)
        × ((get_restore uuid b request).0.task ≡ some (update_restore_backup_task value))
        × (lookup request.id (get_restore uuid b request).1.restore_tasks
            ≡ some (update_restore_backup_task value))
  unfolding get_restore
  get_restore-found uuid b request value running an_id found = ground (
    arith,
    lookup-insert request.id request.id (update_restore_backup_task value) b.restore_tasks,
    text_eq_iff request.id request.id,
  )

  -- A call for a restore fails exactly if the id is empty or not in the table of the started
  -- context; it succeeds or leaves the started context.
  pub get_restore-fail_iff :
      (uuid : Text) (b : BackupContext cm) (request : GetRestoreStateRequest)
      → (((get_restore uuid b request).0.code ≡ fail) ↔ (
          (is_empty request.id ≡ true)
          ⊎ (lookup request.id (ensure_started cm b).restore_tasks ≡ none)))
        × (((get_restore uuid b request).0.code ≡ success)
            ⊎ ((get_restore uuid b request).1 ≡ ensure_started cm b))
  unfolding get_restore
  get_restore-fail_iff uuid b request = (ground arith, ground arith)
