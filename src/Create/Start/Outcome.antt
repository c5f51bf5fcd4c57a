-- ===== src/Create/Start/Outcome.antt =====
-- What CreateBackup and executeCreateBackup leave behind.
use milvus_backup.Base.{
  true, false, ◌++◌, List, Option, none, some, ◌≡◌, ◌≢◌, ◌↔◌, ◌⊎◌, inl, inr, Bool-cases, refl,
  Result, ok, err, if◌then◌else◌, arith,
}
use milvus_backup.Base.Text.{Text, text_key, text_eq_refl}
use milvus_backup.Base.Dict.{lookup, insert, lookup-insert}
use milvus_backup.Proto.{
  BackupInfo, CollectionBackupInfo, BackupTaskStateCode, BackupInfoResponse, CreateBackupRequest,
  parameter_error, backup_executing, backup_success, backup_fail,
}
use milvus_backup.Meta.Files.{Json}
use milvus_backup.Meta.Paths.{slash}
use milvus_backup.Meta.RoundTrip.{IsConsistent, durable}
use milvus_backup.Meta.Stored.{LevelsSurvive}
use milvus_backup.Utils.Validate.{validate_type}
use milvus_backup.Storage.{ChunkManager, IsLawful}
use milvus_backup.Context.State.{BackupContext, ensure_started}
use milvus_backup.Context.Get.{read_backup}
use milvus_backup.Create.Collections.{CollectionStruct, parse_backup_collections}
use milvus_backup.Create.Write.{write_meta, Writable, read_backup-write_meta}
use milvus_backup.Create.Start.{
  Work, Executed, ended, parsed_create, refresh_backup_cache, failed_create, finish_create, copied,
  prepared, execute_create_backup, create_backup, begin_create, name_of, backup_name_type,
}

module _ (cm : ChunkManager) (json : Json) (work : Work cm) where
  abbrev state_after : CreateBackupRequest → Option Text → BackupTaskStateCode
  state_after request none = if request.meta_only then backup_executing else backup_success
  state_after request (some e) = backup_fail

  abbrev message_after : BackupInfo → Option Text → Text
  message_after backup none = backup.error_message
  message_after backup (some e) = e

  -- The backup stands under its id among the tasks, in the state that its outcome and the request
  -- give it.
  abbrev pub IsRecorded : CreateBackupRequest → BackupInfo → Executed cm → Type 0
  IsRecorded request backup d =
      (lookup backup.id d.context.backup_tasks ≡ some d.task)
      × (d.task.id ≡ backup.id)
      × (d.task.name ≡ backup.name)
      × (d.task.state_code ≡ state_after request d.failure)
      × (d.task.error_message ≡ message_after backup d.failure)

  -- An execution without an error ends by writing the metadata.
  abbrev IsWritten : BackupContext cm → Executed cm → Type 0
  IsWritten b d =
      d.failure ≡ none
      → (s : cm.Store) × (write_meta cm json s b.backup_bucket_name b.backup_root_path d.task
          ≡ some d.context.storage)

  abbrev Ends : BackupContext cm → CreateBackupRequest → BackupInfo → Executed cm → Type 0
  Ends b request backup d = IsRecorded request backup d × IsWritten b d

  recorded :
      (b : BackupContext cm) (backup : BackupInfo)
      → lookup backup.id (insert backup.id backup b.backup_tasks) ≡ some backup
  recorded b backup =
      ground
        (arith, text_eq_refl backup.id, lookup-insert backup.id backup.id backup b.backup_tasks)

  same :
      (b : BackupContext cm) (request : CreateBackupRequest) (backup : BackupInfo)
      {c d : Executed cm}
      → some c ≡ some d
      → Ends b request backup c
      → Ends b request backup d
  same b request backup {c = c} {d = d} h ends = rw (← inj h) ends
    where
      inj : some c ≡ some d → c ≡ d
      inj e = cc

  failed_create-Ends :
      (b : BackupContext cm) (request : CreateBackupRequest) (backup : BackupInfo) (e : Text)
      → Ends b request backup (failed_create cm json work b backup e)
  unfolding failed_create refresh_backup_cache
  failed_create-Ends b request backup e = (
    (
      recorded b (record backup { state_code = backup_fail; error_message = e }),
      refl,
      refl,
      refl,
      refl,
    ),
    λ x. absurd (ground arith),
  )

  finish_create-Ends :
      (b : BackupContext cm) (request : CreateBackupRequest) (backup : BackupInfo) (d : Executed cm)
      → backup.state_code ≡ (if request.meta_only then backup_executing else backup_success)
      → finish_create cm json work b backup ≡ some d
      → Ends b request backup d
  unfolding finish_create ended refresh_backup_cache
  finish_create-Ends b request backup d state h =
      finished (write_meta cm json b.storage b.backup_bucket_name b.backup_root_path backup) refl h
    where
      finished :
          (o : Option cm.Store)
          → write_meta cm json b.storage b.backup_bucket_name b.backup_root_path backup ≡ o
          → ended cm json work b backup o ≡ some d
          → Ends b request backup d
      finished none e h = absurd (ground arith)
      finished (some s) e h =
          same b request backup h
            ((recorded b backup, refl, refl, state, refl), λ _. (b.storage, e))

  copied-Ends :
      (b : BackupContext cm) (request : CreateBackupRequest) (backup : BackupInfo) (d : Executed cm)
      (o : Option Text × List CollectionBackupInfo × cm.Store)
      → request.meta_only ≡ false
      → copied cm json work b backup o ≡ some d
      → Ends b request backup d
  unfolding copied
  copied-Ends b request backup d (some e, collections, s) full h = same b request backup h (
      failed_create-Ends (record b { storage = s }) request
        (record backup { collection_backups = collections }) e)
  copied-Ends b request backup d (none, collections, s) full h =
      finish_create-Ends (record b { storage = s }) request _ d (rw full refl) h

  prepared-Ends :
      (b : BackupContext cm) (request : CreateBackupRequest) (backup : BackupInfo) (d : Executed cm)
      (collections : List CollectionStruct) (o : Option Text × List CollectionBackupInfo)
      → backup.state_code ≡ backup_executing
      → prepared cm json work b request backup collections o ≡ some d
      → Ends b request backup d
  unfolding prepared
  prepared-Ends b request backup d collections (some e, infos) running h =
      same b request backup h
        (failed_create-Ends b request (record backup { collection_backups = infos }) e)
  prepared-Ends b request backup d collections (none, infos) running h =
      elim (Bool-cases request.meta_only) [
        | inl only ↦
            finish_create-Ends b request (record backup { collection_backups = infos }) d
              (rw (only, running) refl) (rw only at h)
        | inr full ↦
            copied-Ends b request (record backup { collection_backups = infos }) d
              (work.execute collections infos b.storage) full (rw full at h)
      ]

  abbrev running_backup : BackupInfo → BackupInfo
  running_backup backup = record backup {
    backup_timestamp = work.timestamp;
    state_code = backup_executing;
  }

  execute_create_backup-Ends :
      (b : BackupContext cm) (request : CreateBackupRequest) (backup : BackupInfo) (d : Executed cm)
      → execute_create_backup cm json work b request backup ≡ some d
      → Ends b request backup d
  unfolding execute_create_backup
  execute_create_backup-Ends b request backup d h =
      parsed (parse_backup_collections work.cluster work.marshal_to_string request) h
    where
      parsed :
          (r : Result Text (List CollectionStruct))
          → parsed_create cm json work b request (running_backup backup) r ≡ some d
          → Ends b request backup d
      parsed (err e) h =
          same b request backup h (failed_create-Ends b request (running_backup backup) e)
      parsed (ok collections) h =
          prepared-Ends b request (running_backup backup) d collections
            (work.prepare request.force collections) refl h

  -- However an execution ends that does not panic, the backup stands under its id among the tasks,
  -- with its id and name. If it ended with an error, its state is "fail", with the error's text;
  -- without an error, its state is "success", or, if only the metadata was asked for, still
  -- "executing".
  pub execute_create_backup-IsRecorded :
      (b : BackupContext cm) (request : CreateBackupRequest) (backup : BackupInfo) (d : Executed cm)
      → execute_create_backup cm json work b request backup ≡ some d
      → IsRecorded request backup d
  execute_create_backup-IsRecorded b request backup d h =
      (execute_create_backup-Ends b request backup d h).0

  -- A CreateBackup that does not panic answers a parameter error exactly if the storage finds
  -- something under the path of the backup, or finds nothing and the name is not valid, and then
  -- the context is the started one.
  pub create_backup-parameter_error_iff :
      (uuid : Text) (b : BackupContext cm) (request : CreateBackupRequest)
      (r : BackupInfoResponse × BackupContext cm)
      → create_backup cm json work uuid b request ≡ some r
      → let found =
          cm.exist
            (ensure_started cm b).storage
            (ensure_started cm b).backup_bucket_name
            ((ensure_started cm b).backup_root_path ++ (slash ++ name_of cm json work request)) in
        ((r.0.code ≡ parameter_error) ↔ (
          (found ≡ ok true)
          ⊎ ((found ≡ ok false)
              × (validate_type (name_of cm json work request) backup_name_type ≢ none))))
        × ((r.0.code ≢ parameter_error) ⊎ (r.1 ≡ ensure_started cm b))
  unfolding create_backup begin_create
  create_backup-parameter_error_iff uuid b request r h = (ground arith, ground arith)

  -- A backup whose execution ends without an error is read back by readBackup, from its directory
  -- in the backup bucket, as its durable part (all of it but the collections' own task fields), if
  -- the storage is lawful, writes to this bucket do not fail, the coders read back the four levels
  -- of this backup, and the backup is consistent.
  pub read_backup-execute_create_backup :
      (b : BackupContext cm) (request : CreateBackupRequest) (backup : BackupInfo) (d : Executed cm)
      → IsLawful cm
      → Writable cm b.backup_bucket_name
      → execute_create_backup cm json work b request backup ≡ some d
      → d.failure ≡ none
      → LevelsSurvive json d.task
      → IsConsistent d.task
      → read_backup cm json d.context.storage b.backup_bucket_name
          (b.backup_root_path ++ (slash ++ backup.name))
        ≡ ok (some (durable d.task))
  read_backup-execute_create_backup b request backup d law w h f survive v =
      let ends = execute_create_backup-Ends b request backup d h in
      let (s, e) = ends.1 f in
      rw (← ends.0.2) (
        read_backup-write_meta cm law b.backup_bucket_name w json s d.context.storage
          b.backup_root_path d.task survive v e)
