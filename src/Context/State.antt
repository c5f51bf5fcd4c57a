-- ===== src/Context/State.antt =====
-- BackupContext, CreateBackupContext, Start and Close. The clients are made on the first use, and a
-- failure to make one panics; here the storage is there from the start.
use milvus_backup.Base.{Bool, true, false, []}
use milvus_backup.Base.Text.{Text}
use milvus_backup.Base.Dict.{Dict}
use milvus_backup.Proto.{BackupInfo, RestoreBackupTask}
use milvus_backup.Storage.{ChunkManager}

-- What the configuration says of the buckets and the roots.
pub record MinioCfg : Type 0 where
  pub bucket_name : Text
  pub backup_bucket_name : Text
  pub root_path : Text
  pub backup_root_path : Text

pub record BackupContext (cm : ChunkManager) : Type 0 where
  pub started : Bool
  pub storage : cm.Store
  pub milvus_bucket_name : Text
  pub backup_bucket_name : Text
  pub milvus_root_path : Text
  pub backup_root_path : Text
  pub backup_name_id_dict : Dict Text Text
  pub backup_tasks : Dict Text BackupInfo
  pub restore_tasks : Dict Text RestoreBackupTask
  -- A job of getRestoreWorkerPool has failed: the context of that pool is cancelled for good.
  pub restore_pool_cancelled : Bool

module _ (cm : ChunkManager) where
  unfoldable pub create_backup_context : MinioCfg → cm.Store → BackupContext cm
  create_backup_context params storage = record {
    started = false;
    storage = storage;
    milvus_bucket_name = params.bucket_name;
    backup_bucket_name = params.backup_bucket_name;
    milvus_root_path = params.root_path;
    backup_root_path = params.backup_root_path;
    backup_name_id_dict = [];
    backup_tasks = [];
    restore_tasks = [];
    restore_pool_cancelled = false;
  }

  -- Start never fails. It forgets what an earlier run has recorded.
  unfoldable pub start : BackupContext cm → BackupContext cm
  start b = record b {
    started = true;
    backup_name_id_dict = [];
    backup_tasks = [];
    restore_tasks = [];
  }

  -- `if !b.started { b.Start() }`, at the head of every call.
  unfoldable pub ensure_started : BackupContext cm → BackupContext cm
  unfolding start
  ensure_started b = elim b.started [ true ↦ b | false ↦ start b ]

  -- The error is that of the client's own Close.
  unfoldable pub close : BackupContext cm → BackupContext cm
  close b = record b { started = false }
