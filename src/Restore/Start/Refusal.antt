-- ===== src/Restore/Start/Refusal.antt =====
-- A restore does not touch a collection that exists.
use milvus_backup.Base.{Bool, ◌≡◌, Option, some}
use milvus_backup.Base.Text.{Text}
use milvus_backup.Proto.{CollectionBackupInfo, RestoreBackupRequest, fail}
use milvus_backup.Context.State.{BackupContext}
use milvus_backup.Milvus.Laws.{Shows}
use milvus_backup.Restore.Renames.{target_of}
use milvus_backup.Restore.Start.{Setting, Served}

module _ (setting : Setting) (shows : Shows setting.client) where
  -- The cluster has the collection under whose name this one would be restored.
  abbrev pub target_exists :
      setting.client.State → RestoreBackupRequest → CollectionBackupInfo → Bool
  target_exists c request x =
      shows.has c (target_of request x).db (target_of request x).collection_name

  -- What a call that has failed has left: the context, and the cluster's collections.
  pub record Refuses (b : BackupContext setting.cm) (c : setting.client.State)
      (done : Option (Served setting)) : Type 0 where
    pub served : Served setting
    pub is_served : done ≡ some served
    pub code : served.answer.code ≡ fail
    pub context : served.context ≡ b
    pub collections : (d n : Text) → shows.has served.cluster d n ≡ shows.has c d n
