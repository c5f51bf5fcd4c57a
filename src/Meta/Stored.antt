-- ===== src/Meta/Stored.antt =====
-- What comes back from the metadata files of a backup.
use milvus_backup.Base.{none, some, ◌≡◌, ◌↔◌, ok, err, arith}
use milvus_backup.Base.Text.{Text}
use milvus_backup.Proto.{BackupInfo}
use milvus_backup.Meta.Levels.{tree_to_level}
use milvus_backup.Meta.RoundTrip.{IsConsistent, durable, level_to_tree-tree_to_level}
use milvus_backup.Meta.Files.{
  Coder, Json, BackupMetaBytes, empty_backup, no_collections, no_partitions, no_segments, serialize,
  deserialize,
}

-- The coder reads back, into an empty message, what it wrote of this message.
abbrev pub Survives : {A : Type 0} → Coder A → A → A → Type 0
Survives c empty a = (bytes : Text) → c.marshal a ≡ ok bytes → c.unmarshal bytes empty ≡ (a, none)

-- The four levels of a backup survive the coders.
pub record LevelsSurvive (json : Json) (b : BackupInfo) : Type 0 where
  pub backup : Survives json.backup empty_backup (tree_to_level b).backup_level
  pub collections : Survives json.collections no_collections (tree_to_level b).collection_level
  pub partitions : Survives json.partitions no_partitions (tree_to_level b).partition_level
  pub segments : Survives json.segments no_segments (tree_to_level b).segment_level

-- A successful serialize has written each level by its coder.
pub serialize-inv :
    (json : Json) (b : BackupInfo) (m : BackupMetaBytes)
    → serialize json b ≡ ok m
    → (json.collections.marshal (tree_to_level b).collection_level ≡ ok m.collection_meta_bytes)
      × (json.partitions.marshal (tree_to_level b).partition_level ≡ ok m.partition_meta_bytes)
      × (json.segments.marshal (tree_to_level b).segment_level ≡ ok m.segment_meta_bytes)
      × (json.backup.marshal (tree_to_level b).backup_level ≡ ok m.backup_meta_bytes)
      × (json.backup.marshal b ≡ ok m.full_meta_bytes)
unfolding serialize
serialize-inv json b m h = ground arith

-- Bytes that serialize wrote of a consistent backup are read back as its durable part, if the
-- coders read back its four levels.
pub deserialize-serialize :
    (json : Json) (b : BackupInfo) (m : BackupMetaBytes)
    → LevelsSurvive json b
    → IsConsistent b
    → serialize json b ≡ ok m
    → deserialize json m ≡ ok (durable b)
unfolding deserialize
deserialize-serialize json b m s v h =
    let written = serialize-inv json b m h in
    ground (
      arith,
      s.backup m.backup_meta_bytes written.3,
      s.collections m.collection_meta_bytes written.0,
      s.partitions m.partition_meta_bytes written.1,
      s.segments m.segment_meta_bytes written.2,
      level_to_tree-tree_to_level b v,
    )

-- deserialize fails exactly with the error of reading the backup level, whatever reading the other
-- three levels answers.
pub deserialize-err_iff :
    (json : Json) (m : BackupMetaBytes) (e : Text)
    → (deserialize json m ≡ err e)
      ↔ ((json.backup.unmarshal m.backup_meta_bytes empty_backup).1 ≡ some e)
unfolding deserialize
deserialize-err_iff json m e = ground arith
