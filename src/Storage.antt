-- ===== src/Storage.antt =====
-- core/storage/chunk_manager.go: the interface through which the tool reaches object storage, and
-- what its clients rely on.
pub mod Minio
use milvus_backup.Base.{Bool, true, false, List, Option, none, ◌≡◌, Result, ok}
use milvus_backup.Base.Text.{Text, has_prefix}
use milvus_backup.Base.Int64.{Int64}

-- Arguments: the bucket, then the path. What changes the store returns the error, if any, and the
-- store after the call. A failed call may have changed it.
pub record ChunkManager : Type 1 where
  pub Store : Type 0
  pub path : Store → Text → Text → Result Text Text
  pub size : Store → Text → Text → Result Text Int64
  pub exist : Store → Text → Text → Result Text Bool
  pub read : Store → Text → Text → Result Text Text
  pub list_with_prefix : Store → Text → Text → Bool → Result Text (List (Text × Int64))
  pub write : Store → Text → Text → Text → Option Text × Store
  pub remove : Store → Text → Text → Option Text × Store
  pub remove_with_prefix : Store → Text → Text → Option Text × Store
  pub copy : Store → Text → Text → Text → Text → Option Text × Store

-- Calls that succeed do what their comments say.
pub record IsLawful (cm : ChunkManager) : Type 0 where
  pub read-write :
      (s t : cm.Store) (b p c : Text) → cm.write s b p c ≡ (none, t) → cm.read t b p ≡ ok c
  pub read-write_ne :
      (s t : cm.Store) (b p c q d : Text)
      → cm.write s b p c ≡ (none, t)
      → (q ≡ p → ⊥)
      → cm.read s b q ≡ ok d
      → cm.read t b q ≡ ok d
  pub exist-write :
      (s t : cm.Store) (b p c : Text) → cm.write s b p c ≡ (none, t) → cm.exist t b p ≡ ok true
  pub exist-write_ne :
      (s t : cm.Store) (b p c q : Text)
      → cm.write s b p c ≡ (none, t)
      → cm.exist s b q ≡ ok true
      → cm.exist t b q ≡ ok true
  pub exist-remove_with_prefix :
      (s t : cm.Store) (b p q : Text)
      → cm.remove_with_prefix s b p ≡ (none, t)
      → has_prefix q p ≡ true
      → cm.exist t b q ≡ ok false
