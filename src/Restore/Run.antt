-- ===== src/Restore/Run.antt =====
-- What a restore works on, and calls that may not return: `none` where the watch of a bulk insert goes
-- on past the polls that are given.
use milvus_backup.Base.{
  ℕ, Bool, List, Option, none, some, Result, ok, err, ◌≡◌, refl, ap, sym, ok-ne_err, ok-inj,
  some-inj, none-ne_some,
}
use milvus_backup.Base.Text.{Text}
use milvus_backup.Base.Int64.{Int64}
use milvus_backup.Proto.{RestoreCollectionTask}
use milvus_backup.Storage.{ChunkManager}
use milvus_backup.Milvus.Client.{Client, Call}
use milvus_backup.Restore.Watch.{Poll}

abbrev pub Run : Type 0 → Type 0 → Type 0
Run S A = S → Option (Result Text A × S)

module _ {S A : Type 0} where
  abbrev pub pure : A → Run S A
  pure a s = some (ok a, s)

  abbrev pub raise : Text → Run S A
  raise e s = some (err e, s)

infixl 5 ◌>>=◌ ◌>>◌
abbrev pub ◌>>=◌ : {S A B : Type 0} → Run S A → (A → Run S B) → Run S B
◌>>=◌ m f s = elim (m s) [
  | none ↦ none
  | some (r, s') ↦ elim r [ ok a ↦ f a s' | err e ↦ some (err e, s') ]
]

abbrev pub ◌>>◌ : {S A B : Type 0} → Run S A → Run S B → Run S B
m >> k = m >>= λ _. k

abbrev pub modify : {S : Type 0} → (S → S) → Run S Unit
modify f s = some (ok tt, f s)

-- The clock at the start of a watch, and what the cluster answers to its polls.
pub record Watched : Type 0 where
  pub start : ℕ
  pub polls : List Poll

-- What stays the same over a restore: the clients, the two buckets and the backup's directory in its
-- bucket, the configuration, whether the context of the shared pool of the partitions is cancelled
-- when the restore starts, and what a watch of a task will see.
pub record Site : Type 1 where
  pub cm : ChunkManager
  pub client : Client
  pub milvus_bucket_name : Text
  pub backup_bucket_name : Text
  pub backup_path : Text
  pub keep_temp_files : Bool
  pub pool_cancelled : Bool
  pub watched : client.State → Int64 → Watched
  pub watch_ends : client.State → Int64 → client.State

-- The cluster, the storage, the task of the collection, which the jobs share, and whether a job of a
-- partition has failed.
pub record World (site : Site) : Type 0 where
  pub cluster : site.client.State
  pub store : site.cm.Store
  pub task : RestoreCollectionTask
  pub pool_failed : Bool

module _ (site : Site) where
  abbrev pub R : Type 0 → Type 0
  R A = Run (World site) A

  abbrev pub on_cluster : {A : Type 0} → Call site.client.State A → R A
  on_cluster call w = let (r, c) = call w.cluster in some (r, record w { cluster = c })

  -- A call that changes the storage.
  abbrev pub on_store : (site.cm.Store → Option Text × site.cm.Store) → R Unit
  on_store call w =
      let (failure, s) = call w.store in
      some (elim failure [ none ↦ ok tt | some e ↦ err e ], record w { store = s })

  -- A call that reads the storage.
  abbrev pub ask_store : {A : Type 0} → (site.cm.Store → Result Text A) → R A
  ask_store call w = some (call w.store, w)

  abbrev pub get_task : R RestoreCollectionTask
  get_task w = some (ok w.task, w)

  abbrev pub set_task : (RestoreCollectionTask → RestoreCollectionTask) → R Unit
  set_task f w = some (ok tt, record w { task = f w.task })

module _ {S A B : Type 0} (m : Run S A) (f : A → Run S B) where
  goes_on : Option (Result Text A × S) → Option (Result Text B × S)
  goes_on o = elim o [
    | none ↦ none
    | some (r, s) ↦ elim r [ ok a ↦ f a s | err e ↦ some (err e, s) ]
  ]

  -- A sequence that ends without an error has gone through both parts.
  pub bind-ok :
      (s s'' : S) (b : B)
      → (m >>= f) s ≡ some (ok b, s'')
      → (a : A) × (s' : S) × (m s ≡ some (ok a, s')) × (f a s' ≡ some (ok b, s''))
  unfolding goes_on
  bind-ok s s'' b h = split (m s) refl h
    where
      split :
          (o : Option (Result Text A × S))
          → m s ≡ o
          → goes_on o ≡ some (ok b, s'')
          → (a : A) × (s' : S) × (m s ≡ some (ok a, s')) × (f a s' ≡ some (ok b, s''))
      split none e k = absurd (none-ne_some k)
      split (some (ok a, s')) e k = (a, s', e, k)
      split (some (err x, s')) e k = absurd (ok-ne_err (sym (ap (λ r. r.0) (some-inj k))))

module _ {S A : Type 0} where
  pub returned-inj :
      {a b : A} {s t : S}
      → ◌≡◌ {A = Option (Result Text A × S)} (some (ok a, s)) (some (ok b, t))
      → (a ≡ b) × (s ≡ t)
  returned-inj k = (ok-inj (ap (λ r. r.0) (some-inj k)), ap (λ r. r.1) (some-inj k))

  pub raised-ne_returned :
      {e : Text} {b : A} {s t : S}
      → ◌≡◌ {A = Option (Result Text A × S)} (some (err e, s)) (some (ok b, t))
      → ⊥
  raised-ne_returned k = ok-ne_err (sym (ap (λ r. r.0) (some-inj k)))
