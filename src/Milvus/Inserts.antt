-- ===== src/Milvus/Inserts.antt =====
-- What a restore relies on to know which bulk inserts the cluster was asked for.
use milvus_backup.Base.{
  ℕ, zero, suc, Bool, false, List, [], ◌∷◌, ◌++◌, Option, ◌≡◌, refl, ◌∙◌, ok, arith, Option-cases,
  inl, inr,
}
use milvus_backup.Base.Text.{Text}
use milvus_backup.Base.Int64.{Int64}
use milvus_backup.Retry.Config.{Config, RetryOption, configure, new_default_config}
use milvus_backup.Retry.Do.{do_loop, do_retry, next_sleep}
use milvus_backup.Milvus.Client.{Client, Call, bind-keeps}
use milvus_backup.Milvus.Wrapper.{
  bulk_insert, has_partition, create_partition, retried, in_database, rate_controlled, failure_of,
}

pub record Insertion : Type 0 where
  pub db : Text
  pub coll : Text
  pub partition : Text
  pub files : List Text
  pub end_ts : Option Int64

-- The database in use and the bulk inserts taken on: one more for each call of BulkInsert without an
-- error, in the database in use; none for the other calls of a partition's restore.
pub record Logs (client : Client) : Type 0 where
  pub in_use : client.State → Text
  pub log : client.State → List Insertion
  pub using_database-in_use :
      (db : Text) (s : client.State)
      → (client.using_database db s).0 ≡ ok tt
      → in_use (client.using_database db s).1 ≡ db
  pub using_database-log :
      (db : Text) (s : client.State) → log (client.using_database db s).1 ≡ log s
  pub has_partition-log :
      (coll partition : Text) (s : client.State)
      → log (client.has_partition coll partition s).1 ≡ log s
  pub create_partition-log :
      (coll partition : Text) (s : client.State)
      → log (client.create_partition coll partition s).1 ≡ log s
  pub wait-log : (d : Int64) (s : client.State) → log (client.wait d s).1 ≡ log s
  pub bulk_insert-log :
      (coll partition : Text) (files : List Text) (end_ts : Option Int64) (s : client.State)
      (id : Int64)
      → (client.bulk_insert coll partition files end_ts s).0 ≡ ok id
      → log (client.bulk_insert coll partition files end_ts s).1
        ≡ log s
          ++ record {
            db = in_use s;
            coll = coll;
            partition = partition;
            files = files;
            end_ts = end_ts;
          }
            ∷ []

-- What the function and the pauses keep, its repetition keeps.
module _ {S E V : Type 0} (fn : S → Option E × S) (is_unrecoverable : E → Bool)
    (wait : Int64 → S → Option E × S) (view : S → V) (fn_keeps : (s : S) → view (fn s).1 ≡ view s)
    (wait_keeps : (d : Int64) (s : S) → view (wait d s).1 ≡ view s) where
  do_loop-keeps :
      (n : ℕ) (c : Config) (el : List E) (s : S)
      → view (do_loop fn is_unrecoverable wait n c el s).1 ≡ view s
  unfolding do_loop
  do_loop-keeps zero c el s = refl
  do_loop-keeps (suc n) c el s = elim (Option-cases (fn s).0) [
    | inl succeeds ↦ ground (arith, fn_keeps s)
    | inr (e, fails) ↦ ground (
      arith,
      fn_keeps s,
      wait_keeps c.sleep (fn s).1,
      do_loop-keeps n (next_sleep c) (el ++ e ∷ []) (wait c.sleep (fn s).1).1,
    )
  ]

  pub do_retry-keeps :
      (opts : List RetryOption) (s : S) → view (do_retry fn is_unrecoverable wait opts s).1 ≡ view s
  unfolding do_retry
  do_retry-keeps opts s =
      do_loop-keeps (configure opts new_default_config).attempts (configure opts new_default_config)
        [] s

module _ (client : Client) (logs : Logs client) where
  -- A call of the wrapper keeps the log if the library's call does.
  in_database-log :
      {A : Type 0} (db : Text) (call : Call client.State A)
      → ((s : client.State) → logs.log (call s).1 ≡ logs.log s)
      → (s : client.State) → logs.log (in_database client db call s).1 ≡ logs.log s
  unfolding in_database
  in_database-log db call keeps s =
      bind-keeps (client.using_database db) (λ _. call) logs.log (logs.log s) s
        (logs.using_database-log db s)
        (λ _. keeps (client.using_database db s).1 ∙ logs.using_database-log db s)

  pub retried-log :
      (opts : List RetryOption) (call : Call client.State Unit)
      → ((s : client.State) → logs.log (call s).1 ≡ logs.log s)
      → (s : client.State) → logs.log (retried client opts call s).1 ≡ logs.log s
  unfolding retried
  retried-log opts call keeps s =
      do_retry-keeps (λ s'. failure_of (call s')) (λ _. false) client.wait logs.log keeps
        logs.wait-log opts s

  pub has_partition-log :
      (db coll partition : Text) (s : client.State)
      → logs.log (has_partition client db coll partition s).1 ≡ logs.log s
  unfolding has_partition
  has_partition-log db coll partition =
      in_database-log db (client.has_partition coll partition)
        (logs.has_partition-log coll partition)

  pub create_partition-log :
      (db coll partition : Text) (s : client.State)
      → logs.log (create_partition client db coll partition s).1 ≡ logs.log s
  unfolding create_partition
  create_partition-log db coll partition =
      in_database-log db
        (retried client (rate_controlled client) (client.create_partition coll partition))
        (retried-log (rate_controlled client) (client.create_partition coll partition)
          (logs.create_partition-log coll partition))

  pub bulk_insert-log :
      (db coll partition : Text) (files : List Text) (end_ts : Option Int64) (s : client.State)
      (id : Int64)
      → (bulk_insert client db coll partition files end_ts s).0 ≡ ok id
      → logs.log (bulk_insert client db coll partition files end_ts s).1
        ≡ logs.log s
          ++ record { db = db; coll = coll; partition = partition; files = files; end_ts = end_ts }
            ∷ []
  unfolding bulk_insert in_database
  bulk_insert-log db coll partition files end_ts s id h = grind (
    arith,
    logs.using_database-in_use db s,
    logs.using_database-log db s,
    logs.bulk_insert-log coll partition files end_ts (client.using_database db s).1 id,
  )
