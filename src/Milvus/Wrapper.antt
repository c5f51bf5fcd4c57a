-- ===== src/Milvus/Wrapper.antt =====
-- MilvusClient. Its lock is held over a call, so that the choice of the database and the call behind
-- it are one step. Calls that may meet the rate control are retried.
use milvus_backup.Base.{
  ℕ, Bool, false, List, [], ◌∷◌, ◌++◌, Option, none, some, Result, ok, err, if◌then◌else◌, ltb, ◌+◌,
  ◌*◌,
}
use milvus_backup.Base.Text.{Text, codes}
use milvus_backup.Base.Int64.{Int64}
use milvus_backup.Base.Decimal.{print_int64}
use milvus_backup.Proto.{IndexInfo}
use milvus_backup.Create.Segments.{Segment, Partition}
use milvus_backup.Retry.Config.{RetryOption, attempts, sleep, millisecond}
use milvus_backup.Retry.Do.{do_retry}
use milvus_backup.Milvus.Client.{Call, Client, ◌>>◌, Schema, Collection, Flushed, CreateOptions}

-- ErrorList's Error: a line for each of the first eleven errors.
unfoldable pub attempt_lines : ℕ → List Text → Text
attempt_lines index [] = []
attempt_lines index (e ∷ el) =
    let rest = attempt_lines (index + 1) el in
    if ltb 10 index
    then []
    else codes "attempt #" ++ (print_int64 (index + 1) ++ (codes ":" ++ (e ++ 10 ∷ rest)))

unfoldable pub error_list_text : List Text → Text
unfolding attempt_lines
error_list_text el = codes "All attempts results:" ++ 10 ∷ attempt_lines 0 el

abbrev pub second : Int64
second = 1000 * millisecond

abbrev pub failure_of : {S : Type 0} → Result Text Unit × S → Option Text × S
failure_of r = (elim r.0 [ ok _ ↦ none | err e ↦ some e ], r.1)

abbrev retried_answer : {S : Type 0} → Option (List Text) × S → Result Text Unit × S
retried_answer r = (elim r.0 [ none ↦ ok tt | some el ↦ err (error_list_text el) ], r.1)

module _ (client : Client) where
  abbrev pub M : Type 0 → Type 0
  M A = Call client.State A

  -- retry.Do around a call. Nothing calls retry.Unrecoverable, so no error is of that kind.
  unfoldable pub retried : List RetryOption → M Unit → M Unit
  unfolding do_retry
  retried opts call s =
      retried_answer (do_retry (λ s'. failure_of (call s')) (λ _. false) client.wait opts s)

  -- `err := m.client.UsingDatabase(ctx, db)`, and the call if there is no error.
  unfoldable pub in_database : {A : Type 0} → Text → M A → M A
  in_database db call = do client.using_database db; call

  abbrev pub get_version : M Text
  get_version = client.get_version

  abbrev pub create_database : Text → M Unit
  create_database db_name = client.create_database db_name

  abbrev pub list_databases : M (List Text)
  list_databases = client.list_databases

  unfoldable pub describe_collection : Text → Text → M Collection
  unfolding in_database
  describe_collection db coll_name = in_database db (client.describe_collection coll_name)

  unfoldable pub describe_index : Text → Text → Text → M (List IndexInfo)
  unfolding in_database
  describe_index db coll_name field_name =
      in_database db (client.describe_index coll_name field_name)

  unfoldable pub show_partitions : Text → Text → M (List Partition)
  unfolding in_database
  show_partitions db coll_name = in_database db (client.show_partitions coll_name)

  unfoldable pub get_loading_progress : Text → Text → List Text → M Int64
  unfolding in_database
  get_loading_progress db coll_name partition_names =
      in_database db (client.get_loading_progress coll_name partition_names)

  unfoldable pub get_persistent_segment_info : Text → Text → M (List Segment)
  unfolding in_database
  get_persistent_segment_info db coll_name =
      in_database db (client.get_persistent_segment_info coll_name)

  unfoldable pub flush_v2 : Text → Text → Bool → M Flushed
  unfolding in_database
  flush_v2 db coll_name async = in_database db (client.flush_v2 coll_name async)

  unfoldable pub list_collections : Text → M (List Text)
  unfolding in_database
  list_collections db = in_database db client.list_collections

  unfoldable pub has_collection : Text → Text → M Bool
  unfolding in_database
  has_collection db coll_name = in_database db (client.has_collection coll_name)

  unfoldable pub bulk_insert : Text → Text → Text → List Text → Option Int64 → M Int64
  unfolding in_database
  bulk_insert db coll_name partition_name files end_ts =
      in_database db (client.bulk_insert coll_name partition_name files end_ts)

  abbrev pub rate_controlled : List RetryOption
  rate_controlled = sleep (2 * second) ∷ attempts 10 ∷ []

  unfoldable pub create_collection : Text → Schema → ℕ → CreateOptions → M Unit
  unfolding in_database retried
  create_collection db schema shards_num opts =
      in_database db (retried rate_controlled (client.create_collection schema shards_num opts))

  unfoldable pub drop_collection : Text → Text → M Unit
  unfolding in_database retried
  drop_collection db collection_name =
      in_database db (retried rate_controlled (client.drop_collection collection_name))

  unfoldable pub create_partition : Text → Text → Text → M Unit
  unfolding in_database retried
  create_partition db coll_name partition_name =
      in_database db (retried rate_controlled (client.create_partition coll_name partition_name))

  unfoldable pub has_partition : Text → Text → Text → M Bool
  unfolding in_database
  has_partition db coll_name partition_name =
      in_database db (client.has_partition coll_name partition_name)

  unfoldable pub create_index : Text → Text → Text → IndexInfo → Bool → M Unit
  unfolding in_database
  create_index db coll_name field_name idx async =
      in_database db (client.create_index coll_name field_name idx async)

  unfoldable pub drop_index : Text → Text → Text → M Unit
  unfolding in_database
  drop_index db coll_name index_name = in_database db (client.drop_index coll_name index_name)
