-- ===== src/Tests/Cluster.antt =====
-- A cluster in memory: the database in use, the collections, and the bulk inserts taken on.
use milvus_backup.Base.{
  Bool, true, List, [], ◌∷◌, ◌++◌, none, ◌≡◌, refl, ok, err, any, sym, ok-inj, ◌&&◌,
}
use milvus_backup.Base.Text.{Text, text_eq, codes}
use milvus_backup.Milvus.Client.{Client}
use milvus_backup.Milvus.Laws.{Shows}
use milvus_backup.Milvus.Inserts.{Insertion, Logs}

pub record Memory : Type 0 where
  pub db : Text
  pub collections : List (Text × Text)
  pub inserts : List Insertion

abbrev pub has_in : Text → Text → List (Text × Text) → Bool
has_in db name = any (λ (e : Text × Text). text_eq e.0 db && text_eq e.1 name)

abbrev pub test_client : Client
test_client = record {
  State = Memory;
  data_type_name = λ t. codes "FloatVector";
  auto_index = codes "AUTOINDEX";
  close = λ s. (ok tt, s);
  get_version = λ s. (ok (codes "2.3"), s);
  using_database = λ db s. (ok tt, record s { db = db });
  create_database = λ db s. (ok tt, s);
  list_databases = λ s. (ok (codes "default" ∷ []), s);
  describe_collection = λ name s. (err name, s);
  describe_index = λ name field s. (ok [], s);
  show_partitions = λ name s. (ok [], s);
  get_loading_progress = λ name ps s. (ok 0, s);
  get_persistent_segment_info = λ name s. (ok [], s);
  flush_v2 = λ name async s. (err name, s);
  list_collections = λ s. (ok [], s);
  has_collection = λ name s. (ok (has_in s.db name s.collections), s);
  bulk_insert = λ coll partition files end_ts s. (
    ok 7,
    record s {
      inserts =
          s.inserts
          ++ record {
            db = s.db;
            coll = coll;
            partition = partition;
            files = files;
            end_ts = end_ts;
          }
            ∷ [];
    },
  );
  create_collection = λ schema shards opts s.
      (ok tt, record s { collections = (s.db, schema.collection_name) ∷ s.collections });
  drop_collection = λ name s. (ok tt, s);
  create_partition = λ coll partition s. (ok tt, s);
  has_partition = λ coll partition s. (ok true, s);
  create_index = λ coll field index async s. (ok tt, s);
  drop_index = λ coll index s. (ok tt, s);
  wait = λ d s. (none, s);
}

pub test_client-Shows : Shows test_client
test_client-Shows = record {
  in_use = λ s. s.db;
  has = λ s d n. has_in d n s.collections;
  using_database-in_use = λ db s h. refl;
  using_database-has = λ db s d n. refl;
  has_collection-ok = λ name s b h. sym (ok-inj h);
  has_collection-has = λ name s d n. refl;
  list_databases-has = λ s d n. refl;
  create_database-has = λ db s d n. refl;
}

pub test_client-has :
    (s : Memory) (d n : Text) → test_client-Shows.has s d n ≡ has_in d n s.collections
unfolding test_client-Shows
test_client-has s d n = refl

pub test_client-Logs : Logs test_client
test_client-Logs = record {
  in_use = λ s. s.db;
  log = λ s. s.inserts;
  using_database-in_use = λ db s h. refl;
  using_database-log = λ db s. refl;
  has_partition-log = λ coll partition s. refl;
  create_partition-log = λ coll partition s. refl;
  wait-log = λ d s. refl;
  bulk_insert-log = λ coll partition files end_ts s id h. refl;
}
