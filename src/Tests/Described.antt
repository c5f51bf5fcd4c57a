-- ===== src/Tests/Described.antt =====
-- A cluster with a collection to back up: its schema, an index that two fields report, a segment.
use milvus_backup.Base.{true, false, [], ◌∷◌, List, none, ◌≡◌, refl, ok, map, ◌++◌}
use milvus_backup.Base.Text.{Text, codes, text_key, text_eq}
use milvus_backup.Base.Dict.{Dict, lookup, insert}
use milvus_backup.Proto.{CollectionBackupInfo, IndexInfo}
use milvus_backup.Milvus.Client.{Client, Field, Schema, Collection}
use milvus_backup.Milvus.Wrapper.{
  describe_collection, describe_index, show_partitions, get_loading_progress,
  get_persistent_segment_info, flush_v2,
}
use milvus_backup.Create.Collections.{CollectionStruct}
use milvus_backup.Restore.Tasks.{Stamp}
use milvus_backup.Restore.Collection.{entity_schema}
use milvus_backup.Create.Prepare.{collection_schema, new_collection, describe, prepare_all}
use milvus_backup.Create.Prepare.Schemas.{entity_schema-collection_schema}
use milvus_backup.Create.Prepare.IndexNames.{DistinctNames, describe-DistinctNames}
use milvus_backup.Create.Prepare.Appends.{prepare_all-appends}
use milvus_backup.Tests.Cluster.{Memory, test_client}

abbrev vector_params : Dict Text Text
vector_params = (codes "dim", codes "128") ∷ (codes "metric", codes "L2") ∷ []

abbrev test_field : Text → Field
test_field name = record {
  id = 100;
  name = name;
  primary_key = false;
  auto_id = false;
  description = [];
  data_type = 101;
  type_params = vector_params;
  index_params = [];
  is_dynamic = false;
  is_partition_key = false;
  element_type = 0;
}

abbrev test_schema : Schema
test_schema = record {
  collection_name = codes "films";
  description = codes "all of them";
  auto_id = true;
  fields = test_field (codes "poster") ∷ test_field (codes "text") ∷ [];
  enable_dynamic_field = false;
}

abbrev test_index : IndexInfo
test_index = record {
  field_name = codes "poster";
  index_name = codes "by_poster";
  index_type = codes "HNSW";
  params = [];
}

abbrev described_collection : Collection
described_collection = record {
  id = 7;
  name = codes "films";
  schema = test_schema;
  shard_num = 2;
  consistency_level = 1;
}

abbrev described_client : Client
described_client = record test_client {
  describe_collection = λ name s. (ok described_collection, s);
  describe_index = λ name field s. (ok (test_index ∷ []), s);
  show_partitions = λ name s. (ok (record { id = 3; name = codes "_default" } ∷ []), s);
  get_loading_progress = λ name ps s. (ok 50, s);
  flush_v2 = λ name async s. (
    ok (record { new_sealed_segment_ids = 5 ∷ []; flushed_segment_ids = []; time_of_seal = 9 }),
    s,
  );
  get_persistent_segment_info = λ name s.
      (ok (record { id = 5; collection_id = 7; partition_id = 3; num_rows = 10 } ∷ []), s);
}

abbrev nothing_used : Memory
nothing_used = record { db = []; collections = []; inserts = [] }

abbrev test_stamp : Stamp
test_stamp = record { id = codes "1"; start_time = 4 }

abbrev films : CollectionStruct
films = record { db = codes "cinema"; collection_name = codes "films" }

entity_schema-collection_schema_example :
    entity_schema (codes "films_copy") (collection_schema test_schema)
    ≡ record test_schema { collection_name = codes "films_copy" }
unfolding lookup text_eq
entity_schema-collection_schema_example =
    entity_schema-collection_schema (codes "films_copy") test_schema
      (((refl, (refl, tt)), tt), (((refl, (refl, tt)), tt), tt))

abbrev described_info : CollectionBackupInfo
described_info = new_collection test_stamp (codes "cinema") described_collection (test_index ∷ [])

describes : (describe described_client test_stamp films nothing_used).0 ≡ ok described_info
unfolding describe describe_collection describe_index lookup insert text_eq
describes = refl

describe-DistinctNames_example : DistinctNames described_info.index_infos
describe-DistinctNames_example =
    describe-DistinctNames described_client test_stamp films nothing_used described_info describes

prepares :
    (prepare_all described_client (λ _. test_stamp) false (films ∷ []) [] nothing_used).0 ≡ none
unfolding prepare_all describe_collection describe_index show_partitions get_loading_progress
    get_persistent_segment_info flush_v2
prepares = refl

prepare_all-appends_example :
    (more : List CollectionBackupInfo) × ((prepare_all described_client
        (λ _. test_stamp)
        false
        (films ∷ [])
        []
        nothing_used).1
      ≡ [] ++ more)
    × (map (λ x. x.db_name) more ≡ map (λ x. x.db) (films ∷ []))
prepare_all-appends_example =
    prepare_all-appends described_client (λ _. test_stamp) false (films ∷ []) [] nothing_used
      prepares
