-- ===== src/Create/Prepare/Schemas.antt =====
-- backupCollectionPrepare and executeRestoreCollectionTask: the schema that is read, and the one with
-- which the collection is made again.
use milvus_backup.Base.{List, [], ◌∷◌, map, ◌≡◌, refl, All}
use milvus_backup.Base.Text.{Text}
use milvus_backup.Utils.KeyValue.{NodupKeys, kv_pairs_map-same}
use milvus_backup.Milvus.Client.{Field, Schema}
use milvus_backup.Create.Prepare.{field_schema, collection_schema}
use milvus_backup.Restore.Collection.{entity_field, entity_schema}

-- The parameters of a field are Go maps.
abbrev pub HasMaps : Field → Type 0
HasMaps field = NodupKeys field.type_params × NodupKeys field.index_params

entity_field-same : (field : Field) → HasMaps field → entity_field (field_schema field) ≡ field
unfolding entity_field field_schema
entity_field-same field (ht, hi) =
    rw (kv_pairs_map-same field.type_params ht) (rw (kv_pairs_map-same field.index_params hi) refl)

fields-same :
    (fields : List Field) → All HasMaps fields → map entity_field (map field_schema fields) ≡ fields
fields-same [] h = refl
fields-same (f ∷ fs) (hf, hs) = rw (entity_field-same f hf, fields-same fs hs) refl

-- The schema that a restore makes, under the name of its target, from the schema that a backup has
-- made of a collection of the cluster is the schema of that collection, but for the name, where
-- the type and the index parameters of each field have each key once.
pub entity_schema-collection_schema :
    (target : Text) (schema : Schema)
    → All HasMaps schema.fields
    → entity_schema target (collection_schema schema) ≡ record schema { collection_name = target }
unfolding entity_schema collection_schema
entity_schema-collection_schema target schema h = rw (fields-same schema.fields h) refl
