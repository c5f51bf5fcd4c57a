-- ===== src/Restore/Index.antt =====
-- executeRestoreCollectionTask: the indexes of a collection.
use milvus_backup.Base.{
  ℕ, ◌+◌, Bool, true, ◌&&◌, ◌||◌, List, [], ◌∷◌, map, any, some, Result, ok, err, if◌then◌else◌,
  leb,
}
use milvus_backup.Base.Text.{Text, codes, text_key, text_eq, occurs, has_prefix}
use milvus_backup.Base.Dict.{lookup, insert}
use milvus_backup.Proto.{FieldSchema, IndexInfo}
use milvus_backup.Create.Segments.{or_text}
use milvus_backup.Milvus.Client.{Client, Call, Field}
use milvus_backup.Milvus.Wrapper.{describe_index, drop_index, create_index}
use milvus_backup.Restore.Renames.{has_suffix}
use milvus_backup.Restore.Run.{Site, R, ◌>>=◌, ◌>>◌, pure, raise, on_cluster}

-- strings.ToLower on ASCII
unfoldable pub to_lower : Text → Text
to_lower = map (λ c. if leb b'A' c && leb c b'Z' then c + 32 else c)

-- The errors of DescribeIndex that mean that a field has no index.
unfoldable pub is_no_index : Text → Bool
is_no_index e = occurs (codes "index not found") e || has_prefix e (codes "index doesn't exist")

abbrev pub marisa_trie : Text
marisa_trie = codes "marisa-trie"

abbrev pub trie : Text
trie = codes "Trie"

abbrev pub index_type_key : Text
index_type_key = codes "index_type"

abbrev pub metric_type_key : Text
metric_type_key = codes "metric_type"

unfoldable pub auto_index : Text → IndexInfo → IndexInfo
auto_index auto index = record index {
  index_type = auto;
  params =
      insert metric_type_key (or_text (lookup metric_type_key index.params))
        (insert index_type_key (codes "AUTOINDEX") []);
}

-- The type "marisa-trie" is called "Trie" by the client library, also in the parameters.
unfoldable pub plain_index : IndexInfo → IndexInfo
plain_index index = record index {
  index_type = if text_eq index.index_type marisa_trie then trie else index.index_type;
  params =
      if text_eq (or_text (lookup index_type_key index.params)) marisa_trie
      then insert index_type_key trie index.params
      else index.params;
}

unfoldable pub is_vector_field : (ℕ → Text) → Text → List Field → Bool
unfolding to_lower has_suffix
is_vector_field type_name name fields =
    any (λ f. text_eq f.name name && has_suffix (to_lower (type_name f.data_type)) (codes "vector"))
      fields

-- The index that is created for one of the backup.
unfoldable pub restored_index : Client → List Field → Bool → IndexInfo → IndexInfo
unfolding auto_index plain_index is_vector_field
restored_index client fields use_auto_index index =
    if is_vector_field client.data_type_name index.field_name fields && use_auto_index
    then auto_index client.auto_index index
    else plain_index index

module _ (site : Site) (db coll : Text) where
  unfoldable pub drop_indexes : List IndexInfo → R site Unit
  drop_indexes [] = pure tt
  drop_indexes (index ∷ indexes) = do
    on_cluster site (drop_index site.client db coll index.index_name)
    drop_indexes indexes

  -- What DescribeIndex answers: a field without an index is passed over.
  unfoldable pub drop_described : Result Text (List IndexInfo) → R site Unit
  unfolding drop_indexes
  drop_described (err e) = if is_no_index e then pure tt else raise e
  drop_described (ok indexes) = drop_indexes indexes

  abbrev pub attempted : {A : Type 0} → Call site.client.State A → R site (Result Text A)
  attempted call w = let (r, c) = call w.cluster in some (ok r, record w { cluster = c })

  unfoldable pub drop_all_indexes : List FieldSchema → R site Unit
  unfolding drop_described
  drop_all_indexes [] = pure tt
  drop_all_indexes (field ∷ fields) = do
    described ← attempted (describe_index site.client db coll field.name)
    drop_described described
    drop_all_indexes fields

  unfoldable pub create_indexes : List Field → Bool → List IndexInfo → R site Unit
  unfolding restored_index
  create_indexes fields use_auto_index [] = pure tt
  create_indexes fields use_auto_index (index ∷ indexes) = do
    on_cluster site (
        create_index site.client db coll index.field_name
          (restored_index site.client fields use_auto_index index) true)
    create_indexes fields use_auto_index indexes
