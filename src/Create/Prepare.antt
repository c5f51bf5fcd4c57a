-- ===== src/Create/Prepare.antt =====
-- backupCollectionPrepare: what the cluster says of a collection, as the backup keeps it, request by
-- request, and the jobs of the collections.
pub mod Schemas
pub mod IndexNames
pub mod Appends
use milvus_backup.Base.{
  ℕ, ◌<◌, ◌^◌, Bool, true, false, not, ◌&&◌, ◌==◌, nat_key, List, [], ◌∷◌, ◌++◌, map, Option, none,
  some, ◌≡◌, refl, ◌∙◌, ap, sym, Result, ok, err, if◌then◌else◌, ltb, length, keep, any, arith, All,
}
use milvus_backup.Base.Text.{Text, text_key, text_eq, text_eq_iff}
use milvus_backup.Base.Dict.{Dict, lookup, insert, lookup-insert}
use milvus_backup.Base.Int64.{Int64, sum64}
use milvus_backup.Proto.{
  CollectionBackupInfo, CollectionSchema, FieldSchema, IndexInfo, PartitionBackupInfo,
  backup_initial,
}
use milvus_backup.Utils.KeyValue.{map_to_kv_pair}
use milvus_backup.Utils.Timestamp.{compose_ts}
use milvus_backup.Milvus.Client.{
  Client, Call, Field, Schema, Collection, Flushed, ◌>>=◌, ◌>>◌, pure, raise,
}
use milvus_backup.Milvus.Wrapper.{
  describe_collection, describe_index, show_partitions, get_loading_progress,
  get_persistent_segment_info, flush_v2,
}
use milvus_backup.Create.Collections.{CollectionStruct}
use milvus_backup.Create.Segments.{
  Segment, Partition, select_segments, partition_backup_infos, load_state_of,
}
use milvus_backup.Restore.Tasks.{Stamp}
use milvus_backup.Restore.Index.{is_no_index}

unfoldable pub field_schema : Field → FieldSchema
field_schema field = record {
  field_id = field.id;
  name = field.name;
  is_primary_key = field.primary_key;
  description = field.description;
  auto_id = field.auto_id;
  data_type = field.data_type;
  type_params = map_to_kv_pair field.type_params;
  index_params = map_to_kv_pair field.index_params;
  is_dynamic = field.is_dynamic;
  is_partition_key = field.is_partition_key;
  element_type = field.element_type;
}

unfoldable pub collection_schema : Schema → CollectionSchema
unfolding field_schema
collection_schema schema = record {
  name = schema.collection_name;
  description = schema.description;
  auto_id = schema.auto_id;
  fields = map field_schema schema.fields;
  enable_dynamic_field = schema.enable_dynamic_field;
}

-- indexInfos and indexDict.
pub record Indexes : Type 0 where
  pub infos : List IndexInfo
  pub dict : Dict Text IndexInfo

abbrev pub no_indexes : Indexes
no_indexes = record { infos = []; dict = [] }

-- The loop over the indexes of a field: an index whose name is known is passed over.
unfoldable pub add_indexes : List IndexInfo → Indexes → Indexes
add_indexes [] known = known
add_indexes (index ∷ indexes) known =
    let added : Indexes = record {
      infos = known.infos ++ index ∷ [];
      dict = insert index.index_name index known.dict;
    } in
    elim (lookup index.index_name known.dict) [
      | some _ ↦ add_indexes indexes known
      | none ↦ add_indexes indexes added
    ]

-- A collection as it is appended to the backup.
unfoldable pub new_collection : Stamp → Text → Collection → List IndexInfo → CollectionBackupInfo
unfolding collection_schema
new_collection stamp db c infos = record {
  id = stamp.id;
  state_code = backup_initial;
  error_message = [];
  start_time = stamp.start_time;
  end_time = 0;
  progress = 0;
  collection_id = c.id;
  db_name = db;
  collection_name = c.name;
  schema = collection_schema c.schema;
  shards_num = c.shard_num;
  consistency_level = c.consistency_level;
  partition_backups = [];
  backup_timestamp = 0;
  size = 0;
  has_index = ltb 0 (length infos);
  index_infos = infos;
  load_state = [];
  backup_physical_timestamp = 0;
}

module _ (client : Client) where
  abbrev M : Type 0 → Type 0
  M A = Call client.State A

  -- The cluster and the collection that is being prepared.
  pub record Preparing : Type 0 where
    pub cluster : client.State
    pub collection : CollectionBackupInfo

  abbrev pub P : Type 0 → Type 0
  P A = Call Preparing A

  abbrev pub asks : {A : Type 0} → M A → P A
  asks call p = let (r, c) = call p.cluster in (r, record p { cluster = c })

  abbrev pub sets : (CollectionBackupInfo → CollectionBackupInfo) → P Unit
  sets f p = (ok tt, record p { collection = f p.collection })

  abbrev attempted : {A : Type 0} → M A → M (Result Text A)
  attempted call c = let (r, c') = call c in (ok r, c')

  -- The loop over the fields; a field without an index is passed over.
  unfoldable pub field_indexes : Text → Text → List Field → Indexes → M Indexes
  unfolding add_indexes is_no_index
  field_indexes db coll [] known = pure known
  field_indexes db coll (field ∷ fields) known = do
    described ← attempted (describe_index client db coll field.name)
    elim described [
      | err e ↦ if is_no_index e then field_indexes db coll fields known else raise e
      | ok indexes ↦ field_indexes db coll fields (add_indexes indexes known)
    ]

  unfoldable pub describe : Stamp → CollectionStruct → M CollectionBackupInfo
  unfolding field_indexes new_collection
  describe stamp collection = do
    complete ← describe_collection client collection.db collection.collection_name
    known ← field_indexes collection.db complete.name complete.schema.fields no_indexes
    pure (new_collection stamp collection.db complete known.infos)

  abbrev pub seal : Flushed → CollectionBackupInfo → CollectionBackupInfo
  seal flushed c = record c {
    backup_timestamp = compose_ts flushed.time_of_seal 0;
    backup_physical_timestamp = flushed.time_of_seal;
  }

  abbrev pub flushed_segments : Flushed → List Segment → List Segment → List Segment
  flushed_segments flushed before after =
      (select_segments (flushed.new_sealed_segment_ids ++ flushed.flushed_segment_ids) before
        after).0

  -- Behind the flush.
  unfoldable pub take_sealed : Text → Text → List Segment → Flushed → P (List Segment)
  unfolding select_segments compose_ts
  take_sealed db coll before flushed = do
    sets (seal flushed)
    after ← asks (get_persistent_segment_info client db coll)
    pure (flushed_segments flushed before after)

  -- What is backed up: the segments that flushing names, or, by force, all that are listed.
  unfoldable pub take_flushed : Text → Text → P (List Segment)
  unfolding take_sealed
  take_flushed db coll = do
    before ← asks (get_persistent_segment_info client db coll)
    flushed ← asks (flush_v2 client db coll false)
    take_sealed db coll before flushed

  unfoldable pub unfilled_segments : Bool → Text → Text → P (List Segment)
  unfolding take_flushed
  unfilled_segments force db coll =
      if not force then take_flushed db coll else asks (get_persistent_segment_info client db coll)

  -- partitionLoadStates: by the progress of the collection, or by that of each partition.
  unfoldable pub load_states :
      Text → Text → Int64 → List Partition → Dict Text Text → P (Dict Text Text)
  unfolding load_state_of
  load_states db coll progress [] states = pure states
  load_states db coll progress (p ∷ ps) states = do
    let own = asks (get_loading_progress client db coll (p.name ∷ []))
    load_progress ← if ltb 0 progress && not (progress == 100) then own else pure progress
    load_states db coll progress ps (insert p.name (load_state_of load_progress) states)

  unfoldable pub fill_partitions :
      CollectionBackupInfo → List Partition → Int64 → Dict Text Text → List Segment → P Unit
  unfolding partition_backup_infos load_state_of
  fill_partitions c partitions progress states segments =
      let infos = partition_backup_infos c.collection_id states partitions segments in
      sets (λ x. record x {
        partition_backups = infos;
        load_state = load_state_of progress;
        size = sum64 (map (λ p. p.size) infos);
      })

  unfoldable pub fill_segments :
      Bool → CollectionBackupInfo → List Partition → Int64 → Dict Text Text → P Unit
  unfolding unfilled_segments fill_partitions
  fill_segments force c partitions progress states = do
    segments ← unfilled_segments force c.db_name c.collection_name
    fill_partitions c partitions progress states segments

  -- What is filled in behind the appending.
  unfoldable pub fill_in : Bool → CollectionBackupInfo → P Unit
  unfolding fill_segments load_states
  fill_in force c = do
    partitions ← asks (show_partitions client c.db_name c.collection_name)
    progress ← asks (get_loading_progress client c.db_name c.collection_name [])
    states ← load_states c.db_name c.collection_name progress partitions []
    fill_segments force c partitions progress states

  -- The error, the collections of the backup, and the cluster. A collection whose description fails
  -- is not appended; one that fails later is there as far as it is filled in.
  unfoldable pub backup_collection_prepare :
      Stamp
      → Bool
      → CollectionStruct
      → List CollectionBackupInfo
      → client.State
      → Option Text × List CollectionBackupInfo × client.State
  unfolding describe fill_in
  backup_collection_prepare stamp force collection infos s =
      let (described, s') = describe stamp collection s in
      elim described [
        | err e ↦ (some e, infos, s')
        | ok c ↦
            let (filled, p) = fill_in force c (record { cluster = s'; collection = c }) in
            (elim filled [ ok _ ↦ none | err e ↦ some e ], infos ++ p.collection ∷ [], p.cluster)
      ]

  -- The jobs of the collections on a pool with one worker (`backup.parallelism.backupCollection`,
  -- which is 1 where the configuration is silent) on which no job has failed: one after the other,
  -- up to the first error, behind which the pool refuses them.
  unfoldable pub prepare_all :
      (ℕ → Stamp)
      → Bool
      → List CollectionStruct
      → List CollectionBackupInfo
      → client.State
      → Option Text × List CollectionBackupInfo × client.State
  unfolding backup_collection_prepare
  prepare_all stamps force [] infos s = (none, infos, s)
  prepare_all stamps force (c ∷ cs) infos s =
      let (failure, infos', s') =
        backup_collection_prepare (stamps (length infos)) force c infos s in
      let rest = prepare_all stamps force cs infos' s' in
      elim failure [ none ↦ rest | some e ↦ (some e, infos', s') ]
