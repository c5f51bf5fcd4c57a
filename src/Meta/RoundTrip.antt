-- ===== src/Meta/RoundTrip.antt =====
-- What the four levels keep of a backup: levelToTree after treeToLevel.
use milvus_backup.Base.{
  ◌<◌, ◌≡◌, refl, sym, ap, ◌∙◌, List, [], ◌∷◌, map, All, map-eq_of_All, map-map, map_id,
  concat_map_assoc, map-concat_map, All-zip, All-weaken, keep, ◌==◌, nat_key,
}
use milvus_backup.Base.Text.{Text, text_key}
use milvus_backup.Base.Dict.{Dict, lookup, or_nil}
use milvus_backup.Base.Int64.{Int64, sum64, u64}
use milvus_backup.Base.Decimal.{print_int64, print_int64-dash, print_int64-inj}
use milvus_backup.Base.Group.{group_into, lookup-group_into, Distinct, Owned, keep-concat_map}
use milvus_backup.Proto.{
  BackupInfo, CollectionBackupInfo, PartitionBackupInfo, SegmentBackupInfo, backup_initial,
}
use milvus_backup.Meta.Levels.{
  clone_collection, clone_partition, all_partitions, all_segments, tree_to_level, level_to_tree,
  unique_id, segment_key, attach_segments, attach_partitions,
}

-- A collection as the metadata files keep it: without its own task fields.
abbrev pub durable_collection : CollectionBackupInfo → CollectionBackupInfo
durable_collection c = record c {
  id = [];
  state_code = backup_initial;
  error_message = [];
  start_time = 0;
  end_time = 0;
  progress = 0;
}

abbrev pub durable : BackupInfo → BackupInfo
durable b = record b { collection_backups = map durable_collection b.collection_backups }

-- What identifies a partition.
abbrev pub partition_key : PartitionBackupInfo → Int64 × Int64
partition_key p = (p.collection_id, p.partition_id)

-- The ids fit in 64 bits, no two collections and no two partitions share theirs, children name
-- their parents, and the size of a collection is the sum over its partitions.
pub record IsConsistent (b : BackupInfo) : Type 0 where
  pub collections_distinct : Distinct (λ c. c.collection_id) b.collection_backups
  pub partitions_distinct : Distinct partition_key (all_partitions b.collection_backups)
  pub partitions_owned :
      Owned
        (λ c. c.collection_id)
        (λ p. p.collection_id)
        (λ c. c.partition_backups)
        b.collection_backups
  pub segments_owned :
      All
        (λ p.
          All
            (λ s. (s.collection_id ≡ p.collection_id) × (s.partition_id ≡ p.partition_id))
            p.segment_backups)
        (all_partitions b.collection_backups)
  pub ids_fit :
      All
        (λ p. (p.collection_id < u64) × (p.partition_id < u64))
        (all_partitions b.collection_backups)
  pub sizes_add_up :
      All (λ c. c.size ≡ sum64 (map (λ p. p.size) c.partition_backups)) b.collection_backups

abbrev Fits : PartitionBackupInfo → Type 0
Fits p = (p.collection_id < u64) × (p.partition_id < u64)

-- The printed pair of ids determines both ids.
pub unique_id-inj :
    (a b c d : Int64)
    → a < u64
    → b < u64
    → c < u64
    → d < u64
    → unique_id a b ≡ unique_id c d
    → (a ≡ c) × (b ≡ d)
unfolding unique_id
unique_id-inj a b c d ha hb hc hd e =
    let parts = print_int64-dash a c (print_int64 b) (print_int64 d) ha hc e in
    (parts.0, print_int64-inj b d hb hd parts.1)

abbrev partition_text : PartitionBackupInfo → Text
partition_text p = unique_id p.collection_id p.partition_id

texts-Distinct :
    (ps : List PartitionBackupInfo)
    → Distinct partition_key ps
    → All Fits ps
    → Distinct partition_text ps
texts-Distinct [] d f = tt
texts-Distinct (p ∷ ps) (dp, ds) (fp, fs) = (
  All-zip ps
      (λ q ne fq e.
        let parts =
          unique_id-inj p.collection_id p.partition_id q.collection_id q.partition_id fp.0 fp.1 fq.0
            fq.1 e in
        ne (λ i. (parts.0 i, parts.1 i)))
      dp fs,
  texts-Distinct ps ds fs,
)

abbrev segment_dict : List PartitionBackupInfo → Dict Text (List SegmentBackupInfo)
segment_dict ps = group_into segment_key (all_segments ps) []

-- Each partition gets its own segments back.
attach-clone :
    (ps : List PartitionBackupInfo)
    → Distinct partition_key ps
    → All Fits ps
    → All
        (λ p.
          All
            (λ s. (s.collection_id ≡ p.collection_id) × (s.partition_id ≡ p.partition_id))
            p.segment_backups)
        ps
    → All (λ p. attach_segments (segment_dict ps) (clone_partition p) ≡ p) ps
unfolding attach_segments clone_partition lookup segment_key
attach-clone ps d f o =
    All-weaken ps
      (λ p kept i. record p {
        segment_backups =
            (lookup-group_into segment_key (partition_text p) (all_segments ps) [] ∙ kept) i;
      })
      (keep-concat_map partition_text segment_key (λ p. p.segment_backups) ps
        (texts-Distinct ps d f)
        (All-weaken ps
          (λ p os. All-weaken p.segment_backups (λ s e i. unique_id (e.0 i) (e.1 i)) os) o))

attached :
    (ps : List PartitionBackupInfo)
    → Distinct partition_key ps
    → All Fits ps
    → All
        (λ p.
          All
            (λ s. (s.collection_id ≡ p.collection_id) × (s.partition_id ≡ p.partition_id))
            p.segment_backups)
        ps
    → map (attach_segments (segment_dict ps)) (map clone_partition ps) ≡ ps
attached ps d f o =
    map-map (attach_segments (segment_dict ps)) clone_partition ps
    ∙ map-eq_of_All (λ p. attach_segments (segment_dict ps) (clone_partition p)) (λ p. p) ps
        (attach-clone ps d f o)
    ∙ map_id ps

collections-attached :
    (cs : List CollectionBackupInfo)
    → Distinct (λ c. c.collection_id) cs
    → Owned (λ c. c.collection_id) (λ p. p.collection_id) (λ c. c.partition_backups) cs
    → All (λ c. c.size ≡ sum64 (map (λ p. p.size) c.partition_backups)) cs
    → map
        (attach_partitions (group_into (λ p. p.collection_id) (all_partitions cs) []))
        (map clone_collection cs)
      ≡ map durable_collection cs
unfolding attach_partitions clone_collection lookup
collections-attached cs d o s =
    map-map (attach_partitions parts) clone_collection cs
    ∙ map-eq_of_All (λ c. attach_partitions parts (clone_collection c)) durable_collection cs
        (All-zip cs
          (λ c kept sized i. record (durable_collection c) {
            partition_backups = (found c ∙ kept) i;
            size = (ap (λ ps. sum64 (map (λ p. p.size) ps)) (found c ∙ kept) ∙ sym sized) i;
          })
          (keep-concat_map (λ c. c.collection_id) (λ p. p.collection_id) (λ c. c.partition_backups)
            cs d o)
          s)
  where
    parts : Dict Int64 (List PartitionBackupInfo)
    parts = group_into (λ p. p.collection_id) (all_partitions cs) []

    found :
        (c : CollectionBackupInfo)
        → or_nil (lookup c.collection_id parts)
          ≡ keep (λ p. p.collection_id == c.collection_id) (all_partitions cs)
    found c = lookup-group_into (λ p. p.collection_id) c.collection_id (all_partitions cs) []

-- The tree of the levels of a consistent backup is that backup, except that each collection has
-- lost its id, state code, error message, start and end times and progress.
pub level_to_tree-tree_to_level :
    (b : BackupInfo) → IsConsistent b → level_to_tree (tree_to_level b) ≡ durable b
unfolding tree_to_level level_to_tree
level_to_tree-tree_to_level b v =
    rw
      (
        ← concat_map_assoc (λ p. p.segment_backups) (λ c. c.partition_backups) b.collection_backups,
        ← map-concat_map clone_partition (λ c. c.partition_backups) b.collection_backups,
        attached (all_partitions b.collection_backups) v.partitions_distinct v.ids_fit
            v.segments_owned,
        collections-attached b.collection_backups v.collections_distinct v.partitions_owned
            v.sizes_add_up,
      )
      refl
