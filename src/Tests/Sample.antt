-- ===== src/Tests/Sample.antt =====
-- A backup with one collection, coders that hold its levels, and a context.
use milvus_backup.Base.{true, false, [], ◌∷◌, none, some, ◌≡◌, refl, ok, arith}
use milvus_backup.Base.Text.{Text, codes, text_eq}
use milvus_backup.Base.Int64.{sum64_from}
use milvus_backup.Base.Dict.{insert}
use milvus_backup.Proto.{
  BackupInfo, CollectionBackupInfo, PartitionBackupInfo, SegmentBackupInfo, Binlog, backup_initial,
  backup_success, CreateBackupRequest,
}
use milvus_backup.Meta.Files.{Coder, Json, BackupMetaBytes, serialize}
use milvus_backup.Meta.Levels.{tree_to_level}
use milvus_backup.Meta.RoundTrip.{IsConsistent}
use milvus_backup.Meta.Stored.{LevelsSurvive}
use milvus_backup.Context.State.{BackupContext}
use milvus_backup.Utils.Requests.{get_create_db_collections}
use milvus_backup.Create.Collections.{Cluster, parse_backup_collections}
use milvus_backup.Create.Start.{Work, Executed, execute_create_backup}
use milvus_backup.Create.Write.{write_files, write_meta}
use milvus_backup.Tests.Store.{memory}

abbrev pub log_file : Text → Binlog
log_file path = record {
  entries_num = 0;
  timestamp_from = 0;
  timestamp_to = 0;
  log_path = path;
  log_size = 7;
}

abbrev pub segment : SegmentBackupInfo
segment = record {
  segment_id = 3;
  collection_id = 1;
  partition_id = 2;
  num_of_rows = 5;
  binlogs =
      record { field_id = 100; binlogs = log_file (codes "files/insert_log/1/2/3/100/9") ∷ [] }
      ∷ [];
  statslogs = [];
  deltalogs = record { field_id = 0; binlogs = [] } ∷ [];
  size = 7;
  group_id = 0;
}

abbrev pub partition : PartitionBackupInfo
partition = record {
  partition_id = 2;
  partition_name = codes "_default";
  collection_id = 1;
  segment_backups = segment ∷ [];
  size = 0;
  load_state = codes "Loaded";
}

abbrev pub collection : CollectionBackupInfo
collection = record {
  id = codes "c1";
  state_code = backup_initial;
  error_message = [];
  start_time = 12;
  end_time = 13;
  progress = 0;
  collection_id = 1;
  db_name = codes "default";
  collection_name = codes "books";
  schema = record {
    name = codes "books";
    description = [];
    auto_id = false;
    fields = [];
    enable_dynamic_field = true;
  };
  shards_num = 2;
  consistency_level = 1;
  partition_backups = partition ∷ [];
  backup_timestamp = 0;
  size = 0;
  has_index = false;
  index_infos = [];
  load_state = codes "Loaded";
  backup_physical_timestamp = 0;
}

abbrev pub backup : BackupInfo
backup = record {
  id = codes "id1";
  state_code = backup_success;
  error_message = [];
  start_time = 10;
  end_time = 20;
  progress = 0;
  name = codes "b1";
  backup_timestamp = 11;
  collection_backups = collection ∷ [];
  size = 0;
  milvus_version = codes "2.3.0";
}

-- A coder that reads back one message, whatever the bytes are.
abbrev one : {A : Type 0} → Text → A → Coder A
one bytes a = record { marshal = λ _. ok bytes; unmarshal = λ _ _. (a, none) }

unfoldable pub json : Json
unfolding tree_to_level
json = record {
  backup = one (codes "backup") (tree_to_level backup).backup_level;
  collections = one (codes "collections") (tree_to_level backup).collection_level;
  partitions = one (codes "partitions") (tree_to_level backup).partition_level;
  segments = one (codes "segments") (tree_to_level backup).segment_level;
}

pub survives : LevelsSurvive json backup
unfolding json
survives = record {
  backup = λ bytes h. refl;
  collections = λ bytes h. refl;
  partitions = λ bytes h. refl;
  segments = λ bytes h. refl;
}

pub consistent : IsConsistent backup
unfolding sum64_from
consistent = record {
  collections_distinct = (tt, tt);
  partitions_distinct = (tt, tt);
  partitions_owned = ((refl, tt), tt);
  segments_owned = (((refl, refl), tt), tt);
  ids_fit = ((omega arith, omega arith), tt);
  sizes_add_up = (refl, tt);
}

-- A started context without backups.
abbrev pub context : BackupContext memory
context = record {
  started = true;
  storage = [];
  milvus_bucket_name = codes "a-bucket";
  backup_bucket_name = codes "b-bucket";
  milvus_root_path = codes "files";
  backup_root_path = codes "backup";
  backup_name_id_dict = [];
  backup_tasks = [];
  restore_tasks = [];
  restore_pool_cancelled = false;
}

-- A started context that has made the backup.
abbrev pub known_context : BackupContext memory
known_context = record context {
  backup_name_id_dict = (backup.name, backup.id) ∷ [];
  backup_tasks = (backup.id, backup) ∷ [];
}

-- One database with one collection; in place of JSON, a text is the name of a database.
abbrev pub cluster : Cluster
cluster = record {
  list_databases = ok (codes "default" ∷ []);
  list_collections = λ _. ok (codes "books" ∷ []);
  has_collection = λ db name. ok true;
  decode_db_collections = λ s. ok ((s, []) ∷ []);
}

abbrev pub work : Work memory
work = record {
  generated_name = codes "backup_2023";
  version = ok (codes "2.3.0");
  start_time = 10;
  timestamp = 11;
  end_time = 20;
  marshal_to_string = ok;
  cluster = cluster;
  prepare = λ _ _. (none, collection ∷ []);
  execute = λ _ collections s. (none, collections, s);
}

abbrev pub create_request : CreateBackupRequest
create_request = record {
  request_id = codes "id1";
  backup_name = codes "b1";
  collection_names = [];
  async = false;
  db_collections = none;
  force = false;
  meta_only = false;
}

-- The backup when it is registered.
abbrev pub new : BackupInfo
new = record backup {
  state_code = backup_initial;
  end_time = 0;
  backup_timestamp = 0;
  collection_backups = [];
}

abbrev pub bytes : BackupMetaBytes
bytes = record {
  backup_meta_bytes = codes "backup";
  collection_meta_bytes = codes "collections";
  partition_meta_bytes = codes "partitions";
  segment_meta_bytes = codes "segments";
  full_meta_bytes = codes "backup";
}

-- The storage that holds the metadata of the backup.
unfoldable pub storage : memory.Store
storage = write_files memory [] (codes "b-bucket") (codes "backup") (codes "b1") bytes

abbrev pub done : Executed memory
done = record {
  context = record context { storage = storage; backup_tasks = (codes "id1", backup) ∷ [] };
  task = backup;
  failure = none;
}

pub executes : execute_create_backup memory json work context create_request new ≡ some done
unfolding execute_create_backup parse_backup_collections get_create_db_collections storage json
    serialize tree_to_level insert text_eq sum64_from write_meta
executes = refl
