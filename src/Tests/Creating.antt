-- ===== src/Tests/Creating.antt =====
-- Making a backup at concrete inputs.
use milvus_backup.Base.{
  List, ℕ, true, false, [], ◌∷◌, ◌++◌, map, none, some, ◌≡◌, ◌≢◌, ◌↔◌, ◌⊎◌, refl, Result, ok, arith,
  nat_eq, if◌then◌else◌, All, concat_map, any, ◌&&◌, ◌||◌, keep,
}
use milvus_backup.Base.Text.{Text, codes, text_eq, text_key, occurs, has_prefix, replace_once}
use milvus_backup.Base.Dict.{insert, Dict, lookup}
use milvus_backup.Base.Int64.{sum64_from}
use milvus_backup.Base.Decimal.{print_int64}
use milvus_backup.Proto.{
  SegmentBackupInfo, parameter_error, FieldBinlog, CreateBackupRequest, BackupInfoResponse,
}
use milvus_backup.Meta.Paths.{slash}
use milvus_backup.Meta.RoundTrip.{durable}
use milvus_backup.Context.Get.{read_backup, request_id_or}
use milvus_backup.Context.State.{BackupContext, ensure_started}
use milvus_backup.Utils.Validate.{validate_type, name_error_msg, bad_first_character}
use milvus_backup.Create.Paths.{target_path, target_path-layout}
use milvus_backup.Create.Copy.{
  CopyJob, insert_log, plan_segments, plan_segments-sources, run_copy_jobs, LogKind, delta_log,
  log_paths, not_exist_msg,
}
use milvus_backup.Create.Copy.Jobs.{HasRun, run_copy_jobs-HasRun}
use milvus_backup.Create.Fill.{
  fill_segment_backup_info, fill_segment_backup_info-size, logs_size, segment_log_path,
}
use milvus_backup.Create.Segments.{
  Segment, Partition, select_segments, select_segments-count, count, has_id, partition_backup_infos,
  partition_backup_infos_lem, lies_in, new_segment,
}
use milvus_backup.Utils.Requests.{get_create_db_collections}
use milvus_backup.Create.Collections.{
  CollectionStruct, AllStandFor, IsThere, parse_backup_collections, parse_backup_collections-ok,
}
use milvus_backup.Create.Start.{create_backup, name_of, backup_name_type}
use milvus_backup.Create.Start.Outcome.{
  IsRecorded, execute_create_backup-IsRecorded, create_backup-parameter_error_iff,
  read_backup-execute_create_backup,
}
use milvus_backup.Tests.Store.{memory, memory-IsLawful}
use milvus_backup.Tests.Sample.{
  cluster, json, survives, consistent, context, work, create_request, new, done, executes, segment,
}

abbrev bucket : Text
bucket = codes "b-bucket"

read_backup-execute_create_backup_example :
    read_backup memory json done.context.storage bucket (codes "backup" ++ (slash ++ new.name))
    ≡ ok (some (durable done.task))
read_backup-execute_create_backup_example =
    read_backup-execute_create_backup memory json work context create_request new done
      memory-IsLawful (λ s p c. refl) executes refl survives consistent

execute_create_backup-IsRecorded_example : IsRecorded memory json work create_request new done
execute_create_backup-IsRecorded_example =
    execute_create_backup-IsRecorded memory json work context create_request new done executes

target_path-layout_example :
    target_path
      (codes "files")
      (codes "backup/b1/binlogs")
      2
      3
      (codes "files" ++ (codes "/insert_log/1" ++ b'/' ∷ (print_int64 2 ++ codes "/3/100/9")))
    ≡ codes "backup/b1/binlogs"
      ++ (codes "/insert_log/1"
          ++ b'/' ∷ (print_int64 2 ++ b'/' ∷ (print_int64 3 ++ codes "/3/100/9")))
unfolding occurs print_int64
target_path-layout_example =
    target_path-layout (codes "files") (codes "backup/b1/binlogs") 2 3 (codes "/insert_log/1")
      (codes "/3/100/9") (λ e. omega arith) (λ e. absurd (ground arith)) refl

plan_segments-sources_example :
    (map
        (λ j. j.source)
        (plan_segments (codes "files") (codes "backup/b1/binlogs") ok (segment ∷ [])).0
      ≡ concat_map (log_paths (codes "files") (codes "backup/b1/binlogs") ok) (segment ∷ []))
    × All
        (λ s. (f : SegmentBackupInfo) × (◌≡◌ {A = Result Text SegmentBackupInfo} (ok s) (ok f)))
        (segment ∷ [])
unfolding plan_segments target_path text_eq replace_once print_int64
plan_segments-sources_example =
    plan_segments-sources (codes "files") (codes "backup/b1/binlogs") ok (segment ∷ []) refl

abbrev copy_job : LogKind → Text → CopyJob
copy_job kind name = record {
  kind = kind;
  source = codes "files/" ++ name;
  target = codes "backup/" ++ name;
}

-- A log file that is there, an insert log and a delta log that are not, and one behind them.
abbrev jobs : List CopyJob
jobs =
    copy_job insert_log (codes "1")
    ∷ copy_job insert_log (codes "2")
    ∷ copy_job delta_log (codes "3")
    ∷ copy_job delta_log (codes "1")
    ∷ []

abbrev one_file : Dict Text Text
one_file = (codes "files/1", codes "a") ∷ []

run_copy_jobs-HasRun_example :
    HasRun memory
      (codes "a-bucket")
      bucket
      jobs
      one_file
      (run_copy_jobs memory (codes "a-bucket") bucket jobs one_file).0
      (run_copy_jobs memory (codes "a-bucket") bucket jobs one_file).1
run_copy_jobs-HasRun_example = run_copy_jobs-HasRun memory (codes "a-bucket") bucket jobs one_file

-- The first file is copied, and the missing delta log is the error.
run_copy_jobs_stops : run_copy_jobs memory (codes "a-bucket") bucket jobs one_file ≡ (
  some (not_exist_msg (codes "files/3")),
  (codes "files/1", codes "a") ∷ (codes "backup/1", codes "a") ∷ [],
)
unfolding run_copy_jobs lookup insert text_eq
run_copy_jobs_stops = refl

abbrev a_segment : ℕ → Segment
a_segment i = record { id = i; collection_id = 1; partition_id = 2; num_rows = 4 }

select_segments-count_example :
    count 3 (select_segments (3 ∷ 4 ∷ 3 ∷ []) (a_segment 3 ∷ []) (a_segment 3 ∷ a_segment 5 ∷ [])).0
    ≡ (if any (λ j. nat_eq j 3) (3 ∷ 4 ∷ 3 ∷ [])
          && (any (has_id 3) (a_segment 3 ∷ a_segment 5 ∷ []) || any (has_id 3) (a_segment 3 ∷ []))
        then 1
        else 0)
select_segments-count_example =
    select_segments-count 3 (3 ∷ 4 ∷ 3 ∷ []) (a_segment 3 ∷ []) (a_segment 3 ∷ a_segment 5 ∷ [])

abbrev parse_int : Text → ℕ
parse_int s = 100

abbrev files : Dict Text Text
files =
    (codes "files/insert_log/1/2/3/100/9", codes "a")
    ∷ (codes "files/delta_log/1/2/3/100/8", codes "b")
    ∷ []

abbrev a_field : Text → FieldBinlog
a_field path = record {
  field_id = 100;
  binlogs =
      record {
        entries_num = 0;
        timestamp_from = 0;
        timestamp_to = 0;
        log_path = path;
        log_size = 1;
      }
      ∷ [];
}

abbrev filled : SegmentBackupInfo
filled = record segment {
  binlogs = a_field (codes "files/insert_log/1/2/3/100/9") ∷ [];
  deltalogs = a_field (codes "files/delta_log/1/2/3/100/8") ∷ [];
  size = 2;
}

fill_segment_backup_info-size_example :
    (filled.segment_id ≡ segment.segment_id)
    × (filled.collection_id ≡ segment.collection_id)
    × (filled.partition_id ≡ segment.partition_id)
    × (filled.size ≡ logs_size filled.deltalogs (logs_size filled.binlogs 0))
unfolding fill_segment_backup_info has_prefix sum64_from print_int64 replace_once segment_log_path
    text_eq
fill_segment_backup_info-size_example =
    fill_segment_backup_info-size memory parse_int files (codes "a-bucket") (codes "files") segment
      filled refl

abbrev a_partition : Partition
a_partition = record { id = 2; name = codes "_default" }

abbrev elsewhere : Segment
elsewhere = record { id = 4; collection_id = 1; partition_id = 9; num_rows = 4 }

partition_backup_infos_example :
    partition_backup_infos 1 [] (a_partition ∷ []) (a_segment 3 ∷ elsewhere ∷ [])
    ≡ map
        (λ (p : Partition). record {
          partition_id = p.id;
          partition_name = p.name;
          collection_id = 1;
          segment_backups = map new_segment (keep (lies_in p.id) (a_segment 3 ∷ elsewhere ∷ []));
          size = 0;
          load_state = elim (lookup {V = Text} p.name []) [ none ↦ [] | some state ↦ state ];
        })
        (a_partition ∷ [])
partition_backup_infos_example =
    partition_backup_infos_lem 1 [] (a_partition ∷ []) (a_segment 3 ∷ elsewhere ∷ [])

abbrev bad_request : CreateBackupRequest
bad_request = record create_request { backup_name = codes "1bad" }

abbrev refused : BackupInfoResponse × BackupContext memory
refused = (
  record {
    request_id = codes "id1";
    code = parameter_error;
    msg = name_error_msg (bad_first_character backup_name_type (codes "1bad"));
    backup = none;
  },
  context,
)

create_backup-parameter_error_iff_example :
    let found =
      memory.exist context.storage bucket
        (codes "backup" ++ (slash ++ name_of memory json work bad_request)) in
    ((refused.0.code ≡ parameter_error) ↔ (
      (found ≡ ok true)
      ⊎ ((found ≡ ok false)
          × (validate_type (name_of memory json work bad_request) backup_name_type ≢ none))))
    × ((refused.0.code ≢ parameter_error) ⊎ (refused.1 ≡ ensure_started memory context))
unfolding create_backup text_eq lookup validate_type request_id_or ensure_started
create_backup-parameter_error_iff_example =
    create_backup-parameter_error_iff memory json work (codes "uuid") context bad_request refused
      refl

abbrev named_request : CreateBackupRequest
named_request = record create_request { collection_names = codes "db.books" ∷ codes "pages" ∷ [] }

abbrev named_collections : List CollectionStruct
named_collections =
    record { db = codes "db"; collection_name = codes "books" }
    ∷ record { db = codes "default"; collection_name = codes "pages" }
    ∷ []

parse_backup_collections-ok_example :
    AllStandFor (codes "db.books" ∷ codes "pages" ∷ []) named_collections
    × All (IsThere cluster) named_collections
unfolding parse_backup_collections get_create_db_collections text_eq
parse_backup_collections-ok_example =
    parse_backup_collections-ok cluster ok named_request (codes "db.books") (codes "pages" ∷ [])
      named_collections refl refl refl
