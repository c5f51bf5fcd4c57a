-- ===== src/Tests/Executed.antt =====
-- The sample collection and another one, and the execution of their backup in the storage in memory.
use milvus_backup.Base.{[], ◌∷◌, List, Option, none, some, ◌≡◌, refl, nat_key}
use milvus_backup.Base.Text.{Text, codes, text_key, text_eq, has_prefix, replace_once}
use milvus_backup.Base.Decimal.{print_int64}
use milvus_backup.Base.Dict.{Dict, lookup, insert}
use milvus_backup.Proto.{CollectionBackupInfo}
use milvus_backup.Create.Collections.{CollectionStruct}
use milvus_backup.Create.Fill.{fill_segment_backup_info, segment_log_path}
use milvus_backup.Create.Paths.{target_path}
use milvus_backup.Create.Execute.{
  Fill, backup_collection_execute, sort_by_size, numbered, segments_of,
}
use milvus_backup.Create.Execute.Copied.{Copied, backup_collection_execute-Copied}
use milvus_backup.Tests.Store.{memory}
use milvus_backup.Tests.Sample.{collection}

abbrev stored : Dict Text Text
stored =
    (codes "files/insert_log/1/2/3/100/9", codes "a")
    ∷ (codes "files/delta_log/1/2/3/100/8", codes "b")
    ∷ []

abbrev bucket : Text
bucket = codes "b-bucket"

abbrev filling : Fill
filling = fill_segment_backup_info memory (λ s. 100) stored bucket (codes "files")

abbrev target : CollectionStruct
target = record { db = collection.db_name; collection_name = collection.collection_name }

abbrev other_collection : CollectionBackupInfo
other_collection = record collection { collection_name = codes "another" }

abbrev result : Option (Option Text × List CollectionBackupInfo × Dict Text Text)
result =
    backup_collection_execute memory bucket bucket (codes "files") (codes "backup/b1/binlogs")
      filling 77 target (other_collection ∷ collection ∷ []) stored

abbrev executed_collections : List CollectionBackupInfo
executed_collections = elim result [ some (failure, cs, s) ↦ cs | none ↦ [] ]

abbrev executed_store : Dict Text Text
executed_store = elim result [ some (failure, cs, s) ↦ s | none ↦ [] ]

executes_collection : result ≡ some (none, executed_collections, executed_store)
unfolding backup_collection_execute text_eq sort_by_size numbered segments_of
    fill_segment_backup_info has_prefix segment_log_path print_int64 target_path replace_once lookup
    insert
executes_collection = refl

backup_collection_execute-Copied_example :
    Copied memory bucket bucket
      (codes "files")
      (codes "backup/b1/binlogs")
      filling
      target
      77
      (other_collection ∷ collection ∷ [])
      executed_collections
backup_collection_execute-Copied_example =
    backup_collection_execute-Copied memory bucket bucket (codes "files")
      (codes "backup/b1/binlogs") filling target 77 (other_collection ∷ collection ∷ [])
      executed_collections stored executed_store executes_collection
