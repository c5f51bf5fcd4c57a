-- ===== src/Meta/Paths.antt =====
-- The paths of a backup's files, core/backup_meta.go.
use milvus_backup.Base.{[], ◌∷◌, ◌++◌, ◌≡◌, ◌∙◌, append_assoc, append-nil}
use milvus_backup.Base.Text.{
  Text, codes, replace_once, Lacks, replace_once-prefix, replace_once-Lacks,
}

abbrev pub slash : Text
slash = b'/' ∷ []

abbrev pub meta_prefix : Text
meta_prefix = codes "meta"

abbrev pub backup_meta_file : Text
backup_meta_file = codes "backup_meta.json"

abbrev pub collection_meta_file : Text
collection_meta_file = codes "collection_meta.json"

abbrev pub partition_meta_file : Text
partition_meta_file = codes "partition_meta.json"

abbrev pub segment_meta_file : Text
segment_meta_file = codes "segment_meta.json"

abbrev pub full_meta_file : Text
full_meta_file = codes "full_meta.json"

abbrev pub binlog_dir : Text
binlog_dir = codes "binlogs"

abbrev pub insert_log_dir : Text
insert_log_dir = codes "insert_log"

abbrev pub delta_log_dir : Text
delta_log_dir = codes "delta_log"

unfoldable pub backup_path_to_name : Text → Text → Text
backup_path_to_name root path = replace_once (replace_once path (root ++ slash) []) slash []

unfoldable pub backup_dir_path : Text → Text → Text
backup_dir_path root name = root ++ (slash ++ (name ++ slash))

unfoldable pub backup_meta_dir_path : Text → Text → Text
backup_meta_dir_path root name = root ++ (slash ++ (name ++ (slash ++ meta_prefix)))

unfoldable pub backup_meta_path : Text → Text → Text
backup_meta_path root name = backup_meta_dir_path root name ++ (slash ++ backup_meta_file)

unfoldable pub collection_meta_path : Text → Text → Text
collection_meta_path root name = backup_meta_dir_path root name ++ (slash ++ collection_meta_file)

unfoldable pub partition_meta_path : Text → Text → Text
partition_meta_path root name = backup_meta_dir_path root name ++ (slash ++ partition_meta_file)

unfoldable pub segment_meta_path : Text → Text → Text
segment_meta_path root name = backup_meta_dir_path root name ++ (slash ++ segment_meta_file)

unfoldable pub full_meta_path : Text → Text → Text
full_meta_path root name = backup_meta_dir_path root name ++ (slash ++ full_meta_file)

unfoldable pub backup_binlog_dir_path : Text → Text → Text
backup_binlog_dir_path root name = root ++ (slash ++ (name ++ (slash ++ binlog_dir)))

-- The first replacement takes the root off, also an empty one.
strip_root : (root rest : Text) → replace_once (root ++ (slash ++ rest)) (root ++ slash) [] ≡ rest
strip_root [] rest = replace_once-prefix b'/' [] rest []
strip_root (c ∷ root) rest =
    rw (← append_assoc root slash rest) (replace_once-prefix c (root ++ slash) rest [])

-- The name of a backup is read back from its directory, if the name holds no slash.
pub backup_path_to_name-backup_dir_path :
    (root name : Text)
    → Lacks b'/' name
    → backup_path_to_name root (backup_dir_path root name) ≡ name
unfolding backup_path_to_name backup_dir_path
backup_path_to_name-backup_dir_path root name h =
    rw (strip_root root (name ++ slash))
      (replace_once-Lacks b'/' name [] [] h ∙ rw (append-nil (name ++ []), append-nil name))
