-- ===== src/Create/Fill.antt =====
-- fillSegmentBackupInfo: the log files of a segment and their sizes, as the storage lists them.
-- strconv.ParseInt is a parameter; the code uses the number that it returns, and not its error.
use milvus_backup.Base.{
  ℕ, false, List, [], ◌∷◌, ◌++◌, ◌≡◌, refl, ap, sym, ◌∙◌, Result, ok, err, if◌then◌else◌, arith,
  map, map-map, concat_map,
}
use milvus_backup.Base.Text.{Text, codes, text_eq, replace_once}
use milvus_backup.Base.Int64.{Int64, sum64_from, sum64_from-append}
use milvus_backup.Base.Decimal.{print_int64}
use milvus_backup.Proto.{SegmentBackupInfo, FieldBinlog, Binlog}
use milvus_backup.Meta.Paths.{slash, insert_log_dir, delta_log_dir}
use milvus_backup.Storage.{ChunkManager}

-- strings.Replace(s, "/", "", -1)
abbrev without_slashes : Text → Text
without_slashes [] = []
without_slashes (c ∷ s) =
    let rest = without_slashes s in if text_eq (c ∷ []) slash then rest else c ∷ rest

abbrev empty_input_msg : Text → Text
empty_input_msg path = codes "Get empty input path, but segment should not be empty, %s" ++ path

unfoldable pub segment_log_path : Text → Text → SegmentBackupInfo → Text
segment_log_path root dir s =
    let prefix : Text = if text_eq root [] then [] else root ++ slash in
    prefix
    ++ (dir
        ++ (slash
            ++ (print_int64 s.collection_id
                ++ (slash
                    ++ (print_int64 s.partition_id
                        ++ (slash ++ (print_int64 s.segment_id ++ slash)))))))

-- A by_listing file becomes a Binlog; the fields that the literal does not name are zero.
abbrev binlog_of : Text × Int64 → Binlog
binlog_of (path, size) = record {
  entries_num = 0;
  timestamp_from = 0;
  timestamp_to = 0;
  log_path = path;
  log_size = size;
}

-- An error of ListWithPrefix that is not looked at leaves empty slices.
abbrev or_empty : Result Text (List (Text × Int64)) → List (Text × Int64)
or_empty (ok files) = files
or_empty (err e) = []

abbrev pub logs_size : List FieldBinlog → Int64 → Int64
logs_size fields acc = sum64_from acc (concat_map (λ f. map (λ b. b.log_size) f.binlogs) fields)

module _ (cm : ChunkManager) (parse_int : Text → Int64) where
  -- The loop over the directories of the fields: the logs of each, and the size so far.
  unfoldable pub fill_fields :
      cm.Store → Text → Text → List (Text × Int64) → Int64 → List FieldBinlog × Int64
  fill_fields s bucket path [] size = ([], size)
  fill_fields s bucket path ((dir, _) ∷ dirs) size =
      let files = or_empty (cm.list_with_prefix s bucket dir false) in
      let field_id = parse_int (without_slashes (replace_once dir path [])) in
      let rest = fill_fields s bucket path dirs (sum64_from size (map (λ f. f.1) files)) in
      (record { field_id = field_id; binlogs = map binlog_of files } ∷ rest.0, rest.1)

  -- With no directory there is the error of the empty path, also if listing failed.
  abbrev after_list :
      Text
      → Result Text (List (Text × Int64))
      → (List (Text × Int64) → SegmentBackupInfo)
      → Result Text SegmentBackupInfo
  after_list path (err e) fill = err (empty_input_msg path)
  after_list path (ok []) fill = err (empty_input_msg path)
  after_list path (ok (dir ∷ dirs)) fill = ok (fill (dir ∷ dirs))

  -- A segment without delta logs gets one entry without files.
  abbrev or_one_field : List FieldBinlog → List FieldBinlog
  or_one_field [] = record { field_id = 0; binlogs = [] } ∷ []
  or_one_field (f ∷ fs) = f ∷ fs

  filled_from : SegmentBackupInfo → cm.Store → Text → Text → List (Text × Int64) → SegmentBackupInfo
  unfolding fill_fields
  filled_from segment s bucket root dirs =
      let delta_path = segment_log_path root delta_log_dir segment in
      let inserts = fill_fields s bucket (segment_log_path root insert_log_dir segment) dirs 0 in
      let deltas =
        fill_fields s bucket delta_path (or_empty (cm.list_with_prefix s bucket delta_path false))
          inserts.1 in
      record segment { binlogs = inserts.0; deltalogs = or_one_field deltas.0; size = deltas.1 }

  unfoldable pub fill_segment_backup_info :
      cm.Store → Text → Text → SegmentBackupInfo → Result Text SegmentBackupInfo
  unfolding filled_from
  fill_segment_backup_info s bucket root segment =
      let insert_path = segment_log_path root insert_log_dir segment in
      after_list insert_path (cm.list_with_prefix s bucket insert_path false)
        (filled_from segment s bucket root)

  sizes_of_files :
      (files : List (Text × Int64))
      → map (λ b. b.log_size) (map binlog_of files) ≡ map (λ f. f.1) files
  sizes_of_files files = map-map (λ (b : Binlog). b.log_size) binlog_of files

  fill_fields-size :
      (s : cm.Store) (bucket path : Text) (dirs : List (Text × Int64)) (size : Int64)
      → (fill_fields s bucket path dirs size).1
        ≡ logs_size (fill_fields s bucket path dirs size).0 size
  unfolding fill_fields sum64_from
  fill_fields-size s bucket path [] size = refl
  fill_fields-size s bucket path ((dir, n) ∷ dirs) size =
      let files = or_empty (cm.list_with_prefix s bucket dir false) in
      let sizes = map (λ (f : Text × Int64). f.1) files in
      let rest = fill_fields s bucket path dirs (sum64_from size sizes) in
      fill_fields-size s bucket path dirs (sum64_from size sizes)
      ∙ sym
          (sum64_from-append size sizes (concat_map (λ f. map (λ b. b.log_size) f.binlogs) rest.0))
      ∙ ap
          (λ (l : List ℕ).
            sum64_from size (l ++ concat_map (λ f. map (λ b. b.log_size) f.binlogs) rest.0))
          (sym (sizes_of_files files))

  or_one_field-size :
      (fs : List FieldBinlog) (acc : Int64) → logs_size (or_one_field fs) acc ≡ logs_size fs acc
  unfolding sum64_from
  or_one_field-size [] acc = refl
  or_one_field-size (f ∷ fs) acc = refl

  -- A segment that could be filled keeps its ids and has as its size the sum (on int64) of the
  -- sizes of all the insert logs and delta logs that it has been filled with.
  pub fill_segment_backup_info-size :
      (s : cm.Store) (bucket root : Text) (segment filled : SegmentBackupInfo)
      → fill_segment_backup_info s bucket root segment ≡ ok filled
      → (filled.segment_id ≡ segment.segment_id)
        × (filled.collection_id ≡ segment.collection_id)
        × (filled.partition_id ≡ segment.partition_id)
        × (filled.size ≡ logs_size filled.deltalogs (logs_size filled.binlogs 0))
  unfolding fill_segment_backup_info
  fill_segment_backup_info-size s bucket root segment filled h =
      by_listing (cm.list_with_prefix s bucket (segment_log_path root insert_log_dir segment) false)
        h
    where
      ok_inj :
          {x y : SegmentBackupInfo} → ◌≡◌ {A = Result Text SegmentBackupInfo} (ok x) (ok y) → x ≡ y
      ok_inj e = cc

      by_listing :
          (r : Result Text (List (Text × Int64)))
          → after_list
              (segment_log_path root insert_log_dir segment)
              r
              (filled_from segment s bucket root)
            ≡ ok filled
          → (filled.segment_id ≡ segment.segment_id)
            × (filled.collection_id ≡ segment.collection_id)
            × (filled.partition_id ≡ segment.partition_id)
            × (filled.size ≡ logs_size filled.deltalogs (logs_size filled.binlogs 0))
      by_listing (err e) h = absurd (ground arith)
      by_listing (ok []) h = absurd (ground arith)
      by_listing (ok (dir ∷ dirs)) h =
          let insert_path = segment_log_path root insert_log_dir segment in
          let delta_path = segment_log_path root delta_log_dir segment in
          let inserts = fill_fields s bucket insert_path (dir ∷ dirs) 0 in
          let delta_dirs = or_empty (cm.list_with_prefix s bucket delta_path false) in
          let deltas = fill_fields s bucket delta_path delta_dirs inserts.1 in
          rw (← ok_inj h) (
            refl,
            refl,
            refl,
            fill_fields-size s bucket delta_path delta_dirs inserts.1
                ∙ sym (or_one_field-size deltas.0 inserts.1)
                ∙ ap (logs_size (or_one_field deltas.0))
                    (fill_fields-size s bucket insert_path (dir ∷ dirs) 0),
          )
