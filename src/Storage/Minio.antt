-- ===== src/Storage/Minio.antt =====
-- core/storage/minio_chunk_manager.go: the storage on MinIO and S3. The client library is a parameter;
-- what a reader gives is a list of pieces and the error behind them, or none at the end of the file.
-- The pieces of a removal that run side by side are run one after the other.
pub mod Laws
use milvus_backup.Base.{
  ℕ, zero, suc, ◌-◌, Bool, true, false, not, ◌&&◌, ◌||◌, List, [], ◌∷◌, ◌++◌, map, Option, none,
  some, Result, ok, err, ◌>>=◌, if◌then◌else◌, nat_eq, ◌^◌,
}
use milvus_backup.Base.Text.{Text, codes, text_eq, replace_once}
use milvus_backup.Base.Dict.{Dict}
use milvus_backup.Base.Int64.{Int64, is_negative, add64}
use milvus_backup.Milvus.Wrapper.{error_list_text}
use milvus_backup.Storage.{ChunkManager}

pub record Reader : Type 0 where
  pub pieces : List Text
  pub failure : Option Text

-- Arguments: the bucket, then the key. A range is its first and its last byte; it may be refused.
pub record ObjectClient : Type 1 where
  pub State : Type 0
  pub error_code : Text → Text
  pub set_range : Int64 → Int64 → Option Text
  pub list_objects : State → Text → Text → Bool → List (Result Text (Text × Int64))
  pub stat_object : State → Text → Text → Result Text Int64
  pub get_object : State → Text → Text → Option (Int64 × Int64) → Result Text Reader
  pub put_object : State → Text → Text → Text → Option Text × State
  pub remove_object : State → Text → Text → Option Text × State
  -- From the bucket and the key to the bucket and the key.
  pub copy_object : State → Text → Text → Text → Text → Option Text × State

abbrev pub no_such_key : Text
no_such_key = codes "NoSuchKey"

-- WrapErrNoSuchKey
abbrev pub wrap_err_no_such_key : Text → Text
wrap_err_no_such_key key = no_such_key ++ (codes "(key=" ++ (key ++ codes ")"))

abbrev pub minio_missing_msg : Text → Text
minio_missing_msg path = codes "minio file cannot be found with filePath:" ++ path

-- io.EOF
abbrev pub eof_msg : Text
eof_msg = codes "EOF"

-- strings.TrimLeft(rootPath, "/")
unfoldable pub normalize_root_path : Text → Text
normalize_root_path [] = []
normalize_root_path (c ∷ s) = if nat_eq c b'/' then normalize_root_path s else c ∷ s

-- Read: all pieces up to the end of the file.
unfoldable pub read_pieces : List Text → Text
read_pieces [] = []
read_pieces (p ∷ ps) = p ++ read_pieces ps

unfoldable pub read_all : Reader → Result Text Text
unfolding read_pieces
read_all r = elim r.failure [ none ↦ ok (read_pieces r.pieces) | some e ↦ err e ]

-- The loop over a listing; the first error ends it.
unfoldable pub all_objects : List (Result Text (Text × Int64)) → Result Text (List (Text × Int64))
all_objects [] = ok []
all_objects (err e ∷ objects) = err e
all_objects (ok object ∷ objects) = do rest ← all_objects objects; ok (object ∷ rest)

abbrev pub listed_errors : List Text → Option Text
listed_errors [] = none
listed_errors (e ∷ el) = some (error_list_text (e ∷ el))

abbrev with_failure : Option Text → List Text → List Text
with_failure none el = el
with_failure (some e) el = el ++ e ∷ []

module _ (client : ObjectClient) where
  abbrev S : Type 0
  S = client.State

  unfoldable pub list_with_prefix : S → Text → Text → Bool → Result Text (List (Text × Int64))
  unfolding all_objects
  list_with_prefix s bucket prefix recursive =
      all_objects (client.list_objects s bucket prefix recursive)

  unfoldable pub exist : S → Text → Text → Result Text Bool
  unfolding list_with_prefix
  exist s bucket path = elim (list_with_prefix s bucket path false) [
    | err e ↦ if text_eq (client.error_code e) no_such_key then ok false else err e
    | ok [] ↦ ok false
    | ok (_ ∷ _) ↦ ok true
  ]

  unfoldable pub path : S → Text → Text → Result Text Text
  unfolding exist
  path s bucket file_path = do
    there ← exist s bucket file_path
    if not there then err (minio_missing_msg file_path) else ok file_path

  unfoldable pub size : S → Text → Text → Result Text Int64
  size s bucket file_path = client.stat_object s bucket file_path

  unfoldable pub write : S → Text → Text → Text → Option Text × S
  write s bucket file_path content = client.put_object s bucket file_path content

  -- A missing key has an error of its own.
  unfoldable pub wrapped : {A : Type 0} → Text → Result Text A → Result Text A
  wrapped file_path (ok a) = ok a
  wrapped file_path (err e) =
      err (if text_eq (client.error_code e) no_such_key then wrap_err_no_such_key file_path else e)

  unfoldable pub read : S → Text → Text → Result Text Text
  unfolding wrapped read_all
  read s bucket file_path = do
    _ ← wrapped file_path (client.stat_object s bucket file_path)
    object ← client.get_object s bucket file_path none
    wrapped file_path (read_all object)

  -- The last byte is off + len - 1, on int64.
  unfoldable pub read_at : S → Text → Text → Int64 → Int64 → Result Text Text
  unfolding wrapped read_all
  read_at s bucket file_path off len =
      let last = add64 (add64 off len) (2 ^ 64 - 1) in
      if is_negative off || is_negative len
      then err eof_msg
      else (elim (client.set_range off last) [
        | some e ↦ err e
        | none ↦ (do
          object ← client.get_object s bucket file_path (some (off, last))
          wrapped file_path (read_all object))
      ])

  unfoldable pub remove : S → Text → Text → Option Text × S
  remove s bucket file_path = client.remove_object s bucket file_path

  -- MultiWrite, MultiRemove and MultiRead go on behind an error.
  unfoldable pub multi_write : S → Text → Dict Text Text → List Text → Option Text × S
  unfolding write
  multi_write s bucket [] el = (listed_errors el, s)
  multi_write s bucket ((key, value) ∷ kvs) el =
      let (failure, s') = write s bucket key value in
      multi_write s' bucket kvs (with_failure failure el)

  unfoldable pub multi_remove : S → Text → List Text → List Text → Option Text × S
  unfolding remove
  multi_remove s bucket [] el = (listed_errors el, s)
  multi_remove s bucket (key ∷ keys) el =
      let (failure, s') = remove s bucket key in
      multi_remove s' bucket keys (with_failure failure el)

  -- The values, an empty one for each error, and the errors.
  unfoldable pub multi_read : S → Text → List Text → List Text × List Text
  unfolding read
  multi_read s bucket [] = ([], [])
  multi_read s bucket (key ∷ keys) =
      let (values, el) = multi_read s bucket keys in
      elim (read s bucket key) [ ok value ↦ (value ∷ values, el) | err e ↦ ([] ∷ values, e ∷ el) ]

  unfoldable pub read_with_prefix : S → Text → Text → Result Text (List Text × List Text)
  unfolding list_with_prefix multi_read
  read_with_prefix s bucket prefix = do
    objects ← list_with_prefix s bucket prefix true
    let keys = map (λ (o : Text × Int64). o.0) objects
    let (values, el) = multi_read s bucket keys
    elim (listed_errors el) [ none ↦ ok (keys, values) | some e ↦ err e ]

  abbrev pub first_of : Option Text → Option Text → Option Text
  first_of (some e) other = some e
  first_of none other = other

  -- The removal in groups: the first argument is the room that is left in the group, the next one the
  -- first error of the group, which is looked at when the group is full or the last.
  unfoldable pub remove_keys : ℕ → Option Text → S → Text → List Text → Option Text × S
  remove_keys room failure s bucket [] = (failure, s)
  remove_keys zero (some e) s bucket (key ∷ keys) = (some e, s)
  remove_keys zero none s bucket (key ∷ keys) =
      let (failure, s') = client.remove_object s bucket key in remove_keys 9 failure s' bucket keys
  remove_keys (suc room) failure s bucket (key ∷ keys) =
      let (next, s') = client.remove_object s bucket key in
      remove_keys room (first_of failure next) s' bucket keys

  unfoldable pub removed_objects : S → Text → Result Text (List (Text × Int64)) → Option Text × S
  unfolding remove_keys
  removed_objects s bucket (err e) = (some e, s)
  removed_objects s bucket (ok objects) =
      remove_keys 10 none s bucket (map (λ (o : Text × Int64). o.0) objects)

  unfoldable pub remove_with_prefix : S → Text → Text → Option Text × S
  unfolding removed_objects all_objects
  remove_with_prefix s bucket prefix =
      removed_objects s bucket (all_objects (client.list_objects s bucket prefix true))

  -- The first error ends the copying.
  unfoldable pub copy_keys : S → Text → Text → Text → Text → List Text → Option Text × S
  copy_keys s from_bucket to_bucket from_path to_path [] = (none, s)
  copy_keys s from_bucket to_bucket from_path to_path (key ∷ keys) =
      let (failure, s') =
        client.copy_object s from_bucket key to_bucket (replace_once key from_path to_path) in
      let rest = copy_keys s' from_bucket to_bucket from_path to_path keys in
      elim failure [ some e ↦ (some e, s') | none ↦ rest ]

  copied_objects :
      S → Text → Text → Text → Text → Result Text (List (Text × Int64)) → Option Text × S
  unfolding copy_keys
  copied_objects s from_bucket to_bucket from_path to_path (err e) = (some e, s)
  copied_objects s from_bucket to_bucket from_path to_path (ok objects) =
      copy_keys s from_bucket to_bucket from_path to_path (map (λ (o : Text × Int64). o.0) objects)

  unfoldable pub copy : S → Text → Text → Text → Text → Option Text × S
  unfolding copied_objects list_with_prefix
  copy s from_bucket to_bucket from_path to_path =
      copied_objects s from_bucket to_bucket from_path to_path
        (list_with_prefix s from_bucket from_path true)

  abbrev pub minio_chunk_manager : ChunkManager
  minio_chunk_manager = record {
    Store = S;
    path = path;
    size = size;
    exist = exist;
    read = read;
    list_with_prefix = list_with_prefix;
    write = write;
    remove = remove;
    remove_with_prefix = remove_with_prefix;
    copy = copy;
  }
