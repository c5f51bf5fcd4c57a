-- ===== src/Tests/Objects.antt =====
-- An object store of one bucket in memory, and the storage theorems at concrete inputs.
use milvus_backup.Base.{
  false, Bool, true, List, [], ◌∷◌, map, keep, any, Option, none, some, ◌≡◌, ◌≢◌, refl, ap, Result,
  ok, err, arith, Bool-cases, inl, inr, append-nil,
}
use milvus_backup.Base.Text.{Text, codes, has_prefix, text_key, text_eq, text_eq_iff, text_eq_refl}
use milvus_backup.Base.Dict.{Dict, lookup, insert, delete, lookup-insert, lookup-delete}
use milvus_backup.Base.Int64.{Int64}
use milvus_backup.Storage.{IsLawful}
use milvus_backup.Proto.{BackupInfoResponse, parameter_error}
use milvus_backup.Context.State.{BackupContext, ensure_started}
use milvus_backup.Create.Start.{Work, create_backup, name_of, exists_msg}
use milvus_backup.Create.Start.Prefix.{create_backup-prefix}
use milvus_backup.Tests.Sample.{json, create_request, cluster}
use milvus_backup.Storage.Minio.{ObjectClient, Reader, read_all, read_pieces, minio_chunk_manager}
use milvus_backup.Storage.Minio.Laws.{IsObjectStore, keys_of, minio-IsLawful}

abbrev missing : Text
missing = codes "The specified key does not exist."

abbrev under : Text → Text × Text → Bool
under p (k, _) = has_prefix k p

abbrev entry_of : Text × Text → Text × Int64
entry_of (k, _) = (k, 1)

abbrev listed_under : Dict Text Text → Text → List (Text × Int64)
listed_under s p = map entry_of (keep (under p) s)

abbrev reader_of : Option Text → Result Text Reader
reader_of none = err missing
reader_of (some c) = ok (record { pieces = c ∷ []; failure = none })

abbrev stat_of : Option Text → Result Text Int64
stat_of none = err missing
stat_of (some _) = ok 1

abbrev objects : ObjectClient
objects = record {
  State = Dict Text Text;
  error_code = λ e. codes "NoSuchKey";
  set_range = λ first last. none;
  list_objects = λ s b p r. map ok (listed_under s p);
  stat_object = λ s b p. stat_of (lookup p s);
  get_object = λ s b p range. reader_of (lookup p s);
  put_object = λ s b p c. (none, insert p c s);
  remove_object = λ s b p. (none, delete p s);
  copy_object =
      λ s b p b' q. elim (lookup p s) [ none ↦ (some missing, s) | some c ↦ (none, insert q c s) ];
}

state_of :
    {s t : Dict Text Text} → ◌≡◌ {A = Option Text × Dict Text Text} (none, s) (none, t) → s ≡ t
state_of h = ap (λ (r : Option Text × Dict Text Text). r.1) h

listed-some :
    (s : Dict Text Text) (p q c : Text)
    → lookup q s ≡ some c
    → has_prefix q p ≡ true
    → listed_under s p ≢ []
unfolding lookup
listed-some [] p q c h below e = absurd (ground arith)
listed-some ((k, d) ∷ s) p q c h below e = ground (arith, listed-some s p q c, text_eq_iff k q)

listed-all :
    (s : Dict Text Text) (p q c : Text)
    → lookup q s ≡ some c
    → has_prefix q p ≡ true
    → any (λ k. text_eq k q) (keys_of (listed_under s p)) ≡ true
unfolding lookup
listed-all [] p q c h below = absurd (ground arith)
listed-all ((k, d) ∷ s) p q c h below = ground (arith, listed-all s p q c, text_eq_iff k q)

listed-below :
    (s : Dict Text Text) (p q : Text)
    → any (λ k. text_eq k q) (keys_of (listed_under s p)) ≡ true
    → has_prefix q p ≡ true
listed-below [] p q h = absurd (ground arith)
listed-below ((k, d) ∷ s) p q h = ground (arith, listed-below s p q, text_eq_iff k q)

listed-key :
    (s : Dict Text Text) (p : Text)
    → listed_under s p ≢ []
    → (q : Text) × (c : Text) × (lookup q s ≡ some c) × (has_prefix q p ≡ true)
unfolding lookup
listed-key [] p h = absurd (h refl)
listed-key ((k, d) ∷ s) p h = elim (Bool-cases (has_prefix k p)) [
  | inl below ↦ (k, d, rw (text_eq_refl k) refl, below)
  | inr above ↦
      let (q, c, there, below) = listed-key s p (rw above at h) in
      elim (Bool-cases (text_eq k q)) [
        | inl same ↦ (q, d, rw same refl, below)
        | inr other ↦ (q, c, rw other there, below)
      ]
]

objects-IsObjectStore : IsObjectStore objects
unfolding read_all read_pieces
objects-IsObjectStore = record {
  content = λ s b p. lookup p s;
  entries = λ s b p r. listed_under s p;
  list_objects-ok = λ s b p r. refl;
  entries-key = λ s b p h. listed-key s p h;
  entries-some = λ s b p q c h below. listed-some s p q c h below;
  entries-all = λ s b p q c h below. listed-all s p q c h below;
  entries-below = λ s b p q h. listed-below s p q h;
  put_object-content = λ s t b p c q h. rw (← state_of h) (lookup-insert q p c s);
  remove_object-content = λ s t b p q h. rw (← state_of h) (lookup-delete q p s);
  stat_object-ok = λ s b p c h. (1, rw h refl);
  get_object-ok =
      λ s b p c h. (record { pieces = c ∷ []; failure = none }, rw h refl, ap ok (append-nil c));
  stat_object-none = λ s b p h. (missing, rw h refl);
}

minio-IsLawful_example : IsLawful (minio_chunk_manager objects)
minio-IsLawful_example = minio-IsLawful objects objects-IsObjectStore

-- A backup "b12" is there; the request asks for "b1".
abbrev object_context : BackupContext (minio_chunk_manager objects)
object_context = record {
  started = true;
  storage = (codes "backup/b12/meta/backup_meta.json", codes "meta") ∷ [];
  milvus_bucket_name = codes "a-bucket";
  backup_bucket_name = codes "b-bucket";
  milvus_root_path = codes "files";
  backup_root_path = codes "backup";
  backup_name_id_dict = [];
  backup_tasks = [];
  restore_tasks = [];
  restore_pool_cancelled = false;
}

abbrev object_work : Work (minio_chunk_manager objects)
object_work = record {
  generated_name = codes "backup_2023";
  version = ok (codes "2.3.0");
  start_time = 10;
  timestamp = 11;
  end_time = 20;
  marshal_to_string = λ j. ok j;
  cluster = cluster;
  prepare = λ force collections. (none, []);
  execute = λ collections infos s. (none, infos, s);
}

has_file :
    objects-IsObjectStore.content object_context.storage
      (codes "b-bucket")
      (codes "backup/b12/meta/backup_meta.json")
    ≡ some (codes "meta")
unfolding objects-IsObjectStore lookup text_eq
has_file = refl

create_backup-prefix_example :
    (resp : BackupInfoResponse) × (create_backup
        (minio_chunk_manager objects)
        json
        object_work
        (codes "u")
        object_context
        create_request
      ≡ some (resp, ensure_started (minio_chunk_manager objects) object_context))
    × (resp.code ≡ parameter_error)
    × (resp.msg
        ≡ exists_msg (name_of (minio_chunk_manager objects) json object_work create_request))
unfolding ensure_started text_eq
create_backup-prefix_example =
    create_backup-prefix objects objects-IsObjectStore json object_work (codes "u")
      (codes "2/meta/backup_meta.json") (codes "meta") object_context create_request has_file
