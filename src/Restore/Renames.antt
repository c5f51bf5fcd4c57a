-- ===== src/Restore/Renames.antt =====
-- RestoreBackup: the names under which collections are restored.
use milvus_backup.Base.{
  Bool, true, false, not, ◌&&◌, ◌||◌, List, [], ◌∷◌, ◌++◌, Option, none, some, ◌≡◌, ◌≢◌, refl, ap,
  if◌then◌else◌, arith, All, nat_eq_iff, length, length-append,
}
use milvus_backup.Base.Text.{Text, codes, text_key, text_eq, text_eq_iff, strip_prefix, Lacks}
use milvus_backup.Base.Dict.{Dict, lookup, insert, lookup-insert}
use milvus_backup.Proto.{CollectionBackupInfo, RestoreBackupRequest}
use milvus_backup.Context.Get.{is_empty}
use milvus_backup.Create.Segments.{or_text}
use milvus_backup.Create.Collections.{CollectionStruct, dot, split_dot, db_and_name}
use milvus_backup.Restore.Select.{full_name}

-- strings.HasSuffix
unfoldable pub has_suffix : Text → Text → Bool
has_suffix [] suffix = text_eq [] suffix
has_suffix (c ∷ s) suffix = text_eq (c ∷ s) suffix || has_suffix s suffix

-- strings.Split(s, sep)[0]
unfoldable pub first_part : Text → Text → Text
first_part sep [] = []
first_part sep (c ∷ s) =
    let later = first_part sep s in
    elim (strip_prefix sep (c ∷ s)) [ some _ ↦ [] | none ↦ c ∷ later ]

abbrev pub star : Text
star = codes ".*"

pub record Renames : Type 0 where
  pub collection_renames : Dict Text Text
  pub db_renames : Dict Text Text

-- A pair that ends in ".*" on both sides renames a database, and is a pair of names as well.
unfoldable pub add_rename : Text → Text → Renames → Renames
unfolding has_suffix first_part full_name
add_rename oldname new_name r = record {
  collection_renames = insert (full_name oldname) (full_name new_name) r.collection_renames;
  db_renames =
      if has_suffix oldname star && has_suffix new_name star
      then insert (first_part star oldname) (first_part star new_name) r.db_renames
      else r.db_renames;
}

unfoldable pub add_renames : Dict Text Text → Renames → Renames
unfolding add_rename
add_renames [] r = r
add_renames ((oldname, new_name) ∷ renames) r = add_renames renames (add_rename oldname new_name r)

unfoldable pub read_renames : RestoreBackupRequest → Renames
unfolding add_renames
read_renames request =
    add_renames request.collection_renames (record { collection_renames = []; db_renames = [] })

abbrev pub schema_name_in_db : CollectionBackupInfo → Text
schema_name_in_db c = c.db_name ++ dot ∷ c.schema.name

abbrev is_nil : {A : Type 0} → List A → Bool
is_nil [] = true
is_nil (_ ∷ _) = false

abbrev or_same : Text → Option Text → Text
or_same db none = db
or_same db (some new_db) = new_db

-- A rename of the collection comes before the suffix and before a rename of its database. It always
-- has a dot, and its first two parts are taken.
unfoldable pub target_of : RestoreBackupRequest → CollectionBackupInfo → CollectionStruct
unfolding read_renames db_and_name
target_of request c =
    let renames = read_renames request in
    let renamed = or_text (lookup (schema_name_in_db c) renames.collection_renames) in
    if not (is_nil request.collection_renames) && not (is_empty renamed)
    then db_and_name renamed
    else record {
      db = or_same c.db_name (lookup c.db_name renames.db_renames);
      collection_name =
          if is_empty request.collection_suffix
          then c.schema.name
          else c.schema.name ++ request.collection_suffix;
    }

-- A key that none of the pairs names is left alone; of the pairs that name it, the last one counts.
add_renames-other :
    (name : Text) (renames : Dict Text Text) (r : Renames)
    → All (λ (e : Text × Text). full_name e.0 ≢ name) renames
    → lookup name (add_renames renames r).collection_renames ≡ lookup name r.collection_renames
unfolding add_renames add_rename
add_renames-other name [] r h = refl
add_renames-other name ((o, n) ∷ renames) r (ho, h) = ground (
  arith,
  add_renames-other name renames (add_rename o n r) h,
  lookup-insert name (full_name o) (full_name n) r.collection_renames,
  text_eq_iff (full_name o) name,
)

add_renames-last :
    (o n : Text) (earlier later : Dict Text Text) (r : Renames)
    → All (λ (e : Text × Text). full_name e.0 ≢ full_name o) later
    → lookup (full_name o) (add_renames (earlier ++ (o, n) ∷ later) r).collection_renames
      ≡ some (full_name n)
unfolding add_renames add_rename
add_renames-last o n [] later r h = ground (
  arith,
  add_renames-other (full_name o) later (add_rename o n r) h,
  lookup-insert (full_name o) (full_name o) (full_name n) r.collection_renames,
  text_eq_iff (full_name o) (full_name o),
)
add_renames-last o n ((o', n') ∷ earlier) later r h =
    add_renames-last o n earlier later (add_rename o' n' r) h

split_dot-Lacks : (s : Text) → Lacks dot s → split_dot s ≡ (s, [])
unfolding split_dot
split_dot-Lacks [] h = refl
split_dot-Lacks (c ∷ s) (hc, h) = ground (arith, nat_eq_iff c dot, split_dot-Lacks s h)

split_dot-dot : (d m : Text) → Lacks dot d → Lacks dot m → split_dot (d ++ dot ∷ m) ≡ (d, m ∷ [])
unfolding split_dot
split_dot-dot [] m hd hm = ground (arith, nat_eq_iff dot dot, split_dot-Lacks m hm)
split_dot-dot (c ∷ d) m (hc, hd) hm = ground (arith, nat_eq_iff c dot, split_dot-dot d m hd hm)

db_and_name-dot :
    (d m : Text)
    → Lacks dot d
    → Lacks dot m
    → db_and_name (d ++ dot ∷ m) ≡ record { db = d; collection_name = m }
unfolding db_and_name
db_and_name-dot d m hd hm = ground (arith, split_dot-dot d m hd hm)

is_nil-middle :
    (earlier later : Dict Text Text) (e : Text × Text) → is_nil (earlier ++ e ∷ later) ≡ false
is_nil-middle [] later e = refl
is_nil-middle (x ∷ earlier) later e = refl

is_empty-dot : (d m : Text) → is_empty (d ++ dot ∷ m) ≡ false
unfolding text_eq
is_empty-dot [] m = refl
is_empty-dot (c ∷ d) m = refl

-- A collection that a pair of the request's renames names, by its full name or by its bare name in
-- "default", is restored under the other name of the pair, database and collection, whatever the
-- suffix and the renames of databases are, if no later pair names it, and the new database and the
-- new collection have no dots.
pub target_of-renamed :
    (request : RestoreBackupRequest) (c : CollectionBackupInfo) (earlier later : Dict Text Text)
    (oldname new_name d m : Text)
    → request.collection_renames ≡ earlier ++ (oldname, new_name) ∷ later
    → All (λ (e : Text × Text). full_name e.0 ≢ full_name oldname) later
    → schema_name_in_db c ≡ full_name oldname
    → full_name new_name ≡ d ++ dot ∷ m
    → Lacks dot d
    → Lacks dot m
    → target_of request c ≡ record { db = d; collection_name = m }
unfolding target_of
target_of-renamed request c earlier later oldname new_name d m e last same new hd hm =
    rw
      (
        e,
        same,
        add_renames-last oldname new_name earlier later
            (record { collection_renames = []; db_renames = [] }) last,
        new,
        is_nil-middle earlier later (oldname, new_name),
        is_empty-dot d m,
      )
      (db_and_name-dot d m hd hm)

append-cancel : (s t suffix : Text) → s ++ suffix ≡ t ++ suffix → s ≡ t
append-cancel [] [] suffix e = refl
append-cancel [] (c ∷ t) suffix e = absurd (omega (arith, ap length e, length-append t suffix))
append-cancel (c ∷ s) [] suffix e = absurd (omega (arith, ap length e, length-append s suffix))
append-cancel (c ∷ s) (d ∷ t) suffix e = ground (arith, append-cancel s t suffix)

-- Without renames, two collections of a backup that would be restored under the same name, with or
-- without a suffix, have the same database and the same name.
pub target_of-inj :
    (request : RestoreBackupRequest) (c c' : CollectionBackupInfo)
    → request.collection_renames ≡ []
    → target_of request c ≡ target_of request c'
    → (c.db_name ≡ c'.db_name) × (c.schema.name ≡ c'.schema.name)
unfolding target_of lookup
target_of-inj request c c' none_given e =
    ground (arith, append-cancel c.schema.name c'.schema.name request.collection_suffix)
