-- ===== src/Create/Collections.antt =====
-- parseBackupCollections. The client library's answers, and reading the JSON object of databases and
-- their collections, are parameters.
use milvus_backup.Base.{
  any, ap, ◌∙◌, ◌⊎◌, inl, inr, Bool-cases, append-nil, ℕ, Bool, true, false, not, List, [], ◌∷◌,
  ◌++◌, map, ◌≡◌, refl, sym, Result, ok, err, ◌>>=◌, if◌then◌else◌, arith, All, nat_eq, nat_key,
}
use milvus_backup.Base.Text.{Text, codes, text_eq}
use milvus_backup.Base.Dict.{Dict}
use milvus_backup.Proto.{CreateBackupRequest}
use milvus_backup.Utils.Requests.{get_create_db_collections}

pub record CollectionStruct : Type 0 where
  pub db : Text
  pub collection_name : Text

pub record Cluster : Type 0 where
  pub list_databases : Result Text (List Text)
  pub list_collections : Text → Result Text (List Text)
  pub has_collection : Text → Text → Result Text Bool
  pub decode_db_collections : Text → Result Text (Dict Text (List Text))

abbrev pub dot : ℕ
dot = b'.'

abbrev pub default_db : Text
default_db = codes "default"

abbrev absent_msg : Text → Text → Text
absent_msg db name = codes "request backup collection does not exist: " ++ (db ++ (dot ∷ name))

-- strings.Split(s, "."): the part before the first dot, and the other parts.
unfoldable pub split_dot : Text → Text × List Text
split_dot [] = ([], [])
split_dot (c ∷ s) =
    let rest = split_dot s in if nat_eq c dot then ([], rest.0 ∷ rest.1) else (c ∷ rest.0, rest.1)

-- The database and the name: the first two parts of a name with a dot.
unfoldable pub db_and_name : Text → CollectionStruct
unfolding split_dot
db_and_name name = elim (split_dot name).1 [
  | [] ↦ record { db = default_db; collection_name = name }
  | second ∷ _ ↦ record { db = (split_dot name).0; collection_name = second }
]

abbrev has_dot : Text → Bool
has_dot s = any (λ l. nat_eq l b'.') s

-- Nothing, or a dot and more.
abbrev with_dots : List Text → Text
with_dots [] = []
with_dots (part ∷ parts) = b'.' ∷ (part ++ with_dots parts)

-- A name without a dot stands for the collection of this name in the database "default"; one with
-- dots for the collection whose database is what comes before the first of them, and whose name is
-- what follows up to the second dot or the end.
abbrev pub StandsFor : Text → CollectionStruct → Type 0
StandsFor name c =
    ((has_dot name ≡ false) × (c ≡ record { db = codes "default"; collection_name = name }))
    ⊎ ((rest : List Text) × (name ≡ c.db ++ b'.' ∷ (c.collection_name ++ with_dots rest))
        × (has_dot c.db ≡ false)
        × (has_dot c.collection_name ≡ false))

abbrev pub AllStandFor : List Text → List CollectionStruct → Type 0
AllStandFor [] [] = Unit
AllStandFor (name ∷ names) (c ∷ cs) = StandsFor name c × AllStandFor names cs
AllStandFor _ _ = ⊥

abbrev NoDots : Text × List Text → Type 0
NoDots (first, rest) = (has_dot first ≡ false) × All (λ part. has_dot part ≡ false) rest

split_dot-joins :
    (s : Text) → (s ≡ (split_dot s).0 ++ with_dots (split_dot s).1) × NoDots (split_dot s)
unfolding split_dot
split_dot-joins [] = (refl, (refl, tt))
split_dot-joins (l ∷ s) =
    let (joins, (first, rest)) = split_dot-joins s in
    elim (Bool-cases (nat_eq l b'.')) [
      | inl is_dot ↦ rw is_dot ((λ i. is_it is_dot i ∷ joins i), (refl, (first, rest)))
      | inr other ↦ rw other ((ap (λ t. l ∷ t) joins), (ground arith, rest))
    ]
  where
    is_it : nat_eq l b'.' ≡ true → l ≡ b'.'
    is_it h = ground arith

db_and_name-StandsFor : (name : Text) → StandsFor name (db_and_name name)
unfolding db_and_name
db_and_name-StandsFor name = by (split_dot name) (split_dot-joins name)
  where
    by :
        (parts : Text × List Text)
        → (name ≡ parts.0 ++ with_dots parts.1) × NoDots parts
        → StandsFor name (elim parts.1 as (λ _. CollectionStruct) [
          | [] ↦ record { db = default_db; collection_name = name }
          | second ∷ _ ↦ record { db = parts.0; collection_name = second }
        ])
    by (first, []) (joins, (h, _)) = inl (ap has_dot (joins ∙ append-nil first) ∙ h, refl)
    by (first, second ∷ rest) (joins, (h, (h', _))) = inr (rest, joins, h, h')

module _ (cluster : Cluster) where
  abbrev in_db : Text → List Text → List CollectionStruct
  in_db db = map (λ name. record { db = db; collection_name = name })

  abbrev after :
      List CollectionStruct
      → Result Text (List CollectionStruct)
      → Result Text (List CollectionStruct)
  after found rest = do more ← rest; ok (found ++ more)

  -- A database with no collections named stands for all of its collections.
  unfoldable pub parse_db_collections : Dict Text (List Text) → Result Text (List CollectionStruct)
  parse_db_collections [] = ok []
  parse_db_collections ((db, collections) ∷ dict) =
      let rest = parse_db_collections dict in
      elim collections [
        | [] ↦ (do names ← cluster.list_collections db; after (in_db db names) rest)
        | name ∷ names ↦ after (in_db db (name ∷ names)) rest
      ]

  unfoldable pub list_all : List Text → Result Text (List CollectionStruct)
  list_all [] = ok []
  list_all (db ∷ dbs) =
      let rest = list_all dbs in do names ← cluster.list_collections db; after (in_db db names) rest

  abbrev checked_collection :
      CollectionStruct
      → Result Text Bool
      → Result Text (List CollectionStruct)
      → Result Text (List CollectionStruct)
  checked_collection c (err e) rest = err e
  checked_collection c (ok false) rest = err (absent_msg c.db c.collection_name)
  checked_collection c (ok true) rest = after (c ∷ []) rest

  unfoldable pub check_names : List Text → Result Text (List CollectionStruct)
  unfolding db_and_name
  check_names [] = ok []
  check_names (name ∷ names) =
      let c = db_and_name name in
      let rest = check_names names in
      checked_collection c (cluster.has_collection c.db c.collection_name) rest

  abbrev pub Exists : Text → Type 0
  Exists name =
      cluster.has_collection (db_and_name name).db (db_and_name name).collection_name ≡ ok true

  abbrev pub IsThere : CollectionStruct → Type 0
  IsThere c = cluster.has_collection c.db c.collection_name ≡ ok true

  check_names-ok :
      (names : List Text) (found : List CollectionStruct)
      → check_names names ≡ ok found
      → (found ≡ map db_and_name names) × All Exists names
  unfolding check_names
  check_names-ok [] found h = (ground arith, tt)
  check_names-ok (name ∷ names) found h =
      first (cluster.has_collection (db_and_name name).db (db_and_name name).collection_name) refl
        (check_names names) refl h (check_names-ok names)
    where
      inj :
          {x y : List CollectionStruct}
          → ◌≡◌ {A = Result Text (List CollectionStruct)} (ok x) (ok y)
          → x ≡ y
      inj e = cc

      first :
          (exist : Result Text Bool)
          → cluster.has_collection (db_and_name name).db (db_and_name name).collection_name ≡ exist
          → (rest : Result Text (List CollectionStruct)) → check_names names ≡ rest
          → checked_collection (db_and_name name) exist rest ≡ ok found
          → ((more : List CollectionStruct)
              → check_names names ≡ ok more
              → (more ≡ map db_and_name names) × All Exists names)
          → (found ≡ map db_and_name (name ∷ names)) × All Exists (name ∷ names)
      first (err e) he rest hr h ih = absurd (ground arith)
      first (ok false) he rest hr h ih = absurd (ground arith)
      first (ok true) he (err e) hr h ih = absurd (ground arith)
      first (ok true) he (ok more) hr h ih =
          let tail = ih more hr in (rw (← tail.0) (sym (inj h)), (he, tail.1))

  module _ (marshal_to_string : Text → Result Text Text) where
    named_collections : List Text → Result Text (List CollectionStruct)
    unfolding list_all check_names
    named_collections [] = do dbs ← cluster.list_databases; list_all dbs
    named_collections (name ∷ names) = check_names (name ∷ names)

    unfoldable pub parse_backup_collections :
        CreateBackupRequest → Result Text (List CollectionStruct)
    unfolding parse_db_collections named_collections
    parse_backup_collections request =
        let text = get_create_db_collections marshal_to_string request in
        if not (text_eq text [])
        then (do
          db_collections ← cluster.decode_db_collections text
          parse_db_collections db_collections)
        else named_collections request.collection_names

    named-ok :
        (names : List Text) (found : List CollectionStruct)
        → (found ≡ map db_and_name names) × All Exists names
        → AllStandFor names found × All IsThere found
    named-ok [] found (e, h) = rw e (tt, tt)
    named-ok (name ∷ names) found (e, (h, hs)) =
        let (stand, there) = named-ok names (map db_and_name names) (refl, hs) in
        rw e ((db_and_name-StandsFor name, stand), (h, there))

    -- For a request without databases and with collection names, the collections to back up, where
    -- there is no error, are one for each name, in the same order: for a name without a dot, the
    -- collection of this name in the database "default"; for another, that whose database is what
    -- comes before the first dot, and whose name is what follows up to the second dot or the end.
    -- The cluster has each of them.
    pub parse_backup_collections-ok :
        (request : CreateBackupRequest) (name : Text) (names : List Text)
        (found : List CollectionStruct)
        → get_create_db_collections marshal_to_string request ≡ []
        → request.collection_names ≡ name ∷ names
        → parse_backup_collections request ≡ ok found
        → AllStandFor (name ∷ names) found × All IsThere found
    unfolding parse_backup_collections named_collections text_eq
    parse_backup_collections-ok request name names found none_given given h =
        named-ok (name ∷ names) found
          (check_names-ok (name ∷ names) found (rw (none_given, given) at h))
