-- ===== src/Restore/Select.antt =====
-- RestoreBackup: which collections of the backup are restored. A collection without a database is put
-- into "default", here in the selected copies. The JSON decoder and the text of a `structpb.Value` are
-- parameters.
use milvus_backup.Base.{
  Option, Bool, true, false, not, ◌&&◌, List, [], ◌∷◌, ◌++◌, map, ◌≡◌, refl, Result, ok, err,
  if◌then◌else◌, arith, keep, any, concat_map, ◌||◌, ◌∙◌, none, some, any-keep, any-swap,
  any-concat_map, any-ext, ap, sym, Bool-cases, Result-cases, inl, inr, ok-inj, ok-ne_err,
}
use milvus_backup.Base.Text.{Text, codes, text_key, text_eq, occurs}
use milvus_backup.Base.Dict.{Dict, lookup, insert, lookup-insert}
use milvus_backup.Proto.{
  CollectionBackupInfo, BackupInfo, RestoreBackupRequest, DbCollectionsValue, string_value,
  struct_value, other_value,
}
use milvus_backup.Utils.Requests.{get_restore_db_collections, db_collections_text}
use milvus_backup.Context.Get.{is_empty}
use milvus_backup.Create.Collections.{dot, default_db}

unfoldable pub with_default_db : CollectionBackupInfo → CollectionBackupInfo
with_default_db c = if is_empty c.db_name then record c { db_name = default_db } else c

-- A name with a dot is complete; one without is of the database "default".
unfoldable pub full_name : Text → Text
full_name name = if occurs (dot ∷ []) name then name else default_db ++ dot ∷ name

abbrev pub name_in_db : CollectionBackupInfo → Text
name_in_db c = c.db_name ++ dot ∷ c.collection_name

abbrev pub is_at : Text → Text → CollectionBackupInfo → Bool
is_at db coll c = text_eq c.db_name db && text_eq c.collection_name coll

-- The collections of a database, or, if names are given, those of each name in turn.
unfoldable pub select_of_db :
    Text → List Text → List CollectionBackupInfo → List CollectionBackupInfo
select_of_db db [] backups = keep (λ c. text_eq c.db_name db) backups
select_of_db db (name ∷ names) backups =
    concat_map (λ coll. keep (is_at db coll) backups) (name ∷ names)

unfoldable pub select_of_dbs :
    Dict Text (List Text) → List CollectionBackupInfo → List CollectionBackupInfo
unfolding select_of_db
select_of_dbs dict backups =
    concat_map (λ (e : Text × List Text). select_of_db e.0 e.1 backups) dict

-- collectionNameDict
unfoldable pub name_dict : List Text → Dict Text Bool → Dict Text Bool
unfolding full_name
name_dict [] dict = dict
name_dict (name ∷ names) dict = name_dict names (insert (full_name name) true dict)

abbrev in_dict : Dict Text Bool → Text → Bool
in_dict dict name = elim (lookup name dict) [ some b ↦ b | none ↦ false ]

unfoldable pub select_by_name : List Text → List CollectionBackupInfo → List CollectionBackupInfo
unfolding name_dict
select_by_name [] backups = backups
select_by_name (name ∷ names) backups =
    let dict = name_dict (name ∷ names) [] in keep (λ c. in_dict dict (name_in_db c)) backups

-- The second of the three parts is a comma of full width.
abbrev pub unmarshal_msg : Text → Text → Text
unmarshal_msg shown e =
    codes "fail in unmarshal dbCollections in RestoreBackupRequest"
    ++ (239 ∷ 188 ∷ 140 ∷ codes " dbCollections: " ++ (shown ++ (codes ", err: " ++ e)))

pub record Decoders : Type 0 where
  pub marshal_to_string : Text → Result Text Text
  pub decode_db_collections : Text → Result Text (Dict Text (List Text))
  pub print_value : RestoreBackupRequest → Text

module _ (decoders : Decoders) where
  selected :
      RestoreBackupRequest
      → List CollectionBackupInfo
      → Result Text (Dict Text (List Text))
      → Result Text (List CollectionBackupInfo)
  unfolding select_of_dbs
  selected request backups (err e) = err (unmarshal_msg (decoders.print_value request) e)
  selected request backups (ok dict) = ok (select_of_dbs dict backups)

  unfoldable pub select_collections :
      RestoreBackupRequest → BackupInfo → Result Text (List CollectionBackupInfo)
  unfolding selected select_by_name with_default_db
  select_collections request backup =
      let text = get_restore_db_collections decoders.marshal_to_string request in
      let backups = map with_default_db backup.collection_backups in
      if not (is_empty text)
      then selected request backups (decoders.decode_db_collections text)
      else ok (select_by_name request.collection_names backups)

in_dict-insert :
    (n m : Text) (dict : Dict Text Bool)
    → in_dict (insert m true dict) n ≡ text_eq m n || in_dict dict n
in_dict-insert n m dict = ground (arith, lookup-insert n m true dict)

in_dict-name_dict :
    (names : List Text) (dict : Dict Text Bool) (n : Text)
    → in_dict (name_dict names dict) n
      ≡ any (λ name. text_eq (full_name name) n) names || in_dict dict n
unfolding name_dict
in_dict-name_dict [] dict n = refl
in_dict-name_dict (name ∷ names) dict n = ground (
  arith,
  in_dict-name_dict names (insert (full_name name) true dict) n,
  in_dict-insert n (full_name name) dict,
)

-- A collection without a database is of the database "default".
abbrev pub in_some_db : CollectionBackupInfo → CollectionBackupInfo
in_some_db c = record c { db_name = elim c.db_name [ [] ↦ codes "default" | l ∷ ls ↦ l ∷ ls ] }

in_some_db-same : (cs : List CollectionBackupInfo) → map with_default_db cs ≡ map in_some_db cs
unfolding with_default_db text_eq
in_some_db-same [] = refl
in_some_db-same (c ∷ cs) = cc (one c.db_name, in_some_db-same cs)
  where
    one :
        (db : Text)
        → with_default_db (record c { db_name = db }) ≡ in_some_db (record c { db_name = db })
    one [] = refl
    one (l ∷ ls) = refl

-- What the request asks for: with databases given, those of a named database, by name if it has
-- names; otherwise by the full name; and all if it says nothing.
abbrev pub names_it : CollectionBackupInfo → Text → Bool
names_it c name =
    text_eq (if occurs (codes ".") name then name else codes "default." ++ name)
      (c.db_name ++ (codes "." ++ c.collection_name))

abbrev pub is_of_db : CollectionBackupInfo → Text → List Text → Bool
is_of_db c db [] = text_eq c.db_name db
is_of_db c db (name ∷ names) =
    any (λ coll. text_eq c.db_name db && text_eq c.collection_name coll) (name ∷ names)

abbrev pub is_named : List Text → CollectionBackupInfo → Bool
is_named [] c = true
is_named (name ∷ names) c = any (names_it c) (name ∷ names)

abbrev wanted_by : Decoders → Text → RestoreBackupRequest → CollectionBackupInfo → Bool
wanted_by decoders text request c =
    if not (is_empty text)
    then (elim (decoders.decode_db_collections text) [
      | ok dict ↦ any (λ (e : Text × List Text). is_of_db c e.0 e.1) dict
      | err _ ↦ false
    ])
    else is_named request.collection_names c

-- The databases of the request, as a text: the text itself, or that of a JSON object.
abbrev pub databases_of : Decoders → Option DbCollectionsValue → Text
databases_of decoders none = []
databases_of decoders (some (string_value s)) = s
databases_of decoders (some (struct_value j)) = elim (decoders.marshal_to_string j) [
  | ok s ↦ s
  | err _ ↦ []
]
databases_of decoders (some other_value) = []

unfoldable pub is_wanted : Decoders → RestoreBackupRequest → CollectionBackupInfo → Bool
is_wanted decoders request c =
    wanted_by decoders (databases_of decoders request.db_collections) request c

databases_of-same :
    (decoders : Decoders) (request : RestoreBackupRequest)
    → get_restore_db_collections decoders.marshal_to_string request
      ≡ databases_of decoders request.db_collections
unfolding get_restore_db_collections db_collections_text
databases_of-same decoders request = by request.db_collections
  where
    by :
        (v : Option DbCollectionsValue)
        → db_collections_text decoders.marshal_to_string v ≡ databases_of decoders v
    by none = refl
    by (some (string_value s)) = refl
    by (some (struct_value j)) = refl
    by (some other_value) = refl

select_of_db-any :
    (p : CollectionBackupInfo → Bool) (db : Text) (names : List Text)
    (backups : List CollectionBackupInfo)
    → any p (select_of_db db names backups) ≡ any (λ c. p c && is_of_db c db names) backups
unfolding select_of_db
select_of_db-any p db [] backups = any-keep p (λ c. text_eq c.db_name db) backups
select_of_db-any p db (name ∷ names) backups =
    any-concat_map p (λ coll. keep (is_at db coll) backups) (name ∷ names)
    ∙ any-ext (name ∷ names) (λ coll. any-keep p (is_at db coll) backups)
    ∙ any-swap p (is_at db) (name ∷ names) backups

select_of_dbs-any :
    (p : CollectionBackupInfo → Bool) (dict : Dict Text (List Text))
    (backups : List CollectionBackupInfo)
    → any p (select_of_dbs dict backups)
      ≡ any (λ c. p c && any (λ (e : Text × List Text). is_of_db c e.0 e.1) dict) backups
unfolding select_of_dbs
select_of_dbs-any p dict backups =
    any-concat_map p (λ (e : Text × List Text). select_of_db e.0 e.1 backups) dict
    ∙ any-ext dict (λ e. select_of_db-any p e.0 e.1 backups)
    ∙ any-swap p (λ (e : Text × List Text) c. is_of_db c e.0 e.1) dict backups

select_by_name-any :
    (p : CollectionBackupInfo → Bool) (names : List Text) (backups : List CollectionBackupInfo)
    → any p (select_by_name names backups) ≡ any (λ c. p c && is_named names c) backups
unfolding select_by_name lookup
select_by_name-any p [] backups = any-ext backups (λ c. ground arith)
select_by_name-any p (name ∷ names) backups =
    any-keep p (λ c. in_dict (name_dict (name ∷ names) []) (name_in_db c)) backups
    ∙ any-ext backups (λ c. ground (arith, in_dict-name_dict (name ∷ names) [] (name_in_db c)))

-- The collections that RestoreBackup selects, where it can read the request, are those of the
-- backup that the request asks for, each with its database, or "default" if it has none: a
-- property holds of a selected collection exactly if it holds of such a collection of the backup
-- that is asked for.
pub select_collections-any :
    (decoders : Decoders) (request : RestoreBackupRequest) (backup : BackupInfo)
    (found : List CollectionBackupInfo) (p : CollectionBackupInfo → Bool)
    → select_collections decoders request backup ≡ ok found
    → any p found
      ≡ any (λ c. p c && is_wanted decoders request c) (map in_some_db backup.collection_backups)
unfolding select_collections is_wanted selected
select_collections-any decoders request backup found p h =
    let text = get_restore_db_collections decoders.marshal_to_string request in
    let backups = map with_default_db backup.collection_backups in
    (elim (Bool-cases (is_empty text)) [
      | inl none_given ↦ rw none_given (
          ap (any p) (sym (ok-inj (rw none_given at h)))
          ∙ select_by_name-any p request.collection_names backups)
      | inr given ↦ elim (Result-cases (decoders.decode_db_collections text)) [
        | inl (dict, e) ↦
            rw (given, e)
              (ap (any p) (sym (ok-inj (rw (given, e) at h))) ∙ select_of_dbs-any p dict backups)
        | inr (msg, e) ↦ absurd (ok-ne_err (sym (rw (given, e) at h)))
      ]
    ])
    ∙ ap (any (λ c. p c && wanted_by decoders text request c))
        (in_some_db-same backup.collection_backups)
    ∙ ap
        (λ t.
          any (λ c. p c && wanted_by decoders t request c)
            (map in_some_db backup.collection_backups))
        (databases_of-same decoders request)
