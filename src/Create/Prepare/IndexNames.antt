-- ===== src/Create/Prepare/IndexNames.antt =====
-- backupCollectionPrepare: the indexes that the backup records, by their names.
use milvus_backup.Base.{
  Bool, true, false, ◌||◌, List, [], ◌∷◌, ◌++◌, Option, none, some, ◌≡◌, refl, ◌∙◌, ap, sym, Result,
  ok, err, if◌then◌else◌, arith, any, any-append, All, Bool-cases, inl, inr, ◌⊎◌, ok-inj, ok-ne_err,
  subst,
}
use milvus_backup.Base.Text.{Text, text_key, text_eq, text_eq_iff}
use milvus_backup.Base.Dict.{lookup, insert, lookup-insert}
use milvus_backup.Proto.{CollectionBackupInfo, IndexInfo}
use milvus_backup.Milvus.Client.{Client, Call, Field, Collection, bind-ok, raise, pure, ◌>>=◌}
use milvus_backup.Milvus.Wrapper.{describe_index, describe_collection}
use milvus_backup.Create.Collections.{CollectionStruct}
use milvus_backup.Restore.Tasks.{Stamp}
use milvus_backup.Restore.Index.{is_no_index}
use milvus_backup.Create.Prepare.{Indexes, add_indexes, field_indexes, describe, new_collection}

abbrev pub has_name : Text → List IndexInfo → Bool
has_name name = any (λ i. text_eq i.index_name name)

-- No two of the indexes have the same name.
abbrev pub DistinctNames : List IndexInfo → Type 0
DistinctNames [] = Unit
DistinctNames (i ∷ is) = (has_name i.index_name is ≡ false) × DistinctNames is

abbrev is_known : Option IndexInfo → Bool
is_known none = false
is_known (some _) = true

known_or_new : (o : Option IndexInfo) → ((i : IndexInfo) × (o ≡ some i)) ⊎ (o ≡ none)
known_or_new none = inr refl
known_or_new (some i) = inl (i, refl)

-- indexDict has the names of indexInfos.
pub record Tracks (known : Indexes) : Type 0 where
  pub distinct : DistinctNames known.infos
  pub names : (name : Text) → is_known (lookup name known.dict) ≡ has_name name known.infos

DistinctNames-snoc :
    (is : List IndexInfo) (i : IndexInfo)
    → DistinctNames is
    → has_name i.index_name is ≡ false
    → DistinctNames (is ++ i ∷ [])
DistinctNames-snoc [] i h new = (refl, tt)
DistinctNames-snoc (j ∷ is) i (hj, hs) new = (
  any-append (λ x. text_eq x.index_name j.index_name) is (i ∷ [])
      ∙ ground
          (arith, text_eq_iff j.index_name i.index_name, text_eq_iff i.index_name j.index_name),
  DistinctNames-snoc is i hs (ground arith),
)

Tracks-empty : Tracks (record { infos = []; dict = [] })
unfolding lookup
Tracks-empty = record { distinct = tt; names = λ name. refl }

abbrev added : IndexInfo → Indexes → Indexes
added i known = record { infos = known.infos ++ i ∷ []; dict = insert i.index_name i known.dict }

Tracks-added :
    (i : IndexInfo) (known : Indexes)
    → Tracks known
    → lookup i.index_name known.dict ≡ none
    → Tracks (added i known)
Tracks-added i known h new = record {
  distinct =
      DistinctNames-snoc known.infos i h.distinct (sym (h.names i.index_name) ∙ ap is_known new);
  names = λ name.
      ap is_known (lookup-insert name i.index_name i known.dict)
      ∙ known_if (text_eq i.index_name name) name
      ∙ sym (any-append (λ x. text_eq x.index_name name) known.infos (i ∷ []));
}
  where
    known_if :
        (same : Bool) (name : Text)
        → is_known (if same then some i else lookup name known.dict)
          ≡ has_name name known.infos || (same || false)
    known_if same name = ground (arith, h.names name)

add_indexes-some :
    (i : IndexInfo) (indexes : List IndexInfo) (known : Indexes) (j : IndexInfo)
    → lookup i.index_name known.dict ≡ some j
    → add_indexes (i ∷ indexes) known ≡ add_indexes indexes known
unfolding add_indexes
add_indexes-some i indexes known j e = rw (e, add_indexes) refl

add_indexes-none :
    (i : IndexInfo) (indexes : List IndexInfo) (known : Indexes)
    → lookup i.index_name known.dict ≡ none
    → add_indexes (i ∷ indexes) known ≡ add_indexes indexes (added i known)
unfolding add_indexes
add_indexes-none i indexes known e = rw (e, add_indexes) refl

add_indexes-Tracks :
    (indexes : List IndexInfo) (known : Indexes) → Tracks known → Tracks (add_indexes indexes known)
unfolding add_indexes
add_indexes-Tracks [] known h = h
add_indexes-Tracks (i ∷ indexes) known h = elim (known_or_new (lookup i.index_name known.dict)) [
  | inl (j, e) ↦ rw (e, add_indexes) (add_indexes-Tracks indexes known h)
  | inr e ↦ rw (e, add_indexes) (add_indexes-Tracks indexes _ (Tracks-added i known h e))
]

-- What is recorded stays recorded.
add_indexes-keeps :
    (indexes : List IndexInfo) (known : Indexes) (name : Text)
    → has_name name known.infos ≡ true
    → has_name name (add_indexes indexes known).infos ≡ true
unfolding add_indexes
add_indexes-keeps [] known name h = h
add_indexes-keeps (i ∷ indexes) known name h =
    elim (known_or_new (lookup i.index_name known.dict)) [
      | inl (j, e) ↦ rw (e, add_indexes) (add_indexes-keeps indexes known name h)
      | inr e ↦
          rw (e, add_indexes)
            (add_indexes-keeps indexes _ name (
              any-append (λ x. text_eq x.index_name name) known.infos (i ∷ []) ∙ ground (arith, h)))
    ]

abbrev pub AreRecorded : List IndexInfo → Indexes → Type 0
AreRecorded indexes known = All (λ i. has_name i.index_name known.infos ≡ true) indexes

-- Behind the loop over the indexes of a field, each of them has its name recorded.
add_indexes-AreRecorded :
    (indexes : List IndexInfo) (known : Indexes)
    → Tracks known
    → AreRecorded indexes (add_indexes indexes known)
unfolding add_indexes
add_indexes-AreRecorded [] known h = tt
add_indexes-AreRecorded (i ∷ indexes) known h =
    elim (known_or_new (lookup i.index_name known.dict)) [
      | inl (j, e) ↦
          subst (AreRecorded (i ∷ indexes)) (sym (add_indexes-some i indexes known j e)) (
            add_indexes-keeps indexes known i.index_name
                (sym (h.names i.index_name) ∙ ap is_known e),
            add_indexes-AreRecorded indexes known h,
          )
      | inr e ↦ subst (AreRecorded (i ∷ indexes)) (sym (add_indexes-none i indexes known e)) (
        add_indexes-keeps indexes (added i known) i.index_name (
            any-append (λ x. text_eq x.index_name i.index_name) known.infos (i ∷ [])
            ∙ ground (arith, text_eq_iff i.index_name i.index_name)),
        add_indexes-AreRecorded indexes (added i known) (Tracks-added i known h e),
      )
    ]

module _ (client : Client) where
  -- The invariant of the loop over the fields.
  field_indexes-Tracks :
      (db coll : Text) (fields : List Field) (known found : Indexes) (s : client.State)
      → Tracks known
      → (field_indexes client db coll fields known s).0 ≡ ok found
      → Tracks found
  unfolding field_indexes
  field_indexes-Tracks db coll [] known found s h e = subst Tracks (ok-inj e) h
  field_indexes-Tracks db coll (f ∷ fs) known found s h e =
      split (describe_index client db coll f.name s)
        (λ is s'.
          field_indexes-Tracks db coll fs (add_indexes is known) found s'
            (add_indexes-Tracks is known h))
        (λ s'. field_indexes-Tracks db coll fs known found s' h) e
    where
      split :
          (r : Result Text (List IndexInfo) × client.State)
          → ((is : List IndexInfo) (s' : client.State)
              → (field_indexes client db coll fs (add_indexes is known) s').0 ≡ ok found
              → Tracks found)
          → ((s' : client.State)
              → (field_indexes client db coll fs known s').0 ≡ ok found
              → Tracks found)
          → (elim r.0 as (λ _. Call client.State Indexes) [
            | err x ↦ if is_no_index x then field_indexes client db coll fs known else raise x
            | ok is ↦ field_indexes client db coll fs (add_indexes is known)
          ]
              r.1).0
            ≡ ok found
          → Tracks found
      split (ok is, s') more same h' = more is s' h'
      split (err x, s') more same h' = elim (Bool-cases (is_no_index x)) [
        | inl yes' ↦ same s' (rw yes' at h')
        | inr no' ↦ absurd (ok-ne_err (sym (rw no' at h')))
      ]

  -- If backupCollectionPrepare gets the description of a collection without an error, then no two
  -- of the indexes that it records have the same name, whatever indexes the cluster lists for each
  -- field.
  pub describe-DistinctNames :
      (stamp : Stamp) (collection : CollectionStruct) (s : client.State) (c : CollectionBackupInfo)
      → (describe client stamp collection s).0 ≡ ok c
      → DistinctNames c.index_infos
  unfolding describe new_collection
  describe-DistinctNames stamp collection s c e =
      let (complete, _, rest) =
        bind-ok (describe_collection client collection.db collection.collection_name)
          (λ (complete : Collection).
            field_indexes client collection.db complete.name complete.schema.fields
              (record { infos = []; dict = [] })
            >>= λ (known : Indexes). pure (new_collection stamp collection.db complete known.infos))
          s c e in
      let s' = (describe_collection client collection.db collection.collection_name s).1 in
      let (known, found, ended) =
        bind-ok
          (field_indexes client collection.db complete.name complete.schema.fields
            (record { infos = []; dict = [] }))
          (λ (known : Indexes). pure (new_collection stamp collection.db complete known.infos)) s' c
          (ap (λ r. r.0) (sym rest) ∙ e) in
      subst (λ (x : CollectionBackupInfo). DistinctNames x.index_infos)
        (ok-inj (ap (λ r. r.0) (sym ended) ∙ ap (λ r. r.0) (sym rest) ∙ e))
        (field_indexes-Tracks collection.db complete.name complete.schema.fields
          (record { infos = []; dict = [] }) known s' Tracks-empty found).distinct
