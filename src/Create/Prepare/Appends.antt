-- ===== src/Create/Prepare/Appends.antt =====
-- backupCollectionPrepare and its jobs: what they append to the collections of the backup.
use mathlib.Core.List.{map-append}
use milvus_backup.Base.{
  none-ne_some, ℕ, Bool, true, false, not, ◌&&◌, ◌==◌, nat_key, ltb, List, [], ◌∷◌, ◌++◌, map,
  Option, none, some, ◌≡◌, refl, ◌∙◌, ap, sym, Result, ok, err, if◌then◌else◌, length, append-nil,
  append_assoc, Bool-cases, inl, inr, ok-inj,
}
use milvus_backup.Base.Text.{Text, text_key}
use milvus_backup.Base.Int64.{Int64}
use milvus_backup.Base.Dict.{Dict, insert}
use milvus_backup.Proto.{CollectionBackupInfo}
use milvus_backup.Milvus.Client.{Client, Flushed, Collection, bind-ok, bind-keeps, pure, ◌>>=◌}
use milvus_backup.Milvus.Wrapper.{
  describe_collection, get_loading_progress, show_partitions, get_persistent_segment_info, flush_v2,
}
use milvus_backup.Create.Collections.{CollectionStruct}
use milvus_backup.Create.Segments.{Segment, Partition, load_state_of}
use milvus_backup.Restore.Tasks.{Stamp}
use milvus_backup.Create.Prepare.{
  Preparing, P, asks, sets, load_states, take_sealed, seal, flushed_segments, fill_partitions,
  fill_segments, take_flushed, unfilled_segments, fill_in, describe, field_indexes, new_collection,
  backup_collection_prepare, prepare_all, Indexes, no_indexes,
}

module _ (client : Client) where
  abbrev db_of : Preparing client → Text
  db_of p = p.collection.db_name

  abbrev KeepsDb : {A : Type 0} → P client A → Type 0
  KeepsDb m = (p : Preparing client) → db_of (m p).1 ≡ db_of p

  then_keeps :
      {A B : Type 0} (m : P client A) (f : A → P client B)
      → KeepsDb m
      → ((a : A) → KeepsDb (f a))
      → KeepsDb (m >>= f)
  then_keeps m f hm hf p = bind-keeps m f db_of (db_of p) p (hm p) (λ a. hf a (m p).1 ∙ hm p)

  load_states-db :
      (db coll : Text) (progress : Int64) (ps : List Partition) (states : Dict Text Text)
      → KeepsDb (load_states client db coll progress ps states)
  unfolding load_states
  load_states-db db coll progress [] states = λ p. refl
  load_states-db db coll progress (x ∷ ps) states =
      then_keeps
        (if ltb 0 progress && not (progress == 100)
          then asks client (get_loading_progress client db coll (x.name ∷ []))
          else pure progress)
        (λ lp. load_states client db coll progress ps (insert x.name (load_state_of lp) states))
        (λ p. elim (Bool-cases (ltb 0 progress && not (progress == 100))) [
          | inl e ↦ rw e refl
          | inr e ↦ rw e refl
        ])
        (λ a. load_states-db db coll progress ps (insert x.name (load_state_of a) states))

  take_sealed-db :
      (db coll : Text) (before : List Segment) (flushed : Flushed)
      → KeepsDb (take_sealed client db coll before flushed)
  unfolding take_sealed
  take_sealed-db db coll before flushed =
      then_keeps (sets client (seal client flushed))
        (λ _. do
          after ← asks client (get_persistent_segment_info client db coll)
          pure (flushed_segments client flushed before after))
        (λ p. refl)
        (λ _.
          then_keeps (asks client (get_persistent_segment_info client db coll))
            (λ after. pure (flushed_segments client flushed before after)) (λ p. refl)
            (λ after p. refl))

  take_flushed-db : (db coll : Text) → KeepsDb (take_flushed client db coll)
  unfolding take_flushed
  take_flushed-db db coll =
      then_keeps (asks client (get_persistent_segment_info client db coll))
        (λ before.
          asks client (flush_v2 client db coll false) >>= take_sealed client db coll before)
        (λ p. refl)
        (λ before.
          then_keeps (asks client (flush_v2 client db coll false))
            (take_sealed client db coll before) (λ p. refl) (take_sealed-db db coll before))

  unfilled_segments-db :
      (force : Bool) (db coll : Text) → KeepsDb (unfilled_segments client force db coll)
  unfolding unfilled_segments
  unfilled_segments-db true db coll = λ p. refl
  unfilled_segments-db false db coll = take_flushed-db db coll

  fill_segments-db :
      (force : Bool) (c : CollectionBackupInfo) (ps : List Partition) (progress : Int64)
      (states : Dict Text Text)
      → KeepsDb (fill_segments client force c ps progress states)
  unfolding fill_segments fill_partitions
  fill_segments-db force c ps progress states =
      then_keeps (unfilled_segments client force c.db_name c.collection_name)
        (fill_partitions client c ps progress states)
        (unfilled_segments-db force c.db_name c.collection_name) (λ segments p. refl)

  fill_states-db :
      (force : Bool) (c : CollectionBackupInfo) (ps : List Partition) (progress : Int64)
      → KeepsDb (
          load_states client c.db_name c.collection_name progress ps []
          >>= fill_segments client force c ps progress)
  fill_states-db force c ps progress =
      then_keeps (load_states client c.db_name c.collection_name progress ps [])
        (fill_segments client force c ps progress)
        (load_states-db c.db_name c.collection_name progress ps [])
        (fill_segments-db force c ps progress)

  fill_in-db : (force : Bool) (c : CollectionBackupInfo) → KeepsDb (fill_in client force c)
  unfolding fill_in
  fill_in-db force c =
      then_keeps (asks client (show_partitions client c.db_name c.collection_name))
        (λ ps.
          asks client (get_loading_progress client c.db_name c.collection_name []) >>= λ progress.
          load_states client c.db_name c.collection_name progress ps []
          >>= fill_segments client force c ps progress)
        (λ p. refl)
        (λ ps.
          then_keeps (asks client (get_loading_progress client c.db_name c.collection_name []))
            (λ progress.
              load_states client c.db_name c.collection_name progress ps []
              >>= fill_segments client force c ps progress)
            (λ p. refl) (fill_states-db force c ps))

  describe-db :
      (stamp : Stamp) (collection : CollectionStruct) (s : client.State) (c : CollectionBackupInfo)
      → (describe client stamp collection s).0 ≡ ok c
      → c.db_name ≡ collection.db
  unfolding describe new_collection
  describe-db stamp collection s c e =
      let (complete, _, rest) =
        bind-ok (describe_collection client collection.db collection.collection_name)
          (λ (x : Collection).
            field_indexes client collection.db x.name x.schema.fields no_indexes
            >>= λ (known : Indexes). pure (new_collection stamp collection.db x known.infos))
          s c e in
      let s' = (describe_collection client collection.db collection.collection_name s).1 in
      let (known, _, ended) =
        bind-ok (field_indexes client collection.db complete.name complete.schema.fields no_indexes)
          (λ (known : Indexes). pure (new_collection stamp collection.db complete known.infos)) s' c
          (ap (λ r. r.0) (sym rest) ∙ e) in
      ap (λ x. x.db_name) (sym (ok-inj (ap (λ r. r.0) (sym ended) ∙ ap (λ r. r.0) (sym rest) ∙ e)))

  -- What a call leaves behind the collections that were there, and, unless it fails, the databases.
  record Appends (infos : List CollectionBackupInfo) (dbs : List Text)
      (r : Option Text × List CollectionBackupInfo × client.State) : Type 0 where
    more : List CollectionBackupInfo
    behind : r.1 ≡ infos ++ more
    of_dbs : r.0 ≡ none → map (λ c. c.db_name) more ≡ dbs

  filled_of :
      List CollectionBackupInfo
      → Result Text Unit × Preparing client
      → Option Text × List CollectionBackupInfo × client.State
  filled_of infos (filled, p) =
      (elim filled [ ok _ ↦ none | err e ↦ some e ], infos ++ p.collection ∷ [], p.cluster)

  backup_collection_prepare-Appends :
      (stamp : Stamp) (force : Bool) (collection : CollectionStruct)
      (infos : List CollectionBackupInfo) (s : client.State)
      → Appends infos
          (collection.db ∷ [])
          (backup_collection_prepare client stamp force collection infos s)
  unfolding backup_collection_prepare filled_of
  backup_collection_prepare-Appends stamp force collection infos s =
      split (describe client stamp collection s) (describe-db stamp collection s)
    where
      filled :
          (r : Result Text Unit × Preparing client)
          → db_of r.1 ≡ collection.db
          → Appends infos (collection.db ∷ []) (filled_of infos r)
      filled (r, p) e = record {
        more = p.collection ∷ [];
        behind = refl;
        of_dbs = λ _. ap (λ d. d ∷ []) e;
      }

      split :
          (r : Result Text CollectionBackupInfo × client.State)
          → ((c : CollectionBackupInfo) → r.0 ≡ ok c → c.db_name ≡ collection.db)
          → Appends infos
              (collection.db ∷ [])
              (elim r.0 as (λ _. Option Text × List CollectionBackupInfo × client.State) [
                | err e ↦ (some e, infos, r.1)
                | ok c ↦
                    filled_of infos
                      (fill_in client force c (record { cluster = r.1; collection = c }))
              ])
      split (err e, s') h = record {
        more = [];
        behind = sym (append-nil infos);
        of_dbs = λ x. absurd (none-ne_some (sym x));
      }
      split (ok c, s') h =
          filled (fill_in client force c (record { cluster = s'; collection = c }))
            (fill_in-db force c (record { cluster = s'; collection = c }) ∙ h c refl)

  Appends-join :
      (infos : List CollectionBackupInfo) (db : Text) (dbs : List Text)
      (one rest : Option Text × List CollectionBackupInfo × client.State)
      → Appends infos (db ∷ []) one
      → one.0 ≡ none
      → Appends one.1 dbs rest
      → Appends infos (db ∷ dbs) rest
  Appends-join infos db dbs one rest first none_yet later = record {
    more = first.more ++ later.more;
    behind =
        later.behind
        ∙ ap (λ x. x ++ later.more) first.behind
        ∙ append_assoc infos first.more later.more;
    of_dbs = λ e.
        map-append (λ (x : CollectionBackupInfo). x.db_name) first.more later.more
        ∙ ap (λ x. x ++ map (λ x. x.db_name) later.more) (first.of_dbs none_yet)
        ∙ ap (λ x. db ∷ x) (later.of_dbs e);
  }

  -- Also where a job fails, the collections that were there stay, and others come behind them.
  prepare_all-Appends :
      (stamps : ℕ → Stamp) (force : Bool) (cs : List CollectionStruct)
      (infos : List CollectionBackupInfo) (s : client.State)
      → Appends infos (map (λ x. x.db) cs) (prepare_all client stamps force cs infos s)
  unfolding prepare_all
  prepare_all-Appends stamps force [] infos s = record {
    more = [];
    behind = sym (append-nil infos);
    of_dbs = λ _. refl;
  }
  prepare_all-Appends stamps force (c ∷ cs) infos s =
      split (backup_collection_prepare client (stamps (length infos)) force c infos s)
        (backup_collection_prepare-Appends (stamps (length infos)) force c infos s)
        (λ infos' s'. prepare_all-Appends stamps force cs infos' s')
    where
      split :
          (one : Option Text × List CollectionBackupInfo × client.State)
          → Appends infos (c.db ∷ []) one
          → ((infos' : List CollectionBackupInfo) (s' : client.State)
              → Appends infos' (map (λ x. x.db) cs) (prepare_all client stamps force cs infos' s'))
          → Appends infos
              (c.db ∷ map (λ x. x.db) cs)
              (elim one.0 as (λ _. Option Text × List CollectionBackupInfo × client.State) [
                | none ↦ prepare_all client stamps force cs one.1 one.2
                | some e ↦ (some e, one.1, one.2)
              ])
      split (none, infos', s') first ih =
          Appends-join infos c.db (map (λ x. x.db) cs) (none, infos', s')
            (prepare_all client stamps force cs infos' s') first refl (ih infos' s')
      split (some e, infos', s') first ih = record {
        more = first.more;
        behind = first.behind;
        of_dbs = λ x. absurd (none-ne_some (sym x));
      }

  -- If no job of backupCollectionPrepare has an error, then the jobs, run one after the other,
  -- leave the collections that the backup has as they are, and append one for each collection
  -- asked for, in that order, under its database.
  pub prepare_all-appends :
      (stamps : ℕ → Stamp) (force : Bool) (cs : List CollectionStruct)
      (infos : List CollectionBackupInfo) (s : client.State)
      → (prepare_all client stamps force cs infos s).0 ≡ none
      → (more : List CollectionBackupInfo) × ((prepare_all client stamps force cs infos s).1
          ≡ infos ++ more)
        × (map (λ x. x.db_name) more ≡ map (λ x. x.db) cs)
  prepare_all-appends stamps force cs infos s h =
      let left = prepare_all-Appends stamps force cs infos s in
      (left.more, left.behind, left.of_dbs h)
