-- ===== src/Milvus/Client.antt =====
-- What the program uses of the client library (gomilvus.Client and its package entity). The library
-- is a parameter: its state holds the connection, with the database in use, and the cluster.
use milvus_backup.Base.{
  ℕ, Bool, List, Option, Result, ok, err, ◌++◌, ◌≡◌, refl, ap, sym, ◌∙◌, ok-ne_err,
}
use milvus_backup.Base.Text.{Text}
use milvus_backup.Base.Dict.{Dict}
use milvus_backup.Base.Int64.{Int64}
use milvus_backup.Proto.{IndexInfo}
use milvus_backup.Create.Segments.{Segment, Partition}

-- A call changes the state, also where it fails. An error is its text.
abbrev pub Call : Type 0 → Type 0 → Type 0
Call S A = S → Result Text A × S

-- entity.Field
pub record Field : Type 0 where
  pub id : Int64
  pub name : Text
  pub primary_key : Bool
  pub auto_id : Bool
  pub description : Text
  pub data_type : ℕ
  pub type_params : Dict Text Text
  pub index_params : Dict Text Text
  pub is_dynamic : Bool
  pub is_partition_key : Bool
  pub element_type : ℕ

-- entity.Schema
pub record Schema : Type 0 where
  pub collection_name : Text
  pub description : Text
  pub auto_id : Bool
  pub fields : List Field
  pub enable_dynamic_field : Bool

-- entity.Collection
pub record Collection : Type 0 where
  pub id : Int64
  pub name : Text
  pub schema : Schema
  pub shard_num : ℕ
  pub consistency_level : ℕ

-- What FlushV2 returns: the ids of the new sealed segments, those of the flushed ones, and the time.
pub record Flushed : Type 0 where
  pub new_sealed_segment_ids : List Int64
  pub flushed_segment_ids : List Int64
  pub time_of_seal : Int64

-- The options of CreateCollection: the consistency level, and the number of partitions if given.
pub record CreateOptions : Type 0 where
  pub consistency_level : ℕ
  pub partition_num : Option ℕ

pub record Client : Type 1 where
  pub State : Type 0
  -- entity.FieldType's Name
  pub data_type_name : ℕ → Text
  -- entity.AUTOINDEX
  pub auto_index : Text
  pub close : Call State Unit
  pub get_version : Call State Text
  pub using_database : Text → Call State Unit
  pub create_database : Text → Call State Unit
  pub list_databases : Call State (List Text)
  pub describe_collection : Text → Call State Collection
  pub describe_index : Text → Text → Call State (List IndexInfo)
  pub show_partitions : Text → Call State (List Partition)
  pub get_loading_progress : Text → List Text → Call State Int64
  pub get_persistent_segment_info : Text → Call State (List Segment)
  pub flush_v2 : Text → Bool → Call State Flushed
  pub list_collections : Call State (List Text)
  pub has_collection : Text → Call State Bool
  -- The collection, the partition, the files, and the end timestamp if given.
  pub bulk_insert : Text → Text → List Text → Option Int64 → Call State Int64
  pub create_collection : Schema → ℕ → CreateOptions → Call State Unit
  pub drop_collection : Text → Call State Unit
  pub create_partition : Text → Text → Call State Unit
  pub has_partition : Text → Text → Call State Bool
  -- The collection, the field, the index, and whether the call waits for it.
  pub create_index : Text → Text → IndexInfo → Bool → Call State Unit
  -- The collection and the name of the index.
  pub drop_index : Text → Text → Call State Unit
  -- The pause of retry.Do, with the error of the context if that ends first.
  pub wait : Int64 → State → Option Text × State

infixl 5 ◌>>=◌ ◌>>◌
abbrev pub ◌>>=◌ : {S A B : Type 0} → Call S A → (A → Call S B) → Call S B
◌>>=◌ m f s = let (r, s') = m s in elim r [ ok a ↦ f a s' | err e ↦ (err e, s') ]

abbrev pub ◌>>◌ : {S A B : Type 0} → Call S A → Call S B → Call S B
m >> k = m >>= λ _. k

abbrev pub pure : {S A : Type 0} → A → Call S A
pure a s = (ok a, s)

abbrev pub raise : {S A : Type 0} → Text → Call S A
raise e s = (err e, s)

-- The error of a call, put behind a message.
abbrev pub explain : {S A : Type 0} → Text → Call S A → Call S A
explain msg m s = let (r, s') = m s in elim r [ ok a ↦ (ok a, s') | err e ↦ (err (msg ++ e), s') ]

module _ {S A B : Type 0} (m : Call S A) (f : A → Call S B) where
  goes_on : Result Text A × S → Result Text B × S
  goes_on r = elim r.0 [ ok a ↦ f a r.1 | err x ↦ (err x, r.1) ]

  -- A sequence of calls that ends without an error has gone through both.
  pub bind-ok :
      (s : S) (b : B)
      → ((m >>= f) s).0 ≡ ok b
      → (a : A) × ((m s).0 ≡ ok a) × ((m >>= f) s ≡ f a (m s).1)
  unfolding goes_on
  bind-ok s b h = split (m s) refl
    where
      split :
          (r : Result Text A × S)
          → m s ≡ r
          → (a : A) × ((m s).0 ≡ ok a) × ((m >>= f) s ≡ f a (m s).1)
      split (ok a, s') e =
          (a, ap (λ r. r.0) e, ap goes_on e ∙ ap (λ (r : Result Text A × S). f a r.1) (sym e))
      split (err x, s') e = absurd (ok-ne_err (sym h ∙ ap (λ r. (goes_on r).0) e))

  -- What both calls keep, their sequence keeps, also where the first one fails.
  pub bind-keeps :
      {V : Type 0} (view : S → V) (v : V) (s : S)
      → view (m s).1 ≡ v
      → ((a : A) → view (f a (m s).1).1 ≡ v)
      → view ((m >>= f) s).1 ≡ v
  unfolding goes_on
  bind-keeps view v s first then_f = split (m s) first then_f
    where
      split :
          (r : Result Text A × S)
          → view r.1 ≡ v
          → ((a : A) → view (f a r.1).1 ≡ v)
          → view (goes_on r).1 ≡ v
      split (ok a, s') h k = k a
      split (err x, s') h k = h
