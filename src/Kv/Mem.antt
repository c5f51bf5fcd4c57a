-- ===== src/Kv/Mem.antt =====
-- internal/kv/mem/mem_kv.go. The B-tree of package btree is a parameter. The lock is held over each
-- call, so that a call is one step.
pub mod Refinement
use milvus_backup.Base.{
  ℕ, suc, Bool, true, false, ◌&&◌, List, [], ◌∷◌, ◌++◌, map, Option, none, some, Result, ok, err,
  if◌then◌else◌, ltb, leb, length, keep, concat_map,
}
use milvus_backup.Base.Text.{Text, codes, has_prefix}
use milvus_backup.Base.Dict.{Dict}

-- The two kinds of values; both are bytes.
pub data Value : Type 0 where
  string_value byte_slice_value : Text → Value

-- String and ByteSlice
abbrev pub bytes_of : Value → Text
bytes_of (string_value v) = v
bytes_of (byte_slice_value v) = v

-- btree.BTree of items compared by their keys. Ascend visits the items in order.
pub record Btree : Type 1 where
  pub Tree : Type 0
  pub new : Tree
  pub get : Text → Tree → Option Value
  pub replace_or_insert : Text → Value → Tree → Tree
  pub delete : Text → Tree → Tree
  pub ascend : Tree → List (Text × Value)
  pub ascend_range : Text → Text → Tree → List (Text × Value)

abbrev pub invalid_key_msg : Text → Text
invalid_key_msg key = codes "invalid key: " ++ key

module _ (btree : Btree) where
  abbrev Tree : Type 0
  Tree = btree.Tree

  unfoldable pub new_memory_kv : Tree
  new_memory_kv = btree.new

  -- Load and LoadBytes
  unfoldable pub load : Text → Tree → Result Text Text
  load key kv = elim (btree.get key kv) [
    | none ↦ err (invalid_key_msg key)
    | some v ↦ ok (bytes_of v)
  ]

  -- LoadWithDefault and LoadBytesWithDefault
  unfoldable pub load_with_default : Text → Text → Tree → Text
  load_with_default key default_value kv = elim (btree.get key kv) [
    | none ↦ default_value
    | some v ↦ bytes_of v
  ]

  -- Get
  unfoldable pub get : Text → Tree → Text
  unfolding load_with_default
  get key kv = load_with_default key [] kv

  -- What the visit of a range collects: it ends once the limit is reached, if there is one.
  unfoldable pub collect : ℕ → List (Text × Value) → List Text → List Text → List Text × List Text
  collect limit [] keys values = (keys, values)
  collect limit ((k, v) ∷ items) keys values =
      let keys' = keys ++ k ∷ [] in
      let values' = values ++ bytes_of v ∷ [] in
      let rest = collect limit items keys' values' in
      if ltb 0 limit && leb limit (length keys') then (keys', values') else rest

  -- LoadRange and LoadBytesRange
  unfoldable pub load_range : Text → Text → ℕ → Tree → List Text × List Text
  unfolding collect
  load_range key end_key limit kv = collect limit (btree.ascend_range key end_key kv) [] []

  unfoldable pub save : Text → Text → Tree → Tree
  save key value kv = btree.replace_or_insert key (string_value value) kv

  unfoldable pub save_bytes : Text → Text → Tree → Tree
  save_bytes key value kv = btree.replace_or_insert key (byte_slice_value value) kv

  unfoldable pub remove : Text → Tree → Tree
  remove key kv = btree.delete key kv

  -- MultiLoad and MultiLoadBytes panic on a missing key, `none`.
  unfoldable pub multi_load : List Text → Tree → Option (List Text)
  multi_load [] kv = some []
  multi_load (key ∷ keys) kv =
      let rest = multi_load keys kv in
      elim (btree.get key kv) [
        | none ↦ none
        | some v ↦ elim rest [ none ↦ none | some vs ↦ some (bytes_of v ∷ vs) ]
      ]

  -- A map of strings, or of byte slices, by the constructor of its values.
  unfoldable pub multi_save : (Text → Value) → Dict Text Text → Tree → Tree
  multi_save make [] kv = kv
  multi_save make ((key, value) ∷ kvs) kv =
      multi_save make kvs (btree.replace_or_insert key (make value) kv)

  unfoldable pub multi_remove : List Text → Tree → Tree
  multi_remove [] kv = kv
  multi_remove (key ∷ keys) kv = multi_remove keys (btree.delete key kv)

  -- MultiSaveAndRemove and MultiSaveBytesAndRemove: the keys to remove go last.
  unfoldable pub multi_save_and_remove : (Text → Value) → Dict Text Text → List Text → Tree → Tree
  unfolding multi_save multi_remove
  multi_save_and_remove make saves removals kv = multi_remove removals (multi_save make saves kv)

  unfoldable pub items_with_prefix : Text → Tree → List (Text × Value)
  items_with_prefix key kv = keep (λ (e : Text × Value). has_prefix e.0 key) (btree.ascend kv)

  -- LoadWithPrefix and LoadBytesWithPrefix
  unfoldable pub load_with_prefix : Text → Tree → List Text × List Text
  unfolding items_with_prefix
  load_with_prefix key kv =
      let items = items_with_prefix key kv in
      (map (λ (e : Text × Value). e.0) items, map (λ (e : Text × Value). bytes_of e.1) items)

  abbrev pub keys_with_prefix : Text → Tree → List Text
  keys_with_prefix key kv = map (λ (e : Text × Value). e.0) (items_with_prefix key kv)

  -- MultiSaveAndRemoveWithPrefix and MultiSaveBytesAndRemoveWithPrefix: here the removals go first.
  unfoldable pub multi_save_and_remove_with_prefix :
      (Text → Value) → Dict Text Text → List Text → Tree → Tree
  unfolding multi_save multi_remove items_with_prefix
  multi_save_and_remove_with_prefix make saves removals kv =
      multi_save make saves (multi_remove (concat_map (λ key. keys_with_prefix key kv) removals) kv)

  unfoldable pub remove_with_prefix : Text → Tree → Tree
  unfolding multi_remove items_with_prefix
  remove_with_prefix key kv = multi_remove (keys_with_prefix key kv) kv
