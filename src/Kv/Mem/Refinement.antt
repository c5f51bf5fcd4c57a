-- ===== src/Kv/Mem/Refinement.antt =====
-- MemoryKV is a function from keys to values: each call changes it as its comment says.
use milvus_backup.Base.{
  Bool, true, false, List, [], ◌∷◌, map, Option, none, some, ◌≡◌, refl, ◌∙◌, ap, if◌then◌else◌,
  arith, any, keep, concat_map, any-ext, any-concat_map, Bool-cases, inl, inr, ◌&&◌,
}
use milvus_backup.Base.Text.{Text, text_key, text_eq, text_eq_iff, has_prefix}
use milvus_backup.Base.Dict.{Dict, lookup}
use milvus_backup.Kv.Mem.{
  Value, string_value, byte_slice_value, Btree, save, save_bytes, remove, multi_save, multi_remove,
  multi_save_and_remove, multi_save_and_remove_with_prefix, remove_with_prefix, items_with_prefix,
  keys_with_prefix,
}

-- What the program relies on in the library: it is a map, and a visit sees its items.
pub record IsMap (btree : Btree) : Type 0 where
  pub get-new : (j : Text) → btree.get j btree.new ≡ none
  pub get-replace_or_insert :
      (j k : Text) (v : Value) (t : btree.Tree)
      → btree.get j (btree.replace_or_insert k v t)
        ≡ (if text_eq k j then some v else btree.get j t)
  pub get-delete :
      (j k : Text) (t : btree.Tree)
      → btree.get j (btree.delete k t) ≡ (if text_eq k j then none else btree.get j t)
  pub lookup-ascend : (j : Text) (t : btree.Tree) → lookup j (btree.ascend t) ≡ btree.get j t

-- The calls that change the store.
pub data Op : Type 0 where
  op_save op_save_bytes : Text → Text → Op
  op_remove op_remove_with_prefix : Text → Op
  op_multi_remove : List Text → Op
  op_multi_save : (Text → Value) → Dict Text Text → Op
  op_multi_save_and_remove op_multi_save_and_remove_with_prefix :
      (Text → Value) → Dict Text Text → List Text → Op

abbrev pub Spec : Type 0
Spec = Text → Option Value

-- The value of the last entry for a key, if there is one.
abbrev last_value : Text → (Text → Value) → Dict Text Text → Option Value
last_value j make [] = none
last_value j make ((k, v) ∷ kvs) = elim (last_value j make kvs) [
  | some w ↦ some w
  | none ↦ if text_eq k j then some (make v) else none
]

abbrev or_before : Option Value → Option Value → Option Value
or_before (some v) before = some v
or_before none before = before

-- What the calls mean.
abbrev pub meaning : Op → Spec → Spec
meaning (op_save k v) f j = if text_eq k j then some (string_value v) else f j
meaning (op_save_bytes k v) f j = if text_eq k j then some (byte_slice_value v) else f j
meaning (op_remove k) f j = if text_eq k j then none else f j
meaning (op_remove_with_prefix k) f j = if has_prefix j k then none else f j
meaning (op_multi_remove ks) f j = if any (λ k. text_eq k j) ks then none else f j
meaning (op_multi_save make kvs) f j = or_before (last_value j make kvs) (f j)
meaning (op_multi_save_and_remove make kvs ks) f j =
    if any (λ k. text_eq k j) ks then none else or_before (last_value j make kvs) (f j)
meaning (op_multi_save_and_remove_with_prefix make kvs ks) f j =
    or_before (last_value j make kvs) (if any (λ k. has_prefix j k) ks then none else f j)

abbrev pub mean_all : List Op → Spec → Spec
mean_all [] f = f
mean_all (op ∷ ops) f = mean_all ops (meaning op f)

module _ (btree : Btree) where
  unfoldable pub run : Op → btree.Tree → btree.Tree
  run (op_save k v) = save btree k v
  run (op_save_bytes k v) = save_bytes btree k v
  run (op_remove k) = remove btree k
  run (op_remove_with_prefix k) = remove_with_prefix btree k
  run (op_multi_remove ks) = multi_remove btree ks
  run (op_multi_save make kvs) = multi_save btree make kvs
  run (op_multi_save_and_remove make kvs ks) = multi_save_and_remove btree make kvs ks
  run (op_multi_save_and_remove_with_prefix make kvs ks) =
      multi_save_and_remove_with_prefix btree make kvs ks

  unfoldable pub run_all : List Op → btree.Tree → btree.Tree
  unfolding run
  run_all [] t = t
  run_all (op ∷ ops) t = run_all ops (run op t)

  abbrev pub view : btree.Tree → Spec
  view t j = btree.get j t

module _ (btree : Btree) (is_map : IsMap btree) where
  multi_remove-view :
      (ks : List Text) (t : btree.Tree) (j : Text)
      → view btree (multi_remove btree ks t) j
        ≡ (if any (λ k. text_eq k j) ks then none else view btree t j)
  unfolding multi_remove
  multi_remove-view [] t j = refl
  multi_remove-view (k ∷ ks) t j =
      ground (arith, multi_remove-view ks (btree.delete k t) j, is_map.get-delete j k t)

  multi_save-view :
      (make : Text → Value) (kvs : Dict Text Text) (t : btree.Tree) (j : Text)
      → view btree (multi_save btree make kvs t) j
        ≡ or_before (last_value j make kvs) (view btree t j)
  unfolding multi_save
  multi_save-view make [] t j = refl
  multi_save-view make ((k, v) ∷ kvs) t j = ground (
    arith,
    multi_save-view make kvs (btree.replace_or_insert k (make v) t) j,
    is_map.get-replace_or_insert j k (make v) t,
  )

  abbrev is_there : Option Value → Bool
  is_there none = false
  is_there (some _) = true

  -- The keys of the items with a prefix are those of the items that have it.
  prefixed_keys :
      (key j : Text) (items : List (Text × Value))
      → any
          (λ k. text_eq k j)
          (map (λ (e : Text × Value). e.0) (keep (λ (e : Text × Value). has_prefix e.0 key) items))
        ≡ is_there (lookup j items) && has_prefix j key
  unfolding lookup
  prefixed_keys key j [] = refl
  prefixed_keys key j ((k, v) ∷ items) = elim (Bool-cases (text_eq k j)) [
    | inl same ↦
        let e = (text_eq_iff k j).0 same in
        elim (Bool-cases (has_prefix j key)) [
          | inl has ↦ ground (arith, ap (λ x. has_prefix x key) e, prefixed_keys key j items)
          | inr lacks ↦ ground (arith, ap (λ x. has_prefix x key) e, prefixed_keys key j items)
        ]
    | inr differs ↦ ground (arith, prefixed_keys key j items)
  ]

  -- Removing what is not there changes nothing.
  removed_there :
      (o : Option Value) (b : Bool)
      → (if is_there o && b then none else o) ≡ (if b then none else o)
  removed_there none b = ground arith
  removed_there (some v) b = refl

  keys_with_prefix-any :
      (key j : Text) (t : btree.Tree)
      → any (λ k. text_eq k j) (keys_with_prefix btree key t)
        ≡ is_there (view btree t j) && has_prefix j key
  unfolding items_with_prefix
  keys_with_prefix-any key j t =
      prefixed_keys key j (btree.ascend t)
      ∙ ap (λ o. is_there o && has_prefix j key) (is_map.lookup-ascend j t)

  all_keys_with_prefix-any :
      (b : Bool) (ks : List Text) (j : Text)
      → any (λ key. b && has_prefix j key) ks ≡ b && any (λ key. has_prefix j key) ks
  all_keys_with_prefix-any b [] j = ground arith
  all_keys_with_prefix-any b (k ∷ ks) j = ground (arith, all_keys_with_prefix-any b ks j)

  run-view :
      (op : Op) (t : btree.Tree) (j : Text)
      → view btree (run btree op t) j ≡ meaning op (view btree t) j
  unfolding run save save_bytes remove multi_save_and_remove multi_save_and_remove_with_prefix
      remove_with_prefix
  run-view (op_save k v) t j = is_map.get-replace_or_insert j k (string_value v) t
  run-view (op_save_bytes k v) t j = is_map.get-replace_or_insert j k (byte_slice_value v) t
  run-view (op_remove k) t j = is_map.get-delete j k t
  run-view (op_remove_with_prefix k) t j =
      multi_remove-view (keys_with_prefix btree k t) t j
      ∙ ap (λ b. if b then none else view btree t j) (keys_with_prefix-any k j t)
      ∙ removed_there (view btree t j) (has_prefix j k)
  run-view (op_multi_remove ks) t j = multi_remove-view ks t j
  run-view (op_multi_save make kvs) t j = multi_save-view make kvs t j
  run-view (op_multi_save_and_remove make kvs ks) t j =
      multi_remove-view ks (multi_save btree make kvs t) j
      ∙ ap (λ o. if any (λ k. text_eq k j) ks then none else o) (multi_save-view make kvs t j)
  run-view (op_multi_save_and_remove_with_prefix make kvs ks) t j =
      multi_save-view make kvs _ j
      ∙ ap (or_before (last_value j make kvs)) (
          multi_remove-view (concat_map (λ key. keys_with_prefix btree key t) ks) t j
          ∙ ap (λ b. if b then none else view btree t j)
              (any-concat_map (λ k. text_eq k j) (λ key. keys_with_prefix btree key t) ks
                ∙ any-ext ks (λ key. keys_with_prefix-any key j t)
                ∙ all_keys_with_prefix-any (is_there (view btree t j)) ks j)
          ∙ removed_there (view btree t j) (any (λ key. has_prefix j key) ks))

  -- Whatever calls follow each other on a store in memory, what it holds at the end under each key
  -- is what their meanings make of what it held at the start: a save sets a key, the last pair of
  -- several counts, a removal clears a key or all keys with a prefix, and of a call that does
  -- both, saves come before removals by key, and behind removals by prefix, if the tree is a map
  -- whose visit sees its items.
  pub run_all-view :
      (ops : List Op) (t : btree.Tree) (j : Text)
      → view btree (run_all btree ops t) j ≡ mean_all ops (view btree t) j
  unfolding run_all
  run_all-view [] t j = refl
  run_all-view (op ∷ ops) t j =
      run_all-view ops (run btree op t) j ∙ λ i. mean_all ops (λ x. run-view op t x i) j
