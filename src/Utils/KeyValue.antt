-- ===== src/Utils/KeyValue.antt =====
-- KVPairToMap, parseParamsMap, MapToKVPair, KvPairsMap, ArrayToMap and MapKeyArray of
-- core/utils/convert_util.go.
use milvus_backup.Base.{
  Bool, true, false, not, List, [], ◌∷◌, ◌++◌, sym, ap, append_assoc, append-nil, Option, none,
  some, ◌≡◌, refl, ◌∙◌, All, keep, arith, ◌==◌, nat_key, if◌then◌else◌, Result, ok, err, Bool-cases,
  ◌⊎◌, inl, inr,
}
use milvus_backup.Base.Text.{Text, text_key, text_eq, codes, text_eq_iff}
use milvus_backup.Base.Dict.{Dict, lookup, insert, lookup-insert}
use milvus_backup.Base.Int64.{Int64}
use milvus_backup.Proto.{KeyValuePair}

-- json.Unmarshal into a map[string]interface{}, and fmt.Sprintf("%v", value).
pub record JsonObject : Type 1 where
  pub Value : Type 0
  pub decode : Text → Option (Dict Text Value)
  pub show : Value → Text

abbrev pub params_key : Text
params_key = codes "params"

abbrev pub unmarshal_failed : Text
unmarshal_failed = codes "Unmarshal params failed"

unfoldable pub kv_pairs_into : List KeyValuePair → Dict Text Text → Dict Text Text
kv_pairs_into [] m = m
kv_pairs_into (kvp ∷ rest) m = kv_pairs_into rest (insert kvp.key kvp.value m)

-- KvPairsMap
abbrev pub kv_pairs_map : List KeyValuePair → Dict Text Text
kv_pairs_map kvps = kv_pairs_into kvps []

unfoldable pub map_to_kv_pair : Dict Text Text → List KeyValuePair
map_to_kv_pair [] = []
map_to_kv_pair ((key, value) ∷ dict) = record { key = key; value = value } ∷ map_to_kv_pair dict

unfoldable pub array_into_map : List Int64 → Dict Int64 Bool → Dict Int64 Bool
array_into_map [] ret = ret
array_into_map (value ∷ strs) ret = array_into_map strs (insert value true ret)

-- ArrayToMap
abbrev pub array_to_map : List Int64 → Dict Int64 Bool
array_to_map strs = array_into_map strs []

unfoldable pub map_key_array : Dict Int64 Bool → List Int64
map_key_array [] = []
map_key_array ((k, _) ∷ dict) = k ∷ map_key_array dict

module _ (j : JsonObject) where
  show_into : Dict Text j.Value → Dict Text Text → Dict Text Text
  show_into [] ret = ret
  show_into ((key, value) ∷ buffer) ret = show_into buffer (insert key (j.show value) ret)

  unfoldable pub parse_params_map : Text → Result Text (Dict Text Text)
  unfolding show_into
  parse_params_map s = elim (j.decode s) [
    | none ↦ err unmarshal_failed
    | some buffer ↦ ok (show_into buffer [])
  ]

  -- In the branch of the key "params" a second variable `params` hides the result, and the copy
  -- goes from that variable to itself.
  kv_pair_into : List KeyValuePair → Dict Text Text → Result Text (Dict Text Text)
  kv_pair_into [] params = ok params
  kv_pair_into (kv ∷ rest) params =
      let skipped = kv_pair_into rest params in
      let kept = kv_pair_into rest (insert kv.key kv.value params) in
      if kv.key == params_key
      then (elim (parse_params_map kv.value) [ err e ↦ err e | ok _ ↦ skipped ])
      else kept

  unfoldable pub kv_pair_to_map : List KeyValuePair → Result Text (Dict Text Text)
  unfolding kv_pair_into
  kv_pair_to_map m = kv_pair_into m []

  abbrev pub is_params : KeyValuePair → Bool
  is_params kv = kv.key == params_key

  -- A pair under "params" holds a JSON object.
  abbrev pub Decodes : KeyValuePair → Type 0
  Decodes kv = (is_params kv ≡ false) ⊎ ((d : Dict Text Text) × (parse_params_map kv.value ≡ ok d))

  kv_pair_into-eq :
      (m : List KeyValuePair) (params : Dict Text Text)
      → All Decodes m
      → kv_pair_into m params ≡ ok (kv_pairs_into (keep (λ kv. not (is_params kv)) m) params)
  unfolding kv_pair_into kv_pairs_into
  kv_pair_into-eq [] params h = refl
  kv_pair_into-eq (kv ∷ m) params (hk, hs) = elim (Bool-cases (is_params kv)) [
    | inl yes' ↦ elim hk [
      | inl no' ↦ absurd (ground arith)
      | inr found ↦ rw (yes', found.1) (kv_pair_into-eq m params hs)
    ]
    | inr no' ↦ rw no' (kv_pair_into-eq m (insert kv.key kv.value params) hs)
  ]

  -- Where every object under "params" decodes, the result of KVPairToMap is the map of the other
  -- pairs, with nothing of those objects.
  pub kv_pair_to_map-drops :
      (m : List KeyValuePair)
      → All Decodes m
      → kv_pair_to_map m ≡ ok (kv_pairs_map (keep (λ kv. not (is_params kv)) m))
  unfolding kv_pair_to_map
  kv_pair_to_map-drops m h = kv_pair_into-eq m [] h

-- A Go map has each key once.
abbrev pub NodupKeys : Dict Text Text → Type 0
NodupKeys [] = Unit
NodupKeys ((k, _) ∷ d) = (lookup k d ≡ none) × NodupKeys d

abbrev over : Option Text → Option Text → Option Text
over none old = old
over (some v) old = some v

over-none : (o : Option Text) → over o none ≡ o
over-none none = refl
over-none (some v) = refl

lookup-kv_pairs_into :
    (k : Text) (d m : Dict Text Text)
    → NodupKeys d
    → lookup k (kv_pairs_into (map_to_kv_pair d) m) ≡ over (lookup k d) (lookup k m)
unfolding kv_pairs_into map_to_kv_pair lookup
lookup-kv_pairs_into k [] m h = refl
lookup-kv_pairs_into k ((j, v) ∷ d) m (hj, hd) =
    ground
      (arith, lookup-kv_pairs_into k d (insert j v m) hd, lookup-insert k j v m, text_eq_iff j k)

-- KvPairsMap of the pairs that MapToKVPair makes of a map, each key once, has under every key what
-- the map has.
pub kv_pairs_map-map_to_kv_pair :
    (d : Dict Text Text) (k : Text)
    → NodupKeys d
    → lookup k (kv_pairs_map (map_to_kv_pair d)) ≡ lookup k d
unfolding lookup
kv_pairs_map-map_to_kv_pair d k h = lookup-kv_pairs_into k d [] h ∙ over-none (lookup k d)

abbrev Apart : Dict Text Text → Dict Text Text → Type 0
Apart [] m = Unit
Apart ((k, _) ∷ d) m = (lookup k m ≡ none) × Apart d m

insert-new : (k v : Text) (m : Dict Text Text) → lookup k m ≡ none → insert k v m ≡ m ++ (k, v) ∷ []
unfolding insert lookup
insert-new k v [] h = refl
insert-new k v ((j, w) ∷ m) h = ground (arith, insert-new k v m)

lookup-snoc :
    (j k v : Text) (m : Dict Text Text)
    → lookup j m ≡ none
    → text_eq k j ≡ false
    → lookup j (m ++ (k, v) ∷ []) ≡ none
unfolding lookup
lookup-snoc j k v [] h d = ground arith
lookup-snoc j k v ((i, w) ∷ m) h d = ground (arith, lookup-snoc j k v m)

Apart-snoc :
    (k v : Text) (d m : Dict Text Text) → lookup k d ≡ none → Apart d m → Apart d (m ++ (k, v) ∷ [])
unfolding lookup
Apart-snoc k v [] m h a = tt
Apart-snoc k v ((j, w) ∷ d) m h (aj, ad) = (
  lookup-snoc j k v m aj (ground (arith, text_eq_iff j k, text_eq_iff k j)),
  Apart-snoc k v d m (ground arith) ad,
)

kv_pairs_into-append :
    (d m : Dict Text Text) → NodupKeys d → Apart d m → kv_pairs_into (map_to_kv_pair d) m ≡ m ++ d
unfolding kv_pairs_into map_to_kv_pair
kv_pairs_into-append [] m h a = sym (append-nil m)
kv_pairs_into-append ((k, v) ∷ d) m (hk, hd) (ak, ad) =
    ap (kv_pairs_into (map_to_kv_pair d)) (insert-new k v m ak)
    ∙ kv_pairs_into-append d (m ++ (k, v) ∷ []) hd (Apart-snoc k v d m hk ad)
    ∙ append_assoc m ((k, v) ∷ []) d

Apart-empty : (d : Dict Text Text) → Apart d []
unfolding lookup
Apart-empty [] = tt
Apart-empty (p ∷ d) = (refl, Apart-empty d)

-- KvPairsMap of the pairs that MapToKVPair makes of a map with each key once is that map, in the
-- order of its entries.
pub kv_pairs_map-same : (d : Dict Text Text) → NodupKeys d → kv_pairs_map (map_to_kv_pair d) ≡ d
kv_pairs_map-same d h = kv_pairs_into-append d [] h (Apart-empty d)
