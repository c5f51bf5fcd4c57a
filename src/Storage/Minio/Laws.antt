-- ===== src/Storage/Minio/Laws.antt =====
-- The manager keeps the laws of the interface, if the library keeps objects by key.
use milvus_backup.Base.{
  ℕ, zero, suc, Bool, true, false, List, [], ◌∷◌, map, Option, none, some, ◌≡◌, ◌≢◌, refl, ◌∙◌, ap,
  sym, ok, err, if◌then◌else◌, arith, any, Bool-cases, Option-cases, inl, inr, ok-inj, none-ne_some,
}
use milvus_backup.Base.Text.{
  Text, text_eq, text_eq_iff, text_eq_refl, has_prefix, has_prefix_refl, has_prefix_trans,
}
use milvus_backup.Base.Int64.{Int64}
use milvus_backup.Storage.{IsLawful}
use milvus_backup.Storage.Minio.{
  ObjectClient, Reader, all_objects, read_all, list_with_prefix, exist, read, write, wrapped,
  first_of, remove_keys, removed_objects, remove_with_prefix, minio_chunk_manager,
}

abbrev pub keys_of : List (Text × Int64) → List Text
keys_of = map (λ (o : Text × Int64). o.0)

-- The objects of a bucket by their keys. A listing does not fail; it is empty exactly if no key has
-- the prefix, and a recursive one has every key that has it. What is there can be read.
pub record IsObjectStore (client : ObjectClient) : Type 0 where
  pub content : client.State → Text → Text → Option Text
  pub entries : client.State → Text → Text → Bool → List (Text × Int64)
  pub list_objects-ok :
      (s : client.State) (b p : Text) (r : Bool)
      → client.list_objects s b p r ≡ map ok (entries s b p r)
  pub entries-key :
      (s : client.State) (b p : Text)
      → entries s b p false ≢ []
      → (q : Text) × (c : Text) × (content s b q ≡ some c) × (has_prefix q p ≡ true)
  pub entries-some :
      (s : client.State) (b p q c : Text)
      → content s b q ≡ some c
      → has_prefix q p ≡ true
      → entries s b p false ≢ []
  pub entries-all :
      (s : client.State) (b p q c : Text)
      → content s b q ≡ some c
      → has_prefix q p ≡ true
      → any (λ k. text_eq k q) (keys_of (entries s b p true)) ≡ true
  pub entries-below :
      (s : client.State) (b p q : Text)
      → any (λ k. text_eq k q) (keys_of (entries s b p true)) ≡ true
      → has_prefix q p ≡ true
  pub put_object-content :
      (s t : client.State) (b p c q : Text)
      → client.put_object s b p c ≡ (none, t)
      → content t b q ≡ (if text_eq p q then some c else content s b q)
  pub remove_object-content :
      (s t : client.State) (b p q : Text)
      → client.remove_object s b p ≡ (none, t)
      → content t b q ≡ (if text_eq p q then none else content s b q)
  pub stat_object-ok :
      (s : client.State) (b p c : Text)
      → content s b p ≡ some c
      → (n : Int64) × (client.stat_object s b p ≡ ok n)
  pub get_object-ok :
      (s : client.State) (b p c : Text)
      → content s b p ≡ some c
      → (r : Reader) × (client.get_object s b p none ≡ ok r) × (read_all r ≡ ok c)
  pub stat_object-none :
      (s : client.State) (b p : Text)
      → content s b p ≡ none
      → (e : Text) × (client.stat_object s b p ≡ err e)

all_objects-ok : (es : List (Text × Int64)) → all_objects (map ok es) ≡ ok es
unfolding all_objects
all_objects-ok [] = refl
all_objects-ok (e ∷ es) = rw (all_objects-ok es) refl

module _ (client : ObjectClient) (store : IsObjectStore client) where
  listing :
      (s : client.State) (b p : Text) (r : Bool)
      → all_objects (client.list_objects s b p r) ≡ ok (store.entries s b p r)
  listing s b p r =
      ap all_objects (store.list_objects-ok s b p r) ∙ all_objects-ok (store.entries s b p r)

  -- A key with the prefix is found, and what is found is such a key.
  pub exist-key :
      (s : client.State) (b p q c : Text)
      → store.content s b q ≡ some c
      → has_prefix q p ≡ true
      → exist client s b p ≡ ok true
  unfolding exist list_with_prefix
  exist-key s b p q c there below =
      ground (arith, listing s b p false, store.entries-some s b p q c there below)

  exist-inv :
      (s : client.State) (b p : Text)
      → exist client s b p ≡ ok true
      → (q : Text) × (c : Text) × (store.content s b q ≡ some c) × (has_prefix q p ≡ true)
  unfolding exist list_with_prefix
  exist-inv s b p h = store.entries-key s b p (λ nothing. ground (arith, listing s b p false))

  exist-none :
      (s : client.State) (b p : Text)
      → ((q : Text) → has_prefix q p ≡ true → store.content s b q ≡ none)
      → exist client s b p ≡ ok false
  unfolding exist list_with_prefix
  exist-none s b p gone = split (store.entries s b p false) refl
    where
      split :
          (es : List (Text × Int64))
          → store.entries s b p false ≡ es
          → exist client s b p ≡ ok false
      split [] e = ground (arith, listing s b p false)
      split (x ∷ es) e =
          let (q, c, there, below) =
            store.entries-key s b p (λ nothing. cons-ne_nil (sym e ∙ nothing)) in
          absurd (none-ne_some (sym (gone q below) ∙ there))
        where
          cons-ne_nil : ◌≢◌ {A = List (Text × Int64)} (x ∷ es) []
          cons-ne_nil h = cc

  read-content :
      (s : client.State) (b p c : Text) → store.content s b p ≡ some c → read client s b p ≡ ok c
  unfolding read wrapped
  read-content s b p c there =
      let (n, stat) = store.stat_object-ok s b p c there in
      let (r, got, all) = store.get_object-ok s b p c there in rw (stat, got, all) refl

  content-read :
      (s : client.State) (b p c : Text) → read client s b p ≡ ok c → store.content s b p ≡ some c
  unfolding read wrapped
  content-read s b p c h = elim (Option-cases (store.content s b p)) [
    | inl nothing ↦ let (e, stat) = store.stat_object-none s b p nothing in absurd (ground arith)
    | inr (d, there) ↦ there ∙ ap some (ok-inj (sym (read-content s b p d there) ∙ h))
  ]

  one_more :
      (s s' t : client.State) (b k : Text) (keys : List Text) (q : Text)
      → client.remove_object s b k ≡ (none, s')
      → store.content t b q ≡ (if any (λ j. text_eq j q) keys then none else store.content s' b q)
      → store.content t b q
        ≡ (if any (λ j. text_eq j q) (k ∷ keys) then none else store.content s b q)
  one_more s s' t b k keys q h e = ground (arith, store.remove_object-content s s' b k q h)

  none_first :
      (first next : Option Text)
      → first_of client first next ≡ none
      → (first ≡ none) × (next ≡ none)
  none_first none next h = (refl, h)
  none_first (some e) next h = absurd (none-ne_some (sym h))

  -- Behind a removal without an error the keys are gone, and nothing has come.
  remove_keys-gone :
      (room : ℕ) (failure : Option Text) (s t : client.State) (b : Text) (keys : List Text)
      → remove_keys client room failure s b keys ≡ (none, t)
      → (failure ≡ none)
        × ((q : Text)
            → store.content t b q
              ≡ (if any (λ k. text_eq k q) keys then none else store.content s b q))
  unfolding remove_keys
  remove_keys-gone room failure s t b [] h =
      (ap (λ r. r.0) h, λ q. ap (λ (r : Option Text × client.State). store.content r.1 b q) (sym h))
  remove_keys-gone zero (some e) s t b (k ∷ keys) h = absurd (none-ne_some (sym (ap (λ r. r.0) h)))
  remove_keys-gone zero none s t b (k ∷ keys) h =
      let (failed, s') = client.remove_object s b k in
      let (fine, rest) = remove_keys-gone 9 failed s' t b keys h in
      (refl, λ q. one_more s s' t b k keys q (λ i. (fine i, s')) (rest q))
  remove_keys-gone (suc room) failure s t b (k ∷ keys) h =
      let (failed, s') = client.remove_object s b k in
      let (fine, rest) = remove_keys-gone room (first_of client failure failed) s' t b keys h in
      let (both, also) = none_first failure failed fine in
      (both, λ q. one_more s s' t b k keys q (λ i. (also i, s')) (rest q))

  -- RemoveWithPrefix without an error: exactly the keys with the prefix are gone.
  pub remove_with_prefix-content :
      (s t : client.State) (b p : Text)
      → remove_with_prefix client s b p ≡ (none, t)
      → (q : Text) → store.content t b q ≡ (if has_prefix q p then none else store.content s b q)
  unfolding remove_with_prefix removed_objects
  remove_with_prefix-content s t b p h q =
      let (_, gone) =
        remove_keys-gone 10 none s t b (keys_of (store.entries s b p true))
          (ap (removed_objects client s b) (sym (listing s b p true)) ∙ h) in
      elim (Option-cases (store.content s b q)) [
        | inl nothing ↦ ground (arith, gone q)
        | inr (c, there) ↦
            ground (arith, gone q, store.entries-all s b p q c there, store.entries-below s b p q)
      ]

  still_there :
      (s t : client.State) (b p c q : Text)
      → client.put_object s b p c ≡ (none, t)
      → exist client s b q ≡ ok true
      → exist client t b q ≡ ok true
  still_there s t b p c q h e =
      let (k, d, there, below) = exist-inv s b q e in
      elim (Bool-cases (text_eq p k)) [
        | inl same ↦
            exist-key t b q k c (store.put_object-content s t b p c k h ∙ rw same refl) below
        | inr other ↦
            exist-key t b q k d (store.put_object-content s t b p c k h ∙ rw other there) below
      ]

  -- The MinIO manager is a lawful storage: what is written is read back and found, other files
  -- stay, and nothing is found below a prefix that has been removed, if the library keeps objects
  -- by key, its listings do not fail, and what is there can be read.
  pub minio-IsLawful : IsLawful (minio_chunk_manager client)
  unfolding write
  minio-IsLawful = record {
    read-write = λ s t b p c h.
        read-content t b p c (store.put_object-content s t b p c p h ∙ rw (text_eq_refl p) refl);
    read-write_ne = λ s t b p c q d h ne r. read-content t b q d (
        ground
          (arith, store.put_object-content s t b p c q h, text_eq_iff p q, content-read s b q d r));
    exist-write = λ s t b p c h.
        exist-key t b p p c (store.put_object-content s t b p c p h ∙ rw (text_eq_refl p) refl)
          (has_prefix_refl p);
    exist-write_ne = λ s t b p c q h e. still_there s t b p c q h e;
    exist-remove_with_prefix = λ s t b p q h below. exist-none t b q (λ r under.
        remove_with_prefix-content s t b p h r ∙ rw (has_prefix_trans p q r under below) refl);
  }
