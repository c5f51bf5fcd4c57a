-- ===== src/Tests/Store.antt =====
-- A storage of one bucket in memory, and that it is lawful.
use milvus_backup.Base.{
  Bool, true, false, not, [], ◌∷◌, map, keep, Option, none, some, ◌≡◌, refl, ap, Result, ok, err,
  if◌then◌else◌, arith,
}
use milvus_backup.Base.Text.{Text, codes, has_prefix, text_key, text_eq, text_eq_iff, text_eq_refl}
use milvus_backup.Base.Dict.{Dict, lookup, insert, delete, lookup-insert}
use milvus_backup.Base.Int64.{Int64}
use milvus_backup.Storage.{ChunkManager, IsLawful}

abbrev missing_msg : Text
missing_msg = codes "The specified key does not exist."

abbrev found : {A : Type 0} → Option A → Bool
found none = false
found (some _) = true

abbrev content : Option Text → Result Text Text
content none = err missing_msg
content (some c) = ok c

abbrev entry_of : Text × Text → Text × Int64
entry_of (p, _) = (p, 1)

abbrev under : Text → Text × Text → Bool
under prefix (p, _) = has_prefix p prefix

abbrev pub memory : ChunkManager
memory = record {
  Store = Dict Text Text;
  path = λ s b p. content (lookup p s);
  size = λ s b p. ok 1;
  exist = λ s b p. ok (found (lookup p s));
  read = λ s b p. content (lookup p s);
  list_with_prefix = λ s b p r. ok (map entry_of (keep (under p) s));
  write = λ s b p c. (none, insert p c s);
  remove = λ s b p. (none, delete p s);
  remove_with_prefix = λ s b p. (none, keep (λ e. not (under p e)) s);
  copy = λ s b b' p q. elim (lookup p s) [
    | none ↦ (some missing_msg, s)
    | some c ↦ (none, insert q c s)
  ];
}

store_of :
    (s t : Dict Text Text) → ◌≡◌ {A = Option Text × Dict Text Text} (none, s) (none, t) → s ≡ t
store_of s t h = ap (λ (r : Option Text × Dict Text Text). r.1) h

written :
    (s t : Dict Text Text) (p c q : Text)
    → ◌≡◌ {A = Option Text × Dict Text Text} (none, insert p c s) (none, t)
    → lookup q t ≡ (if text_eq p q then some c else lookup q s)
written s t p c q h = rw (← store_of (insert p c s) t h) (lookup-insert q p c s)

removed :
    (p q : Text) (s : Dict Text Text)
    → has_prefix q p ≡ true
    → lookup q (keep (λ e. not (under p e)) s) ≡ none
unfolding lookup
removed p q [] h = refl
removed p q ((k, c) ∷ s) h = ground (arith, removed p q s, text_eq_iff k q)

pub memory-IsLawful : IsLawful memory
memory-IsLawful = record {
  read-write = λ s t b p c h. ground (arith, written s t p c p h, text_eq_refl p);
  read-write_ne = λ s t b p c q d h ne r. ground (arith, written s t p c q h, text_eq_iff p q);
  exist-write = λ s t b p c h. ground (arith, written s t p c p h, text_eq_refl p);
  exist-write_ne = λ s t b p c q h e. ground (arith, written s t p c q h);
  exist-remove_with_prefix =
      λ s t b p q h e. rw (← store_of (keep (λ e. not (under p e)) s) t h, removed p q s e) refl;
}
