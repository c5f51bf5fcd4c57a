-- ===== src/Utils/Space.antt =====
-- strings.TrimSpace, on bytes: the UTF-8 encodings of what unicode.IsSpace accepts go, at both ends.
use milvus_backup.Base.{
  ℕ, zero, suc, List, [], ◌∷◌, map, Option, none, some, length, ◌≡◌, ◌≢◌, refl, All, All-append,
  arith, inl, inr, Option-cases,
}
use milvus_backup.Base.Text.{Text, Lacks, strip_prefix, strip_prefix-inv}
use mathlib.Core.List.{reverse, reverse-reverse, reverse-cons}

-- Tab, newline, vertical tab, form feed, return, space, U+0085, U+00A0, U+1680, U+2000 to U+200A,
-- U+2028, U+2029, U+202F, U+205F and U+3000.
abbrev pub spaces : List Text
spaces =
    (0x09 ∷ [])
    ∷ (0x0A ∷ [])
    ∷ (0x0B ∷ [])
    ∷ (0x0C ∷ [])
    ∷ (0x0D ∷ [])
    ∷ (0x20 ∷ [])
    ∷ (0xC2 ∷ 0x85 ∷ [])
    ∷ (0xC2 ∷ 0xA0 ∷ [])
    ∷ (0xE1 ∷ 0x9A ∷ 0x80 ∷ [])
    ∷ (0xE2 ∷ 0x80 ∷ 0x80 ∷ [])
    ∷ (0xE2 ∷ 0x80 ∷ 0x81 ∷ [])
    ∷ (0xE2 ∷ 0x80 ∷ 0x82 ∷ [])
    ∷ (0xE2 ∷ 0x80 ∷ 0x83 ∷ [])
    ∷ (0xE2 ∷ 0x80 ∷ 0x84 ∷ [])
    ∷ (0xE2 ∷ 0x80 ∷ 0x85 ∷ [])
    ∷ (0xE2 ∷ 0x80 ∷ 0x86 ∷ [])
    ∷ (0xE2 ∷ 0x80 ∷ 0x87 ∷ [])
    ∷ (0xE2 ∷ 0x80 ∷ 0x88 ∷ [])
    ∷ (0xE2 ∷ 0x80 ∷ 0x89 ∷ [])
    ∷ (0xE2 ∷ 0x80 ∷ 0x8A ∷ [])
    ∷ (0xE2 ∷ 0x80 ∷ 0xA8 ∷ [])
    ∷ (0xE2 ∷ 0x80 ∷ 0xA9 ∷ [])
    ∷ (0xE2 ∷ 0x80 ∷ 0xAF ∷ [])
    ∷ (0xE2 ∷ 0x81 ∷ 0x9F ∷ [])
    ∷ (0xE3 ∷ 0x80 ∷ 0x80 ∷ [])
    ∷ []

unfoldable pub strip_any : List Text → Text → Option Text
unfolding strip_prefix
strip_any [] s = none
strip_any (p ∷ ps) s =
    let later = strip_any ps s in elim (strip_prefix p s) [ some r ↦ some r | none ↦ later ]

-- Takes leading members of the set off, at most as many as the fuel says.
unfoldable pub trim_left : List Text → ℕ → Text → Text
unfolding strip_any
trim_left ps zero s = s
trim_left ps (suc f) s = elim (strip_any ps s) [ none ↦ s | some r ↦ trim_left ps f r ]

-- At the right end the encodings are met backwards.
unfoldable pub trim_space : Text → Text
unfolding trim_left
trim_space s =
    let t = trim_left spaces (length s) s in
    reverse (trim_left (map reverse spaces) (length t) (reverse t))

strip_any-Lacks :
    (b : ℕ) (ps : List Text) (s : Text) {r : Text}
    → All (Lacks b) ps
    → strip_any ps s ≡ some r
    → Lacks b r
    → Lacks b s
unfolding strip_any
strip_any-Lacks b [] s h e l = cc
strip_any-Lacks b (p ∷ ps) s {r} (hp, hs) e l = elim (Option-cases (strip_prefix p s)) [
  | inl missing ↦ strip_any-Lacks b ps s {r = r} hs (ground (arith, missing)) l
  | inr (q, found) ↦
      rw (strip_prefix-inv p s found) (All-append (λ c. c ≢ b) p q hp (rw (some-eq found) l))
]
  where
    some-eq : {q : Text} → strip_prefix p s ≡ some q → q ≡ r
    some-eq found = ground arith

trim_left-Lacks :
    (b : ℕ) (ps : List Text) (f : ℕ) (s : Text)
    → All (Lacks b) ps
    → Lacks b (trim_left ps f s)
    → Lacks b s
unfolding trim_left
trim_left-Lacks b ps zero s h l = l
trim_left-Lacks b ps (suc f) s h l = elim (Option-cases (strip_any ps s)) [
  | inl stuck ↦ rw (stuck, trim_left) at l
  | inr (r, more) ↦
      strip_any-Lacks b ps s {r = r} h more (trim_left-Lacks b ps f r h (rw (more, trim_left) at l))
]

All-reverse {ℓ κ} : {A : Type ℓ} (P : A → Type κ) (xs : List A) → All P xs → All P (reverse xs)
All-reverse P [] h = tt
All-reverse P (x ∷ xs) (hx, hs) =
    rw (reverse-cons x xs) (All-append P (reverse xs) (x ∷ []) (All-reverse P xs hs) (hx, tt))

unreversed : (b : ℕ) (s : Text) → Lacks b (reverse s) → Lacks b s
unreversed b s h = rw (← reverse-reverse s) (All-reverse (λ c. c ≢ b) (reverse s) h)

-- The ends that are trimmed hold spaces only, so no slash.
pub trim_space-Lacks : (s : Text) → Lacks b'/' (trim_space s) → Lacks b'/' s
unfolding trim_space
trim_space-Lacks s h = trim_left-Lacks b'/' spaces (length s) s (omega arith) (
    unreversed b'/' (left s) (
      trim_left-Lacks b'/' (map reverse spaces) (length (left s)) (reverse (left s)) (omega arith)
        (unreversed b'/' (trim_left (map reverse spaces) (length (left s)) (reverse (left s))) h)))
  where
    left : Text → Text
    left s = trim_left spaces (length s) s

trim_left_id : (ps : List Text) (f : ℕ) (s : Text) → strip_any ps s ≡ none → trim_left ps f s ≡ s
unfolding trim_left
trim_left_id ps zero s h = refl
trim_left_id ps (suc f) s h = ground arith

-- A text that neither begins nor ends with a space, in the encodings above, is left alone.
pub trim_space_id :
    (s : Text)
    → strip_any spaces s ≡ none
    → strip_any (map reverse spaces) (reverse s) ≡ none
    → trim_space s ≡ s
unfolding trim_space
trim_space_id s h k =
    rw
      (
        trim_left_id spaces (length s) s h,
        trim_left_id (map reverse spaces) (length s) (reverse s) k,
      )
      (reverse-reverse s)
