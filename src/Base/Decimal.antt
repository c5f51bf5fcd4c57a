-- ===== src/Base/Decimal.antt =====
-- Decimal printing, as `%d`, `%v` and `strconv.FormatInt` do it.
use Prim.Native.Nat.{ℕ, zero, suc, ◌+◌, ◌-◌, ◌*◌, ◌/◌, ◌%◌, ◌^◌, ◌<◌}
use mathlib.Core.Path.{◌≡◌, refl, sym, ap, ◌∙◌}
use mathlib.Core.Logic.{◌≢◌, inl, inr}
use mathlib.Core.Bool.{false}
use mathlib.Core.List.{[], ◌∷◌, ◌++◌, append_assoc}
use native.Mathlib.Omega.{arith}
use native.Mathlib.Nat.{pow-suc}
use milvus_backup.Base.Tests.{ltb, if◌then◌else◌, Bool-cases}
use milvus_backup.Base.Lists.{All-append}
use milvus_backup.Base.Text.{Text, Lacks, codes, split_unique}
use milvus_backup.Base.Int64.{is_negative, negate, u64}

abbrev pub dash : ℕ
dash = b'-'

-- The digits of `n`, at most as many as the first argument says.
unfoldable pub digits : ℕ → ℕ → Text
digits zero n = []
digits (suc f) n =
    let high = digits f (n / 10) in
    if ltb n 10 then (b'0' + n) ∷ [] else high ++ (b'0' + n % 10) ∷ []

-- Twenty digits are enough below 2 ^ 64.
unfoldable pub print_uint64 : ℕ → Text
unfolding digits
print_uint64 w = digits 20 w

unfoldable pub print_int64 : ℕ → Text
unfolding print_uint64
print_int64 w = if is_negative w then dash ∷ print_uint64 (negate w) else print_uint64 w

-- The number that digits stand for, behind those already read.
value : ℕ → Text → ℕ
value acc [] = acc
value acc (c ∷ s) = value (acc * 10 + (c - b'0')) s

value-append : (acc : ℕ) (s t : Text) → value acc (s ++ t) ≡ value (value acc s) t
unfolding value
value-append acc [] t = refl
value-append acc (c ∷ s) t = value-append (acc * 10 + (c - b'0')) s t

value-digits : (f n : ℕ) → n < 10 ^ f → value 0 (digits f n) ≡ n
unfolding digits value
value-digits zero n h = omega arith
value-digits (suc f) n h = elim (Bool-cases (ltb n 10)) [
  | inl small ↦ rw small (omega arith)
  | inr large ↦
      rw (large, value-append 0 (digits f (n / 10)) ((b'0' + n % 10) ∷ []))
        (omega (arith, value-digits f (n / 10) (omega (arith, pow-suc 10 f))))
]

digits-Lacks : (b f n : ℕ) → b < b'0' → Lacks b (digits f n)
unfolding digits
digits-Lacks b zero n h = tt
digits-Lacks b (suc f) n h = elim (Bool-cases (ltb n 10)) [
  | inl small ↦ rw small (λ e. omega arith, tt)
  | inr large ↦ rw large (
      All-append (λ c. c ≢ b) (digits f (n / 10)) ((b'0' + n % 10) ∷ [])
        (digits-Lacks b f (n / 10) h) (λ e. omega arith, tt))
]

-- A printed number holds no byte below the digits but the dash.
pub print_int64-Lacks : (b w : ℕ) → b < b'0' → b ≢ dash → Lacks b (print_int64 w)
unfolding print_int64 print_uint64
print_int64-Lacks b w h ne = elim (Bool-cases (is_negative w)) [
  | inl neg ↦ rw neg (λ e. ne (sym e), digits-Lacks b 20 (negate w) h)
  | inr pos ↦ rw pos (digits-Lacks b 20 w h)
]

digits-cons : (f n : ℕ) → (c : ℕ) × (s : Text) × (digits (suc f) n ≡ c ∷ s)
unfolding digits
digits-cons zero n = elim (Bool-cases (ltb n 10)) [
  | inl small ↦ (b'0' + n, [], rw small refl)
  | inr large ↦ (b'0' + n % 10, [], rw large refl)
]
digits-cons (suc f) n = elim (Bool-cases (ltb n 10)) [
  | inl small ↦ (b'0' + n, [], rw small refl)
  | inr large ↦
      let (c, s, e) = digits-cons f (n / 10) in
      (c, s ++ (b'0' + n % 10) ∷ [], rw large (ap (λ (x : Text). x ++ (b'0' + n % 10) ∷ []) e))
]

pub print_int64-cons : (w : ℕ) → (c : ℕ) × (s : Text) × (print_int64 w ≡ c ∷ s)
unfolding print_int64 print_uint64
print_int64-cons w = elim (Bool-cases (is_negative w)) [
  | inl neg ↦ (dash, print_uint64 (negate w), rw neg refl)
  | inr pos ↦ let (c, s, e) = digits-cons 19 w in (c, s, rw pos e)
]

-- Printed numbers have a first byte, and it is no dash.
digits-head : (f n : ℕ) (t s : Text) → digits (suc f) n ++ t ≢ dash ∷ s
unfolding digits
digits-head zero n t s e = ground arith
digits-head (suc f) n t s e = elim (Bool-cases (ltb n 10)) [
  | inl small ↦ ground arith
  | inr large ↦ digits-head f (n / 10) ((b'0' + n % 10) ∷ t) s (
      sym (append_assoc (digits (suc f) (n / 10)) ((b'0' + n % 10) ∷ []) t)
      ∙ ap (λ (x : Text). x ++ t) (sym (digits-large (suc f) n large))
      ∙ e)
]
  where
    digits-large :
        (g m : ℕ) → ltb m 10 ≡ false → digits (suc g) m ≡ digits g (m / 10) ++ (b'0' + m % 10) ∷ []
    digits-large g m h = rw h

print_uint64-inj : (a b : ℕ) → a < 10 ^ 20 → b < 10 ^ 20 → print_uint64 a ≡ print_uint64 b → a ≡ b
unfolding print_uint64
print_uint64-inj a b ha hb e = sym (value-digits 20 a ha) ∙ ap (value 0) e ∙ value-digits 20 b hb

print_uint64-dash :
    (a b : ℕ) (s t : Text)
    → a < u64
    → b < u64
    → print_uint64 a ++ dash ∷ s ≡ print_uint64 b ++ dash ∷ t
    → (a ≡ b) × (s ≡ t)
unfolding print_uint64
print_uint64-dash a b s t ha hb e =
    let parts =
      split_unique dash (digits 20 a) (digits 20 b) s t (digits-Lacks dash 20 a (omega arith))
        (digits-Lacks dash 20 b (omega arith)) e in
    (print_uint64-inj a b (omega arith) (omega arith) parts.0, parts.1)

print_uint64-head : (a : ℕ) (t s : Text) → print_uint64 a ++ t ≢ dash ∷ s
unfolding print_uint64
print_uint64-head a t s = digits-head 19 a t s

-- A printed number and a dash: what stands before the dash, and what follows it, are determined.
pub print_int64-dash :
    (a b : ℕ) (s t : Text)
    → a < u64
    → b < u64
    → print_int64 a ++ dash ∷ s ≡ print_int64 b ++ dash ∷ t
    → (a ≡ b) × (s ≡ t)
unfolding print_int64
print_int64-dash a b s t ha hb e = elim (Bool-cases (is_negative a)) [
  | inl neg ↦ elim (Bool-cases (is_negative b)) [
    | inl neg' ↦
        let parts =
          print_uint64-dash (negate a) (negate b) s t (omega arith) (omega arith)
            (cc (rw (neg, neg') at e)) in
        (negate-inj a b ha hb parts.0, parts.1)
    | inr pos' ↦ absurd (
        print_uint64-head b (dash ∷ t) (print_uint64 (negate a) ++ dash ∷ s)
          (sym (rw (neg, pos') at e)))
  ]
  | inr pos ↦ elim (Bool-cases (is_negative b)) [
    | inl neg' ↦
        absurd (
          print_uint64-head a (dash ∷ s) (print_uint64 (negate b) ++ dash ∷ t)
            (rw (pos, neg') at e))
    | inr pos' ↦ print_uint64-dash a b s t ha hb (rw (pos, pos') at e)
  ]
]
  where
    negate-inj : (a b : ℕ) → a < u64 → b < u64 → negate a ≡ negate b → a ≡ b
    negate-inj a b ha hb e = omega arith

pub print_int64-inj : (a b : ℕ) → a < u64 → b < u64 → print_int64 a ≡ print_int64 b → a ≡ b
print_int64-inj a b ha hb e =
    (print_int64-dash a b [] [] ha hb (ap (λ (x : Text). x ++ dash ∷ []) e)).0

print_int64-tests :
    (print_int64 0 ≡ codes "0")
    × (print_int64 (2 ^ 63 - 1) ≡ codes "9223372036854775807")
    × (print_int64 (2 ^ 64 - 15) ≡ codes "-15")
unfolding print_int64
print_int64-tests = (refl, refl, refl)
