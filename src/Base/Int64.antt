-- ===== src/Base/Int64.antt =====
-- Go's int64 and int32 as bit patterns, natural numbers below 2 ^ 64 and 2 ^ 32.
use Prim.Native.Nat.{ℕ, ◌+◌, ◌-◌, ◌*◌, ◌/◌, ◌%◌, ◌^◌, ◌<◌}
use mathlib.Core.Path.{◌≡◌, refl}
use mathlib.Core.Bool.{Bool}
use mathlib.Core.List.{List, [], ◌∷◌, ◌++◌}
use native.Mathlib.Omega.{arith}
use milvus_backup.Base.Tests.{ltb, if◌then◌else◌}

abbrev pub Int64 : Type 0
Int64 = ℕ

abbrev pub u64 : ℕ
u64 = 2 ^ 64

-- The sign bit is set.
abbrev pub is_negative : ℕ → Bool
is_negative w = ltb (2 ^ 63 - 1) w

-- The pattern of -w.
abbrev pub negate : ℕ → ℕ
negate w = (u64 - w) % u64

unfoldable pub add64 : ℕ → ℕ → ℕ
add64 a b = (a + b) % u64

unfoldable pub mul64 : ℕ → ℕ → ℕ
mul64 a b = (a * b) % u64

-- a < b on int64: flip the sign bits and compare.
unfoldable pub lt64 : ℕ → ℕ → Bool
lt64 a b = ltb ((a + 2 ^ 63) % u64) ((b + 2 ^ 63) % u64)

-- a / b on int64 truncates towards zero. Go panics at b = 0; the callers test for it.
unfoldable pub div64 : ℕ → ℕ → ℕ
div64 a b =
    if is_negative a
    then (if is_negative b then (negate a / negate b) % u64 else negate (negate a / b))
    else (if is_negative b then negate (a / negate b) else a / b)

-- int32(w)
unfoldable pub to_int32 : ℕ → ℕ
to_int32 w = w % 2 ^ 32

-- var size int64 = 0; for … { size += x }
unfoldable pub sum64_from : ℕ → List ℕ → ℕ
unfolding add64
sum64_from acc [] = acc
sum64_from acc (x ∷ xs) = sum64_from (add64 acc x) xs

abbrev pub sum64 : List ℕ → ℕ
sum64 xs = sum64_from 0 xs

pub sum64_from-append :
    (acc : ℕ) (xs ys : List ℕ) → sum64_from acc (xs ++ ys) ≡ sum64_from (sum64_from acc xs) ys
unfolding sum64_from
sum64_from-append acc [] ys = refl
sum64_from-append acc (x ∷ xs) ys = sum64_from-append (add64 acc x) xs ys

pub add64-lt : (a b : ℕ) → add64 a b < u64
unfolding add64
add64-lt a b = omega arith
