-- ===== src/Base/Text.antt =====
-- Go strings as lists of bytes, and what the program uses of package `strings`.
use Prim.Native.Nat.{ℕ}
use Prim.Native.Char.{code}
use Prim.Native.String.{String}
use mathlib.Core.Path.{◌≡◌, refl}
use mathlib.Core.Logic.{◌↔◌, ◌≢◌, inl, inr}
use mathlib.Core.Bool.{Bool, true, false, ◌&&◌}
use mathlib.Core.Option.{Option, none, some}
use mathlib.Core.List.{List, [], ◌∷◌, ◌++◌}
use native.Mathlib.Omega.{arith}
use milvus_backup.Base.Tests.{Key, ◌==◌, nat_key, nat_eq, nat_eq_iff, Bool-cases, if◌then◌else◌}
use milvus_backup.Base.Lists.{All}

abbrev pub Text : Type 0
Text = List ℕ

-- The bytes of an ASCII literal.
abbrev pub codes : String → Text
codes String.[] = []
codes (String.◌∷◌ c s) = code c ∷ codes s

unfoldable pub text_eq : Text → Text → Bool
text_eq [] [] = true
text_eq (a ∷ s) (b ∷ t) = nat_eq a b && text_eq s t
text_eq _ _ = false

pub text_eq_iff : (s t : Text) → (text_eq s t ≡ true) ↔ (s ≡ t)
unfolding text_eq
text_eq_iff [] [] = ground arith
text_eq_iff [] (b ∷ t) = ground arith
text_eq_iff (a ∷ s) [] = ground arith
text_eq_iff (a ∷ s) (b ∷ t) = ground (arith, nat_eq_iff a b, text_eq_iff s t)

instance abbrev pub text_key : Key Text
text_key = record { same = text_eq; same_iff = text_eq_iff }

pub text_eq_refl : (s : Text) → text_eq s s ≡ true
text_eq_refl s = (text_eq_iff s s).1 refl

-- The rest of a text behind a prefix.
unfoldable pub strip_prefix : Text → Text → Option Text
strip_prefix [] s = some s
strip_prefix (p ∷ ps) [] = none
strip_prefix (p ∷ ps) (c ∷ s) = if p == c then strip_prefix ps s else none

-- strings.HasPrefix(s, prefix)
unfoldable pub has_prefix : Text → Text → Bool
unfolding strip_prefix
has_prefix s prefix = elim (strip_prefix prefix s) [ none ↦ false | some _ ↦ true ]

-- strings.Replace(s, old, new, 1): the first occurrence, from the left.
unfoldable pub replace_once : Text → Text → Text → Text
unfolding strip_prefix
replace_once [] old new = elim old [ [] ↦ new | _ ↦ [] ]
replace_once (c ∷ s) old new =
    let later = replace_once s old new in
    elim (strip_prefix old (c ∷ s)) [ some rest ↦ new ++ rest | none ↦ c ∷ later ]

abbrev pub Lacks : ℕ → Text → Type 0
Lacks b = All (λ c. c ≢ b)

pub strip_prefix-append : (p s : Text) → strip_prefix p (p ++ s) ≡ some s
unfolding strip_prefix
strip_prefix-append [] s = refl
strip_prefix-append (c ∷ p) s = ground (arith, nat_eq_iff c c, strip_prefix-append p s)

pub has_prefix-append : (p s : Text) → has_prefix (p ++ s) p ≡ true
unfolding has_prefix
has_prefix-append p s = ground (arith, strip_prefix-append p s)

-- Conversely, what has the prefix is the prefix and a rest.
pub strip_prefix-inv : (p s : Text) {r : Text} → strip_prefix p s ≡ some r → s ≡ p ++ r
unfolding strip_prefix
strip_prefix-inv [] s h = cc
strip_prefix-inv (c ∷ p) [] h = cc
strip_prefix-inv (c ∷ p) (d ∷ s) {r} h =
    ground (arith, nat_eq_iff c d, strip_prefix-inv p s {r = r})

pub has_prefix_refl : (p : Text) → has_prefix p p ≡ true
unfolding has_prefix strip_prefix
has_prefix_refl [] = refl
has_prefix_refl (c ∷ p) = ground (arith, nat_eq_iff c c, has_prefix_refl p)

pub has_prefix_trans :
    (p q r : Text) → has_prefix r q ≡ true → has_prefix q p ≡ true → has_prefix r p ≡ true
unfolding has_prefix strip_prefix
has_prefix_trans [] q r h k = refl
has_prefix_trans (a ∷ p) [] r h k = ground arith
has_prefix_trans (a ∷ p) (b ∷ q) [] h k = ground arith
has_prefix_trans (a ∷ p) (b ∷ q) (c ∷ r) h k =
    ground (arith, nat_eq_iff a b, nat_eq_iff b c, nat_eq_iff a c, has_prefix_trans p q r)

pub replace_once-prefix :
    (c : ℕ) (p s new : Text) → replace_once ((c ∷ p) ++ s) (c ∷ p) new ≡ new ++ s
unfolding replace_once
replace_once-prefix c p s new = ground (arith, nat_eq_iff c c, strip_prefix-append p s)

-- A single byte that the first part lacks is replaced where it follows.
pub replace_once-Lacks :
    (b : ℕ) (s t new : Text) → Lacks b s → replace_once (s ++ b ∷ t) (b ∷ []) new ≡ s ++ new ++ t
unfolding replace_once
replace_once-Lacks b [] t new h = ground (arith, nat_eq_iff b b)
replace_once-Lacks b (c ∷ s) t new (hc, hs) =
    ground (arith, nat_eq_iff b c, replace_once-Lacks b s t new hs)

-- The text occurs in the other.
unfoldable pub occurs : Text → Text → Bool
unfolding strip_prefix
occurs old [] = false
occurs old (c ∷ s) =
    let later = occurs old s in elim (strip_prefix old (c ∷ s)) [ some _ ↦ true | none ↦ later ]

strip_prefix-across :
    (b : ℕ) (old s t : Text)
    → Lacks b old
    → strip_prefix old s ≡ none
    → strip_prefix old (s ++ b ∷ t) ≡ none
unfolding strip_prefix
strip_prefix-across b [] s t h e = absurd (ground arith)
strip_prefix-across b (o ∷ old) [] t h e = ground (arith, nat_eq_iff o b)
strip_prefix-across b (o ∷ old) (c ∷ s) t (ho, h) e = elim (Bool-cases (nat_eq o c)) [
  | inl same ↦ rw same (strip_prefix-across b old s t h (rw same at e))
  | inr differs ↦ rw differs refl
]

-- A replacement passes over a part in which the text does not occur, up to a byte it lacks.
pub replace_once-across :
    (b o : ℕ) (old s t new : Text)
    → Lacks b (o ∷ old)
    → occurs (o ∷ old) s ≡ false
    → replace_once (s ++ b ∷ t) (o ∷ old) new ≡ s ++ b ∷ replace_once t (o ∷ old) new
unfolding replace_once occurs strip_prefix
replace_once-across b o old [] t new h e =
    ground (arith, strip_prefix-across b (o ∷ old) [] t h refl)
replace_once-across b o old (c ∷ s) t new h e =
    ground
      (arith, strip_prefix-across b (o ∷ old) (c ∷ s) t h, replace_once-across b o old s t new h)

-- Two texts that agree up to a byte which their first parts lack have the same parts.
pub split_unique :
    (b : ℕ) (s s' t t' : Text)
    → Lacks b s
    → Lacks b s'
    → s ++ b ∷ t ≡ s' ++ b ∷ t'
    → (s ≡ s') × (t ≡ t')
split_unique b [] [] t t' h h' e = ground arith
split_unique b [] (c ∷ s') t t' h h' e = absurd (h'.0 (cc))
split_unique b (c ∷ s) [] t t' h h' e = absurd (h.0 (cc))
split_unique b (c ∷ s) (c' ∷ s') t t' h h' e = ground (arith, split_unique b s s' t t' h.1 h'.1)
