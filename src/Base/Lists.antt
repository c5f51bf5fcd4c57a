-- ===== src/Base/Lists.antt =====
-- Lists measured by native numbers, and predicates on their elements.
use Prim.Native.Nat.{ℕ, suc, ◌+◌}
use mathlib.Core.Path.{◌≡◌, refl, ap, sym, ◌∙◌}
use mathlib.Core.List.{List, [], ◌∷◌, ◌++◌, map, append_assoc, map-append}
use mathlib.Core.Bool.{Bool, true, false, ◌&&◌, ◌||◌}
use native.Mathlib.Omega.{arith}
use milvus_backup.Base.Tests.{if◌then◌else◌}

module _ {ℓ} {A : Type ℓ} where
  abbrev pub length : List A → ℕ
  length [] = 0
  length (x ∷ xs) = suc (length xs)

  abbrev pub any : (A → Bool) → List A → Bool
  any p [] = false
  any p (x ∷ xs) = p x || any p xs

  abbrev pub keep : (A → Bool) → List A → List A
  keep p [] = []
  keep p (x ∷ xs) = if p x then x ∷ keep p xs else keep p xs

  pub length-append : (xs ys : List A) → length (xs ++ ys) ≡ length xs + length ys
  length-append [] ys = omega arith
  length-append (x ∷ xs) ys = omega (arith, length-append xs ys)

module _ {ℓ κ} {A : Type ℓ} {B : Type κ} where
  abbrev pub concat_map : (A → List B) → List A → List B
  concat_map f [] = []
  concat_map f (x ∷ xs) = f x ++ concat_map f xs

module _ {ℓ κ} {A : Type ℓ} (P : A → Type κ) where
  abbrev pub All : List A → Type κ
  All [] = Unit
  All (x ∷ xs) = P x × All xs

  pub All-append : (xs ys : List A) → All xs → All ys → All (xs ++ ys)
  All-append [] ys _ hy = hy
  All-append (x ∷ xs) ys (px, hx) hy = (px, All-append xs ys hx hy)

module _ {ℓ κ μ} {A : Type ℓ} {P : A → Type κ} {Q : A → Type μ} where
  pub All-weaken : (xs : List A) → ((x : A) → P x → Q x) → All P xs → All Q xs
  All-weaken [] f h = tt
  All-weaken (x ∷ xs) f (hx, hs) = (f x hx, All-weaken xs f hs)

module _ {ℓ κ μ ν} {A : Type ℓ} {P : A → Type κ} {Q : A → Type μ} {R : A → Type ν} where
  pub All-zip : (xs : List A) → ((x : A) → P x → Q x → R x) → All P xs → All Q xs → All R xs
  All-zip [] f h k = tt
  All-zip (x ∷ xs) f (hx, hs) (kx, ks) = (f x hx kx, All-zip xs f hs ks)

module _ {ℓ κ} {A : Type ℓ} {B : Type κ} where
  -- Pointwise equal on the elements, hence equal on the list.
  pub map-eq_of_All : (f g : A → B) (xs : List A) → All (λ x. f x ≡ g x) xs → map f xs ≡ map g xs
  map-eq_of_All f g [] h = refl
  map-eq_of_All f g (x ∷ xs) (hx, hs) = cc (map-eq_of_All f g xs hs)

  pub map-map {μ} :
      {C : Type μ} (g : B → C) (f : A → B) (xs : List A) → map g (map f xs) ≡ map (λ x. g (f x)) xs
  map-map g f [] = refl
  map-map g f (x ∷ xs) = cc (map-map g f xs)

  pub concat_map-append :
      (f : A → List B) (xs ys : List A)
      → concat_map f (xs ++ ys) ≡ concat_map f xs ++ concat_map f ys
  concat_map-append f [] ys = refl
  concat_map-append f (x ∷ xs) ys = simp (concat_map-append f xs ys, append_assoc)

module _ {ℓ κ μ} {A : Type ℓ} {B : Type κ} {C : Type μ} where
  pub concat_map_assoc :
      (g : B → List C) (f : A → List B) (xs : List A)
      → concat_map g (concat_map f xs) ≡ concat_map (λ x. concat_map g (f x)) xs
  concat_map_assoc g f [] = refl
  concat_map_assoc g f (x ∷ xs) = concat_map-append g (f x) _ ∙ rw (concat_map_assoc g f xs)

  pub map-concat_map :
      (g : B → C) (f : A → List B) (xs : List A)
      → map g (concat_map f xs) ≡ concat_map (λ x. map g (f x)) xs
  map-concat_map g f [] = refl
  map-concat_map g f (x ∷ xs) = map-append g (f x) (concat_map f xs) ∙ rw (map-concat_map g f xs)

module _ {ℓ} {A : Type ℓ} where
  pub map_id : (xs : List A) → map (λ x. x) xs ≡ xs
  map_id [] = refl
  map_id (x ∷ xs) = cc (map_id xs)

  pub keep-append : (p : A → Bool) (xs ys : List A) → keep p (xs ++ ys) ≡ keep p xs ++ keep p ys
  keep-append p [] ys = refl
  keep-append p (x ∷ xs) ys = ground (arith, keep-append p xs ys)

  pub any-append : (p : A → Bool) (xs ys : List A) → any p (xs ++ ys) ≡ any p xs || any p ys
  any-append p [] ys = refl
  any-append p (x ∷ xs) ys = ground (arith, any-append p xs ys)

  pub any-keep : (p q : A → Bool) (xs : List A) → any p (keep q xs) ≡ any (λ x. p x && q x) xs
  any-keep p q [] = refl
  any-keep p q (x ∷ xs) = ground (arith, any-keep p q xs)

  pub keep-eq_of_All : (p : A → Bool) (xs : List A) → All (λ x. p x ≡ true) xs → keep p xs ≡ xs
  keep-eq_of_All p [] h = refl
  keep-eq_of_All p (x ∷ xs) (hx, hs) = ground (arith, keep-eq_of_All p xs hs)

  pub keep-nil_of_All : (p : A → Bool) (xs : List A) → All (λ x. p x ≡ false) xs → keep p xs ≡ []
  keep-nil_of_All p [] h = refl
  keep-nil_of_All p (x ∷ xs) (hx, hs) = ground (arith, keep-nil_of_All p xs hs)

pub length-map {ℓ κ} :
    {A : Type ℓ} {B : Type κ} (f : A → B) (xs : List A) → length (map f xs) ≡ length xs
length-map f [] = refl
length-map f (x ∷ xs) = rw (length-map f xs)

module _ {ℓ} {A : Type ℓ} where
  pub any-ext : {p q : A → Bool} (xs : List A) → ((x : A) → p x ≡ q x) → any p xs ≡ any q xs
  any-ext [] h = refl
  any-ext (x ∷ xs) h = cc (h x, any-ext xs h)

  pub any-concat_map {κ} :
      {B : Type κ} (p : A → Bool) (f : B → List A) (ys : List B)
      → any p (concat_map f ys) ≡ any (λ y. any p (f y)) ys
  any-concat_map p f [] = refl
  any-concat_map p f (y ∷ ys) =
      any-append p (f y) (concat_map f ys) ∙ ap (λ b. any p (f y) || b) (any-concat_map p f ys)

  any-both :
      (p q r : A → Bool) (xs : List A)
      → any (λ x. p x && q x) xs || any (λ x. p x && r x) xs ≡ any (λ x. p x && (q x || r x)) xs
  any-both p q r [] = refl
  any-both p q r (x ∷ xs) = ground (arith, any-both p q r xs)

  any-none : (p : A → Bool) (xs : List A) → any (λ x. p x && false) xs ≡ false
  any-none p [] = refl
  any-none p (x ∷ xs) = ground (arith, any-none p xs)

  -- The order of two searches does not matter.
  pub any-swap {κ} :
      {B : Type κ} (p : A → Bool) (q : B → A → Bool) (ys : List B) (xs : List A)
      → any (λ y. any (λ x. p x && q y x) xs) ys ≡ any (λ x. p x && any (λ y. q y x) ys) xs
  any-swap p q [] xs = sym (any-none p xs)
  any-swap p q (y ∷ ys) xs =
      ap (λ b. any (λ x. p x && q y x) xs || b) (any-swap p q ys xs)
      ∙ any-both p (q y) (λ x. any (λ z. q z x) ys) xs
