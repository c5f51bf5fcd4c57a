-- ===== src/Base/Group.antt =====
-- Grouping a slice by a key, `d[key(x)] = append(d[key(x)], x)`, and taking the groups out again.
use milvus_backup.Base.Tests.{Key, ◌==◌, Bool-cases}
use milvus_backup.Base.Lists.{
  All, keep, concat_map, keep-append, keep-eq_of_All, keep-nil_of_All, All-weaken, All-zip,
}
use milvus_backup.Base.Dict.{Dict, lookup, insert, or_nil, lookup-insert}
use mathlib.Core.Path.{◌≡◌, refl, sym, ◌∙◌}
use mathlib.Core.Logic.{◌≢◌, inl, inr}
use mathlib.Core.Bool.{false}
use mathlib.Core.List.{List, [], ◌∷◌, ◌++◌, append-nil, append_assoc}
use native.Mathlib.Omega.{arith}

module _ {ℓ κ} {K : Type ℓ} {A : Type κ} ⦃e : Key K⦄ (key : A → K) where
  unfoldable pub group_into : List A → Dict K (List A) → Dict K (List A)
  group_into [] d = d
  group_into (x ∷ xs) d = group_into xs (insert (key x) (or_nil (lookup (key x) d) ++ x ∷ []) d)

  -- The group of a key holds, in their order, the items that have the key.
  pub lookup-group_into :
      (k : K) (xs : List A) (d : Dict K (List A))
      → or_nil (lookup k (group_into xs d)) ≡ or_nil (lookup k d) ++ keep (λ x. key x == k) xs
  unfolding group_into
  lookup-group_into k [] d = sym (append-nil _)
  lookup-group_into k (x ∷ xs) d =
      lookup-group_into k xs (insert (key x) (or_nil (lookup (key x) d) ++ x ∷ []) d)
      ∙ rw lookup-insert (elim (Bool-cases (key x == k)) [
        | inl same ↦
            rw (same, (e.same_iff (key x) k).0 same)
              (append_assoc (or_nil (lookup k d)) (x ∷ []) (keep (λ y. key y == k) xs))
        | inr other ↦ rw other
      ])

module _ {ℓ κ} {K : Type ℓ} {A : Type κ} (key : A → K) where
  -- No two items have one key.
  abbrev pub Distinct : List A → Type (ℓ ⊔ κ)
  Distinct [] = Unit
  Distinct (x ∷ xs) = All (λ y. key x ≢ key y) xs × Distinct xs

module _ {ℓ κ μ} {K : Type ℓ} {P : Type κ} {C : Type μ} ⦃e : Key K⦄ where
  module _ (key : P → K) (owner : C → K) (children : P → List C) where
    abbrev pub Owned : List P → Type ℓ
    Owned = All (λ p. All (λ c. owner c ≡ key p) (children p))

    same-ne : (k j : K) → k ≢ j → (j == k) ≡ false
    same-ne k j h = ground (arith, e.same_iff j k)

    none-of-other :
        (k j : K) (cs : List C)
        → k ≢ j
        → All (λ c. owner c ≡ j) cs
        → keep (λ c. owner c == k) cs ≡ []
    none-of-other k j cs h o =
        keep-nil_of_All (λ c. owner c == k) cs (All-weaken cs (λ c eq. rw eq (same-ne k j h)) o)

    others-none :
        (k : K) (ps : List P)
        → All (λ q. k ≢ key q) ps
        → Owned ps
        → keep (λ c. owner c == k) (concat_map children ps) ≡ []
    others-none k [] h o = refl
    others-none k (p ∷ ps) (hp, hs) (op, os) =
        keep-append (λ c. owner c == k) (children p) (concat_map children ps)
        ∙ rw (none-of-other k (key p) (children p) hp op, others-none k ps hs os)

    own-kept : (k : K) (cs : List C) → All (λ c. owner c ≡ k) cs → keep (λ c. owner c == k) cs ≡ cs
    own-kept k cs h =
        keep-eq_of_All (λ c. owner c == k) cs
          (All-weaken cs (λ c eq. (e.same_iff (owner c) k).1 eq) h)

    -- What is filed under a parent's key, out of all parents' children, are its own children.
    pub keep-concat_map :
        (ps : List P)
        → Distinct key ps
        → Owned ps
        → All (λ p. keep (λ c. owner c == key p) (concat_map children ps) ≡ children p) ps
    keep-concat_map [] d o = tt
    keep-concat_map (p ∷ ps) (dp, ds) (op, os) = (
      keep-append (λ c. owner c == key p) (children p) (concat_map children ps)
          ∙ rw (own-kept (key p) (children p) op, others-none (key p) ps dp os)
              (append-nil (children p)),
      All-zip ps
          (λ q ne eq.
            keep-append (λ c. owner c == key q) (children p) (concat_map children ps)
            ∙ rw (none-of-other (key q) (key p) (children p) (λ x. ne (sym x)) op) eq)
          dp (keep-concat_map ps ds os),
    )
