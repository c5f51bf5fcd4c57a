-- ===== src/Meta/Progress.antt =====
-- UpdateRestoreBackupTask of core/backup_meta.go.
use milvus_backup.Base.{
  ℕ, ◌+◌, ◌*◌, ◌/◌, ◌^◌, ◌≤◌, ◌<◌, List, [], ◌∷◌, map, ◌≡◌, refl, ◌∙◌, nat_eq, if◌then◌else◌, arith,
  Bool-cases, inl, inr,
}
use milvus_backup.Base.Int64.{Int64, sum64, sum64_from, add64, mul64, div64, to_int32, u64}
use milvus_backup.Proto.{RestoreBackupTask}

abbrev pub restored_sizes : RestoreBackupTask → List Int64
restored_sizes t = map (λ c. c.restored_size) t.collection_restore_tasks

unfoldable pub update_restore_backup_task : RestoreBackupTask → RestoreBackupTask
update_restore_backup_task t =
    let stored_size = sum64 (restored_sizes t) in
    if nat_eq t.to_restore_size 0
    then record t { progress = 100 }
    else record t { progress = to_int32 (div64 (mul64 stored_size 100) t.to_restore_size) }

-- The exact sum.
abbrev pub total : List ℕ → ℕ
total [] = 0
total (x ∷ xs) = x + total xs

add64-eq : (a b : ℕ) → a + b < u64 → add64 a b ≡ a + b
unfolding add64
add64-eq a b h = omega arith

sum64_from-total :
    (acc : ℕ) (xs : List ℕ) → acc + total xs < u64 → sum64_from acc xs ≡ acc + total xs
unfolding sum64_from
sum64_from-total acc [] h = omega arith
sum64_from-total acc (x ∷ xs) h =
    rw (add64-eq acc x (omega arith)) (sum64_from-total (acc + x) xs (omega arith) ∙ omega arith)

mul64-eq : (a b : ℕ) → a * b < u64 → mul64 a b ≡ a * b
unfolding mul64
mul64-eq a b h = grind arith

div64-eq : (a b : ℕ) → a < 2 ^ 63 → b < 2 ^ 63 → div64 a b ≡ a / b
unfolding div64
div64-eq a b ha hb = ground arith

quotient_le : (s t : ℕ) → s ≤ t → 0 < t → s * 100 / t ≤ 100
quotient_le s t h pos = grind arith

to_int32-eq : (n : ℕ) → n < 2 ^ 32 → to_int32 n ≡ n
unfolding to_int32
to_int32-eq n h = omega arith

percentage :
    (s t : ℕ) → s ≤ t → 100 * t < 2 ^ 63 → 0 < t → to_int32 (div64 (mul64 s 100) t) ≡ s * 100 / t
percentage s t h big pos =
    rw (mul64-eq s 100 (omega arith), div64-eq (s * 100) t (omega arith) (omega arith))
      (to_int32-eq (s * 100 / t) (omega (arith, quotient_le s t h pos)))

-- While no more than all of it is restored and a hundred times the bytes to restore fit in int64,
-- the progress is the percentage of the bytes that the collection tasks have restored, rounded
-- down, or 100 with nothing to restore, and it is at most 100.
pub update_restore_backup_task-progress :
    (t : RestoreBackupTask)
    → total (restored_sizes t) ≤ t.to_restore_size
    → 100 * t.to_restore_size < 2 ^ 63
    → ((update_restore_backup_task t).progress ≤ 100)
      × ((update_restore_backup_task t).progress ≡ (
          if nat_eq t.to_restore_size 0
          then 100
          else total (restored_sizes t) * 100 / t.to_restore_size))
unfolding update_restore_backup_task
update_restore_backup_task-progress t h big = elim (Bool-cases (nat_eq t.to_restore_size 0)) [
  | inl nothing ↦ rw nothing (omega arith, refl)
  | inr something ↦
      rw
        (
          something,
          sum64_from-total 0 (restored_sizes t) (omega arith),
          zero_add,
          percentage (total (restored_sizes t)) t.to_restore_size h big (ground arith),
        )
        (quotient_le (total (restored_sizes t)) t.to_restore_size h (ground arith), refl)
]
  where
    zero_add : 0 + total (restored_sizes t) ≡ total (restored_sizes t)
    zero_add = omega arith
