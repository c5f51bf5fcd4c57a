-- ===== src/Retry/Do.antt =====
-- internal/util/retry/retry.go, and errorutil.ErrorList as a list.
use milvus_backup.Base.{ℕ, zero, suc, Bool, List, [], ◌∷◌, ◌++◌, Option, none, some, if◌then◌else◌}
use milvus_backup.Base.Int64.{Int64, mul64, lt64}
use milvus_backup.Retry.Config.{Config, RetryOption, new_default_config, configure}

-- `c.sleep *= 2`, then the bound.
unfoldable pub next_sleep : Config → Config
next_sleep c =
    let doubled = mul64 c.sleep 2 in
    if lt64 c.max_sleep_time doubled
    then record c { sleep = c.max_sleep_time }
    else record c { sleep = doubled }

-- The world `S` is what the function and the clock change. `wait` is the select: `none` after the
-- pause, or the error of the context if that was done first.
module _ {S E : Type 0} (fn : S → Option E × S) (is_unrecoverable : E → Bool)
    (wait : Int64 → S → Option E × S) where
  -- The first argument is the number of rounds left. `none` is nil.
  unfoldable pub do_loop : ℕ → Config → List E → S → Option (List E) × S
  do_loop zero c el s = (some el, s)
  do_loop (suc n) c el s =
      let (failure, s') = fn s in
      elim failure [
        | none ↦ (none, s')
        | some e ↦
            let (done, s'') = wait c.sleep s' in
            let again = do_loop n (next_sleep c) (el ++ e ∷ []) s'' in
            if is_unrecoverable e then (some (el ++ e ∷ []), s') else (elim done [
              | some cancelled ↦ (some ((el ++ e ∷ []) ++ cancelled ∷ []), s'')
              | none ↦ again
            ])
      ]

  -- With no attempts the answer is an empty list of errors, which is not nil.
  unfoldable pub do_retry : List RetryOption → S → Option (List E) × S
  unfolding do_loop configure
  do_retry opts s = let c = configure opts new_default_config in do_loop c.attempts c [] s
