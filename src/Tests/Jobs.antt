-- ===== src/Tests/Jobs.antt =====
-- Retries and the worker pool at concrete inputs.
use milvus_backup.Base.{ℕ, Bool, false, List, [], ◌∷◌, ◌++◌, map, none, some, ◌≡◌, refl, arith}
use milvus_backup.Base.Int64.{lt64, mul64}
use milvus_backup.Retry.Config.{RetryOption, attempts, sleep, configure, new_default_config}
use milvus_backup.Retry.Do.{do_retry}
use milvus_backup.Retry.Outcome.{call, pause, backoff, do_retry-succeeds}
use milvus_backup.WorkerPool.Pool.{
  WorkerPool, absent, Reach, here, next, submits, runs, succeeds, submit_with_id, run_job,
  store_done, return_nil, scan,
}
use milvus_backup.WorkerPool.Invariant.{IsConsistent, Reach-IsConsistent}
use milvus_backup.WorkerPool.Wait.{
  returns_nil, no_more, no_error, Answered, Waits-Answered, scan-first_error, first_error,
}

abbrev no_stop : ℕ → Bool
no_stop e = false

abbrev options : List RetryOption
options = attempts 2 ∷ sleep 1000 ∷ []

do_retry-succeeds_example :
    do_retry
      (call no_stop)
      no_stop
      (pause no_stop)
      options
      (record { outcomes = map some (7 ∷ []) ++ none ∷ []; pauses = [] })
    ≡ (
      none,
      record {
        outcomes = [];
        pauses =
            backoff no_stop
              (configure options new_default_config).sleep
              (configure options new_default_config).max_sleep_time
              0
              1;
      },
    )
unfolding configure new_default_config lt64 mul64
do_retry-succeeds_example =
    do_retry-succeeds no_stop options (7 ∷ []) [] (tt, (omega arith, tt)) (refl, tt) (omega arith)

-- A new pool, one in which job 1 waits, and one in which it has returned nil.
abbrev new_pool : WorkerPool ℕ
new_pool = record {
  next_id = 0;
  stage = λ _. absent;
  jobs_status = λ _. false;
  jobs_error = λ _. none;
}

new_pool-IsConsistent : IsConsistent new_pool
new_pool-IsConsistent = record { recorded = λ id. (refl, refl); fresh = λ id h. refl }

abbrev done_pool : WorkerPool ℕ
unfolding submit_with_id run_job store_done
done_pool = store_done (run_job (submit_with_id new_pool).1 1 none) 1 none

works : Reach new_pool done_pool
unfolding submit_with_id run_job store_done done_pool
works =
    next (next (next here (submits new_pool)) (runs (submit_with_id new_pool).1 1 none refl))
      (succeeds (run_job (submit_with_id new_pool).1 1 none) 1 refl)

Reach-IsConsistent_example : IsConsistent done_pool
Reach-IsConsistent_example = Reach-IsConsistent new_pool-IsConsistent works

Waits-Answered_example : Answered done_pool (1 ∷ []) none
unfolding done_pool store_done run_job submit_with_id
Waits-Answered_example =
    Waits-Answered {ids = 1 ∷ []} {p = new_pool} {q = done_pool} {out = none}
      (returns_nil (no_error 1 [] return_nil works refl here refl (no_more done_pool)))
      new_pool-IsConsistent

done_pool-IsConsistent : IsConsistent done_pool
done_pool-IsConsistent = Reach-IsConsistent new_pool-IsConsistent works

scan-first_error_example : scan done_pool (1 ∷ []) ≡ first_error {E = ℕ} (λ id. none) (1 ∷ [])
unfolding done_pool store_done
scan-first_error_example =
    scan-first_error done_pool (λ id. none) (1 ∷ []) done_pool-IsConsistent (refl, tt)
