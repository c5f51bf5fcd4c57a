-- ===== src/WorkerPool/Pool.antt =====
-- The pool as a state, and what its goroutines do as steps. The limits on goroutines and on jobs
-- per second only hold steps back, so the relation allows all that the program can do.
use milvus_backup.Base.{
  ℕ, ◌+◌, Bool, true, false, Option, none, some, ◌≡◌, nat_eq, if◌then◌else◌, Result, ok, err, List,
  [], ◌∷◌,
}
use milvus_backup.Base.Text.{Text, codes}

-- How far the goroutine of a job has come. `refused` is a limiter whose Wait fails: the job is not
-- run, and nothing is stored.
pub data Stage (E : Type 0) : Type 0 where
  absent queued refused : Stage E
  returned : Option E → Stage E
  error_stored : E → Stage E
  finished : Option E → Stage E

-- The two sync.Maps are never iterated over, so they are functions of the id.
pub record WorkerPool (E : Type 0) : Type 0 where
  pub next_id : ℕ
  pub stage : ℕ → Stage E
  pub jobs_status : ℕ → Bool
  pub jobs_error : ℕ → Option E

abbrev pub update : {A : Type 0} → (ℕ → A) → ℕ → A → ℕ → A
update f i a j = if nat_eq i j then a else f j

abbrev pub worker_num_msg : Text
worker_num_msg = codes "workerpool: worker num can not less than 0"

-- How one round of the loop of WaitJobs over its list of ids ends.
pub data Round (E : Type 0) : Type 0 where
  return_nil again : Round E
  return_error : E → Round E

module _ {E : Type 0} where
  -- NewWorkerPool refuses zero workers; a negative number is refused alike and is not a number here.
  unfoldable pub new_worker_pool : ℕ → Result Text (WorkerPool E)
  new_worker_pool worker_num =
      if nat_eq worker_num 0
      then err worker_num_msg
      else ok (record {
        next_id = 0;
        stage = λ _. absent;
        jobs_status = λ _. false;
        jobs_error = λ _. none;
      })

  -- SubmitWithId: the new id, and the pool with the job handed over.
  unfoldable pub submit_with_id : WorkerPool E → ℕ × WorkerPool E
  submit_with_id p =
      let job_id = p.next_id + 1 in
      (job_id, record p { next_id = job_id; stage = update p.stage job_id queued })

  -- The function that `work` starts for a job, step by step: the limiter lets the job run and it
  -- returns, or the limiter fails; an error is stored before the status.
  unfoldable pub run_job : WorkerPool E → ℕ → Option E → WorkerPool E
  run_job p id outcome = record p { stage = update p.stage id (returned outcome) }

  unfoldable pub refuse_job : WorkerPool E → ℕ → WorkerPool E
  refuse_job p id = record p { stage = update p.stage id refused }

  unfoldable pub store_error : WorkerPool E → ℕ → E → WorkerPool E
  store_error p id e = record p {
    stage = update p.stage id (error_stored e);
    jobs_error = update p.jobs_error id (some e);
  }

  unfoldable pub store_done : WorkerPool E → ℕ → Option E → WorkerPool E
  store_done p id outcome = record p {
    stage = update p.stage id (finished outcome);
    jobs_status = update p.jobs_status id true;
  }

  pub data Step : WorkerPool E → WorkerPool E → Type 0 where
    submits : (p : WorkerPool E) → Step p (submit_with_id p).1
    runs :
        (p : WorkerPool E) (id : ℕ) (o : Option E) → p.stage id ≡ queued → Step p (run_job p id o)
    refuses : (p : WorkerPool E) (id : ℕ) → p.stage id ≡ queued → Step p (refuse_job p id)
    stores_error :
        (p : WorkerPool E) (id : ℕ) (e : E)
        → p.stage id ≡ returned (some e)
        → Step p (store_error p id e)
    succeeds :
        (p : WorkerPool E) (id : ℕ) → p.stage id ≡ returned none → Step p (store_done p id none)
    fails :
        (p : WorkerPool E) (id : ℕ) (e : E)
        → p.stage id ≡ error_stored e
        → Step p (store_done p id (some e))

  pub data Reach (p : WorkerPool E) : WorkerPool E → Type 0 where
    here : Reach p p
    next : {q r : WorkerPool E} → Reach p q → Step q r → Reach p r

  pub Reach-trans : {p q r : WorkerPool E} → Reach p q → Reach q r → Reach p r
  Reach-trans h here = h
  Reach-trans h (next k s) = next (Reach-trans h k) s

  -- A round that no other goroutine interrupts.
  unfoldable pub scan : WorkerPool E → List ℕ → Round E
  scan p [] = return_nil
  scan p (id ∷ ids) =
      let rest = scan p ids in
      if p.jobs_status id
      then (elim (p.jobs_error id) [ some e ↦ return_error e | none ↦ rest ])
      else again
