-- ===== src/WorkerPool/Invariant.antt =====
-- What the two maps say of the goroutines, in every reachable pool.
use milvus_backup.Base.{ℕ, ◌+◌, ◌<◌, Bool, true, false, Option, none, some, ◌≡◌, arith}
use milvus_backup.WorkerPool.Pool.{
  Stage, absent, queued, refused, returned, error_stored, finished, WorkerPool, submit_with_id,
  run_job, refuse_job, store_error, store_done, Step, submits, runs, refuses, stores_error,
  succeeds, fails, Reach, here, next,
}

module _ {E : Type 0} where
  -- What the maps hold of one job, by its stage.
  abbrev pub Recorded : Stage E → Bool → Option E → Type 0
  Recorded absent done e = (done ≡ false) × (e ≡ none)
  Recorded queued done e = (done ≡ false) × (e ≡ none)
  Recorded refused done e = (done ≡ false) × (e ≡ none)
  Recorded (returned o) done e = (done ≡ false) × (e ≡ none)
  Recorded (error_stored x) done e = (done ≡ false) × (e ≡ some x)
  Recorded (finished o) done e = (done ≡ true) × (e ≡ o)

  -- The maps agree with the stages, and ids beyond the counter are not in use.
  pub record IsConsistent (p : WorkerPool E) : Type 0 where
    pub recorded : (id : ℕ) → Recorded (p.stage id) (p.jobs_status id) (p.jobs_error id)
    pub fresh : (id : ℕ) → p.next_id < id → p.stage id ≡ absent

  Step-IsConsistent : {p q : WorkerPool E} → Step p q → IsConsistent p → IsConsistent q
  unfolding submit_with_id run_job refuse_job store_error store_done
  Step-IsConsistent (submits p) h = record {
    recorded = λ id. ground (arith, h.recorded id, h.fresh id);
    fresh = λ id lt. ground (arith, h.fresh id);
  }
  Step-IsConsistent (runs p j o e) h = record {
    recorded = λ id. ground (arith, h.recorded id, h.recorded j);
    fresh = λ id lt. ground (arith, h.fresh id);
  }
  Step-IsConsistent (refuses p j e) h = record {
    recorded = λ id. ground (arith, h.recorded id, h.recorded j);
    fresh = λ id lt. ground (arith, h.fresh id);
  }
  Step-IsConsistent (stores_error p j x e) h = record {
    recorded = λ id. ground (arith, h.recorded id, h.recorded j);
    fresh = λ id lt. ground (arith, h.fresh id);
  }
  Step-IsConsistent (succeeds p j e) h = record {
    recorded = λ id. ground (arith, h.recorded id, h.recorded j);
    fresh = λ id lt. ground (arith, h.fresh id);
  }
  Step-IsConsistent (fails p j x e) h = record {
    recorded = λ id. ground (arith, h.recorded id, h.recorded j);
    fresh = λ id lt. ground (arith, h.fresh id);
  }

  -- In every pool that steps of any goroutines, in any order, reach from a consistent one, the two
  -- maps agree with what each job has done, and the ids beyond the counter are not in use.
  pub Reach-IsConsistent : {p q : WorkerPool E} → IsConsistent p → Reach p q → IsConsistent q
  Reach-IsConsistent h here = h
  Reach-IsConsistent h (next r s) = Step-IsConsistent s (Reach-IsConsistent h r)

  Step-finished :
      {p q : WorkerPool E} (id : ℕ) (o : Option E)
      → Step p q
      → IsConsistent p
      → p.stage id ≡ finished o
      → q.stage id ≡ finished o
  unfolding submit_with_id run_job refuse_job store_error store_done
  Step-finished id o (submits p) h e = ground (arith, h.fresh (p.next_id + 1))
  Step-finished id o (runs p j o' e') h e = ground arith
  Step-finished id o (refuses p j e') h e = ground arith
  Step-finished id o (stores_error p j x e') h e = ground arith
  Step-finished id o (succeeds p j e') h e = ground arith
  Step-finished id o (fails p j x e') h e = ground arith

  -- A finished job stays finished, with its outcome.
  pub Reach-finished :
      {p q : WorkerPool E} (id : ℕ) (o : Option E)
      → Reach p q
      → IsConsistent p
      → p.stage id ≡ finished o
      → q.stage id ≡ finished o
  Reach-finished id o here h e = e
  Reach-finished id o (next r s) h e =
      Step-finished id o s (Reach-IsConsistent h r) (Reach-finished id o r h e)
