-- ===== src/WorkerPool/Wait.antt =====
-- WaitJobs: its reads of the maps, between which the other goroutines go on.
use milvus_backup.Base.{
  ℕ, Bool, true, false, Option, none, some, ◌≡◌, refl, sym, ap, ◌∙◌, List, [], ◌∷◌, ◌++◌, arith,
  All,
}
use milvus_backup.WorkerPool.Pool.{
  Stage, absent, queued, refused, returned, error_stored, finished, WorkerPool, Reach, here, Round,
  return_nil, again, return_error, Reach-trans, scan,
}
use milvus_backup.WorkerPool.Invariant.{IsConsistent, Recorded, Reach-IsConsistent, Reach-finished}

module _ {E : Type 0} where
  -- A round: the status of a job is read, and if it is done, later its error.
  pub data Scans : WorkerPool E → List ℕ → Round E → WorkerPool E → Type 0 where
    no_more : (p : WorkerPool E) → Scans p [] return_nil p
    not_done :
        {p q : WorkerPool E} (id : ℕ) (ids : List ℕ)
        → Reach p q
        → q.jobs_status id ≡ false
        → Scans p (id ∷ ids) again q
    no_error :
        {p q r s : WorkerPool E} (id : ℕ) (ids : List ℕ) (out : Round E)
        → Reach p q
        → q.jobs_status id ≡ true
        → Reach q r
        → r.jobs_error id ≡ none
        → Scans r ids out s
        → Scans p (id ∷ ids) out s
    an_error :
        {p q r : WorkerPool E} (id : ℕ) (ids : List ℕ) (e : E)
        → Reach p q
        → q.jobs_status id ≡ true
        → Reach q r
        → r.jobs_error id ≡ some e
        → Scans p (id ∷ ids) (return_error e) r

  -- The outer loop: rounds until one returns. `none` is nil.
  pub data Waits (ids : List ℕ) : WorkerPool E → Option E → WorkerPool E → Type 0 where
    returns_nil : {p q : WorkerPool E} → Scans p ids return_nil q → Waits ids p none q
    returns_error :
        {p q : WorkerPool E} (e : E) → Scans p ids (return_error e) q → Waits ids p (some e) q
    retries :
        {p q r : WorkerPool E} (out : Option E)
        → Scans p ids again q
        → Waits ids q out r
        → Waits ids p out r

  -- A job whose status is stored has finished, with the error that the other map has or has not.
  done-finished :
      (p : WorkerPool E) (id : ℕ)
      → IsConsistent p
      → p.jobs_status id ≡ true
      → p.stage id ≡ finished (p.jobs_error id)
  done-finished p id h e =
      by_stage (p.stage id) (p.jobs_status id) (p.jobs_error id) (h.recorded id) e
    where
      by_stage :
          (g : Stage E) (d : Bool) (x : Option E) → Recorded g d x → d ≡ true → g ≡ finished x
      by_stage absent d x h e = cc
      by_stage queued d x h e = cc
      by_stage refused d x h e = cc
      by_stage (returned o) d x h e = cc
      by_stage (error_stored y) d x h e = cc
      by_stage (finished o) d x h e = cc

  -- The two reads of one job see its outcome, and it lasts.
  read-finished :
      {p q r : WorkerPool E} (id : ℕ)
      → IsConsistent p
      → Reach p q
      → q.jobs_status id ≡ true
      → Reach q r
      → r.stage id ≡ finished (r.jobs_error id)
  read-finished {p} {q} {r} id h pq done qr =
      let hq = Reach-IsConsistent h pq in
      let still = Reach-finished id (q.jobs_error id) qr hq (done-finished q id hq done) in
      still
      ∙ ap finished (
          sym (
            outcome (r.stage id) (r.jobs_status id) (r.jobs_error id)
              ((Reach-IsConsistent hq qr).recorded id) still))
    where
      outcome :
          {o : Option E} (g : Stage E) (d : Bool) (x : Option E)
          → Recorded g d x
          → g ≡ finished o
          → x ≡ o
      outcome absent d x h e = cc
      outcome queued d x h e = cc
      outcome refused d x h e = cc
      outcome (returned o) d x h e = cc
      outcome (error_stored y) d x h e = cc
      outcome (finished o) d x h e = cc

  Scans-Reach : {p q : WorkerPool E} {ids : List ℕ} {out : Round E} → Scans p ids out q → Reach p q
  Scans-Reach (no_more p) = here
  Scans-Reach (not_done id ids pq d) = pq
  Scans-Reach (no_error id ids out pq d qr e s) = Reach-trans (Reach-trans pq qr) (Scans-Reach s)
  Scans-Reach (an_error id ids e pq d qr x) = Reach-trans pq qr

  abbrev pub Succeeded : WorkerPool E → ℕ → Type 0
  Succeeded p id = p.stage id ≡ finished none

  -- What a round has seen when it ends.
  abbrev Seen : WorkerPool E → List ℕ → Round E → Type 0
  Seen q ids return_nil = All (Succeeded q) ids
  Seen q ids again = Unit
  Seen q ids (return_error e) =
      (before : List ℕ) × (id : ℕ) × (after : List ℕ) × (ids ≡ before ++ id ∷ after)
      × All (Succeeded q) before
      × (q.stage id ≡ finished (some e))

  Scans-Seen :
      {p q : WorkerPool E} {ids : List ℕ} {out : Round E}
      → Scans p ids out q
      → IsConsistent p
      → Seen q ids out
  Scans-Seen (no_more p) h = tt
  Scans-Seen (not_done id ids pq d) h = tt
  Scans-Seen (no_error {r = r} {s = s} id ids out pq d qr e rest) h =
      let hr = Reach-IsConsistent (Reach-IsConsistent h pq) qr in
      seen_first out
        (Reach-finished id none (Scans-Reach rest) hr (read-finished id h pq d qr ∙ ap finished e))
        (Scans-Seen rest hr)
    where
      seen_first : (out : Round E) → Succeeded s id → Seen s ids out → Seen s (id ∷ ids) out
      seen_first return_nil f rest = (f, rest)
      seen_first again f rest = tt
      seen_first (return_error x) f rest =
          (id ∷ rest.0, rest.1, rest.2, ap (λ (l : List ℕ). id ∷ l) rest.3, (f, rest.4), rest.5)
  Scans-Seen (an_error {r = r} id ids e pq d qr x) h =
      ([], id, ids, refl, tt, read-finished id h pq d qr ∙ ap finished x)

  -- What WaitJobs has seen when it returns. On nil: each of the jobs has run and returned nil. On an
  -- error: some job of the list has run and returned that error, and all jobs before it in the list
  -- have run and returned nil.
  abbrev pub Answered : WorkerPool E → List ℕ → Option E → Type 0
  Answered q ids none = All (Succeeded q) ids
  Answered q ids (some e) =
      (before : List ℕ) × (id : ℕ) × (after : List ℕ) × (ids ≡ before ++ id ∷ after)
      × All (Succeeded q) before
      × (q.stage id ≡ finished (some e))

  -- Whatever the other goroutines do while WaitJobs reads the maps of a consistent pool, in
  -- however many rounds: if it returns nil, then each job of its list has run and returned nil; if
  -- it returns an error, then a job of the list has run and returned this error, and all jobs
  -- before it in the list have run and returned nil.
  pub Waits-Answered :
      {ids : List ℕ} {p q : WorkerPool E} {out : Option E}
      → Waits ids p out q
      → IsConsistent p
      → Answered q ids out
  Waits-Answered (returns_nil s) h = Scans-Seen s h
  Waits-Answered (returns_error e s) h = Scans-Seen s h
  Waits-Answered (retries out s w) h = Waits-Answered w (Reach-IsConsistent h (Scans-Reach s))

  -- The answer to finished jobs, by the outcome of each.
  abbrev pub first_error : (ℕ → Option E) → List ℕ → Round E
  first_error outcome [] = return_nil
  first_error outcome (id ∷ ids) = elim (outcome id) [
    | none ↦ first_error outcome ids
    | some e ↦ return_error e
  ]

  -- In a consistent pool in which all jobs of the list have finished, a round of WaitJobs that no
  -- other goroutine interrupts returns: nil if all jobs returned nil, and otherwise the error of
  -- the first job of the list that returned one.
  pub scan-first_error :
      (p : WorkerPool E) (outcome : ℕ → Option E) (ids : List ℕ)
      → IsConsistent p
      → All (λ id. p.stage id ≡ finished (outcome id)) ids
      → scan p ids ≡ first_error outcome ids
  unfolding scan
  scan-first_error p outcome [] h f = refl
  scan-first_error p outcome (id ∷ ids) h (fi, f) =
      ground (arith, recorded_outcome id (h.recorded id) fi, scan-first_error p outcome ids h f)
    where
      recorded_outcome :
          (id : ℕ)
          → Recorded (p.stage id) (p.jobs_status id) (p.jobs_error id)
          → p.stage id ≡ finished (outcome id)
          → (p.jobs_status id ≡ true) × (p.jobs_error id ≡ outcome id)
      recorded_outcome id r e = rw e at r
