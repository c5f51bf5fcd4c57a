-- ===== src/Create/Copy/Jobs.antt =====
-- copySegments: what the jobs have done when they end.
use milvus_backup.Base.{
  Bool, true, false, List, [], ◌∷◌, ◌++◌, Option, none, some, ◌≡◌, refl, ap, ◌⊎◌, inl, inr, Result,
  ok, err,
}
use milvus_backup.Base.Text.{Text}
use milvus_backup.Storage.{ChunkManager}
use milvus_backup.Create.Copy.{
  LogKind, insert_log, delta_log, CopyJob, not_exist_msg, run_copy_job, run_copy_jobs,
}

module _ (cm : ChunkManager) (milvus_bucket backup_bucket : Text) where
  -- A job that is done: its log file is copied from the cluster's bucket to the backup's, or it is an
  -- insert log that is not there.
  abbrev pub Done : CopyJob → cm.Store → cm.Store → Type 0
  Done job s s' =
      ((cm.exist s milvus_bucket job.source ≡ ok true)
        × (cm.copy s milvus_bucket backup_bucket job.source job.target ≡ (none, s')))
      ⊎ ((cm.exist s milvus_bucket job.source ≡ ok false) × (job.kind ≡ insert_log) × (s' ≡ s))

  -- A job that fails: the storage does, or it is a delta log that is not there.
  pub data Fails (job : CopyJob) (s : cm.Store) (e : Text) (s' : cm.Store) : Type 0 where
    unknown : cm.exist s milvus_bucket job.source ≡ err e → s' ≡ s → Fails job s e s'
    not_copied :
        cm.exist s milvus_bucket job.source ≡ ok true
        → cm.copy s milvus_bucket backup_bucket job.source job.target ≡ (some e, s')
        → Fails job s e s'
    missing :
        cm.exist s milvus_bucket job.source ≡ ok false
        → job.kind ≡ delta_log
        → e ≡ not_exist_msg job.source
        → s' ≡ s
        → Fails job s e s'

  pub data AllDone : List CopyJob → cm.Store → cm.Store → Type 0 where
    no_jobs : (s : cm.Store) → AllDone [] s s
    a_job :
        {s s' s'' : cm.Store} (job : CopyJob) (jobs : List CopyJob)
        → Done job s s'
        → AllDone jobs s' s''
        → AllDone (job ∷ jobs) s s''

  pub record Stops (jobs : List CopyJob) (s : cm.Store) (e : Text) (s' : cm.Store) : Type 0 where
    pub before : List CopyJob
    pub job : CopyJob
    pub after : List CopyJob
    pub between : cm.Store
    pub are : jobs ≡ before ++ job ∷ after
    pub all_done : AllDone before s between
    pub fails : Fails job between e s'

  abbrev pub HasRun : List CopyJob → cm.Store → Option Text → cm.Store → Type 0
  HasRun jobs s none s' = AllDone jobs s s'
  HasRun jobs s (some e) s' = Stops jobs s e s'

  abbrev Answers : CopyJob → cm.Store → Option Text → cm.Store → Type 0
  Answers job s none s' = Done job s s'
  Answers job s (some e) s' = Fails job s e s'

  run_copy_job-Answers :
      (job : CopyJob) (s : cm.Store)
      → Answers job s
          (run_copy_job cm milvus_bucket backup_bucket job s).0
          (run_copy_job cm milvus_bucket backup_bucket job s).1
  unfolding run_copy_job
  run_copy_job-Answers job s = found (cm.exist s milvus_bucket job.source) refl
    where
      answer : Result Text Bool → LogKind → Option Text × cm.Store
      answer exist kind = elim exist [
        | err e ↦ (some e, s)
        | ok true ↦ cm.copy s milvus_bucket backup_bucket job.source job.target
        | ok false ↦ elim kind [
          | insert_log ↦ (none, s)
          | delta_log ↦ (some (not_exist_msg job.source), s)
        ]
      ]

      copied :
          (r : Option Text × cm.Store)
          → cm.exist s milvus_bucket job.source ≡ ok true
          → cm.copy s milvus_bucket backup_bucket job.source job.target ≡ r
          → Answers job s r.0 r.1
      copied (none, s') there e = inl (there, e)
      copied (some x, s') there e = not_copied there e

      not_there :
          (kind : LogKind)
          → job.kind ≡ kind
          → cm.exist s milvus_bucket job.source ≡ ok false
          → Answers job s (answer (ok false) kind).0 (answer (ok false) kind).1
      not_there insert_log k gone = inr (gone, k, refl)
      not_there delta_log k gone = missing gone k refl refl

      found :
          (exist : Result Text Bool)
          → cm.exist s milvus_bucket job.source ≡ exist
          → Answers job s (answer exist job.kind).0 (answer exist job.kind).1
      found (err e) h = unknown h refl
      found (ok true) h =
          copied (cm.copy s milvus_bucket backup_bucket job.source job.target) h refl
      found (ok false) h = not_there job.kind refl h

  before_stop :
      {s s' s'' : cm.Store} {e : Text} (job : CopyJob) (jobs : List CopyJob)
      → Done job s s'
      → Stops jobs s' e s''
      → Stops (job ∷ jobs) s e s''
  before_stop job jobs done h = record {
    before = job ∷ h.before;
    job = h.job;
    after = h.after;
    between = h.between;
    are = ap (λ l. job ∷ l) h.are;
    all_done = a_job job h.before done h.all_done;
    fails = h.fails;
  }

  -- The copy jobs, run by one worker: if they end without an error, then each log file, in turn,
  -- was found and has been copied from the cluster's bucket to the backup's without an error, or
  -- was an insert log that was not found, for which nothing happens; if they end with an error,
  -- then that holds up to one job, which has failed with this error, as the storage did or a delta
  -- log was not found, and none behind it has run.
  pub run_copy_jobs-HasRun :
      (jobs : List CopyJob) (s : cm.Store)
      → HasRun jobs s
          (run_copy_jobs cm milvus_bucket backup_bucket jobs s).0
          (run_copy_jobs cm milvus_bucket backup_bucket jobs s).1
  unfolding run_copy_jobs
  run_copy_jobs-HasRun [] s = no_jobs s
  run_copy_jobs-HasRun (job ∷ jobs) s =
      split (run_copy_job cm milvus_bucket backup_bucket job s) (run_copy_job-Answers job s)
        (λ s'. run_copy_jobs-HasRun jobs s')
    where
      behind : (done : Option Text × cm.Store) → Option Text × cm.Store
      behind (failure, s') = elim failure [
        | none ↦ run_copy_jobs cm milvus_bucket backup_bucket jobs s'
        | some e ↦ (some e, s')
      ]

      split :
          (done : Option Text × cm.Store)
          → Answers job s done.0 done.1
          → ((s' : cm.Store)
              → HasRun jobs s'
                  (run_copy_jobs cm milvus_bucket backup_bucket jobs s').0
                  (run_copy_jobs cm milvus_bucket backup_bucket jobs s').1)
          → HasRun (job ∷ jobs) s (behind done).0 (behind done).1
      split (some e, s') h ih = record {
        before = [];
        job = job;
        after = jobs;
        between = s;
        are = refl;
        all_done = no_jobs s;
        fails = h;
      }
      split (none, s') h ih = more (run_copy_jobs cm milvus_bucket backup_bucket jobs s') (ih s')
        where
          more :
              (rest : Option Text × cm.Store)
              → HasRun jobs s' rest.0 rest.1
              → HasRun (job ∷ jobs) s rest.0 rest.1
          more (none, s'') k = a_job job jobs h k
          more (some e, s'') k = before_stop job jobs h k
