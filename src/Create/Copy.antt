-- ===== src/Create/Copy.antt =====
-- copySegments: the copies of log files that it hands to the worker pool, and what such a copy does.
pub mod Jobs
use mathlib.Core.List.{map-append}
use milvus_backup.Base.{
  ℕ, true, false, List, [], ◌∷◌, ◌++◌, Option, none, some, ◌≡◌, ◌≢◌, refl, Result, ok, err,
  if◌then◌else◌, arith, map, concat_map, All, All-append, Bool-cases, inl, inr,
}
use milvus_backup.Base.Text.{Text, codes, text_eq, text_eq_iff}
use milvus_backup.Proto.{SegmentBackupInfo, FieldBinlog, Binlog}
use milvus_backup.Storage.{ChunkManager}
use milvus_backup.Create.Paths.{target_path}

pub data LogKind : Type 0 where
  insert_log delta_log : LogKind

pub record CopyJob : Type 0 where
  pub kind : LogKind
  pub source : Text
  pub target : Text

abbrev pub same_path_msg : Text → Text → Text
same_path_msg src dst =
    codes "copy src path and dst path can not be the same, src: "
    ++ (src ++ (codes " dst: " ++ dst))

abbrev pub not_exist_msg : Text → Text
not_exist_msg path = codes "Binlog file not exist " ++ path

-- Jobs that are submitted, and the error that then ends the loop.
abbrev pub Plan : Type 0
Plan = List CopyJob × Option Text

-- More jobs, unless the loop has ended.
abbrev and_then : Plan → Plan → Plan
and_then (jobs, none) (more, e) = (jobs ++ more, e)
and_then (jobs, some e) _ = (jobs, some e)

-- One round: the copy, or the end of the loop.
abbrev plan_binlog : LogKind → Text → Text → Plan → Plan
plan_binlog kind src target rest =
    if text_eq target src
    then ([], some (same_path_msg src target))
    else (record { kind = kind; source = src; target = target } ∷ rest.0, rest.1)

module _ (root_path dst_path : Text) where
  -- The loop over the log files of a segment, of one kind, with the group that they get.
  unfoldable pub plan_binlogs : LogKind → SegmentBackupInfo → ℕ → List Binlog → Plan
  plan_binlogs kind segment group_id [] = ([], none)
  plan_binlogs kind segment group_id (binlog ∷ binlogs) =
      let rest = plan_binlogs kind segment group_id binlogs in
      let target = target_path root_path dst_path segment.partition_id group_id binlog.log_path in
      plan_binlog kind binlog.log_path target rest

  abbrev pub all_binlogs : List FieldBinlog → List Binlog
  all_binlogs = concat_map (λ f. f.binlogs)

  -- `segment.GroupId = segment.SegmentId`, which the loop does for each insert log.
  unfoldable pub group_of : SegmentBackupInfo → ℕ
  group_of segment = elim (all_binlogs segment.binlogs) [
    | [] ↦ segment.group_id
    | _ ∷ _ ↦ segment.segment_id
  ]

  -- The insert logs, and then the delta logs.
  unfoldable pub plan_segment : SegmentBackupInfo → Plan
  unfolding plan_binlogs group_of
  plan_segment segment =
      and_then (plan_binlogs insert_log segment (group_of segment) (all_binlogs segment.binlogs))
        (plan_binlogs delta_log segment (group_of segment) (all_binlogs segment.deltalogs))

  plan_filled : Result Text SegmentBackupInfo → Plan → Plan
  unfolding plan_segment
  plan_filled (err e) rest = ([], some e)
  plan_filled (ok filled) rest = and_then (plan_segment filled) rest

  -- The loop over the segments; `fill` is fillSegmentBackupInfo on the storage of the moment.
  unfoldable pub plan_segments :
      (SegmentBackupInfo → Result Text SegmentBackupInfo) → List SegmentBackupInfo → Plan
  unfolding plan_filled
  plan_segments fill [] = ([], none)
  plan_segments fill (segment ∷ segments) =
      let rest = plan_segments fill segments in plan_filled (fill segment) rest

  abbrev Differs : CopyJob → Type 0
  Differs job = job.target ≢ job.source

  -- The log files of a segment that fillSegmentBackupInfo has filled.
  abbrev filled_paths : Result Text SegmentBackupInfo → List Text
  filled_paths (err e) = []
  filled_paths (ok s) = map (λ b. b.log_path) (all_binlogs s.binlogs ++ all_binlogs s.deltalogs)

  abbrev pub log_paths :
      (SegmentBackupInfo → Result Text SegmentBackupInfo) → SegmentBackupInfo → List Text
  log_paths fill segment = filled_paths (fill segment)

  plan_binlogs-Differs :
      (kind : LogKind) (s : SegmentBackupInfo) (g : ℕ) (bs : List Binlog)
      → All Differs (plan_binlogs kind s g bs).0
  unfolding plan_binlogs
  plan_binlogs-Differs kind s g [] = tt
  plan_binlogs-Differs kind s g (b ∷ bs) =
      checked (target_path root_path dst_path s.partition_id g b.log_path) b.log_path
        (plan_binlogs-Differs kind s g bs)
    where
      checked :
          (t p : Text)
          → All Differs (plan_binlogs kind s g bs).0
          → All Differs (plan_binlog kind p t (plan_binlogs kind s g bs)).0
      checked t p rest = elim (Bool-cases (text_eq t p)) [
        | inl same ↦ rw same tt
        | inr other ↦ rw other (λ e. ground (arith, text_eq_iff t p), rest)
      ]

  plan_binlogs-sources :
      (kind : LogKind) (s : SegmentBackupInfo) (g : ℕ) (bs : List Binlog)
      → (plan_binlogs kind s g bs).1 ≡ none
      → map (λ j. j.source) (plan_binlogs kind s g bs).0 ≡ map (λ b. b.log_path) bs
  unfolding plan_binlogs
  plan_binlogs-sources kind s g [] h = refl
  plan_binlogs-sources kind s g (b ∷ bs) h = ground (arith, plan_binlogs-sources kind s g bs)

  and_then-Differs : (a b : Plan) → All Differs a.0 → All Differs b.0 → All Differs (and_then a b).0
  and_then-Differs (jobs, none) b ha hb = All-append Differs jobs b.0 ha hb
  and_then-Differs (jobs, some e) b ha hb = ha

  and_then-sources :
      (a b : Plan)
      → (and_then a b).1 ≡ none
      → (a.1 ≡ none)
        × (b.1 ≡ none)
        × (map (λ j. j.source) (and_then a b).0
            ≡ map (λ j. j.source) a.0 ++ map (λ j. j.source) b.0)
  and_then-sources (jobs, none) (more, e) h =
      (refl, h, map-append (λ (j : CopyJob). j.source) jobs more)
  and_then-sources (jobs, some e) b h = absurd (ground arith)

  plan_segment-Differs : (s : SegmentBackupInfo) → All Differs (plan_segment s).0
  unfolding plan_segment
  plan_segment-Differs s =
      and_then-Differs (plan_binlogs insert_log s (group_of s) (all_binlogs s.binlogs))
        (plan_binlogs delta_log s (group_of s) (all_binlogs s.deltalogs))
        (plan_binlogs-Differs insert_log s (group_of s) (all_binlogs s.binlogs))
        (plan_binlogs-Differs delta_log s (group_of s) (all_binlogs s.deltalogs))

  plan_segment-sources :
      (s : SegmentBackupInfo)
      → (plan_segment s).1 ≡ none
      → map (λ j. j.source) (plan_segment s).0
        ≡ map (λ b. b.log_path) (all_binlogs s.binlogs ++ all_binlogs s.deltalogs)
  unfolding plan_segment
  plan_segment-sources s h =
      let inserts = plan_binlogs insert_log s (group_of s) (all_binlogs s.binlogs) in
      let deltas = plan_binlogs delta_log s (group_of s) (all_binlogs s.deltalogs) in
      let (hi, hd, e) = and_then-sources inserts deltas h in
      rw
        (
          e,
          plan_binlogs-sources insert_log s (group_of s) (all_binlogs s.binlogs) hi,
          plan_binlogs-sources delta_log s (group_of s) (all_binlogs s.deltalogs) hd,
          map-append (λ (b : Binlog). b.log_path) (all_binlogs s.binlogs) (all_binlogs s.deltalogs),
        )
        refl

  -- Whatever the segments and their log files are, no copy is planned from a path to itself.
  pub plan_segments-Differs :
      (fill : SegmentBackupInfo → Result Text SegmentBackupInfo) (segments : List SegmentBackupInfo)
      → All Differs (plan_segments fill segments).0
  unfolding plan_segments
  plan_segments-Differs fill [] = tt
  plan_segments-Differs fill (s ∷ segments) = filled (fill s) (plan_segments-Differs fill segments)
    where
      filled :
          (r : Result Text SegmentBackupInfo)
          → All Differs (plan_segments fill segments).0
          → All Differs (plan_filled r (plan_segments fill segments)).0
      filled (err e) rest = tt
      filled (ok f) rest =
          and_then-Differs (plan_segment f) (plan_segments fill segments) (plan_segment-Differs f)
            rest

  -- If the loop over the segments ends without an error, then each segment could be filled, and
  -- one copy is planned for each of its insert logs and then each of its delta logs, in this
  -- order.
  pub plan_segments-sources :
      (fill : SegmentBackupInfo → Result Text SegmentBackupInfo) (segments : List SegmentBackupInfo)
      → (plan_segments fill segments).1 ≡ none
      → (map (λ j. j.source) (plan_segments fill segments).0 ≡ concat_map (log_paths fill) segments)
        × All (λ s. (f : SegmentBackupInfo) × (fill s ≡ ok f)) segments
  unfolding plan_segments
  plan_segments-sources fill [] h = (refl, tt)
  plan_segments-sources fill (s ∷ segments) h =
      filled (fill s) refl h (plan_segments-sources fill segments)
    where
      filled :
          (r : Result Text SegmentBackupInfo)
          → fill s ≡ r
          → (plan_filled r (plan_segments fill segments)).1 ≡ none
          → ((plan_segments fill segments).1 ≡ none
              → (map (λ j. j.source) (plan_segments fill segments).0
                  ≡ concat_map (log_paths fill) segments)
                × All (λ s. (f : SegmentBackupInfo) × (fill s ≡ ok f)) segments)
          → (map (λ j. j.source) (plan_filled r (plan_segments fill segments)).0
              ≡ concat_map (log_paths fill) (s ∷ segments))
            × All (λ s. (f : SegmentBackupInfo) × (fill s ≡ ok f)) (s ∷ segments)
      filled (err e) hs h ih = absurd (ground arith)
      filled (ok f) hs h ih =
          let (hf, hr, e) = and_then-sources (plan_segment f) (plan_segments fill segments) h in
          let (rest, all) = ih hr in
          (rw (e, plan_segment-sources f hf, rest, hs) refl, ((f, hs), all))

  -- A loop that ends without an error has filled its first segment, has gone through the log files of
  -- it, and has ended without an error behind it.
  pub plan_segments-next :
      (fill : SegmentBackupInfo → Result Text SegmentBackupInfo) (s : SegmentBackupInfo)
      (segments : List SegmentBackupInfo)
      → (plan_segments fill (s ∷ segments)).1 ≡ none
      → (f : SegmentBackupInfo) × (fill s ≡ ok f)
        × ((plan_segment f).1 ≡ none)
        × ((plan_segments fill segments).1 ≡ none)
  unfolding plan_segments
  plan_segments-next fill s segments h = filled (fill s) refl h
    where
      filled :
          (r : Result Text SegmentBackupInfo)
          → fill s ≡ r
          → (plan_filled r (plan_segments fill segments)).1 ≡ none
          → (f : SegmentBackupInfo) × (fill s ≡ ok f)
            × ((plan_segment f).1 ≡ none)
            × ((plan_segments fill segments).1 ≡ none)
      filled (err e) hs h' = absurd (ground arith)
      filled (ok f) hs h' =
          let (hf, hr, e) = and_then-sources (plan_segment f) (plan_segments fill segments) h' in
          (f, hs, hf, hr)

module _ (cm : ChunkManager) (milvus_bucket backup_bucket : Text) where
  -- The function that a job of the pool runs. An insert log that is missing is reported by the error
  -- of the test for it, which is nil.
  unfoldable pub run_copy_job : CopyJob → cm.Store → Option Text × cm.Store
  run_copy_job job s = elim (cm.exist s milvus_bucket job.source) [
    | err e ↦ (some e, s)
    | ok true ↦ cm.copy s milvus_bucket backup_bucket job.source job.target
    | ok false ↦ elim job.kind [
      | insert_log ↦ (none, s)
      | delta_log ↦ (some (not_exist_msg job.source), s)
    ]
  ]

  -- The jobs on a pool with one worker (`backup.parallelism.copydata`) on which no job has failed:
  -- one after the other, up to the first error, which cancels the pool's context before the next
  -- job may start, so that the jobs behind are refused.
  unfoldable pub run_copy_jobs : List CopyJob → cm.Store → Option Text × cm.Store
  unfolding run_copy_job
  run_copy_jobs [] s = (none, s)
  run_copy_jobs (job ∷ jobs) s =
      let (failure, s') = run_copy_job job s in
      let rest = run_copy_jobs jobs s' in elim failure [ none ↦ rest | some e ↦ (some e, s') ]
