-- ===== src/Retry/Outcome.antt =====
-- What Do returns, how often it calls the function and how long it pauses, on a scripted function.
use milvus_backup.Base.{
  ℕ, zero, suc, ◌*◌, ◌^◌, ◌<◌, Bool, false, List, [], ◌∷◌, ◌++◌, map, Option, none, some, ◌≡◌, refl,
  sym, ap, ◌∙◌, arith, All, length, append_assoc, append-nil,
}
use Prim.Native.Nat.{min}
use mathlib.Core.Path.{ap₂}
use native.Mathlib.Nat.{pow-suc}
use milvus_backup.Base.Int64.{Int64, mul64, lt64}
use milvus_backup.Retry.Config.{
  Config, RetryOption, configure, new_default_config, IsSpaced, Fits, configure-IsSpaced,
}
use milvus_backup.Retry.Do.{do_loop, do_retry, next_sleep}

-- The outcomes of the calls to come, and the pauses so far.
pub record Script (E : Type 0) : Type 0 where
  pub outcomes : List (Option E)
  pub pauses : List ℕ

module _ {E : Type 0} (is_unrecoverable : E → Bool) where
  -- A call takes the next outcome; past the end of the script it succeeds.
  abbrev pub call : Script E → Option E × Script E
  call s = elim s.outcomes [ [] ↦ (none, s) | o ∷ rest ↦ (o, record s { outcomes = rest }) ]

  -- A pause that the context does not cut short.
  abbrev pub pause : Int64 → Script E → Option E × Script E
  pause d s = (none, record s { pauses = s.pauses ++ d ∷ [] })

  abbrev pub run : ℕ → Config → List E → Script E → Option (List E) × Script E
  run = do_loop call is_unrecoverable pause

  abbrev pub Recoverable : E → Type 0
  Recoverable e = is_unrecoverable e ≡ false

  -- The pauses behind round `i`: `sleep` doubled each time, up to the longest one.
  abbrev pub backoff : ℕ → ℕ → ℕ → ℕ → List ℕ
  backoff sleep longest i zero = []
  backoff sleep longest i (suc n) = min (sleep * 2 ^ i) longest ∷ backoff sleep longest (suc i) n

  -- The configuration in round `i`.
  abbrev round : ℕ → ℕ → ℕ → ℕ → Config
  round tries sleep longest i = record {
    attempts = tries;
    sleep = min (sleep * 2 ^ i) longest;
    max_sleep_time = longest;
  }

  next_sleep-round :
      (tries sleep longest i : ℕ)
      → longest < 2 ^ 62
      → next_sleep (round tries sleep longest i) ≡ round tries sleep longest (suc i)
  unfolding next_sleep mul64 lt64
  next_sleep-round tries sleep longest i small =
      ground (arith, next-min (sleep * 2 ^ i) (sleep * 2 ^ suc i) (doubled sleep i))
    where
      doubled : (s k : ℕ) → s * 2 ^ suc k ≡ 2 * (s * 2 ^ k)
      doubled s k = rw (pow-suc 2 k) (omega arith)

      next-min : (x y : ℕ) → y ≡ 2 * x → min y longest ≡ min (min x longest * 2) longest
      next-min x y e = omega arith

  run-fail :
      (n tries sleep longest i : ℕ) (e : E) (outcomes : List (Option E)) (el : List E) (ps : List ℕ)
      → longest < 2 ^ 62
      → Recoverable e
      → run
          (suc n)
          (round tries sleep longest i)
          el
          (record { outcomes = some e ∷ outcomes; pauses = ps })
        ≡ run n
            (round tries sleep longest (suc i))
            (el ++ e ∷ [])
            (record { outcomes = outcomes; pauses = ps ++ min (sleep * 2 ^ i) longest ∷ [] })
  unfolding do_loop
  run-fail n tries sleep longest i e outcomes el ps small r =
      rw (r, next_sleep-round tries sleep longest i small) refl

  run-succeeds :
      (n tries sleep longest i : ℕ) (es : List E) (rest : List (Option E)) (el : List E)
      (ps : List ℕ)
      → longest < 2 ^ 62
      → All Recoverable es
      → length es < n
      → run n
          (round tries sleep longest i)
          el
          (record { outcomes = map some es ++ none ∷ rest; pauses = ps })
        ≡ (none, record { outcomes = rest; pauses = ps ++ backoff sleep longest i (length es) })
  run-succeeds zero tries sleep longest i es rest el ps small r h = absurd (omega arith)
  run-succeeds (suc n) tries sleep longest i [] rest el ps small r h =
      unfold do_loop in rw (append-nil ps) refl
  run-succeeds (suc n) tries sleep longest i (e ∷ es) rest el ps small (re, rs) h =
      run-fail n tries sleep longest i e (map some es ++ none ∷ rest) el ps small re
      ∙ run-succeeds n tries sleep longest (suc i) es rest (el ++ e ∷ [])
          (ps ++ min (sleep * 2 ^ i) longest ∷ []) small rs (omega arith)
      ∙ simp append_assoc

  run-exhausted :
      (tries sleep longest i : ℕ) (es : List E) (rest : List (Option E)) (el : List E) (ps : List ℕ)
      → longest < 2 ^ 62
      → All Recoverable es
      → run
          (length es)
          (round tries sleep longest i)
          el
          (record { outcomes = map some es ++ rest; pauses = ps })
        ≡ (
          some (el ++ es),
          record { outcomes = rest; pauses = ps ++ backoff sleep longest i (length es) },
        )
  run-exhausted tries sleep longest i [] rest el ps small r =
      unfold do_loop in rw (append-nil ps, append-nil el) refl
  run-exhausted tries sleep longest i (e ∷ es) rest el ps small (re, rs) =
      run-fail (length es) tries sleep longest i e (map some es ++ rest) el ps small re
      ∙ run-exhausted tries sleep longest (suc i) es rest (el ++ e ∷ [])
          (ps ++ min (sleep * 2 ^ i) longest ∷ []) small rs
      ∙ simp append_assoc

  first_round : (c : Config) → IsSpaced c → round c.attempts c.sleep c.max_sleep_time 0 ≡ c
  first_round c h i = record c { sleep = first i }
    where
      first : min (c.sleep * 2 ^ 0) c.max_sleep_time ≡ c.sleep
      first = omega arith

  -- Where the options' durations fit and no pause is cut short, failures that may be retried,
  -- fewer than the attempts, and then a success: Do returns nil, does not call the function again,
  -- and has paused behind each failure, the first time for the configured pause, then twice as
  -- long each time up to the longest pause.
  pub do_retry-succeeds :
      (opts : List RetryOption) (es : List E) (rest : List (Option E))
      → All Fits opts
      → All Recoverable es
      → length es < (configure opts new_default_config).attempts
      → do_retry call is_unrecoverable pause opts
          (record { outcomes = map some es ++ none ∷ rest; pauses = [] })
        ≡ (
          none,
          record {
            outcomes = rest;
            pauses =
                backoff
                  (configure opts new_default_config).sleep
                  (configure opts new_default_config).max_sleep_time
                  0
                  (length es);
          },
        )
  unfolding do_retry
  do_retry-succeeds opts es rest f r h =
      let c = configure opts new_default_config in
      let spaced = configure-IsSpaced opts f in
      ap
        (λ (d : Config).
          run c.attempts d [] (record { outcomes = map some es ++ none ∷ rest; pauses = [] }))
        (sym (first_round c spaced))
      ∙ run-succeeds c.attempts c.attempts c.sleep c.max_sleep_time 0 es rest [] [] spaced.small r h

  -- Where the options' durations fit and no pause is cut short, failures that may be retried, as
  -- many as the attempts: Do returns the list of all these errors, in order, does not call the
  -- function again, and has paused behind each of them, also behind the last.
  pub do_retry-exhausted :
      (opts : List RetryOption) (es : List E) (rest : List (Option E))
      → All Fits opts
      → All Recoverable es
      → length es ≡ (configure opts new_default_config).attempts
      → do_retry call is_unrecoverable pause opts
          (record { outcomes = map some es ++ rest; pauses = [] })
        ≡ (
          some es,
          record {
            outcomes = rest;
            pauses =
                backoff
                  (configure opts new_default_config).sleep
                  (configure opts new_default_config).max_sleep_time
                  0
                  (length es);
          },
        )
  unfolding do_retry
  do_retry-exhausted opts es rest f r h =
      let c = configure opts new_default_config in
      let spaced = configure-IsSpaced opts f in
      ap₂
        (λ (n : ℕ) (d : Config).
          run n d [] (record { outcomes = map some es ++ rest; pauses = [] }))
        (sym h) (sym (first_round c spaced))
      ∙ run-exhausted c.attempts c.sleep c.max_sleep_time 0 es rest [] [] spaced.small r
