-- ===== src/Restore/Watch.antt =====
-- watchBulkInsertState. What the cluster answers and the clock shows, poll by poll, is a list; times
-- are seconds, and a difference of times is compared as a sum, without wrap-around.
use milvus_backup.Base.{
  ℕ, ◌+◌, ◌<◌, List, [], ◌∷◌, ◌++◌, Option, none, some, ◌≡◌, refl, Result, ok, err, if◌then◌else◌,
  arith, All, any, ltb, leb,
}
use milvus_backup.Base.Text.{Text, codes}

-- What the switch tells apart: failed, with the reason if the answer has one; completed; any other
-- state, with the progress.
pub data ImportState : Type 0 where
  bulk_insert_failed : Option Text → ImportState
  bulk_insert_completed : ImportState
  other_state : ℕ → ImportState

-- An answer, and the clock behind it and at the update.
pub record Poll : Type 0 where
  pub answer : Result Text ImportState
  pub current_timestamp : ℕ
  pub now : ℕ

abbrev pub fail_msg : Text
fail_msg = codes "bulk insert fail"

abbrev pub fail_info_msg : Text → Text
fail_info_msg reason = codes "bulk insert fail, info: " ++ reason

abbrev pub timeout_msg : Text
timeout_msg = codes "import task timeout"

abbrev failed_msg : Option Text → Text
failed_msg none = fail_msg
failed_msg (some reason) = fail_info_msg reason

-- Outer `none`: the polls are used up and the loop goes on. Otherwise the error that is returned, or
-- nil. `last_progress` is not updated by the loop.
unfoldable pub watch_loop : ℕ → ℕ → ℕ → List Poll → Option (Option Text)
watch_loop timeout last_progress last_update_time [] = none
watch_loop timeout last_progress last_update_time (p ∷ polls) =
    let advanced = watch_loop timeout last_progress p.now polls in
    let waiting = watch_loop timeout last_progress last_update_time polls in
    elim p.answer [
      | err e ↦ some (some e)
      | ok state ↦ elim state [
        | bulk_insert_failed reason ↦ some (some (failed_msg reason))
        | bulk_insert_completed ↦ some none
        | other_state current_progress ↦
            if ltb last_progress current_progress
            then advanced
            else if leb (last_update_time + timeout) p.current_timestamp
            then some (some timeout_msg)
            else waiting
      ]
    ]

unfoldable pub watch_bulk_insert_state : ℕ → ℕ → List Poll → Option (Option Text)
unfolding watch_loop
watch_bulk_insert_state timeout start polls = watch_loop timeout 0 start polls

-- The task has neither failed nor completed, and some of it is done.
abbrev pub IsHalfway : Poll → Type 0
IsHalfway p = (progress : ℕ) × (0 < progress) × (p.answer ≡ ok (other_state progress))

-- The task has neither failed nor completed, and nothing of it is done.
abbrev pub IsIdle : Poll → Type 0
IsIdle p = p.answer ≡ ok (other_state 0)

-- While every answer shows a task that has neither failed nor completed and of which some part is
-- done, the watch goes on, whatever the timeout and the clock are.
pub watch_bulk_insert_state-IsHalfway :
    (timeout start : ℕ) (polls : List Poll)
    → All IsHalfway polls
    → watch_bulk_insert_state timeout start polls ≡ none
unfolding watch_bulk_insert_state
watch_bulk_insert_state-IsHalfway timeout start [] h = refl
watch_bulk_insert_state-IsHalfway timeout start (p ∷ polls) ((progress, pos, e), h) =
    ground (arith, watch_bulk_insert_state-IsHalfway timeout p.now polls h)

-- While every answer shows a task that has neither failed nor completed and of which nothing is
-- done, the watch goes on until the first poll at least the timeout after the start, and returns
-- the timeout error there.
pub watch_bulk_insert_state-IsIdle :
    (timeout start : ℕ) (polls : List Poll)
    → All IsIdle polls
    → watch_bulk_insert_state timeout start polls ≡ (
        if any (λ p. leb (start + timeout) p.current_timestamp) polls
        then some (some timeout_msg)
        else none)
unfolding watch_bulk_insert_state
watch_bulk_insert_state-IsIdle timeout start [] h = refl
watch_bulk_insert_state-IsIdle timeout start (p ∷ polls) (hp, h) =
    ground (arith, watch_bulk_insert_state-IsIdle timeout start polls h)
