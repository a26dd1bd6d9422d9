-- ===== src/Submit/Monotonic.antt =====
-- `ShouldAccept` and `statusStage` (pkg/submit/statusmonotonic).
pub mod Order
use fuzoj.Prelude.{String, Bool, true, false, ◌||◌, ◌&&◌, if◌then◌else◌}
use fuzoj.Prelude.Int.{ℤ, pos, negsuc, ltb_ℤ, eq_ℤ}
use fuzoj.Prelude.Text.{is_word}

abbrev pub stage_unknown : ℤ
stage_unknown = negsuc 0

abbrev pub stage_final : ℤ
stage_final = pos 6

-- statusStage
unfoldable pub status_stage : String → ℤ
status_stage s =
    if is_word s "queueing"
    then pos 0
    else if is_word s "validating"
    then pos 1
    else if is_word s "pending"
    then pos 2
    else if is_word s "compiling"
    then pos 3
    else if is_word s "running"
    then pos 4
    else if is_word s "judging"
    then pos 5
    else if is_word s "finished" || is_word s "failed"
    then stage_final
    else stage_unknown

-- What `ShouldAccept` reads of a status: its stage, and its numbers of tests done and in all.
pub record Position : Type 0 where
  pub stage : ℤ
  pub done : ℤ
  pub total : ℤ

-- ShouldAccept, with the stages of the two statuses
unfoldable pub should_accept_at : Position → Position → Bool × String
should_accept_at c n =
    if eq_ℤ n.stage stage_unknown
    then (false, "next status is unknown")
    else if eq_ℤ c.stage stage_unknown
    then (true, "")
    else if eq_ℤ c.stage stage_final
    then (false, "current status is already final")
    else if ltb_ℤ n.stage c.stage
    then (false, "status stage regressed")
    else if eq_ℤ n.stage c.stage && ltb_ℤ n.done c.done
    then (false, "done_tests regressed")
    else if eq_ℤ n.stage c.stage && ltb_ℤ n.total c.total
    then (false, "total_tests regressed")
    else if eq_ℤ n.stage c.stage && eq_ℤ n.done c.done && eq_ℤ n.total c.total
    then (false, "progress is not strictly increasing")
    else (true, "")

-- ShouldAccept
unfoldable pub should_accept : String → ℤ → ℤ → String → ℤ → ℤ → Bool × String
should_accept current done total next next_done next_total =
    should_accept_at (record { stage = status_stage current; done = done; total = total })
      (record { stage = status_stage next; done = next_done; total = next_total })
