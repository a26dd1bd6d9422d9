-- ===== src/Contest/Score.antt =====
-- ICPC scores (pkg/contest/score/icpc.go). A time is a number of nanoseconds since 1970, and `none`
-- Go's zero time; whole seconds of a difference are exact while it is below three months, where a
-- float64 still tells nanoseconds apart.
pub mod Order
use fuzoj.Prelude.{ℕ, ◌+◌, ◌-◌, ◌*◌, ◌/◌, Option, none, some, if◌then◌else◌}
use fuzoj.Prelude.Int.{ℤ, pos, pos_part, ltb_ℤ, ◌-ℤ◌, to_int64}

abbrev pub Time : Type 0
Time = Option ℕ

-- The whole seconds from one time to another, none if it is earlier.
unfoldable pub seconds_between : ℕ → ℕ → ℕ
seconds_between start submit = (submit - start) / 1_000_000_000

-- `penaltyMinutes`, with its default
unfoldable pub penalty_minutes_or_default : ℤ → ℕ
penalty_minutes_or_default m = if ltb_ℤ (pos 0) m then pos_part m else 20

-- ICPCPenaltyWithMinutes
unfoldable pub icpc_penalty_with_minutes : Time → Time → ℕ → ℤ → ℕ
unfolding seconds_between penalty_minutes_or_default
icpc_penalty_with_minutes none submit wrong minutes = 0
icpc_penalty_with_minutes (some start) none wrong minutes = 0
icpc_penalty_with_minutes (some start) (some submit) wrong minutes =
    seconds_between start submit + wrong * penalty_minutes_or_default minutes * 60

-- ICPCPenalty
unfoldable pub icpc_penalty : Time → Time → ℕ → ℕ
icpc_penalty start submit wrong = icpc_penalty_with_minutes start submit wrong (pos 20)

-- SortScore, of two numbers that an int64 holds: the product and the difference wrap around.
unfoldable pub sort_score : ℕ → ℕ → ℤ
sort_score ac_count penalty_total =
    to_int64 (to_int64 (pos (ac_count * 1_000_000_000_000)) -ℤ pos penalty_total)
