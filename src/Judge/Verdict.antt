-- ===== src/Judge/Verdict.antt =====
-- Verdicts, statuses and test results (sandbox/result/result.go), and `aggregateVerdict` of
-- sandbox/worker.go.
use fuzoj.Prelude.{ℕ, List, [], ◌∷◌, String, Bool, true, false, if◌then◌else◌, ltb}

pub data JudgeStatus : Type 0 where
  pending compiling running judging finished failed : JudgeStatus

-- Verdict; `unset` is the empty text of a result that has none, `other` any other text.
pub data Verdict : Type 0 where
  ac wa tle mle ole re ce se unset : Verdict
  other : String → Verdict

-- TestcaseResult, without its logs and outputs
pub record TestcaseResult : Type 0 where
  pub test_id : String
  pub verdict : Verdict
  pub time_ms : ℕ
  pub memory_kb : ℕ
  pub score : ℕ
  pub subtask_id : String

-- SummaryStat
pub record SummaryStat : Type 0 where
  pub total_time_ms : ℕ
  pub max_memory_kb : ℕ
  pub total_score : ℕ
  pub failed_test_id : String

abbrev pub is_ac : Verdict → Bool
is_ac ac = true
is_ac _ = false

-- The map `priority`, and that of RE for a verdict that it lacks.
abbrev pub priority : Verdict → ℕ
priority ac = 0
priority wa = 1
priority re = 2
priority ole = 3
priority mle = 4
priority tle = 5
priority se = 6
priority _ = 2

-- The loop of `aggregateVerdict`.
unfoldable pub aggregate_from : Verdict → ℕ → List TestcaseResult → Verdict
aggregate_from best best_score [] = best
aggregate_from best best_score (t ∷ ts) =
    let worse = ltb best_score (priority t.verdict) in
    aggregate_from (if worse then t.verdict else best)
      (if worse then priority t.verdict else best_score) ts

-- aggregateVerdict
unfoldable pub aggregate_verdict : List TestcaseResult → Verdict
unfolding aggregate_from
aggregate_verdict tests = aggregate_from ac 0 tests
