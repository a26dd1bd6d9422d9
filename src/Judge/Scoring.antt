-- ===== src/Judge/Scoring.antt =====
-- Subtasks and scores: `prepareSubtasks`, `updateSubtaskState` and `computeTotalScore` of
-- sandbox/worker.go.
pub mod Counts
use fuzoj.Prelude.{
  ℕ, ◌+◌, List, [], ◌∷◌, String, Bool, true, false, not, none, some, if◌then◌else◌, ltb, ◌==◌,
  str_eq,
}
use fuzoj.Prelude.Assoc.{Assoc, find, put}
use fuzoj.Judge.Verdict.{TestcaseResult, is_ac}
use fuzoj.Judge.Request.{
  TestcaseSpec, SubtaskSpec, JudgeError, unsupported_strategy, subtask_not_found,
}

pub record SubtaskState : Type 0 where
  pub spec : SubtaskSpec
  pub expected : ℕ
  pub executed : ℕ
  pub failed : Bool

pub data Prepared : Type 0 where
  bad_subtasks : JudgeError → Prepared
  prepared : Assoc SubtaskState → Prepared

abbrev pub strategy_of : SubtaskSpec → String
strategy_of s = if str_eq s.strategy "" then "min" else s.strategy

-- The loop over the subtasks.
unfoldable pub index_subtasks : Assoc SubtaskState → List SubtaskSpec → Prepared
index_subtasks m [] = prepared m
index_subtasks m (s ∷ ss) =
    if not (str_eq (strategy_of s) "min")
    then bad_subtasks unsupported_strategy
    else index_subtasks
        (put m s.id (record {
          spec = record s { strategy = strategy_of s };
          expected = 0;
          executed = 0;
          failed = false;
        }))
        ss

-- The loop over the tests.
unfoldable pub count_expected : Assoc SubtaskState → List TestcaseSpec → Prepared
count_expected m [] = prepared m
count_expected m (t ∷ ts) =
    if str_eq t.subtask_id "" then count_expected m ts else elim (find m t.subtask_id) [
      | none ↦ bad_subtasks subtask_not_found
      | some s ↦ count_expected (put m t.subtask_id (record s { expected = s.expected + 1 })) ts
    ]

unfoldable pub then_count : Prepared → List TestcaseSpec → Prepared
then_count (bad_subtasks e) tests = bad_subtasks e
then_count (prepared m) tests = count_expected m tests

-- prepareSubtasks
unfoldable pub prepare_subtasks : List SubtaskSpec → List TestcaseSpec → Prepared
unfolding then_count
prepare_subtasks subtasks tests = then_count (index_subtasks [] subtasks) tests

-- updateSubtaskState
unfoldable pub update_subtask_state : Assoc SubtaskState → TestcaseResult → Assoc SubtaskState
update_subtask_state m r = if str_eq r.subtask_id "" then m else elim (find m r.subtask_id) [
  | none ↦ m
  | some s ↦
      put m r.subtask_id (record s {
        executed = s.executed + 1;
        failed = if is_ac r.verdict then s.failed else true;
      })
]

-- The loop over the tests of `computeTotalScore`.
unfoldable pub sum_passed : List TestcaseResult → ℕ
sum_passed [] = 0
sum_passed (t ∷ ts) = (if is_ac t.verdict then t.score else 0) + sum_passed ts

-- Whether a subtask's score counts.
unfoldable pub counts : SubtaskState → Bool
counts s =
    if s.expected == 0 then false else if ltb s.executed s.expected then false else not s.failed

-- The loop over the subtasks; their order does not matter to a sum.
unfoldable pub sum_subtasks : Assoc SubtaskState → ℕ
unfolding counts
sum_subtasks [] = 0
sum_subtasks ((k, s) ∷ m) = (if counts s then s.spec.score else 0) + sum_subtasks m

-- computeTotalScore
unfoldable pub compute_total_score : Assoc SubtaskState → List TestcaseResult → ℕ
compute_total_score [] tests = sum_passed tests
compute_total_score (e ∷ m) tests = sum_subtasks (e ∷ m)
