-- ===== src/Examples/Judge.antt =====
-- A program that fails the second of its three tests.
use fuzoj.Judge.Scoring.{prepare_subtasks, index_subtasks, count_expected, update_subtask_state}
use fuzoj.Prelude.{
  ◌≡◌, refl, sym, ap, ◌⊎◌, [], ◌∷◌, String, true, false, none, some, if◌then◌else◌, str_eq, map,
}
use fuzoj.Judge.Verdict.{ac, wa, TestcaseResult}
use fuzoj.Judge.Request.{
  TestcaseSpec, JudgeRequest, validate_judge_request, validate_tests, validate_test,
  validate_io_config,
}
use fuzoj.Prelude.{List, ◌↔◌, ◌<◌, ◌≤◌}
use fuzoj.Prelude.Assoc.{Assoc, find, put}
use fuzoj.Judge.Request.{SubtaskSpec}
use fuzoj.Judge.Scoring.{SubtaskState, prepared, prepare_subtasks, counts}
use fuzoj.Judge.Scoring.Counts.{update_all, tests_of, results_of, failures_of, counts_iff}
use fuzoj.Judge.Worker.{
  Environment, compiled, RunAnswer, ran, run_error, execute, execute_in, compile_first, judge_tests,
  after_loop, run_tests, checker_loads, absorb,
}
use fuzoj.Judge.Worker.Outcome.{Judged, NotCompiled, execute_outcome}
use fuzoj.Judge.Worker.Stops.{Labels}

abbrev test : String → TestcaseSpec
test id = record {
  test_id = id;
  input_path = "in";
  answer_path = "out";
  io_config = record { mode = "stdio"; input_file_name = ""; output_file_name = "" };
  score = 10;
  subtask_id = "";
  has_checker = false;
  checker_language_id = "";
}

abbrev request : JudgeRequest
request = record {
  submission_id = "s1";
  language_id = "cpp";
  work_root = "/w";
  source_path = "/s";
  tests = test "1" ∷ test "2" ∷ test "3" ∷ [];
  subtasks = [];
}

abbrev result_of : TestcaseSpec → TestcaseResult
result_of t = record {
  test_id = t.test_id;
  verdict = if str_eq t.test_id "2" then wa else ac;
  time_ms = 5;
  memory_kb = 64;
  score = t.score;
  subtask_id = t.subtask_id;
}

abbrev machine : Environment
machine = record {
  initialized = true;
  language = λ id. some (record { id = id; compile_enabled = true });
  run_profile = λ l. true;
  compile_profile = λ l. true;
  checker_profile = λ l. true;
  make_root = true;
  make_compile_dir = true;
  make_test_dir = λ t. true;
  copy_binary = λ t. true;
  compile = compiled true;
  run = λ t. ran (result_of t);
}

abbrev id_of : RunAnswer → String
id_of run_error = ""
id_of (ran r) = r.test_id

machine-Labels : Labels machine
machine-Labels t r e = sym (ap id_of e)

no_error : (execute machine request).error ≡ none
unfolding execute validate_judge_request validate_tests validate_test validate_io_config execute_in
    compile_first judge_tests prepare_subtasks index_subtasks count_expected after_loop run_tests
    checker_loads absorb
no_error = refl

-- The third test is not run.
two_run : map (λ r. r.verdict) (execute machine request).result.tests ≡ ac ∷ wa ∷ []
unfolding execute validate_judge_request validate_tests validate_test validate_io_config execute_in
    compile_first judge_tests prepare_subtasks index_subtasks count_expected after_loop run_tests
    checker_loads absorb
two_run = refl

execute_outcome_example :
    Judged request (execute machine request).result ⊎ NotCompiled (execute machine request).result
execute_outcome_example = execute_outcome machine request machine-Labels no_error

abbrev subtasks : List SubtaskSpec
subtasks = record { id = "easy"; score = 30; strategy = "" } ∷ []

abbrev easy_tests : List TestcaseSpec
easy_tests =
    record (test "1") { subtask_id = "easy" } ∷ record (test "2") { subtask_id = "easy" } ∷ []

abbrev easy : SubtaskSpec
easy = record { id = "easy"; score = 30; strategy = "min" }

abbrev before_run : Assoc SubtaskState
before_run = ("easy", record { spec = easy; expected = 2; executed = 0; failed = false }) ∷ []

abbrev after_run : SubtaskState
after_run = record { spec = easy; expected = 2; executed = 2; failed = true }

is_prepared : prepare_subtasks subtasks easy_tests ≡ prepared before_run
unfolding prepare_subtasks index_subtasks count_expected find put
is_prepared = refl

is_after_run : find (update_all before_run (map result_of easy_tests)) "easy" ≡ some after_run
unfolding find update_subtask_state put
is_after_run = refl

counts_iff_example : (counts after_run ≡ true) ↔ (
    (0 < tests_of "easy" easy_tests)
    × (tests_of "easy" easy_tests ≤ results_of "easy" (map result_of easy_tests))
    × (failures_of "easy" (map result_of easy_tests) ≡ 0))
counts_iff_example =
    counts_iff "easy" refl subtasks easy_tests before_run (map result_of easy_tests) after_run
      is_prepared is_after_run
