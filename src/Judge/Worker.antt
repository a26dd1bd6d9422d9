-- ===== src/Judge/Worker.antt =====
-- `Execute` of sandbox/worker.go. What it calls on the machine (the runner, the repositories, the
-- file system) is an environment that answers each call; the status reports are a list, the latest
-- last.
pub mod Stops
pub mod Outcome
use fuzoj.Prelude.{
  ℕ, zero, suc, ◌+◌, List, [], ◌∷◌, ◌++◌, String, Bool, true, false, ◌&&◌, not, Option, none, some,
  if◌then◌else◌, ltb, str_eq, length,
}
use fuzoj.Prelude.Assoc.{Assoc}
use fuzoj.Judge.Verdict.{
  JudgeStatus, pending, compiling, running, judging, finished, failed, Verdict, ac, ce, se, unset,
  TestcaseResult, SummaryStat, is_ac, aggregate_verdict,
}
use fuzoj.Judge.Request.{
  TestcaseSpec, JudgeRequest, JudgeError, not_initialized, language_failed, run_profile_failed,
  compile_profile_failed, mkdir_failed, copy_failed, checker_profile_failed, compile_failed,
  run_failed, validate_judge_request,
}
use fuzoj.Judge.Scoring.{
  SubtaskState, Prepared, bad_subtasks, prepared, prepare_subtasks, update_subtask_state,
  compute_total_score,
}

-- LanguageSpec, as far as `Execute` reads it.
pub record LanguageSpec : Type 0 where
  pub id : String
  pub compile_enabled : Bool

-- What the runner answers to `Compile`: an error, or whether the program compiled.
pub data CompileAnswer : Type 0 where
  compile_error : CompileAnswer
  compiled : Bool → CompileAnswer

-- What the runner answers to `Run`.
pub data RunAnswer : Type 0 where
  run_error : RunAnswer
  ran : TestcaseResult → RunAnswer

pub record Environment : Type 0 where
  pub initialized : Bool
  pub language : String → Option LanguageSpec
  pub run_profile : String → Bool
  pub compile_profile : String → Bool
  pub checker_profile : String → Bool
  pub make_root : Bool
  pub make_compile_dir : Bool
  pub make_test_dir : String → Bool
  pub copy_binary : String → Bool
  pub compile : CompileAnswer
  pub run : TestcaseSpec → RunAnswer

-- JudgeResult, without its compile log and timestamps
pub record JudgeResult : Type 0 where
  pub submission_id : String
  pub status : Option JudgeStatus
  pub verdict : Verdict
  pub language : String
  pub tests : List TestcaseResult
  pub summary : SummaryStat

-- StatusUpdate: the status, and the numbers of tests in all and done.
pub record Report : Type 0 where
  pub status : JudgeStatus
  pub total_tests : ℕ
  pub done_tests : ℕ

-- What `Execute` returns, and the reports on the way.
pub record Execution : Type 0 where
  pub result : JudgeResult
  pub error : Option JudgeError
  pub reports : List Report

abbrev pub no_summary : SummaryStat
no_summary = record { total_time_ms = 0; max_memory_kb = 0; total_score = 0; failed_test_id = "" }

abbrev pub no_result : JudgeResult
no_result = record {
  submission_id = "";
  status = none;
  verdict = unset;
  language = "";
  tests = [];
  summary = no_summary;
}

abbrev pub refuse : JudgeResult → JudgeError → List Report → Execution
refuse r e reports = record { result = r; error = some e; reports = reports }

-- The variables of the loop over the tests.
pub record Progress : Type 0 where
  pub tests : List TestcaseResult
  pub done_tests : ℕ
  pub total_time_ms : ℕ
  pub max_memory_kb : ℕ
  pub first_failed_test_id : String
  pub global_failed : Bool
  pub subtasks : Assoc SubtaskState
  pub reports : List Report

-- The end of a round, with the result of the test's run.
unfoldable pub absorb : ℕ → Progress → TestcaseResult → Progress
absorb total p r =
    let fails = not (is_ac r.verdict) && str_eq p.first_failed_test_id "" in
    record {
      tests = p.tests ++ r ∷ [];
      done_tests = p.done_tests + 1;
      total_time_ms = p.total_time_ms + r.time_ms;
      max_memory_kb = if ltb p.max_memory_kb r.memory_kb then r.memory_kb else p.max_memory_kb;
      first_failed_test_id = if fails then r.test_id else p.first_failed_test_id;
      global_failed = if fails then true else p.global_failed;
      subtasks = update_subtask_state p.subtasks r;
      reports =
          p.reports
          ++ record { status = running; total_tests = total; done_tests = p.done_tests + 1 } ∷ [];
    }

pub data Looped : Type 0 where
  broke : JudgeError → Progress → Looped
  crashed : Progress → Looped
  ended : Progress → Looped

-- buildCheckerProfile: whether the checker's profile loads, if the test has a checker.
unfoldable pub checker_loads : Environment → String → TestcaseSpec → Bool
checker_loads env default_language t =
    if t.has_checker
    then env.checker_profile
        (if str_eq t.checker_language_id "" then default_language else t.checker_language_id)
    else true

-- The loop over the tests.
unfoldable pub run_tests :
    Environment → LanguageSpec → String → ℕ → List TestcaseSpec → Progress → Looped
run_tests env lang language_id total [] p = ended p
run_tests env lang language_id total (t ∷ ts) p =
    if p.global_failed
    then ended p
    else if not (env.make_test_dir t.test_id)
    then broke mkdir_failed p
    else if lang.compile_enabled && not (env.copy_binary t.test_id)
    then broke copy_failed p
    else if not (checker_loads env language_id t)
    then broke checker_profile_failed p
    else elim (env.run t) [
      | run_error ↦ crashed p
      | ran r ↦ run_tests env lang language_id total ts (absorb total p r)
    ]

-- The summary and the verdict after the loop.
unfoldable pub conclude : ℕ → JudgeResult → Progress → Execution
conclude total base p = record {
  result = record base {
    tests = p.tests;
    summary = record {
      total_time_ms = p.total_time_ms;
      max_memory_kb = p.max_memory_kb;
      total_score = compute_total_score p.subtasks p.tests;
      failed_test_id = p.first_failed_test_id;
    };
    status = some finished;
    verdict = if str_eq p.first_failed_test_id "" then ac else aggregate_verdict p.tests;
  };
  error = none;
  reports =
      p.reports ++ record { status = judging; total_tests = total; done_tests = p.done_tests } ∷ [];
}

unfoldable pub after_loop : ℕ → JudgeResult → Looped → Execution
unfolding conclude
after_loop total base (broke e p) = refuse base e p.reports
after_loop total base (crashed p) =
    refuse (record base { status = some failed; verdict = se }) run_failed p.reports
after_loop total base (ended p) = conclude total base p

abbrev pub start_progress : Assoc SubtaskState → List Report → Progress
start_progress subtasks reports = record {
  tests = [];
  done_tests = 0;
  total_time_ms = 0;
  max_memory_kb = 0;
  first_failed_test_id = "";
  global_failed = false;
  subtasks = subtasks;
  reports = reports;
}

-- From the report of the status Running on.
unfoldable pub judge_tests :
    Environment → LanguageSpec → JudgeRequest → JudgeResult → List Report → Execution
judge_tests env lang req base reports =
    let total = length req.tests in
    let reports' =
      reports ++ record { status = running; total_tests = total; done_tests = 0 } ∷ [] in
    elim (prepare_subtasks req.subtasks req.tests) [
      | bad_subtasks e ↦ refuse base e reports'
      | prepared m ↦
          after_loop total base
            (run_tests env lang req.language_id total req.tests (start_progress m reports'))
    ]

-- The compilation.
unfoldable pub compile_first : Environment → LanguageSpec → JudgeRequest → JudgeResult → Execution
compile_first env lang req base =
    let reports =
      record { status = compiling; total_tests = length req.tests; done_tests = 0 } ∷ [] in
    if not env.make_compile_dir then refuse base mkdir_failed reports else elim env.compile [
      | compile_error ↦
          refuse (record base { status = some failed; verdict = se }) compile_failed reports
      | compiled ok ↦ if ok then judge_tests env lang req base reports else record {
        result = record base { status = some finished; verdict = ce };
        error = none;
        reports = reports;
      }
    ]

-- With the language known.
unfoldable pub execute_in : Environment → LanguageSpec → JudgeRequest → Execution
execute_in env lang req =
    let base : JudgeResult = record no_result {
      submission_id = req.submission_id;
      status = some running;
      language = lang.id;
    } in
    if not (env.run_profile lang.id)
    then refuse no_result run_profile_failed []
    else if lang.compile_enabled && not (env.compile_profile lang.id)
    then refuse no_result compile_profile_failed []
    else if not env.make_root
    then refuse base mkdir_failed []
    else if lang.compile_enabled
    then compile_first env lang req base
    else judge_tests env lang req base []

-- Execute, of a worker with a status reporter
unfoldable pub execute : Environment → JudgeRequest → Execution
execute env req = elim (validate_judge_request req) [
  | some e ↦ refuse no_result e []
  | none ↦
      if not env.initialized
      then refuse no_result not_initialized []
      else elim (env.language req.language_id) [
        | none ↦ refuse no_result language_failed []
        | some lang ↦ execute_in env lang req
      ]
]
