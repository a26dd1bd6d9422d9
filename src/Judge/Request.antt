-- ===== src/Judge/Request.antt =====
-- Judge requests (sandbox/api.go) and their validation (`validateJudgeRequest`, `validateIOConfig`
-- of sandbox/worker.go).
use fuzoj.Prelude.{
  ℕ, List, [], ◌∷◌, String, Bool, ◌&&◌, ◌||◌, not, Option, none, some, if◌then◌else◌, str_eq,
}

pub record IoConfig : Type 0 where
  pub mode : String
  pub input_file_name : String
  pub output_file_name : String

-- TestcaseSpec, without its limits; a checker is kept as whether there is one.
pub record TestcaseSpec : Type 0 where
  pub test_id : String
  pub input_path : String
  pub answer_path : String
  pub io_config : IoConfig
  pub score : ℕ
  pub subtask_id : String
  pub has_checker : Bool
  pub checker_language_id : String

-- SubtaskSpec, the fields that the worker reads
pub record SubtaskSpec : Type 0 where
  pub id : String
  pub score : ℕ
  pub strategy : String

-- JudgeRequest, the fields that the worker's decisions read
pub record JudgeRequest : Type 0 where
  pub submission_id : String
  pub language_id : String
  pub work_root : String
  pub source_path : String
  pub tests : List TestcaseSpec
  pub subtasks : List SubtaskSpec

pub data JudgeError : Type 0 where
  submission_id_required language_id_required work_root_required source_path_required : JudgeError
  tests_required test_id_required input_path_required answer_path_required : JudgeError
  unsupported_io_mode input_file_name_required output_file_name_required : JudgeError
  unsupported_strategy subtask_not_found : JudgeError
  not_initialized language_failed run_profile_failed compile_profile_failed : JudgeError
  mkdir_failed copy_failed checker_profile_failed compile_failed run_failed : JudgeError

-- validateIOConfig
unfoldable pub validate_io_config : IoConfig → Option JudgeError
validate_io_config c =
    if str_eq c.mode "" || str_eq c.mode "stdio"
    then none
    else if not (str_eq c.mode "fileio")
    then some unsupported_io_mode
    else if str_eq c.input_file_name ""
    then some input_file_name_required
    else if str_eq c.output_file_name ""
    then some output_file_name_required
    else none

-- The checks on one test.
unfoldable pub validate_test : TestcaseSpec → Option JudgeError
validate_test t =
    if str_eq t.test_id ""
    then some test_id_required
    else if str_eq t.input_path ""
    then some input_path_required
    else elim (validate_io_config t.io_config) [
      | some e ↦ some e
      | none ↦ if t.has_checker && str_eq t.answer_path "" then some answer_path_required else none
    ]

-- The loop over the tests.
unfoldable pub validate_tests : List TestcaseSpec → Option JudgeError
validate_tests [] = none
validate_tests (t ∷ ts) = elim (validate_test t) [ some e ↦ some e | none ↦ validate_tests ts ]

-- validateJudgeRequest
unfoldable pub validate_judge_request : JudgeRequest → Option JudgeError
validate_judge_request r =
    if str_eq r.submission_id ""
    then some submission_id_required
    else if str_eq r.language_id ""
    then some language_id_required
    else if str_eq r.work_root ""
    then some work_root_required
    else if str_eq r.source_path ""
    then some source_path_required
    else elim r.tests [ [] ↦ some tests_required | t ∷ ts ↦ validate_tests (t ∷ ts) ]
