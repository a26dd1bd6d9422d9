-- ===== src/Submit/Payload.antt =====
-- Status payloads (pkg/submit/statuswriter/status.go) and their JSON text, which is a parameter.
use fuzoj.Prelude.{◌≡◌, List, [], String, Bool, false, Option, none, some, str_eq, ◌||◌}
use fuzoj.Prelude.Int.{ℤ}
use fuzoj.Prelude.Text.{is_word}

-- StatusPayload; the compile result and the tests are kept as texts, and the summary statistics,
-- which nothing here reads, as one text.
pub record StatusPayload : Type 0 where
  pub submission_id : String
  pub status : String
  pub verdict : String
  pub score : ℤ
  pub language : String
  pub summary : String
  pub compile : Option String
  pub tests : List String
  pub received_at : ℤ
  pub finished_at : ℤ
  pub total_tests : ℤ
  pub done_tests : ℤ
  pub error_code : ℤ
  pub error_message : String

-- BuildSummary
unfoldable pub build_summary : StatusPayload → StatusPayload
build_summary s = record s { compile = none; tests = [] }

-- statusutil.IsFinalStatus
unfoldable pub is_final_status : String → Bool
is_final_status s = is_word s "finished" || is_word s "failed"

-- encoding/json on payloads.
pub record Json : Type 0 where
  pub encode : StatusPayload → String
  pub decode : String → Option StatusPayload

-- What is written for this payload is read back, and is an object's text: neither empty nor the
-- marker of an empty entry.
pub record IsReadable (json : Json) (p : StatusPayload) : Type 0 where
  pub reads_back : json.decode (json.encode p) ≡ some p
  pub nonempty : str_eq (json.encode p) "" ≡ false
  pub not_null : str_eq (json.encode p) "$NULL$" ≡ false
