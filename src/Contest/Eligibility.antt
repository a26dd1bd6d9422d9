-- ===== src/Contest/Eligibility.antt =====
-- `Check` of pkg/contest/eligibility/eligibility.go. The three repositories answer as an
-- environment says; times are nanoseconds, and `none` is the zero time.
pub mod Rules
use fuzoj.Prelude.{
  ℕ, String, Bool, true, false, ◌||◌, not, Option, none, some, if◌then◌else◌, ltb, str_eq,
}
use fuzoj.Prelude.Int.{ℤ, pos, ltb_ℤ}
use fuzoj.Prelude.Text.{is_blank}
use fuzoj.Contest.Score.{Time}

-- The meta data of a contest, as far as it is read here and for its scores.
pub record ContestMeta : Type 0 where
  pub status : String
  pub start_at : Time
  pub end_at : Time
  pub penalty_minutes : ℤ

-- Request, with `Now`
pub record Request : Type 0 where
  pub contest_id : String
  pub user_id : ℤ
  pub problem_id : ℤ
  pub now : Time

-- A repository finds an entry, lacks it, or fails.
pub data Answer (A : Type 0) : Type 0 where
  found : A → Answer A
  missing : Answer A
  failed : Answer A

pub record Repositories : Type 0 where
  pub contest : String → Answer ContestMeta
  pub problem : String → ℤ → Answer Bool
  pub participant : String → ℤ → Answer String

-- The codes of a result.
pub data Code : Type 0 where
  success invalid_params contest_not_found contest_not_started contest_ended : Code
  contest_access_denied problem_not_found not_registered : Code

-- What `Check` returns: an error, or a result of a code.
pub data Checked : Type 0 where
  check_failed : Checked
  result_from_code : Code → Checked

-- now.Before(t), now.After(t)
abbrev pub is_before : ℕ → Time → Bool
is_before now none = false
is_before now (some t) = ltb now t

abbrev pub is_after : ℕ → Time → Bool
is_after now none = true
is_after now (some t) = ltb t now

-- isParticipantEligible
unfoldable pub is_participant_eligible : String → Bool
is_participant_eligible status = str_eq status "registered" || str_eq status "approved"

-- canSubmitByContestStatus
unfoldable pub can_submit_by_contest_status : String → Bool
can_submit_by_contest_status status =
    str_eq status "published" || str_eq status "running" || str_eq status "frozen"

-- The checks on the participant.
unfoldable pub check_participant : Answer String → Checked
check_participant missing = result_from_code not_registered
check_participant failed = check_failed
check_participant (found status) =
    if is_participant_eligible status
    then result_from_code success
    else result_from_code contest_access_denied

-- The checks on the problem, and those after them.
unfoldable pub check_problem : Answer Bool → Answer String → Checked
check_problem missing participant = result_from_code problem_not_found
check_problem failed participant = check_failed
check_problem (found b) participant = check_participant participant

-- The checks on the contest, and those after them.
unfoldable pub check_contest : ℕ → Answer ContestMeta → Answer Bool → Answer String → Checked
check_contest now missing problem participant = result_from_code contest_not_found
check_contest now failed problem participant = check_failed
check_contest now (found meta) problem participant =
    if is_before now meta.start_at
    then result_from_code contest_not_started
    else if is_after now meta.end_at
    then result_from_code contest_ended
    else if not (can_submit_by_contest_status meta.status)
    then result_from_code contest_access_denied
    else check_problem problem participant

-- `now := req.Now`, or the clock's time
abbrev pub now_or : ℕ → Time → ℕ
now_or clock none = clock
now_or clock (some t) = t

-- Check, at the clock's time
unfoldable pub check : Repositories → ℕ → Request → Checked
check repos clock r =
    if is_blank r.contest_id
    then result_from_code invalid_params
    else if not (ltb_ℤ (pos 0) r.user_id) || not (ltb_ℤ (pos 0) r.problem_id)
    then result_from_code invalid_params
    else check_contest (now_or clock r.now) (repos.contest r.contest_id)
        (repos.problem r.contest_id r.problem_id) (repos.participant r.contest_id r.user_id)
