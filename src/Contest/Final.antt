-- ===== src/Contest/Final.antt =====
-- `JudgeFinalConsumer` (services/contest_service/internal/consumer/judge_status_final_consumer.go): a
-- final status becomes a row of the member, a summary, and a rank update in the outbox. Its
-- transaction's tables are kept by contest and member. A detail is the map that its JSON text
-- encodes, and a payload the update that it encodes; two texts that only go into updates are a
-- parameter. Times are nanoseconds; what `UpdatedAt` fields hold is left out where nothing reads it.
pub mod Handle
pub mod Consistent
pub mod Handlers
pub mod Once
pub mod Race
pub mod Retry
use fuzoj.Prelude.{
  ℕ, ◌+◌, ◌*◌, ◌/◌, List, [], ◌∷◌, ◌++◌, String, Bool, true, false, ◌&&◌, ◌||◌, not, Option, none,
  some, if◌then◌else◌, ltb, str_eq,
}
use fuzoj.Prelude.Int.{ℤ, pos, pos_part, ltb_ℤ, eq_ℤ}
use fuzoj.Prelude.Ids.{Ids, find_id, put_id}
use fuzoj.Prelude.Assoc.{Assoc, find, put}
use fuzoj.Prelude.Text.{codes, codes_eq, to_lower}
use fuzoj.Rank.Event.{RankUpdateEvent}
use fuzoj.Contest.Score.{Time, icpc_penalty_with_minutes, sort_score}
use fuzoj.Contest.Eligibility.{ContestMeta}

-- JudgeStatusResponse
pub record JudgeStatus : Type 0 where
  pub submission_id : String
  pub contest_id : String
  pub user_id : String
  pub problem_id : ℤ
  pub status : String
  pub verdict : String
  pub received_at : ℤ
  pub finished_at : ℤ
  pub created_at : ℤ

-- MemberProblemState, under its contest, member and problem
pub record ProblemState : Type 0 where
  pub solved : Bool
  pub wrong_count : ℕ
  pub first_ac_at : Time
  pub last_submission_id : String
  pub last_submission_at : Time
  pub score : ℕ
  pub penalty : ℕ

abbrev pub no_state : ProblemState
no_state = record {
  solved = false;
  wrong_count = 0;
  first_ac_at = none;
  last_submission_id = "";
  last_submission_at = none;
  score = 0;
  penalty = 0;
}

-- ProblemDetail
pub record ProblemDetail : Type 0 where
  pub solved : Bool
  pub wrong_count : ℕ
  pub first_ac_at : ℕ
  pub last_submission_at : ℕ
  pub last_submission_id : String
  pub penalty : ℕ
  pub verdict : String

-- MemberSummarySnapshot, under its contest and member
pub record MemberSummary : Type 0 where
  pub ac_count : ℕ
  pub score_total : ℕ
  pub penalty_total : ℕ
  pub version : ℕ
  pub detail : Ids ProblemDetail

abbrev pub no_summary : MemberSummary
no_summary = record { ac_count = 0; score_total = 0; penalty_total = 0; version = 0; detail = [] }

-- The rows of a member: its problems, and its summary.
pub record MemberRows : Type 0 where
  pub problems : Ids ProblemState
  pub summary : Option MemberSummary

abbrev pub no_member_rows : MemberRows
no_member_rows = record { problems = []; summary = none }

-- A rank update in the outbox; its event key is made of the contest and the first two.
pub record OutboxEntry : Type 0 where
  pub submission_id : String
  pub finished_at : ℤ
  pub update : RankUpdateEvent

-- What the tables hold for a contest.
pub record ContestRows : Type 0 where
  pub members : Assoc MemberRows
  pub next_result : ℕ
  pub outbox : List OutboxEntry

abbrev pub no_rows : ContestRows
no_rows = record { members = []; next_result = 1; outbox = [] }

-- The texts of a detail's JSON and of a number, and the name under which the database reports a
-- duplicate event key.
pub record Texts : Type 0 where
  pub duplicate_key : String
  pub marshal : Ids ProblemDetail → String
  pub print : ℕ → String

-- strings.EqualFold(verdict, "AC")
unfoldable pub is_accepted : String → Bool
is_accepted v = codes_eq (to_lower (codes v)) (codes "ac")

-- unixTime
unfoldable pub unix_time : Time → ℕ
unix_time none = 0
unix_time (some t) = t / 1_000_000_000

-- submissionTime, at time `now`
unfoldable pub submission_time : ℕ → JudgeStatus → ℕ
submission_time now s =
    if ltb_ℤ (pos 0) s.created_at
    then pos_part s.created_at * 1_000_000_000
    else if ltb_ℤ (pos 0) s.received_at
    then pos_part s.received_at * 1_000_000_000
    else now

-- The member's row of the problem after the submission.
unfoldable pub next_state : ContestMeta → ℕ → JudgeStatus → ProblemState → ProblemState
next_state meta at s old =
    let is_ac = is_accepted s.verdict in
    let wrong = (if is_ac then old.wrong_count else old.wrong_count + 1) in
    record {
      solved = if is_ac then true else old.solved;
      wrong_count = wrong;
      first_ac_at = if is_ac then some at else old.first_ac_at;
      last_submission_id = s.submission_id;
      last_submission_at = some at;
      score = if is_ac then 1 else old.score;
      penalty =
          if is_ac
          then icpc_penalty_with_minutes meta.start_at (some at) wrong meta.penalty_minutes
          else old.penalty;
    }

unfoldable pub detail_of : String → ProblemState → ProblemDetail
unfolding unix_time
detail_of verdict s = record {
  solved = s.solved;
  wrong_count = s.wrong_count;
  first_ac_at = unix_time s.first_ac_at;
  last_submission_at = unix_time s.last_submission_at;
  last_submission_id = s.last_submission_id;
  penalty = s.penalty;
  verdict = verdict;
}

-- The member's summary after the submission.
unfoldable pub next_summary : ℕ → JudgeStatus → ProblemState → MemberSummary → MemberSummary
next_summary problem s state old =
    let is_ac = is_accepted s.verdict in
    record {
      ac_count = if is_ac then old.ac_count + 1 else old.ac_count;
      score_total = if is_ac then old.score_total + 1 else old.score_total;
      penalty_total = if is_ac then old.penalty_total + state.penalty else old.penalty_total;
      version = old.version + 1;
      detail = put_id old.detail problem (detail_of s.verdict state);
    }

-- The row of the problem, a new one where there is none; likewise of a summary and a member.
abbrev pub state_or_new : Option ProblemState → ProblemState
state_or_new none = no_state
state_or_new (some s) = s

abbrev pub summary_or_new : Option MemberSummary → MemberSummary
summary_or_new none = no_summary
summary_or_new (some s) = s

abbrev pub member_or_new : Option MemberRows → MemberRows
member_or_new none = no_member_rows
member_or_new (some m) = m

-- The two upserts.
unfoldable pub next_member : ContestMeta → ℕ → JudgeStatus → MemberRows → MemberRows
next_member meta at s m =
    let problem = pos_part s.problem_id in
    let state = next_state meta at s (state_or_new (find_id m.problems problem)) in
    record {
      problems = put_id m.problems problem state;
      summary = some (next_summary problem s state (summary_or_new m.summary));
    }

-- RankUpdateEvent of a summary
unfoldable pub rank_update : Texts → ℕ → JudgeStatus → ℕ → MemberSummary → RankUpdateEvent
rank_update texts now s result_id summary = record {
  contest_id = s.contest_id;
  member_id = s.user_id;
  problem_id = texts.print (pos_part s.problem_id);
  sort_score = sort_score summary.score_total summary.penalty_total;
  score_total = pos summary.score_total;
  penalty = pos summary.penalty_total;
  ac_count = pos summary.ac_count;
  detail_json = texts.marshal summary.detail;
  version = texts.print summary.version;
  result_id = result_id;
  updated_at = now / 1_000_000_000;
}

-- Whether the outbox has the event key.
unfoldable pub has_event : List OutboxEntry → String → ℤ → Bool
has_event [] submission finished = false
has_event (e ∷ es) submission finished =
    (str_eq e.submission_id submission && eq_ℤ e.finished_at finished)
    || has_event es submission finished

-- Enqueue: a row of a key that is there is not inserted.
unfoldable pub enqueue : List OutboxEntry → OutboxEntry → List OutboxEntry
enqueue rows e = if has_event rows e.submission_id e.finished_at then rows else rows ++ e ∷ []

-- NextResultIDTx: the id, and the one after it
unfoldable pub next_result_id : ContestRows → ℕ × ℕ
next_result_id rows = (rows.next_result, rows.next_result + 1)

-- The part of the transaction past the test for a solved problem.
unfoldable pub count_result :
    Texts → ContestMeta → ℕ → ℕ → ℤ → JudgeStatus → ContestRows → ContestRows
unfolding next_result_id
count_result texts meta now at finished s rows =
    let member = next_member meta at s (member_or_new (find rows.members s.user_id)) in
    let (id, next) = next_result_id rows in
    record {
      members = put rows.members s.user_id member;
      next_result = next;
      outbox = enqueue rows.outbox (record {
        submission_id = s.submission_id;
        finished_at = finished;
        update = rank_update texts now s id (summary_or_new member.summary);
      });
    }

-- Whether `Enqueue` returns an error that ends the transaction: that of a duplicate key is passed over
-- only under the name that the code expects.
unfoldable pub enqueue_fails : Texts → ContestRows → String → ℤ → Bool
enqueue_fails texts rows submission finished =
    has_event rows.outbox submission finished
    && not (str_eq texts.duplicate_key "contest_rank_outbox_event_key_uq")

-- Whether the problem is solved already.
unfoldable pub is_solved : Option ProblemState → Bool
is_solved none = false
is_solved (some s) = s.solved

-- The transaction with nothing of others between its statements, where none of them fails but the one
-- that inserts into the outbox; `none` rolls it back.
unfoldable pub transact :
    Texts → ContestMeta → ℕ → ℕ → ℤ → JudgeStatus → ContestRows → Option ContestRows
transact texts meta now at finished s rows =
    let m = member_or_new (find rows.members s.user_id) in
    if is_solved (find_id m.problems (pos_part s.problem_id))
    then elim m.summary [ none ↦ none | some summary ↦ some rows ]
    else if enqueue_fails texts rows s.submission_id finished
    then none
    else some (count_result texts meta now at finished s rows)
