-- ===== src/Contest/Final/Handle.antt =====
-- `handle` and `Consume` of judge_status_final_consumer.go, of a consumer with Redis and a status
-- writer. The calls that leave the service answer as they are told to: which of them fail is given
-- for each run, and a transaction that fails changes nothing. Messages are handled one after another here;
-- Handlers and Race have handlers and transactions that overlap.
use fuzoj.Prelude.{
  ℕ, zero, suc, ◌+◌, ◌*◌, ◌-◌, List, [], ◌∷◌, String, Bool, true, false, ◌&&◌, ◌||◌, not, Option,
  none, some, if◌then◌else◌, ltb, str_eq,
}
use fuzoj.Prelude.Int.{ℤ, pos, pos_part, ltb_ℤ, eq_ℤ}
use fuzoj.Prelude.Assoc.{Assoc, find_or, put}
use fuzoj.Prelude.Text.{is_blank, parse_int64}
use fuzoj.Contest.Eligibility.{
  ContestMeta, Repositories, Answer, found, missing, failed, Checked, check_failed,
  result_from_code, success, check,
}
use fuzoj.Contest.Final.{JudgeStatus, ContestRows, no_rows, Texts, submission_time, transact}

-- StatusEvent
pub record StatusEvent : Type 0 where
  pub is_final : Bool
  pub status : JudgeStatus
  pub created_at : ℤ

-- The rows of all contests, and the idempotency keys in Redis.
pub record World : Type 0 where
  pub contests : Assoc ContestRows
  pub idempotency : List (String × ℤ)

-- Which calls fail: Redis when the key is set or cleared, the transaction, the status writer.
pub record Faults : Type 0 where
  pub set_key : Bool
  pub clear_key : Bool
  pub transaction : Bool
  pub status_writer : Bool

-- JudgeFinalOptions; a duration of 0 stands for none.
pub record JudgeFinalOptions : Type 0 where
  pub message_ttl : ℕ
  pub max_retries : ℕ
  pub dead_letter : Bool

-- What does not change while the consumer runs.
pub record Setting : Type 0 where
  pub repos : Repositories
  pub texts : Texts
  pub options : JudgeFinalOptions

unfoldable pub has_key : List (String × ℤ) → String → ℤ → Bool
has_key [] submission finished = false
has_key ((s, f) ∷ ks) submission finished =
    (str_eq s submission && eq_ℤ f finished) || has_key ks submission finished

unfoldable pub clear_key : List (String × ℤ) → String → ℤ → List (String × ℤ)
clear_key [] submission finished = []
clear_key ((s, f) ∷ ks) submission finished =
    let rest = clear_key ks submission finished in
    if str_eq s submission && eq_ℤ f finished then rest else (s, f) ∷ rest

-- The fields that a final status must have.
unfoldable pub is_incomplete : JudgeStatus → Bool
is_incomplete s =
    str_eq s.submission_id ""
    || str_eq s.contest_id ""
    || is_blank s.user_id
    || not (ltb_ℤ (pos 0) s.problem_id)

-- Whether the message is older than its time to live.
unfoldable pub is_expired : JudgeFinalOptions → ℕ → StatusEvent → Bool
is_expired o now e =
    ltb 0 o.message_ttl
    && ltb_ℤ (pos 0) e.created_at
    && ltb o.message_ttl (now - pos_part e.created_at * 1_000_000_000)

-- finishedAt
unfoldable pub finished_at_of : StatusEvent → ℤ
finished_at_of e = if ltb_ℤ (pos 0) e.status.finished_at then e.status.finished_at else e.created_at

-- The end of the transaction, and the status writer: whether an error is returned, and the rows.
unfoldable pub commit :
    Faults → Assoc ContestRows → String → Option ContestRows → Bool × Assoc ContestRows
commit f all contest none = (true, all)
commit f all contest (some rows) =
    if f.transaction then (true, all) else (f.status_writer, put all contest rows)

-- From the second reading of the contest's meta data on.
unfoldable pub record_result :
    Setting
    → Faults
    → ℕ
    → Assoc ContestRows
    → StatusEvent
    → Answer ContestMeta
    → Bool × Assoc ContestRows
record_result g f now all e missing = (true, all)
record_result g f now all e failed = (true, all)
record_result g f now all e (found meta) = commit f all e.status.contest_id (
    transact g.texts meta now (submission_time now e.status) (finished_at_of e) e.status
      (find_or all e.status.contest_id no_rows))

unfoldable pub after_check :
    Checked → Bool × Assoc ContestRows → Assoc ContestRows → Bool × Assoc ContestRows
after_check check_failed recorded all = (true, all)
after_check (result_from_code success) recorded all = recorded
after_check (result_from_code _) recorded all = (false, all)

-- What follows the idempotency key, for a user's number.
unfoldable pub process_user :
    Setting → Faults → ℕ → Assoc ContestRows → StatusEvent → Option ℤ → Bool × Assoc ContestRows
process_user g f now all e none = (false, all)
process_user g f now all e (some user) =
    if not (ltb_ℤ (pos 0) user)
    then (false, all)
    else after_check
        (check g.repos now (record {
          contest_id = e.status.contest_id;
          user_id = user;
          problem_id = e.status.problem_id;
          now = some (submission_time now e.status);
        }))
        (record_result g f now all e (g.repos.contest e.status.contest_id)) all

-- The deferred clearing of the key after an error.
unfoldable pub finish_key :
    Faults → StatusEvent → List (String × ℤ) → Bool × Assoc ContestRows → Bool × World
finish_key f e keys (false, all) = (false, record { contests = all; idempotency = keys })
finish_key f e keys (true, all) = (
  true,
  record {
    contests = all;
    idempotency =
        if f.clear_key then keys else clear_key keys e.status.submission_id (finished_at_of e);
  },
)

-- `handle` of an event that is decoded: whether it returns an error, and the world
unfoldable pub handle_event : Setting → Faults → ℕ → World → StatusEvent → Bool × World
handle_event g f now w e =
    if not e.is_final || is_incomplete e.status || is_expired g.options now e
    then (false, w)
    else if f.set_key
    then (true, w)
    else if has_key w.idempotency e.status.submission_id (finished_at_of e)
    then (false, w)
    else finish_key f e ((e.status.submission_id, finished_at_of e) ∷ w.idempotency)
        (process_user g f now w.contests e (parse_int64 e.status.user_id))

-- handle; a message that is no event is an error.
unfoldable pub handle : Setting → Faults → ℕ → World → Option StatusEvent → Bool × World
handle g f now w none = (true, w)
handle g f now w (some e) = handle_event g f now w e

-- An attempt: what fails in it, and when it starts.
pub record Attempt : Type 0 where
  pub faults : Faults
  pub now : ℕ

-- Consume, with `n` attempts left after this one: whether it returns an error. A dead letter
-- counts as consumed where it is published.
unfoldable pub consume_from :
    Setting → (ℕ → Attempt) → Bool → ℕ → ℕ → World → Option StatusEvent → Bool × World
consume_from g attempts published zero i w e =
    let (fails, w') = handle g (attempts i).faults (attempts i).now w e in
    (fails && not (g.options.dead_letter && published), w')
consume_from g attempts published (suc n) i w e =
    let (fails, w') = handle g (attempts i).faults (attempts i).now w e in
    let again = consume_from g attempts published n (i + 1) w' e in
    if fails then again else (false, w')

-- Consume, of a message that is not empty
unfoldable pub consume : Setting → (ℕ → Attempt) → Bool → World → Option StatusEvent → Bool × World
unfolding consume_from
consume g attempts published w e = consume_from g attempts published g.options.max_retries 0 w e
