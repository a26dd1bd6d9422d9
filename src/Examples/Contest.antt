-- ===== src/Examples/Contest.antt =====
-- A contest of two hours with one participant, whose first result is a wrong answer.
use fuzoj.Contest.Final.Handle.{
  consume, consume_from, handle, handle_event, is_incomplete, is_expired, has_key, clear_key,
  finish_key, process_user, after_check, record_result, commit, finished_at_of,
}
use fuzoj.Contest.Final.{
  submission_time, count_result, detail_of, enqueue, enqueue_fails, has_event, is_accepted,
  is_solved, next_member, next_state, next_summary, rank_update, transact, unix_time,
}
use fuzoj.Contest.Eligibility.{
  check, check_contest, check_problem, check_participant, can_submit_by_contest_status,
  is_participant_eligible,
}
use fuzoj.Contest.Score.{
  icpc_penalty_with_minutes, penalty_minutes_or_default, seconds_between, sort_score,
}
use fuzoj.Prelude.Assoc.{find, find_or, put}
use fuzoj.Prelude.Ids.{find_id, put_id}
use fuzoj.Prelude.Text.{
  is_blank, parse_int64, drop_spaces, is_space, lower, parse_digits, parse_natural, parse_signed,
  signed, to_lower, trim_space,
}
use fuzoj.Prelude.Int.{◌-ℤ◌, to_int64}
use fuzoj.Prelude.Text.{is_blank, to_lower}
use fuzoj.Prelude.{
  ℕ, ◌+◌, ◌*◌, ◌≡◌, ◌↔◌, ◌<◌, ◌⊎◌, refl, zero, suc, [], ◌∷◌, true, false, none, some, str_eq_iff,
  arith,
}
use fuzoj.Prelude.Int.{pos, ◌<ℤ◌}
use fuzoj.Prelude.Assoc.{find_or, find}
use fuzoj.Prelude.Ids.{find_id}
use fuzoj.Contest.Score.{sort_score}
use fuzoj.Contest.Score.Order.{sort_score_iff}
use fuzoj.Contest.Eligibility.{
  ContestMeta, Repositories, found, Request, check, result_from_code, success, check_contest,
  can_submit_by_contest_status, check_problem, check_participant, is_participant_eligible,
}
use fuzoj.Contest.Final.{JudgeStatus, ContestRows, no_rows, Texts, transact, is_accepted}
use fuzoj.Contest.Final.Handle.{StatusEvent, World, Faults, Setting, Attempt, handle_event, consume}
use fuzoj.Contest.Final.Consistent.{Consistent}
use fuzoj.Contest.Final.Retry.{problem_row, Counted, transact-transact}
use fuzoj.Contest.Final.Handlers.{handle_event-run}
use fuzoj.Contest.Final.Once.{handle_event-HandlerRun}
use fuzoj.Contest.Final.Race.{
  Transaction, Tables, no_tables, commit_result, write_result, read_member, pull, begins, commits,
  Reach, here, next, IsApart,
}
use fuzoj.Contest.Final.Race.Apart.{Reach-Consistent}
use fuzoj.Contest.Final.Race.Lost.{member_of, has_solved, ac_count_of, commit_result-loses}

abbrev second : ℕ
second = 1_000_000_000

abbrev meta : ContestMeta
meta = record {
  status = "running";
  start_at = some (1000 * second);
  end_at = some (8200 * second);
  penalty_minutes = pos 20;
}

abbrev repos : Repositories
repos = record {
  contest = λ id. found meta;
  problem = λ id p. found true;
  participant = λ id u. found "registered";
}

abbrev result : JudgeStatus
result = record {
  submission_id = "s1";
  contest_id = "c1";
  user_id = "7";
  problem_id = pos 3;
  status = "Finished";
  verdict = "WA";
  received_at = pos 0;
  finished_at = pos 1300;
  created_at = pos 1200;
}

abbrev texts : Texts
texts = record {
  duplicate_key = "contest_rank_outbox_event_key_uq";
  marshal = λ d. "{}";
  print = λ n. "1";
}

abbrev event : StatusEvent
event = record { is_final = true; status = result; created_at = pos 1301 }

abbrev setting : Setting
setting = record {
  repos = repos;
  texts = texts;
  options = record { message_ttl = 600 * second; max_retries = 1; dead_letter = false };
}

abbrev no_faults : Faults
no_faults = record {
  set_key = false;
  clear_key = false;
  transaction = false;
  status_writer = false;
}

abbrev writer_fails : Faults
writer_fails = record {
  set_key = false;
  clear_key = false;
  transaction = false;
  status_writer = true;
}

abbrev empty : World
empty = record { contests = []; idempotency = [] }

-- The first attempt's status writer fails.
abbrev attempts : ℕ → Attempt
attempts zero = record { faults = writer_fails; now = 1302 * second }
attempts (suc n) = record { faults = no_faults; now = 1303 * second }

abbrev consumed_world : World
consumed_world = (consume setting attempts false empty (some event)).1

twice_wrong : (problem_row (find_or consumed_world.contests "c1" no_rows) "7" 3).wrong_count ≡ 2
unfolding consume consume_from handle handle_event is_incomplete is_expired has_key clear_key
    finish_key process_user after_check record_result commit finished_at_of submission_time
    count_result detail_of enqueue enqueue_fails has_event is_accepted is_solved next_member
    next_state next_summary rank_update transact unix_time check check_contest check_problem
    check_participant can_submit_by_contest_status is_participant_eligible icpc_penalty_with_minutes
    penalty_minutes_or_default seconds_between sort_score find find_or put find_id put_id is_blank
    parse_int64 drop_spaces is_space lower parse_digits parse_natural parse_signed signed to_lower
    trim_space ◌-ℤ◌
twice_wrong = refl

sort_score_iff_example :
    let (a, b) : ℕ × ℕ = (2, 3) in
    (sort_score a 9000 <ℤ sort_score b 12000) ↔ ((a < b) ⊎ ((a ≡ b) × (12000 < 9000)))
sort_score_iff_example =
    sort_score_iff 2 3 9000 12000 (omega arith) (omega arith) (omega arith) (omega arith)

abbrev request : Request
request = record {
  contest_id = "c1";
  user_id = pos 7;
  problem_id = pos 3;
  now = some (1200 * second);
}

eligible : check repos 0 request ≡ result_from_code success
unfolding check is_blank check_contest can_submit_by_contest_status check_problem check_participant
    is_participant_eligible
eligible = refl

-- Another participant's result, and an accepted one of the first participant, of another problem.
abbrev of_another : JudgeStatus
of_another = record result { submission_id = "s2"; user_id = "8" }

abbrev accepted : JudgeStatus
accepted = record result { verdict = "AC" }

abbrev accepted_too : JudgeStatus
accepted_too = record result { submission_id = "s3"; problem_id = pos 4; verdict = "AC" }

abbrev transaction_of : JudgeStatus → Transaction
transaction_of s = record {
  status = s;
  meta = meta;
  now = 1302 * second;
  submitted_at = 1200 * second;
  finished_at = pos 1300;
  read = record { problems = []; summary = none };
}

-- The transactions of two participants overlap, and both commit.
abbrev first_read : Transaction
first_read = read_member (transaction_of accepted) no_rows

abbrev other_read : Transaction
other_read = read_member (transaction_of of_another) no_rows

abbrev first_rows : ContestRows
first_rows = write_result texts first_read no_rows

abbrev overlapped : Tables
overlapped = record { rows = write_result texts other_read first_rows; running = [] }

to_overlapped : Reach texts no_tables overlapped
unfolding pull commit_result is_solved find_id read_member find enqueue_fails has_event enqueue
to_overlapped =
    next
      (next
        (next (next here (begins (transaction_of accepted))) (begins (transaction_of of_another)))
        (commits 1 {t = first_read} {rest = other_read ∷ []} {rows = first_rows} refl refl))
      (commits 0 {t = other_read} {rest = []} {rows = overlapped.rows} refl refl)

Reach-Consistent_example : Consistent overlapped.rows
unfolding IsApart to_overlapped
Reach-Consistent_example =
    Reach-Consistent texts to_overlapped
      (((((tt, tt), (λ e. ground (arith, (str_eq_iff "7" "8").1 e), tt)), tt), tt))

-- Another event, whose status writer fails, comes between.
abbrev other_event : StatusEvent
other_event = record { is_final = true; status = of_another; created_at = pos 1301 }

abbrev once_handled : World
once_handled = (handle_event setting no_faults (1302 * second) empty event).1

abbrev later_world : World
later_world = (handle_event setting writer_fails (1350 * second) once_handled other_event).1

handle_event-HandlerRun_example :
    handle_event setting no_faults (1400 * second) later_world event ≡ (false, later_world)
unfolding consume consume_from handle handle_event is_incomplete is_expired has_key clear_key
    finish_key process_user after_check record_result commit finished_at_of submission_time
    count_result detail_of enqueue enqueue_fails has_event is_accepted is_solved next_member
    next_state next_summary rank_update transact unix_time check check_contest check_problem
    check_participant can_submit_by_contest_status is_participant_eligible icpc_penalty_with_minutes
    penalty_minutes_or_default seconds_between sort_score to_int64 find find_or put find_id put_id
    is_blank parse_int64 drop_spaces is_space lower parse_digits parse_natural parse_signed signed
    to_lower trim_space ◌-ℤ◌
handle_event-HandlerRun_example =
    handle_event-HandlerRun setting no_faults no_faults (1302 * second) (1400 * second) empty
      once_handled event [] (omega arith) refl refl tt
      (handle_event-run setting writer_fails (1350 * second) once_handled other_event [])

commit_result-loses_example :
    let s = transaction_of accepted in
    let t = transaction_of accepted_too in
    (once : ContestRows) × (twice : ContestRows) × (commit_result texts
        (read_member s no_rows)
        no_rows
      ≡ some once)
    × (commit_result texts (read_member t no_rows) once ≡ some twice)
    × ((has_solved (member_of twice "7") 3 ≡ true)
        × (has_solved (member_of twice "7") 4 ≡ true)
        × (ac_count_of (member_of twice "7") ≡ ac_count_of (member_of no_rows "7") + 1))
unfolding is_accepted to_lower is_solved find_id find has_event
commit_result-loses_example =
    commit_result-loses texts (transaction_of accepted) (transaction_of accepted_too) no_rows refl
      (omega arith) (λ e. ground (arith, (str_eq_iff "s1" "s3").1 e)) (refl, refl, refl)
      (refl, refl, refl)

transact-transact_example :
    (once : ContestRows) × (twice : ContestRows) × (transact texts meta
        (1302 * second)
        (1200 * second)
        (pos 1300)
        result
        no_rows
      ≡ some once)
    × (transact texts meta (1303 * second) (1200 * second) (pos 1300) result once ≡ some twice)
    × Counted result no_rows once
    × Counted result once twice
    × (has_event once.outbox "s1" (pos 1300) ≡ true)
    × (twice.outbox ≡ once.outbox)
unfolding find_id find has_event is_accepted to_lower lower
transact-transact_example =
    transact-transact texts meta (1302 * second) (1303 * second) (1200 * second) (pos 1300) result
      no_rows refl refl refl
