-- ===== src/Contest/Final/Retry.antt =====
-- A transaction of the final-status consumer that runs twice for one result.
use fuzoj.Prelude.{
  ℕ, ◌+◌, ◌≡◌, refl, ◌∙◌, List, [], ◌∷◌, ◌++◌, String, true, false, Option, none, some,
  if◌then◌else◌, str_eq, str_eq_refl, inl, inr, arith, Bool-cases,
}
use fuzoj.Prelude.Int.{ℤ, pos_part}
use fuzoj.Prelude.Ids.{find_id, find_id-put_id}
use fuzoj.Prelude.Assoc.{find, find-put}
use fuzoj.Contest.Eligibility.{ContestMeta}
use fuzoj.Contest.Final.{
  JudgeStatus, ProblemState, ContestRows, OutboxEntry, Texts, is_accepted, next_state, next_member,
  state_or_new, summary_or_new, member_or_new, rank_update, has_event, enqueue, enqueue_fails,
  count_result, is_solved, transact,
}

-- The row of a member's problem.
abbrev pub problem_row : ContestRows → String → ℕ → ProblemState
problem_row rows user problem =
    state_or_new (find_id (member_or_new (find rows.members user)).problems problem)

-- What counts another wrong attempt.
abbrev pub Counted : JudgeStatus → ContestRows → ContestRows → Type 0
Counted s before after =
    let user = s.user_id in
    let problem = pos_part s.problem_id in
    ((problem_row after user problem).wrong_count
      ≡ (problem_row before user problem).wrong_count + 1)
    × ((problem_row after user problem).solved ≡ (problem_row before user problem).solved)
    × (after.next_result ≡ before.next_result + 1)

count_result-Counted :
    (texts : Texts) (meta : ContestMeta) (now at : ℕ) (finished : ℤ) (s : JudgeStatus)
    (rows : ContestRows)
    → is_accepted s.verdict ≡ false
    → Counted s rows (count_result texts meta now at finished s rows)
unfolding count_result next_member next_state
count_result-Counted texts meta now at finished s rows h =
    let old = member_or_new (find rows.members s.user_id) in
    rw
      (find-put rows.members s.user_id s.user_id (next_member meta at s old), str_eq_refl s.user_id)
      (rw
        (find_id-put_id old.problems (pos_part s.problem_id) (pos_part s.problem_id)
          (next_state meta at s (state_or_new (find_id old.problems (pos_part s.problem_id)))))
        (ground arith))

is_solved-row : (o : Option ProblemState) → is_solved o ≡ (state_or_new o).solved
unfolding is_solved
is_solved-row none = refl
is_solved-row (some s) = refl

transact-unsolved :
    (texts : Texts) (meta : ContestMeta) (now at : ℕ) (finished : ℤ) (s : JudgeStatus)
    (rows : ContestRows)
    → (problem_row rows s.user_id (pos_part s.problem_id)).solved ≡ false
    → transact texts meta now at finished s rows ≡ (
        if enqueue_fails texts rows s.submission_id finished
        then none
        else some (count_result texts meta now at finished s rows))
unfolding transact
transact-unsolved texts meta now at finished s rows u =
    let m = member_or_new (find rows.members s.user_id) in
    rw (is_solved-row (find_id m.problems (pos_part s.problem_id)), u) refl

has_event-append :
    (es : List OutboxEntry) (e : OutboxEntry)
    → has_event (es ++ e ∷ []) e.submission_id e.finished_at ≡ true
unfolding has_event
has_event-append [] e = ground (arith, str_eq_refl e.submission_id)
has_event-append (x ∷ es) e = ground (arith, has_event-append es e)

-- An update whose key is there already leaves the outbox as it is.
has_event-enqueue :
    (es : List OutboxEntry) (e : OutboxEntry)
    → has_event (enqueue es e) e.submission_id e.finished_at ≡ true
unfolding enqueue
has_event-enqueue es e = elim (Bool-cases (has_event es e.submission_id e.finished_at)) [
  | inl y ↦ rw y y
  | inr n ↦ rw n (has_event-append es e)
]

enqueue-has_event :
    (es : List OutboxEntry) (e : OutboxEntry)
    → has_event es e.submission_id e.finished_at ≡ true
    → enqueue es e ≡ es
unfolding enqueue
enqueue-has_event es e h = rw h refl

count_result-outbox :
    (texts : Texts) (meta : ContestMeta) (now later at : ℕ) (finished : ℤ) (s : JudgeStatus)
    (rows : ContestRows)
    → let once = count_result texts meta now at finished s rows in
      (count_result texts meta later at finished s once).outbox ≡ once.outbox
unfolding count_result
count_result-outbox texts meta now later at finished s rows =
    let entry : ℕ → ContestRows → OutboxEntry = λ now rows. record {
      submission_id = s.submission_id;
      finished_at = finished;
      update = rank_update texts now s rows.next_result (
          summary_or_new
            (next_member meta at s (member_or_new (find rows.members s.user_id))).summary);
    } in
    let once = count_result texts meta now at finished s rows in
    enqueue-has_event once.outbox (entry later once)
      (has_event-enqueue rows.outbox (entry now rows))

count_result-has_event :
    (texts : Texts) (meta : ContestMeta) (now at : ℕ) (finished : ℤ) (s : JudgeStatus)
    (rows : ContestRows)
    → has_event (count_result texts meta now at finished s rows).outbox s.submission_id finished
      ≡ true
unfolding count_result
count_result-has_event texts meta now at finished s rows = has_event-enqueue rows.outbox (record {
  submission_id = s.submission_id;
  finished_at = finished;
  update = rank_update texts now s rows.next_result (
      summary_or_new (next_member meta at s (member_or_new (find rows.members s.user_id))).summary);
})

-- What becomes of a result that is not accepted, of a problem that is not solved, when its transaction
-- runs a second time. The first run, of a result that is not in the
-- outbox, adds a wrong attempt, takes a result id and enqueues its update. The second one fails if
-- the database reports a duplicate key under another name than the bare one, and else adds a second
-- wrong attempt and takes a second result id, while the outbox stays as it is.
pub transact-transact :
    (texts : Texts) (meta : ContestMeta) (now later at : ℕ) (finished : ℤ) (s : JudgeStatus)
    (rows : ContestRows)
    → is_accepted s.verdict ≡ false
    → (problem_row rows s.user_id (pos_part s.problem_id)).solved ≡ false
    → has_event rows.outbox s.submission_id finished ≡ false
    → (once : ContestRows) × (twice : ContestRows) × (transact texts meta now at finished s rows
        ≡ some once)
      × (transact texts meta later at finished s once ≡ (
          if str_eq texts.duplicate_key "contest_rank_outbox_event_key_uq"
          then some twice
          else none))
      × Counted s rows once
      × Counted s once twice
      × (has_event once.outbox s.submission_id finished ≡ true)
      × (twice.outbox ≡ once.outbox)
unfolding enqueue_fails
transact-transact texts meta now later at finished s rows h u n =
    let once = count_result texts meta now at finished s rows in
    let twice = count_result texts meta later at finished s once in
    let first = count_result-Counted texts meta now at finished s rows h in
    let second = count_result-Counted texts meta later at finished s once h in
    let there = count_result-has_event texts meta now at finished s rows in
    let ran = transact-unsolved texts meta now at finished s rows u in
    let again = transact-unsolved texts meta later at finished s once (first.1 ∙ u) in
    (
      once,
      twice,
      ground (arith, ran, n),
      ground (arith, again, there),
      first,
      second,
      there,
      count_result-outbox texts meta now later at finished s rows,
    )
