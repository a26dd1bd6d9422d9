-- ===== src/Contest/Final/Race/Lost.antt =====
-- Two accepted results of one member whose transactions overlap.
use fuzoj.Prelude.{
  ℕ, ◌+◌, ◌≡◌, refl, ◌∙◌, ap, List, [], ◌∷◌, ◌++◌, String, Bool, true, false, some, str_eq_refl,
  str_eq_iff, inl, inr, Bool-cases, ◌==◌, arith,
}
use fuzoj.Prelude.Int.{ℤ, pos_part}
use fuzoj.Prelude.Ids.{find_id, find_id-put_id}
use fuzoj.Prelude.Assoc.{find, find-put}
use fuzoj.Contest.Final.{
  MemberRows, OutboxEntry, ContestRows, Texts, is_accepted, next_state, next_summary, has_event,
  enqueue, enqueue_fails, is_solved, summary_or_new, member_or_new,
}
use fuzoj.Contest.Final.Race.{Transaction, upserts, write_result, commit_result, read_member}

-- The rows of a member, whether it has solved a problem, and how many its summary counts.
abbrev pub member_of : ContestRows → String → MemberRows
member_of rows user = member_or_new (find rows.members user)

abbrev pub has_solved : MemberRows → ℕ → Bool
has_solved m problem = is_solved (find_id m.problems problem)

abbrev pub ac_count_of : MemberRows → ℕ
ac_count_of m = (summary_or_new m.summary).ac_count

==-refl : (n : ℕ) → (n == n) ≡ true
==-refl n = ground arith

-- A result that its transaction counts: it is accepted, the problem is not solved in what is read, and its
-- update is not in the outbox.
abbrev pub Counts : Transaction → ContestRows → Type 0
Counts t rows =
    (is_accepted t.status.verdict ≡ true)
    × (has_solved (member_of rows t.status.user_id) (pos_part t.status.problem_id) ≡ false)
    × (has_event rows.outbox t.status.submission_id t.finished_at ≡ false)

commit_result-write :
    (texts : Texts) (t : Transaction) (rows : ContestRows)
    → has_solved t.read (pos_part t.status.problem_id) ≡ false
    → has_event rows.outbox t.status.submission_id t.finished_at ≡ false
    → commit_result texts t rows ≡ some (write_result texts t rows)
unfolding commit_result enqueue_fails
commit_result-write texts t rows u n = rw (u, n) refl

member_of-write_result :
    (texts : Texts) (t : Transaction) (rows : ContestRows)
    → member_of (write_result texts t rows) t.status.user_id
      ≡ upserts t (member_of rows t.status.user_id)
unfolding write_result
member_of-write_result texts t rows = rw (find-put, str_eq_refl t.status.user_id) refl

upserts-solves :
    (t : Transaction) (m : MemberRows)
    → is_accepted t.status.verdict ≡ true
    → has_solved (upserts t m) (pos_part t.status.problem_id) ≡ true
unfolding upserts is_solved next_state
upserts-solves t m h = rw (find_id-put_id, h, ==-refl (pos_part t.status.problem_id)) refl

upserts-keeps :
    (t : Transaction) (m : MemberRows) (problem : ℕ)
    → ¬ (pos_part t.status.problem_id ≡ problem)
    → has_solved (upserts t m) problem ≡ has_solved m problem
unfolding upserts
upserts-keeps t m problem other =
    let apart : (pos_part t.status.problem_id == problem) ≡ false = ground arith in
    rw (find_id-put_id, apart) refl

ac_count_of-upserts :
    (t : Transaction) (m : MemberRows)
    → is_accepted t.status.verdict ≡ true
    → ac_count_of (upserts t m) ≡ ac_count_of t.read + 1
unfolding upserts next_summary
ac_count_of-upserts t m h = rw h refl

-- An update of another submission does not bring the event's key into the outbox.
has_event-enqueue-other :
    (es : List OutboxEntry) (e : OutboxEntry) (submission : String) (finished : ℤ)
    → ¬ (e.submission_id ≡ submission)
    → has_event es submission finished ≡ false
    → has_event (enqueue es e) submission finished ≡ false
unfolding enqueue has_event
has_event-enqueue-other es e submission finished other n =
    elim (Bool-cases (has_event es e.submission_id e.finished_at)) [
      | inl y ↦ rw y n
      | inr k ↦ rw k (appended es n)
    ]
  where
    appended :
        (es : List OutboxEntry)
        → has_event es submission finished ≡ false
        → has_event (es ++ e ∷ []) submission finished ≡ false
    appended [] n = ground (arith, str_eq_iff e.submission_id submission)
    appended (x ∷ es) n = ground (arith, appended es)

has_event-write_result :
    (texts : Texts) (t : Transaction) (rows : ContestRows) (submission : String) (finished : ℤ)
    → ¬ (t.status.submission_id ≡ submission)
    → has_event rows.outbox submission finished ≡ false
    → has_event (write_result texts t rows).outbox submission finished ≡ false
unfolding write_result
has_event-write_result texts t rows submission finished other n =
    has_event-enqueue-other rows.outbox _ submission finished other n

-- The second of two transactions that have both read the tables before either writes counts its own
-- result only. Where two accepted results of one member, of two problems that it has not solved, are
-- taken from tables whose outbox has neither update, both transactions commit, and then both problems
-- are solved, while the member's summary counts one problem more than at first.
pub commit_result-loses :
    (texts : Texts) (s t : Transaction) (rows : ContestRows)
    → t.status.user_id ≡ s.status.user_id
    → ¬ (pos_part t.status.problem_id ≡ pos_part s.status.problem_id)
    → ¬ (s.status.submission_id ≡ t.status.submission_id)
    → Counts s rows
    → Counts t rows
    → (once : ContestRows) × (twice : ContestRows) × (commit_result texts (read_member s rows) rows
        ≡ some once)
      × (commit_result texts (read_member t rows) once ≡ some twice)
      × let after = member_of twice t.status.user_id in
        (has_solved after (pos_part s.status.problem_id) ≡ true)
        × (has_solved after (pos_part t.status.problem_id) ≡ true)
        × (ac_count_of after ≡ ac_count_of (member_of rows t.status.user_id) + 1)
unfolding read_member
commit_result-loses texts s t rows same other apart (s_ac, s_open, s_new) (t_ac, t_open, t_new) =
    let s' = read_member s rows in
    let t' = read_member t rows in
    let user = t.status.user_id in
    let once = write_result texts s' rows in
    let twice = write_result texts t' once in
    let before : member_of once user ≡ upserts s' (member_of rows s.status.user_id) =
      ap (member_of once) same ∙ member_of-write_result texts s' rows in
    let after : member_of twice user ≡ upserts t' (member_of once user) =
      member_of-write_result texts t' once in
    let still =
      has_event-write_result texts s' rows t.status.submission_id t.finished_at apart t_new in
    (
      once,
      twice,
      commit_result-write texts s' rows s_open s_new,
      commit_result-write texts t' once t_open still,
      (
        ap (λ m. has_solved m (pos_part s.status.problem_id)) after
            ∙ upserts-keeps t' (member_of once user) (pos_part s.status.problem_id) other
            ∙ ap (λ m. has_solved m (pos_part s.status.problem_id)) before
            ∙ upserts-solves s' (member_of rows s.status.user_id) s_ac,
        ap (λ m. has_solved m (pos_part t.status.problem_id)) after
            ∙ upserts-solves t' (member_of once user) t_ac,
        ap ac_count_of after ∙ ac_count_of-upserts t' (member_of once user) t_ac,
      ),
    )
