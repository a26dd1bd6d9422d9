-- ===== src/Contest/Final/Consistent.antt =====
-- What stays true of the rows that the final-status consumer keeps: a member's summary and its
-- problem rows say the same, and the outbox numbers its updates.
use fuzoj.Prelude.{
  ℕ, ◌+◌, ◌<◌, ◌≡◌, refl, subst, List, [], ◌∷◌, ◌++◌, String, false, Option, none, some,
  if◌then◌else◌, ◌==◌, inl, inr, arith, sum_by, All, Bool-cases, Option-cases,
}
use fuzoj.Prelude.Int.{ℤ, pos_part}
use fuzoj.Prelude.Ids.{Ids, find_id, put_id, part, find_id-put_id, sum_by-put_id}
use fuzoj.Prelude.Assoc.{Assoc, find, All-put, All-find}
use fuzoj.Contest.Eligibility.{ContestMeta}
use fuzoj.Contest.Final.{
  JudgeStatus, ProblemState, ProblemDetail, MemberSummary, no_summary, MemberRows, OutboxEntry,
  ContestRows, no_rows, Texts, is_accepted, next_state, detail_of, next_summary, state_or_new,
  summary_or_new, member_or_new, next_member, rank_update, has_event, enqueue, enqueue_fails,
  count_result, is_solved, transact,
}

abbrev pub solved_one : ProblemState → ℕ
solved_one s = if s.solved then 1 else 0

abbrev pub solved_penalty : ProblemState → ℕ
solved_penalty s = if s.solved then s.penalty else 0

-- A row of a problem and what the member's detail says of the problem.
abbrev pub SameProblem : Option ProblemState → Option ProblemDetail → Type 0
SameProblem none none = Unit
SameProblem none (some d) = ⊥
SameProblem (some s) none = ⊥
SameProblem (some s) (some d) = d ≡ detail_of d.verdict s

-- The summary of problem rows: their number that is solved, the sum of their penalties, and
-- each one's detail.
abbrev pub Summarizes : Ids ProblemState → MemberSummary → Type 0
Summarizes rows s =
    (s.ac_count ≡ sum_by (λ e. solved_one e.1) rows)
    × (s.score_total ≡ s.ac_count)
    × (s.penalty_total ≡ sum_by (λ e. solved_penalty e.1) rows)
    × ((k : ℕ) → SameProblem (find_id rows k) (find_id s.detail k))

abbrev pub MemberConsistent : MemberRows → Type 0
MemberConsistent m =
    ((m.summary ≡ none) → m.problems ≡ [])
    × ((s : MemberSummary) → m.summary ≡ some s → Summarizes m.problems s)

-- The updates are numbered upward, from a number on, and below the next one.
abbrev pub NumberedFrom : ℕ → List OutboxEntry → ℕ → Type 0
NumberedFrom lo [] next = lo < next
NumberedFrom lo (e ∷ es) next = (lo < e.update.result_id) × NumberedFrom e.update.result_id es next

abbrev pub Consistent : ContestRows → Type 0
Consistent rows =
    All (λ e. MemberConsistent e.1) rows.members × NumberedFrom 0 rows.outbox rows.next_result

pub no_rows-Consistent : Consistent no_rows
no_rows-Consistent = (tt, omega arith)

Summarizes-none : Summarizes [] no_summary
unfolding find_id
Summarizes-none = (refl, refl, refl, λ k. tt)

-- The rows of a member before a result, and its summary.
summary_or_new-Summarizes :
    (m : MemberRows) → MemberConsistent m → Summarizes m.problems (summary_or_new m.summary)
summary_or_new-Summarizes m (h, g) = elim (Option-cases m.summary) [
  | inl e ↦ rw (e, h e) Summarizes-none
  | inr (s, e) ↦ rw e (g s e)
]

-- A problem that is not solved adds nothing to either sum.
unsolved_parts :
    (o : Option ProblemState)
    → is_solved o ≡ false
    → (part solved_one o ≡ 0) × (part solved_penalty o ≡ 0) × ((state_or_new o).solved ≡ false)
unfolding is_solved
unsolved_parts none h = (refl, refl, refl)
unsolved_parts (some w) h = (ground arith, ground arith, h)

-- The row that a result makes, and its parts of the sums.
next_state_parts :
    (meta : ContestMeta) (at : ℕ) (s : JudgeStatus) (old : ProblemState)
    → old.solved ≡ false
    → (solved_one (next_state meta at s old) ≡ (if is_accepted s.verdict then 1 else 0))
      × (solved_penalty (next_state meta at s old)
          ≡ (if is_accepted s.verdict then (next_state meta at s old).penalty else 0))
unfolding next_state
next_state_parts meta at s old h = (ground arith, ground arith)

SameProblem-put :
    (rows : Ids ProblemState) (detail : Ids ProblemDetail) (p : ℕ) (verdict : String)
    (st : ProblemState)
    → ((k : ℕ) → SameProblem (find_id rows k) (find_id detail k))
    → (k : ℕ)
    → SameProblem
        (find_id (put_id rows p st) k)
        (find_id (put_id detail p (detail_of verdict st)) k)
unfolding detail_of
SameProblem-put rows detail p verdict st h k =
    rw (find_id-put_id rows p k st, find_id-put_id detail p k (detail_of verdict st))
      (elim (Bool-cases (p == k)) [ inl e ↦ rw e refl | inr e ↦ rw e (h k) ])

next_summary-Summarizes :
    (meta : ContestMeta) (at p : ℕ) (s : JudgeStatus) (rows : Ids ProblemState)
    (summary : MemberSummary)
    → Summarizes rows summary
    → is_solved (find_id rows p) ≡ false
    → let st = next_state meta at s (state_or_new (find_id rows p)) in
      Summarizes (put_id rows p st) (next_summary p s st summary)
unfolding next_summary
next_summary-Summarizes meta at p s rows summary (ac, score, penalty, detail) h =
    let old = state_or_new (find_id rows p) in
    let st = next_state meta at s old in
    let (one, cost, unsolved) = unsolved_parts (find_id rows p) h in
    let (one', cost') = next_state_parts meta at s old unsolved in
    let ones = sum_by-put_id solved_one rows p st in
    let costs = sum_by-put_id solved_penalty rows p st in
    (
      ground (arith, one, cost, one', cost', ones, costs, ac, score, penalty),
      ground (arith, score),
      ground (arith, one, cost, one', cost', ones, costs, ac, score, penalty),
      SameProblem-put rows summary.detail p s.verdict st detail,
    )

member_or_new-MemberConsistent :
    (all : Assoc MemberRows) (user : String)
    → All (λ e. MemberConsistent e.1) all
    → MemberConsistent (member_or_new (find all user))
member_or_new-MemberConsistent all user h = elim (Option-cases (find all user)) [
  | inl e ↦ rw e (λ q. refl, λ s q. absurd (ground arith))
  | inr (m, e) ↦ rw e (All-find MemberConsistent all user m h e)
]

next_member-MemberConsistent :
    (meta : ContestMeta) (at : ℕ) (s : JudgeStatus) (m : MemberRows)
    → MemberConsistent m
    → is_solved (find_id m.problems (pos_part s.problem_id)) ≡ false
    → MemberConsistent (next_member meta at s m)
unfolding next_member
next_member-MemberConsistent meta at s m h u = (
  λ q. absurd (ground arith),
  λ t q.
      let state =
        next_state meta at s (state_or_new (find_id m.problems (pos_part s.problem_id))) in
      let summary = next_summary (pos_part s.problem_id) s state (summary_or_new m.summary) in
      let same : summary ≡ t = ground arith in
      subst (λ t. Summarizes (put_id m.problems (pos_part s.problem_id) state) t) same
        (next_summary-Summarizes meta at (pos_part s.problem_id) s m.problems
          (summary_or_new m.summary) (summary_or_new-Summarizes m h) u),
)

NumberedFrom-weaken :
    (lo : ℕ) (es : List OutboxEntry) (next : ℕ)
    → NumberedFrom lo es next
    → NumberedFrom lo es (next + 1)
NumberedFrom-weaken lo [] next h = omega arith
NumberedFrom-weaken lo (e ∷ es) next h = (h.0, NumberedFrom-weaken e.update.result_id es next h.1)

NumberedFrom-append :
    (lo : ℕ) (es : List OutboxEntry) (next : ℕ) (e : OutboxEntry)
    → NumberedFrom lo es next
    → e.update.result_id ≡ next
    → NumberedFrom lo (es ++ e ∷ []) (next + 1)
NumberedFrom-append lo [] next e h q = (omega arith, omega arith)
NumberedFrom-append lo (x ∷ es) next e h q =
    (h.0, NumberedFrom-append x.update.result_id es next e h.1 q)

NumberedFrom-enqueue :
    (es : List OutboxEntry) (next : ℕ) (e : OutboxEntry)
    → NumberedFrom 0 es next
    → e.update.result_id ≡ next
    → NumberedFrom 0 (enqueue es e) (next + 1)
unfolding enqueue
NumberedFrom-enqueue es next e h q =
    elim (Bool-cases (has_event es e.submission_id e.finished_at)) [
      | inl y ↦ rw y (NumberedFrom-weaken 0 es next h)
      | inr y ↦ rw y (NumberedFrom-append 0 es next e h q)
    ]

count_result-Consistent :
    (texts : Texts) (meta : ContestMeta) (now at : ℕ) (finished : ℤ) (s : JudgeStatus)
    (rows : ContestRows)
    → Consistent rows
    → is_solved
        (find_id (member_or_new (find rows.members s.user_id)).problems (pos_part s.problem_id))
      ≡ false
    → Consistent (count_result texts meta now at finished s rows)
unfolding count_result rank_update
count_result-Consistent texts meta now at finished s rows (members, outbox) u =
    let old = member_or_new (find rows.members s.user_id) in
    let new = next_member meta at s old in
    (
      All-put MemberConsistent rows.members s.user_id new members (
          next_member-MemberConsistent meta at s old
            (member_or_new-MemberConsistent rows.members s.user_id members) u),
      NumberedFrom-enqueue rows.outbox rows.next_result
          (record {
            submission_id = s.submission_id;
            finished_at = finished;
            update = rank_update texts now s rows.next_result (summary_or_new new.summary);
          })
          outbox refl,
    )

-- A transaction that is not rolled back keeps the rows consistent.
pub transact-Consistent :
    (texts : Texts) (meta : ContestMeta) (now at : ℕ) (finished : ℤ) (s : JudgeStatus)
    (rows after : ContestRows)
    → Consistent rows
    → transact texts meta now at finished s rows ≡ some after
    → Consistent after
unfolding transact
transact-Consistent texts meta now at finished s rows after h e =
    let m = member_or_new (find rows.members s.user_id) in
    elim (Bool-cases (is_solved (find_id m.problems (pos_part s.problem_id)))) [
      | inl y ↦ let same : rows ≡ after = ground arith in subst Consistent same h
      | inr n ↦ elim (Bool-cases (enqueue_fails texts rows s.submission_id finished)) [
        | inl y ↦ absurd (ground arith)
        | inr m ↦
            let same : count_result texts meta now at finished s rows ≡ after = ground arith in
            subst Consistent same (count_result-Consistent texts meta now at finished s rows h n)
      ]
    ]
