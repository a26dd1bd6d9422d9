-- ===== src/Contest/Final/Race.antt =====
-- The transactions of judge_status_final_consumer.go as they interleave: the consumer's processors handle
-- messages at the same time. A transaction reads its member's rows by plain selects, which see the
-- tables as they are at the first of them (InnoDB's repeatable read), and later upserts the values that
-- it has made of them. The upserts lock their rows until the commit, the next result id is read
-- under a lock, and the key of the outbox is tested on its present rows, so what a transaction
-- writes is one step.
pub mod Apart
pub mod Lost
use fuzoj.Prelude.{ℕ, zero, suc, ◌≡◌, List, [], ◌∷◌, Option, none, some, if◌then◌else◌, All}
use fuzoj.Prelude.Int.{ℤ, pos_part}
use fuzoj.Prelude.Ids.{find_id, put_id}
use fuzoj.Prelude.Assoc.{find, put}
use fuzoj.Contest.Eligibility.{ContestMeta}
use fuzoj.Contest.Final.{
  JudgeStatus, MemberRows, ContestRows, no_rows, Texts, next_state, next_summary, state_or_new,
  summary_or_new, member_or_new, rank_update, enqueue, next_result_id, enqueue_fails, is_solved,
}

-- A transaction that is open: its result, the contest's meta data, the times that it uses, and what it has
-- read of its member.
pub record Transaction : Type 0 where
  pub status : JudgeStatus
  pub meta : ContestMeta
  pub now : ℕ
  pub submitted_at : ℕ
  pub finished_at : ℤ
  pub read : MemberRows

-- A contest's tables, and the open transactions.
pub record Tables : Type 0 where
  pub rows : ContestRows
  pub running : List Transaction

abbrev pub no_tables : Tables
no_tables = record { rows = no_rows; running = [] }

-- The two upserts, of values made of what was read, onto the rows that are there.
unfoldable pub upserts : Transaction → MemberRows → MemberRows
upserts t there =
    let problem = pos_part t.status.problem_id in
    let state =
      next_state t.meta t.submitted_at t.status (state_or_new (find_id t.read.problems problem)) in
    record {
      problems = put_id there.problems problem state;
      summary = some (next_summary problem t.status state (summary_or_new t.read.summary));
    }

-- What the transaction writes past the test for a solved problem.
unfoldable pub write_result : Texts → Transaction → ContestRows → ContestRows
unfolding next_result_id upserts
write_result texts t rows =
    let member = upserts t (member_or_new (find rows.members t.status.user_id)) in
    let (id, next) = next_result_id rows in
    record {
      members = put rows.members t.status.user_id member;
      next_result = next;
      outbox = enqueue rows.outbox (record {
        submission_id = t.status.submission_id;
        finished_at = t.finished_at;
        update = rank_update texts t.now t.status id (summary_or_new member.summary);
      });
    }

-- The rest of the transaction after its reads; `none` is an error, which rolls it back.
unfoldable pub commit_result : Texts → Transaction → ContestRows → Option ContestRows
unfolding write_result
commit_result texts t rows =
    if is_solved (find_id t.read.problems (pos_part t.status.problem_id))
    then elim t.read.summary [ none ↦ none | some summary ↦ some rows ]
    else if enqueue_fails texts rows t.status.submission_id t.finished_at
    then none
    else some (write_result texts t rows)

-- The reads.
unfoldable pub read_member : Transaction → ContestRows → Transaction
read_member t rows = record t { read = member_or_new (find rows.members t.status.user_id) }

-- The `i`-th of the open transactions, and the others.
unfoldable pub pull : ℕ → List Transaction → Option (Transaction × List Transaction)
pull i [] = none
pull zero (t ∷ ts) = some (t, ts)
pull (suc i) (t ∷ ts) = elim (pull i ts) [ none ↦ none | some (u, us) ↦ some (u, t ∷ us) ]

-- A transaction reads, writes and commits, or fails at any point and is rolled back.
pub data Step (texts : Texts) (w : Tables) : Tables → Type 0 where
  begins :
      (t : Transaction) → Step texts w (record w { running = read_member t w.rows ∷ w.running })
  commits :
      (i : ℕ) {t : Transaction} {rest : List Transaction} {rows : ContestRows}
      → pull i w.running ≡ some (t, rest)
      → commit_result texts t w.rows ≡ some rows
      → Step texts w (record { rows = rows; running = rest })
  fails :
      (i : ℕ) {t : Transaction} {rest : List Transaction}
      → pull i w.running ≡ some (t, rest)
      → Step texts w (record w { running = rest })

-- Any interleaving.
pub data Reach (texts : Texts) (w : Tables) : Tables → Type 0 where
  here : Reach texts w w
  next : {v u : Tables} → Reach texts w v → Step texts v u → Reach texts w u

-- No open transaction is of the member of another one.
abbrev pub IsOther : Transaction → List Transaction → Type 0
IsOther t running = All (λ o. ¬ (o.status.user_id ≡ t.status.user_id)) running

-- The step does not begin a transaction of a member that has an open one; and no step of a run does.
unfoldable pub IsApartStep : {texts : Texts} {w v : Tables} → Step texts w v → Type 0
IsApartStep {w = w} (begins t) = IsOther t w.running
IsApartStep (commits i p c) = Unit
IsApartStep (fails i p) = Unit

unfoldable pub IsApart : {texts : Texts} {w v : Tables} → Reach texts w v → Type 0
unfolding IsApartStep
IsApart here = Unit
IsApart (next r s) = IsApart r × IsApartStep s
