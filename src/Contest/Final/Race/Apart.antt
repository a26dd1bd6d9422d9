-- ===== src/Contest/Final/Race/Apart.antt =====
-- Transactions of different members do not disturb each other.
use fuzoj.Prelude.{
  ℕ, zero, suc, ◌≡◌, refl, sym, ap, subst, ◌∙◌, ◌⊎◌, List, [], ◌∷◌, String, some, inl, inr, arith,
  All, Bool-cases, Option-cases, str_eq_iff,
}
use fuzoj.Prelude.Int.{pos_part}
use fuzoj.Prelude.Ids.{find_id}
use fuzoj.Prelude.Assoc.{find, find-put}
use fuzoj.Contest.Final.{
  ContestRows, Texts, member_or_new, is_solved, enqueue_fails, next_member, count_result, transact,
}
use fuzoj.Contest.Final.Consistent.{Consistent, no_rows-Consistent, transact-Consistent}
use fuzoj.Contest.Final.Race.{
  Transaction, Tables, no_tables, upserts, write_result, commit_result, read_member, pull, Step,
  begins, commits, fails, Reach, here, next, IsOther, IsApartStep, IsApart,
}

-- The transaction has read what its member's rows are now.
abbrev IsFresh : ContestRows → Transaction → Type 0
IsFresh rows t = t.read ≡ member_or_new (find rows.members t.status.user_id)

-- A transaction whose reads still hold runs as if it were alone.
commit_result-transact :
    (texts : Texts) (t : Transaction) (rows : ContestRows)
    → commit_result texts (read_member t rows) rows
      ≡ transact texts t.meta t.now t.submitted_at t.finished_at t.status rows
unfolding commit_result transact write_result count_result upserts next_member read_member
commit_result-transact texts t rows = refl

read_member-IsFresh :
    (t : Transaction) (rows : ContestRows) → IsFresh rows t → read_member t rows ≡ t
unfolding read_member
read_member-IsFresh t rows h = ap (λ m. record t { read = m }) (sym h)

commit_result-Consistent :
    (texts : Texts) (t : Transaction) (rows after : ContestRows)
    → Consistent rows
    → IsFresh rows t
    → commit_result texts t rows ≡ some after
    → Consistent after
commit_result-Consistent texts t rows after c h e =
    transact-Consistent texts t.meta t.now t.submitted_at t.finished_at t.status rows after c (
      sym (commit_result-transact texts t rows)
      ∙ ap (λ t. commit_result texts t rows) (read_member-IsFresh t rows h)
      ∙ e)

-- It leaves the rows as they are, or writes its result.
commit_result-cases :
    (texts : Texts) (t : Transaction) (rows after : ContestRows)
    → commit_result texts t rows ≡ some after
    → (after ≡ rows) ⊎ (after ≡ write_result texts t rows)
unfolding commit_result
commit_result-cases texts t rows after e =
    elim (Bool-cases (is_solved (find_id t.read.problems (pos_part t.status.problem_id)))) [
      | inl solved ↦ elim (Option-cases t.read.summary) [
        | inl missing ↦ absurd (ground arith)
        | inr (summary, there) ↦ inl (ground arith)
      ]
      | inr unsolved ↦
          elim (Bool-cases (enqueue_fails texts rows t.status.submission_id t.finished_at)) [
            | inl refused ↦ absurd (ground arith)
            | inr sent ↦ inr (ground arith)
          ]
    ]

-- It writes the rows of its own member only.
write_result-others :
    (texts : Texts) (t : Transaction) (rows : ContestRows) (u : String)
    → ¬ (u ≡ t.status.user_id)
    → find (write_result texts t rows).members u ≡ find rows.members u
unfolding write_result
write_result-others texts t rows u other =
    rw (find-put) (ground (arith, str_eq_iff t.status.user_id u))

commit_result-others :
    (texts : Texts) (t : Transaction) (rows after : ContestRows) (u : String)
    → ¬ (u ≡ t.status.user_id)
    → commit_result texts t rows ≡ some after
    → find after.members u ≡ find rows.members u
commit_result-others texts t rows after u other e =
    elim (commit_result-cases texts t rows after e) [
      | inl same ↦ ap (λ r. find r.members u) same
      | inr wrote ↦ ap (λ r. find r.members u) wrote ∙ write_result-others texts t rows u other
    ]

-- Every open transaction is of a member of its own.
abbrev Distinct : List Transaction → Type 0
Distinct [] = Unit
Distinct (t ∷ ts) = IsOther t ts × Distinct ts

All-pull :
    (P : Transaction → Type 0) (i : ℕ) (ts : List Transaction) (t : Transaction)
    (rest : List Transaction)
    → pull i ts ≡ some (t, rest)
    → All P ts
    → P t × All P rest
unfolding pull
All-pull P i [] t rest e h = absurd (ground arith)
All-pull P zero (u ∷ us) t rest e (h, hs) =
    let same : u ≡ t = ground arith in
    let others : us ≡ rest = ground arith in (subst P same h, subst (All P) others hs)
All-pull P (suc i) (u ∷ us) t rest e (h, hs) = elim (Option-cases (pull i us)) [
  | inl q ↦ absurd (ground arith)
  | inr ((v, vs), q) ↦
      let same : v ≡ t = ground arith in
      let others : u ∷ vs ≡ rest = ground arith in
      let kept = All-pull P i us v vs q hs in
      (subst P same kept.0, subst (All P) others (h, kept.1))
]

Distinct-pull :
    (i : ℕ) (ts : List Transaction) (t : Transaction) (rest : List Transaction)
    → pull i ts ≡ some (t, rest)
    → Distinct ts
    → IsOther t rest × Distinct rest
unfolding pull
Distinct-pull i [] t rest e h = absurd (ground arith)
Distinct-pull zero (u ∷ us) t rest e h =
    let same : u ≡ t = ground arith in
    let others : us ≡ rest = ground arith in
    subst (λ t. IsOther t rest × Distinct rest) same
      (subst (λ r. IsOther u r × Distinct r) others h)
Distinct-pull (suc i) (u ∷ us) t rest e (h, hs) = elim (Option-cases (pull i us)) [
  | inl q ↦ absurd (ground arith)
  | inr ((v, vs), q) ↦
      let same : v ≡ t = ground arith in
      let others : u ∷ vs ≡ rest = ground arith in
      let (apart, distinct) = Distinct-pull i us v vs q hs in
      let (head, tail) = All-pull (λ o. ¬ (o.status.user_id ≡ u.status.user_id)) i us v vs q h in
      subst (λ t. IsOther t rest × Distinct rest) same
        (subst (λ r. IsOther v r × Distinct r) others
          ((λ x. head (sym x), apart), (tail, distinct)))
]

-- What holds between the steps.
abbrev IsSound : Tables → Type 0
IsSound w = Consistent w.rows × All (IsFresh w.rows) w.running × Distinct w.running

-- A commit leaves the reads of other members' transactions true.
IsFresh-commit :
    (texts : Texts) (t : Transaction) (rows after : ContestRows) (ts : List Transaction)
    → commit_result texts t rows ≡ some after
    → IsOther t ts
    → All (IsFresh rows) ts
    → All (IsFresh after) ts
IsFresh-commit texts t rows after [] e h k = tt
IsFresh-commit texts t rows after (u ∷ us) e (h, hs) (k, ks) = (
  k ∙ ap member_or_new (sym (commit_result-others texts t rows after u.status.user_id h e)),
  IsFresh-commit texts t rows after us e hs ks,
)

Step-IsSound :
    (texts : Texts) {w v : Tables} (s : Step texts w v) → IsApartStep s → IsSound w → IsSound v
unfolding IsApartStep read_member
Step-IsSound texts {w} (begins t) apart (c, fresh, distinct) = (c, (refl, fresh), (apart, distinct))
Step-IsSound texts {w} (commits i {t} {rest} {rows} p e) apart (c, fresh, distinct) =
    let (mine, others) = All-pull (IsFresh w.rows) i w.running t rest p fresh in
    let (other, still) = Distinct-pull i w.running t rest p distinct in
    (
      commit_result-Consistent texts t w.rows rows c mine e,
      IsFresh-commit texts t w.rows rows rest e other others,
      still,
    )
Step-IsSound texts {w} (fails i {t} {rest} p) apart (c, fresh, distinct) = (
  c,
  (All-pull (IsFresh w.rows) i w.running t rest p fresh).1,
  (Distinct-pull i w.running t rest p distinct).1,
)

Reach-IsSound : (texts : Texts) {w : Tables} (r : Reach texts no_tables w) → IsApart r → IsSound w
unfolding IsApart
Reach-IsSound texts here apart = (no_rows-Consistent, tt, tt)
Reach-IsSound texts (next r s) (apart, step) =
    Step-IsSound texts s step (Reach-IsSound texts r apart)

-- However the transactions of a contest's results interleave, and whichever of them fail, as long as none
-- begins while another one of its member is open, the contest's rows stay consistent: a member's summary
-- counts the solved problems and adds up their penalties, its detail says of each problem what the
-- row says, a member without a summary has no rows, and the result ids of the outbox go up and stay
-- below the next one.
pub Reach-Consistent :
    (texts : Texts) {w : Tables} (r : Reach texts no_tables w) → IsApart r → Consistent w.rows
Reach-Consistent texts r apart = (Reach-IsSound texts r apart).0
