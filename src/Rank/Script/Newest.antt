-- ===== src/Rank/Script/Newest.antt =====
-- What the loop leaves for a member: its newest row, or what was there before.
use fuzoj.Prelude.{
  ◌≤◌, ◌<◌, ◌≡◌, refl, sym, ◌∙◌, List, [], ◌∷◌, String, true, false, ◌⊎◌, inl, inr, some, arith,
  str_eq, str_eq_iff, All, Among, Bool-cases, subst, ap,
}
use fuzoj.Prelude.Assoc.{find}
use fuzoj.Rank.Event.{Member, member_of}
use fuzoj.Rank.Script.{Row, Run, should_apply, write_member, applies, step, loop}
use fuzoj.Rank.Script.Redelivery.{
  member-step, score-step, Dominates, step-Dominates, loop-Dominates,
}

-- Every row has a result id, as those of a contest do, and names a member.
abbrev pub Numbered : List Row → Type 0
Numbered = All (λ r. (0 < r.result_id) × (str_eq r.member_id "" ≡ false))

-- The hash and the score of member `m` are as before, or those of a row of it that was newer.
abbrev pub Outcome : Run → List Row → Run → String → Type 0
Outcome s rows t m =
    ((member_of t.members m ≡ member_of s.members m) × (find t.scores m ≡ find s.scores m))
    ⊎ ((r : Row) × Among r rows
        × (r.member_id ≡ m)
        × ((member_of s.members m).result_id < r.result_id)
        × ((member_of t.members m).result_id ≡ r.result_id)
        × ((member_of t.members m).summary ≡ r.summary)
        × (find t.scores m ≡ some r.sort_score))

-- No row of member `m` is newer than its hash after the batch, and that is the outcome.
abbrev pub Newest : Run → List Row → Run → String → Type 0
Newest s rows t m =
    ((r : Row) → Among r rows → r.member_id ≡ m → r.result_id ≤ (member_of t.members m).result_id)
    × Outcome s rows t m

newer :
    (m : Member) (row : Row)
    → 0 < row.result_id
    → should_apply false m row ≡ true
    → m.result_id < row.result_id
unfolding should_apply
newer m row p h = ground arith

not_newer :
    (m : Member) (row : Row)
    → 0 < row.result_id
    → should_apply false m row ≡ false
    → row.result_id ≤ m.result_id
unfolding should_apply
not_newer m row p h = ground arith

-- The same of a single round.
abbrev OutcomeOne : Run → Row → Run → String → Type 0
OutcomeOne s row t m =
    ((member_of t.members m ≡ member_of s.members m) × (find t.scores m ≡ find s.scores m))
    ⊎ ((row.member_id ≡ m)
        × ((member_of s.members m).result_id < row.result_id)
        × ((member_of t.members m).result_id ≡ row.result_id)
        × ((member_of t.members m).summary ≡ row.summary)
        × (find t.scores m ≡ some row.sort_score))

abbrev NewestOne : Run → Row → Run → String → Type 0
NewestOne s row t m =
    (row.member_id ≡ m → row.result_id ≤ (member_of t.members m).result_id) × OutcomeOne s row t m

applied-NewestOne :
    (s : Run) (row : Row) (m : String)
    → 0 < row.result_id
    → applies false s row ≡ true
    → str_eq row.member_id m ≡ true
    → NewestOne s row (step false s row) m
unfolding applies write_member
applied-NewestOne s row m p e f = (λ _. omega (arith, id, gt), inr (same, gt, id, text, score))
  where
    same : row.member_id ≡ m
    same = (str_eq_iff row.member_id m).0 f

    hash :
        member_of (step false s row).members m
        ≡ write_member (member_of s.members row.member_id) row
    hash = rw (member-step false s row m, e, f) refl

    gt' : (member_of s.members row.member_id).result_id < row.result_id
    gt' = newer (member_of s.members row.member_id) row p (ground arith)

    gt : (member_of s.members m).result_id < row.result_id
    gt = subst (λ k. (member_of s.members k).result_id < row.result_id) same gt'

    id : (member_of (step false s row).members m).result_id ≡ row.result_id
    id = rw hash (ground (arith, gt'))

    text : (member_of (step false s row).members m).summary ≡ row.summary
    text = rw hash refl

    score : find (step false s row).scores m ≡ some row.sort_score
    score = rw (score-step false s row m, e, f) refl

step-NewestOne :
    (s : Run) (row : Row) (m : String)
    → 0 < row.result_id
    → str_eq row.member_id "" ≡ false
    → NewestOne s row (step false s row) m
unfolding applies
step-NewestOne s row m p q = elim (Bool-cases (applies false s row)) [
  | inr e ↦
      let old : should_apply false (member_of s.members row.member_id) row ≡ false = ground arith in
      (
        λ same.
            rw (member-step false s row m, e)
              (subst (λ k. row.result_id ≤ (member_of s.members k).result_id) same
                (not_newer (member_of s.members row.member_id) row p old)),
        inl (rw (member-step false s row m, e) refl, rw (score-step false s row m, e) refl),
      )
  | inl e ↦ elim (Bool-cases (str_eq row.member_id m)) [
    | inl f ↦ applied-NewestOne s row m p e f
    | inr f ↦ (
      λ same. absurd (ground (arith, str_eq_iff row.member_id m)),
      inl (rw (member-step false s row m, e, f) refl, rw (score-step false s row m, e, f) refl),
    )
  ]
]

Outcome-keep :
    (s u t : Run) (row : Row) (rows : List Row) (m : String)
    → member_of t.members m ≡ member_of u.members m
    → find t.scores m ≡ find u.scores m
    → OutcomeOne s row u m
    → Outcome s (row ∷ rows) t m
Outcome-keep s u t row rows m e f (inl (same, score)) = inl (e ∙ same, f ∙ score)
Outcome-keep s u t row rows m e f (inr (q, lt, id, text, score)) =
    inr
      (row, inl refl, q, lt, ap (λ k. k.result_id) e ∙ id, ap (λ k. k.summary) e ∙ text, f ∙ score)

Outcome-cons :
    (s u t : Run) (row : Row) (rows : List Row) (m : String)
    → OutcomeOne s row u m
    → Dominates (member_of s.members m) (member_of u.members m)
    → Outcome u rows t m
    → Outcome s (row ∷ rows) t m
Outcome-cons s u t row rows m one d (inl (e, f)) = Outcome-keep s u t row rows m e f one
Outcome-cons s u t row rows m one d (inr (r, a, q, lt, id, text, score)) =
    inr (r, inr a, q, omega (arith, d, lt), id, text, score)

Newest-cons :
    (s u t : Run) (row : Row) (rows : List Row) (m : String)
    → NewestOne s row u m
    → Dominates (member_of s.members m) (member_of u.members m)
    → Dominates (member_of u.members m) (member_of t.members m)
    → Newest u rows t m
    → Newest s (row ∷ rows) t m
Newest-cons s u t row rows m one d d' rest = (bound, Outcome-cons s u t row rows m one.1 d rest.1)
  where
    bound :
        (r : Row)
        → Among r (row ∷ rows)
        → r.member_id ≡ m
        → r.result_id ≤ (member_of t.members m).result_id
    bound r (inl e) same =
        omega (arith, ap (λ k. k.result_id) e, one.0 (ap (λ k. k.member_id) (sym e) ∙ same), d')
    bound r (inr a) same = rest.0 r a same

-- After the loop every member's hash and score are the newest row's, if it is newer than the hash.
pub loop-Newest :
    (s : Run) (rows : List Row) (m : String) → Numbered rows → Newest s rows (loop false s rows) m
unfolding loop
loop-Newest s [] m n = (λ r a. absurd a, inl (refl, refl))
loop-Newest s (row ∷ rows) m n =
    Newest-cons s (step false s row) (loop false (step false s row) rows) row rows m
      (step-NewestOne s row m n.0.0 n.0.1) (step-Dominates false s row m)
      (loop-Dominates false (step false s row) rows m) (loop-Newest (step false s row) rows m n.1)
