-- ===== src/Rank/Script/Redelivery.antt =====
-- A batch that is delivered again: what the loop does to the members, and that it does it once.
use fuzoj.Prelude.{
  ◌≤◌, ◌≡◌, refl, ◌∙◌, List, [], ◌∷◌, String, Bool, false, inl, inr, some, arith, if◌then◌else◌,
  str_eq, str_eq_iff, str_eq_refl, All, Bool-cases, ap,
}
use fuzoj.Prelude.Assoc.{find, find_or-put, find-put}
use fuzoj.Rank.Event.{Board, Member, member_of, no_member}
use fuzoj.Rank.Script.{
  Row, Args, Run, start, should_apply, write_member, apply_row, applies, step, loop, finish,
  run_script,
}

-- What the loop does to one member's hash and score in a round.
pub member-step :
    (force : Bool) (s : Run) (row : Row) (m : String)
    → member_of (step force s row).members m ≡ (
        if applies force s row
        then (if str_eq row.member_id m
            then write_member (member_of s.members row.member_id) row
            else member_of s.members m)
        else member_of s.members m)
unfolding step apply_row
member-step force s row m = elim (Bool-cases (applies force s row)) [
  | inl e ↦ rw (e, step) (find_or-put s.members row.member_id m _ no_member)
  | inr e ↦ rw (e, step) refl
]

pub score-step :
    (force : Bool) (s : Run) (row : Row) (m : String)
    → find (step force s row).scores m ≡ (
        if applies force s row
        then (if str_eq row.member_id m then some row.sort_score else find s.scores m)
        else find s.scores m)
unfolding step apply_row
score-step force s row m = elim (Bool-cases (applies force s row)) [
  | inl e ↦ rw (e, step) (find-put s.scores row.member_id m row.sort_score)
  | inr e ↦ rw (e, step) refl
]

abbrev pub Dominates : Member → Member → Type 0
Dominates m n = (m.result_id ≤ n.result_id) × (m.version_num ≤ n.version_num)

pub step-Dominates :
    (force : Bool) (s : Run) (row : Row) (m : String)
    → Dominates (member_of s.members m) (member_of (step force s row).members m)
unfolding write_member
step-Dominates force s row m =
    rw (member-step force s row m) (elim (Bool-cases (applies force s row)) [
      | inr e ↦ rw e (omega arith)
      | inl e ↦ elim (Bool-cases (str_eq row.member_id m)) [
        | inr f ↦ rw (e, f) (omega arith)
        | inl f ↦ rw (e, f, (str_eq_iff row.member_id m).0 f) (ground arith)
      ]
    ])

pub loop-Dominates :
    (force : Bool) (s : Run) (rows : List Row) (m : String)
    → Dominates (member_of s.members m) (member_of (loop force s rows).members m)
unfolding loop
loop-Dominates force s [] m = omega arith
loop-Dominates force s (row ∷ rows) m =
    omega (arith, step-Dominates force s row m, loop-Dominates force (step force s row) rows m)

-- An update that was too old stays too old.
stale :
    (m n : Member) (row : Row)
    → Dominates m n
    → should_apply false m row ≡ false
    → should_apply false n row ≡ false
unfolding should_apply
stale m n row d h = ground arith

written : (m : Member) (row : Row) → should_apply false (write_member m row) row ≡ false
unfolding should_apply write_member
written m row = ground arith

settled : (s : Run) (row : Row) → applies false (step false s row) row ≡ false
unfolding applies
settled s row = elim (Bool-cases (applies false s row)) [
  | inl e ↦
      rw
        (
          member-step false s row row.member_id,
          e,
          str_eq_refl row.member_id,
          written (member_of s.members row.member_id) row,
        )
        refl
  | inr e ↦ rw (member-step false s row row.member_id, e) e
]

applies-stale :
    (s t : Run) (row : Row)
    → Dominates (member_of s.members row.member_id) (member_of t.members row.member_id)
    → applies false s row ≡ false
    → applies false t row ≡ false
unfolding applies
applies-stale s t row d h =
    ground
      (arith, stale (member_of s.members row.member_id) (member_of t.members row.member_id) row d)

All-settled :
    (s : Run) (rows : List Row) → All (λ row. applies false (loop false s rows) row ≡ false) rows
unfolding loop
All-settled s [] = tt
All-settled s (row ∷ rows) = (
  applies-stale (step false s row) (loop false (step false s row) rows) row
      (loop-Dominates false (step false s row) rows row.member_id) (settled s row),
  All-settled (step false s row) rows,
)

loop-idle :
    (s : Run) (rows : List Row)
    → All (λ row. applies false s row ≡ false) rows
    → loop false s rows ≡ s
unfolding loop step
loop-idle s [] h = refl
loop-idle s (row ∷ rows) h = rw h.0 (loop-idle s rows h.1)

applies-members :
    (s t : Run) (row : Row)
    → t.members ≡ s.members
    → applies false s row ≡ false
    → applies false t row ≡ false
unfolding applies
applies-members s t row e h = rw e h

All-applies-members :
    (s t : Run) (rows : List Row)
    → t.members ≡ s.members
    → All (λ row. applies false s row ≡ false) rows
    → All (λ row. applies false t row ≡ false) rows
All-applies-members s t [] e h = tt
All-applies-members s t (row ∷ rows) e h =
    (applies-members s t row e h.0, All-applies-members s t rows e h.1)

pub members-finish : (a : Args) (b : Board) (s : Run) → (finish a b.meta s).members ≡ s.members
unfolding finish
members-finish a b s = ground arith

pub scores-finish : (a : Args) (b : Board) (s : Run) → (finish a b.meta s).scores ≡ s.scores
unfolding finish
scores-finish a b s = ground arith

-- A batch that is delivered again, by a run that does not force it, changes no score and no
-- member's hash, whatever meta arguments the second run has.
pub run_script-redelivered :
    (a a' : Args) (b : Board) (rows : List Row)
    → a.force_apply ≡ false
    → a'.force_apply ≡ false
    → let once = run_script a b rows in
      ((run_script a' once rows).scores ≡ once.scores)
      × ((run_script a' once rows).members ≡ once.members)
unfolding run_script start
run_script-redelivered a a' b rows f f' =
    simp (f, f')
      (
        scores-finish a' once again ∙ ap (λ s. s.scores) idle,
        members-finish a' once again ∙ ap (λ s. s.members) idle,
      )
  where
    once : Board
    once = finish a b.meta (loop false (start b) rows)

    again : Run
    again = loop false (start once) rows

    idle : again ≡ start once
    idle = loop-idle (start once) rows (
        All-applies-members (loop false (start b) rows) (start once) rows
          (members-finish a b (loop false (start b) rows)) (All-settled (start b) rows))
