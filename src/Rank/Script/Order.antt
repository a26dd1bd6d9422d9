-- ===== src/Rank/Script/Order.antt =====
-- Out-of-order and repeated updates: what the members' hashes hold after the script's loop.
use fuzoj.Prelude.{◌≤◌, ◌≡◌, sym, ◌∙◌, List, String, false, inl, inr, some, arith, Among, ap}
use fuzoj.Prelude.Assoc.{find}
use fuzoj.Rank.Event.{Board, member_of}
use fuzoj.Rank.Script.{Row, Args, Run, start, loop, run_script}
use fuzoj.Rank.Script.Redelivery.{members-finish, scores-finish}
use fuzoj.Rank.Script.Newest.{Numbered, Outcome, Newest, loop-Newest}

-- Two rows of one member with one result id carry the same result.
abbrev pub Coherent : List Row → Type 0
Coherent rows =
    (r q : Row)
    → Among r rows
    → Among q rows
    → r.member_id ≡ q.member_id
    → r.result_id ≡ q.result_id
    → (r.summary ≡ q.summary) × (r.sort_score ≡ q.sort_score)

module _ (s t u : Run) (rows qows : List Row) (m : String) (coherent : Coherent rows)
    (there : (r : Row) → Among r qows → Among r rows)
    (back : (r : Row) → Among r rows → Among r qows) where
  -- Two outcomes of the same rows agree.
  Outcome-agree :
      ((r : Row) → Among r rows → r.member_id ≡ m → r.result_id ≤ (member_of t.members m).result_id)
      → ((r : Row)
          → Among r qows
          → r.member_id ≡ m
          → r.result_id ≤ (member_of u.members m).result_id)
      → Outcome s rows t m
      → Outcome s qows u m
      → ((member_of t.members m).result_id ≡ (member_of u.members m).result_id)
        × ((member_of t.members m).summary ≡ (member_of u.members m).summary)
        × (find t.scores m ≡ find u.scores m)
  Outcome-agree bt bu (inl (e, f)) (inl (e', f')) =
      (ap (λ k. k.result_id) (e ∙ sym e'), ap (λ k. k.summary) (e ∙ sym e'), f ∙ sym f')
  Outcome-agree bt bu (inl (e, f)) (inr (r, a, q, lt, id, text, score)) =
      absurd (omega (arith, ap (λ k. k.result_id) e, bt r (there r a) q))
  Outcome-agree bt bu (inr (r, a, q, lt, id, text, score)) (inl (e, f)) =
      absurd (omega (arith, ap (λ k. k.result_id) e, bu r (back r a) q))
  Outcome-agree bt bu (inr (r, a, q, lt, id, text, score))
        (inr (r', a', q', lt', id', text', score')) =
      let ids : r.result_id ≡ r'.result_id =
        omega (arith, bt r' (there r' a') q', bu r (back r a) q) in
      let (same, scored) = coherent r r' a (there r' a') (q ∙ sym q') ids in
      (omega arith, text ∙ same ∙ sym text', score ∙ ap some scored ∙ sym score')

-- The same rows in any order, repeated or not, leave every member with the same result id, summary
-- and score: if each row has a result id and a member, and two rows of a member with one id agree.
pub run_script-any_order :
    (a a' : Args) (b : Board) (rows qows : List Row)
    → a.force_apply ≡ false
    → a'.force_apply ≡ false
    → Numbered rows
    → Numbered qows
    → Coherent rows
    → ((r : Row) → Among r qows → Among r rows)
    → ((r : Row) → Among r rows → Among r qows)
    → (m : String)
    → let x = run_script a b rows in
      let y = run_script a' b qows in
      ((member_of x.members m).result_id ≡ (member_of y.members m).result_id)
      × ((member_of x.members m).summary ≡ (member_of y.members m).summary)
      × (find x.scores m ≡ find y.scores m)
unfolding run_script
run_script-any_order a a' b rows qows f f' n n' c there back m =
    simp (f, f')
      (rw (members-finish a b t, members-finish a' b u, scores-finish a b t, scores-finish a' b u)
        (Outcome-agree (start b) t u rows qows m c there back left.0 right.0 left.1 right.1))
  where
    t : Run
    t = loop false (start b) rows

    u : Run
    u = loop false (start b) qows

    left : Newest (start b) rows t m
    left = loop-Newest (start b) rows m n

    right : Newest (start b) qows u m
    right = loop-Newest (start b) qows m n'
