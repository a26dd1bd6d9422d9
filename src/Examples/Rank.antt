-- ===== src/Examples/Rank.antt =====
-- Results of two members that reach a contest's leaderboard late, twice and out of order.
use fuzoj.Prelude.Sort.{sort_stable}
use fuzoj.Prelude.{
  ℕ, ◌+◌, ◌≡◌, ◌≤◌, ◌<◌, refl, sym, ap, ◌∙◌, inl, inr, List, [], ◌∷◌, String, true, false, All, Any,
  Among, tally, arith,
}
use fuzoj.Prelude.Int.{pos}
use fuzoj.Prelude.Assoc.{Assoc, find, find_or, put}
use fuzoj.Rank.Event.{RankUpdateEvent, Board, no_board, member_of}
use fuzoj.Rank.Script.{
  Row, Args, run_script, start, has_id, finish, loop, step, applies, should_apply, apply_row,
  advance, drain,
}
use fuzoj.Rank.Script.Order.{Coherent, run_script-any_order}
use fuzoj.Rank.Script.Redelivery.{run_script-redelivered}
use fuzoj.Rank.Script.Watermark.{run_batches, applied_over, recovery_result_id_exact}
use fuzoj.Rank.Filter.{
  same_member, RankUpdateMeta, accepted, meta_info, sort_and_filter_rank_updates, numbered_event,
  collect, normalize, keep_newest, should_replace_member_event, before,
}
use fuzoj.Rank.Filter.Newest.{sort_and_filter_rank_updates-newest}
use fuzoj.Rank.Apply.{apply_updates, boards}
use fuzoj.Rank.Apply.Gap.{apply_updates-superseded}

abbrev row : String → ℕ → Row
row m i = record {
  member_id = m;
  sort_score = pos i;
  summary = m;
  problem_id = "p";
  detail = "{}";
  result_id = i;
  version = 0;
}

abbrev update : Args
update = record {
  apply_meta = true;
  force_apply = false;
  max_result_id = 3;
  max_version = 0;
  max_updated_at = 7;
  snapshot_at = 0;
  apply_recovery_meta = false;
}

abbrev in_order : List Row
in_order = row "ann" 1 ∷ row "bob" 3 ∷ []

abbrev backwards : List Row
backwards = row "bob" 3 ∷ row "ann" 1 ∷ row "bob" 3 ∷ []

-- The second id is missing, so the watermark is the first one.
gap : (run_script update no_board in_order).meta.recovery_result_id ≡ 1
unfolding run_script finish loop step applies should_apply find_or start apply_row put advance drain
gap = refl

summary_of_row :
    (r : Row) → Among r in_order → (r.summary ≡ r.member_id) × (r.sort_score ≡ pos r.result_id)
summary_of_row r (inl e) = rw e (refl, refl)
summary_of_row r (inr (inl e)) = rw e (refl, refl)
summary_of_row r (inr (inr x)) = absurd x

in_order-Coherent : Coherent in_order
in_order-Coherent r q a b m i =
    let (s, p) = summary_of_row r a in
    let (t, u) = summary_of_row q b in (s ∙ m ∙ sym t, p ∙ ap pos i ∙ sym u)

backwards-Among : (r : Row) → Among r backwards → Among r in_order
backwards-Among r (inl e) = inr (inl e)
backwards-Among r (inr (inl e)) = inl e
backwards-Among r (inr (inr (inl e))) = inr (inl e)
backwards-Among r (inr (inr (inr x))) = absurd x

in_order-Among : (r : Row) → Among r in_order → Among r backwards
in_order-Among r (inl e) = inr (inl e)
in_order-Among r (inr (inl e)) = inl e
in_order-Among r (inr (inr x)) = absurd x

run_script-any_order_example :
    let x = run_script update no_board in_order in
    let y = run_script update no_board backwards in
    ((member_of x.members "bob").result_id ≡ (member_of y.members "bob").result_id)
    × ((member_of x.members "bob").summary ≡ (member_of y.members "bob").summary)
    × (find x.scores "bob" ≡ find y.scores "bob")
run_script-any_order_example =
    run_script-any_order update update no_board in_order backwards refl refl
      ((omega arith, refl), ((omega arith, refl), tt))
      ((omega arith, refl), ((omega arith, refl), ((omega arith, refl), tt))) in_order-Coherent
      backwards-Among in_order-Among "bob"

run_script-redelivered_example :
    let once = run_script update no_board in_order in
    ((run_script update once in_order).scores ≡ once.scores)
    × ((run_script update once in_order).members ≡ once.members)
run_script-redelivered_example = run_script-redelivered update update no_board in_order refl refl

abbrev batches : List (Args × List Row)
batches = (update, row "ann" 1 ∷ []) ∷ (update, row "bob" 3 ∷ row "ann" 2 ∷ []) ∷ []

recovery_result_id_exact_example :
    let r = (run_batches no_board batches).meta.recovery_result_id in
    let ids = applied_over [] no_board batches in
    ((i : ℕ) → 0 < i → i ≤ r → has_id ids i ≡ true) × (has_id ids (r + 1) ≡ false)
recovery_result_id_exact_example =
    recovery_result_id_exact batches ((refl, refl), ((refl, refl), tt))

abbrev event : String → ℕ → RankUpdateEvent
event m i = record {
  contest_id = "c";
  member_id = m;
  problem_id = "p";
  sort_score = pos i;
  score_total = pos i;
  penalty = pos 0;
  ac_count = pos 1;
  detail_json = "{}";
  version = "";
  result_id = i;
  updated_at = 7;
}

abbrev events : List RankUpdateEvent
events = event "ann" 1 ∷ event "bob" 2 ∷ event "ann" 3 ∷ []

abbrev latest : List RankUpdateEvent
latest = event "bob" 2 ∷ event "ann" 3 ∷ []

abbrev maxima : Assoc RankUpdateMeta
maxima = meta_info [] (numbered_event (event "ann" 3) 0 ∷ numbered_event (event "bob" 2) 0 ∷ [])

filtered_events : sort_and_filter_rank_updates events ≡ accepted latest maxima
unfolding sort_and_filter_rank_updates collect normalize sort_stable keep_newest
    should_replace_member_event before
filtered_events = refl

sort_and_filter_rank_updates-newest_example :
    All (λ f. Among f events) latest
    × ((e : RankUpdateEvent) → tally (λ f. same_member f e) latest ≤ 1)
    × ((e : RankUpdateEvent)
        → Among e events
        → Any (λ f. (same_member f e ≡ true) × (e.result_id ≤ f.result_id)) latest)
sort_and_filter_rank_updates-newest_example =
    sort_and_filter_rank_updates-newest events latest maxima
      (omega arith, (omega arith, (omega arith, tt))) filtered_events

apply_updates-superseded_example :
    (done : Assoc Board) × (apply_updates (λ s. s.member_id) [] (event "ann" 1 ∷ event "ann" 2 ∷ [])
      ≡ boards done)
    × ((find_or done "c" no_board).meta.recovery_result_id ≡ 0)
unfolding start find_or
apply_updates-superseded_example =
    apply_updates-superseded (event "ann" 1) (event "ann" 2) refl refl refl refl (omega arith)
      (omega arith) (λ s. s.member_id) [] 0 refl refl
