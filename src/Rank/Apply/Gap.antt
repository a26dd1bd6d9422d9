-- ===== src/Rank/Apply/Gap.antt =====
-- A superseded result id leaves a gap in the ids that are applied, and the watermark stops below
-- it.
use fuzoj.Prelude.{
  ℕ, ◌+◌, ◌<◌, ◌≡◌, refl, ap, [], ◌∷◌, String, true, false, arith, str_eq, str_eq_iff, str_eq_refl,
}
use fuzoj.Prelude.Sort.{sort_stable}
use fuzoj.Prelude.Assoc.{Assoc, find_or, put, find_or-put}
use fuzoj.Rank.Event.{RankUpdateEvent, LeaderboardSummary, Board, no_board}
use fuzoj.Rank.Script.{Row, Args, run_script, start, loop, step, apply_row, finish, advance}
use fuzoj.Rank.Filter.{
  numbered_event, accepted, collected, collect, should_replace_member_event, normalize, keep_newest,
  sort_and_filter_rank_updates, meta_info, no_maxima, RankUpdateMeta,
}
use fuzoj.Rank.Apply.{
  apply_updates, apply_filtered, apply_groups, group, apply_contest_events,
  apply_contest_events_with_summary, rows_of, row_of, boards,
}

-- An update that skips an id leaves the watermark where it is.
skips :
    (a : Args) (b : Board) (row : Row) (r : ℕ)
    → a.apply_meta ≡ true
    → a.apply_recovery_meta ≡ false
    → (start b).recovery ≡ r
    → r + 1 < row.result_id
    → (run_script a b (row ∷ [])).meta.recovery_result_id ≡ r
unfolding run_script finish loop step apply_row advance
skips a b row r m n e lt = ground arith

module _ (encode : LeaderboardSummary → String) where
  one_group :
      (all : Assoc Board) (e : RankUpdateEvent) (info : Assoc RankUpdateMeta)
      → str_eq e.contest_id "" ≡ false
      → str_eq e.member_id "" ≡ false
      → apply_filtered encode all (accepted (e ∷ []) info)
        ≡ boards (
            put all e.contest_id (
              apply_contest_events encode
                (find_or all e.contest_id no_board)
                (e ∷ [])
                (find_or info e.contest_id no_maxima)
                true
                false
                0))
  unfolding apply_filtered group apply_groups
  one_group all e info c m = rw (c, m) (unfold put find_or in refl)

  one_row :
      (b : Board) (e : RankUpdateEvent) (maxima : RankUpdateMeta) (r : ℕ)
      → str_eq e.member_id "" ≡ false
      → (start b).recovery ≡ r
      → r + 1 < e.result_id
      → (apply_contest_events encode b (e ∷ []) maxima true false 0).meta.recovery_result_id ≡ r
  unfolding apply_contest_events apply_contest_events_with_summary rows_of
  one_row b e maxima r m s lt =
      rw m (skips _ b (row_of encode e _) r refl refl s (unfold row_of in lt))

module _ (first second : RankUpdateEvent) (same_contest : second.contest_id ≡ first.contest_id)
    (same_member' : second.member_id ≡ first.member_id)
    (contest : str_eq first.contest_id "" ≡ false) (member : str_eq first.member_id "" ≡ false)
    (numbered : 0 < first.result_id) (newer : first.result_id < second.result_id) where
  latest_only : collect [] (first ∷ second ∷ []) ≡ collected (numbered_event second 0 ∷ [])
  unfolding collect keep_newest should_replace_member_event normalize
  latest_only = ground (
    arith,
    ap (λ s. str_eq s "") same_contest,
    ap (λ s. str_eq s "") same_member',
    str_eq_iff first.contest_id second.contest_id,
    str_eq_iff first.member_id second.member_id,
  )

  second_only :
      sort_and_filter_rank_updates (first ∷ second ∷ [])
      ≡ accepted (second ∷ []) (meta_info [] (numbered_event second 0 ∷ []))
  unfolding sort_and_filter_rank_updates sort_stable
  second_only = rw latest_only refl

  -- When one batch holds two results of a member and the first one's id follows the watermark, the
  -- batch is applied and the watermark stays where it was, below both ids.
  pub apply_updates-superseded :
      (encode : LeaderboardSummary → String) (all : Assoc Board) (r : ℕ)
      → (start (find_or all first.contest_id no_board)).recovery ≡ r
      → first.result_id ≡ r + 1
      → (done : Assoc Board) × (apply_updates encode all (first ∷ second ∷ []) ≡ boards done)
        × ((find_or done first.contest_id no_board).meta.recovery_result_id ≡ r)
  unfolding apply_updates
  apply_updates-superseded encode all r s f = (
    put all second.contest_id board,
    rw second_only (one_group encode all second info filled.0 filled.1),
    rw
        (
          ← same_contest,
          find_or-put all second.contest_id second.contest_id board no_board,
          str_eq_refl second.contest_id,
        )
        stays,
  )
    where
      info : Assoc RankUpdateMeta
      info = meta_info [] (numbered_event second 0 ∷ [])

      filled : (str_eq second.contest_id "" ≡ false) × (str_eq second.member_id "" ≡ false)
      filled = (rw same_contest contest, rw same_member' member)

      old : Board
      old = find_or all second.contest_id no_board

      board : Board
      board =
          apply_contest_events encode old (second ∷ []) (find_or info second.contest_id no_maxima)
            true false 0

      stays : board.meta.recovery_result_id ≡ r
      stays =
          one_row encode old second (find_or info second.contest_id no_maxima) r filled.1
            (rw same_contest s) (omega arith)
