-- ===== src/Rank/Apply.antt =====
-- `ApplyUpdates`, `applyContestEventsWithSummary`, `RestoreSnapshotEntries` and
-- `FinalizeSnapshotMeta` of leaderboard_repository.go, over what Redis holds for each contest. The
-- calls to Redis succeed: a failed one ends the batch with an error, and the caller sends it again.
-- The JSON text of a summary is a parameter.
pub mod Gap
use fuzoj.Prelude.{
  ℕ, suc, ◌+◌, List, [], ◌∷◌, ◌++◌, String, Bool, true, false, ◌&&◌, ◌||◌, not, Option, none, some,
  if◌then◌else◌, ltb, str_eq, get_elem?, length,
}
use fuzoj.Prelude.Int.{ℤ, pos, pos_part}
use fuzoj.Prelude.Text.{parse_int64}
use fuzoj.Prelude.Assoc.{Assoc, find_or, put}
use fuzoj.Rank.Event.{RankUpdateEvent, LeaderboardSummary, Board, no_board}
use fuzoj.Rank.Script.{Row, Args, run_script}
use fuzoj.Rank.Filter.{
  FilterError, Filtered, refused, accepted, RankUpdateMeta, no_maxima, sort_and_filter_rank_updates,
}

-- SnapshotEntry, the fields read here
pub record SnapshotEntry : Type 0 where
  pub member_id : String
  pub sort_score : ℤ
  pub detail_json : String
  pub summary_json : String

pub data ApplyError : Type 0 where
  filter_error : FilterError → ApplyError
  id_required : ApplyError

pub data Applied : Type 0 where
  failed : ApplyError → Applied
  boards : Assoc Board → Applied

abbrev pub summary_of : RankUpdateEvent → LeaderboardSummary
summary_of e = record {
  member_id = e.member_id;
  sort_score = e.sort_score;
  score_total = e.score_total;
  penalty = e.penalty;
  ac_count = e.ac_count;
  detail_json = e.detail_json;
  updated_at = e.updated_at;
  version = e.version;
}

abbrev pub version_value : Option ℤ → ℕ
version_value none = 0
version_value (some v) = pos_part v

abbrev pub tail_of : List SnapshotEntry → List SnapshotEntry
tail_of [] = []
tail_of (x ∷ xs) = xs

module _ (encode : LeaderboardSummary → String) where
  -- The script's arguments for an event, with the summary of the snapshot entry beside it if there
  -- is one.
  unfoldable pub row_of : RankUpdateEvent → Option SnapshotEntry → Row
  row_of e entry = record {
    member_id = e.member_id;
    sort_score = e.sort_score;
    summary = elim entry [
      | none ↦ encode (summary_of e)
      | some s ↦ if str_eq s.summary_json "" then encode (summary_of e) else s.summary_json
    ];
    problem_id = e.problem_id;
    detail = e.detail_json;
    result_id = e.result_id;
    version = version_value (parse_int64 e.version);
  }

  -- The loop that builds the arguments. An event with no member is passed over; the script then
  -- reads a missing member for each such event, and does nothing.
  unfoldable pub rows_of : List RankUpdateEvent → List SnapshotEntry → Row → List Row
  rows_of [] entries empty = []
  rows_of (e ∷ es) entries empty =
      let rest = rows_of es (tail_of entries) empty in
      if str_eq e.member_id "" then rest ++ empty ∷ [] else row_of e (get_elem? entries 0) ∷ rest

  abbrev pub empty_row : Row
  empty_row = record {
    member_id = "";
    sort_score = pos 0;
    summary = "";
    problem_id = "";
    detail = "";
    result_id = 0;
    version = 0;
  }

  -- applyContestEventsWithSummary
  unfoldable pub apply_contest_events_with_summary :
      Board → List RankUpdateEvent → List SnapshotEntry → RankUpdateMeta → Bool → Bool → ℕ → Board
  apply_contest_events_with_summary b events entries maxima apply_meta force_apply snapshot_at =
      run_script
        (record {
          apply_meta = apply_meta;
          force_apply = force_apply;
          max_result_id = maxima.max_result_id;
          max_version = maxima.max_version;
          max_updated_at = maxima.max_updated_at;
          snapshot_at = snapshot_at;
          apply_recovery_meta =
              apply_meta
              && elim events [ [] ↦ true | e ∷ es ↦ false ]
              && ltb 0 maxima.max_result_id;
        })
        b (rows_of events entries empty_row)

  -- applyContestEvents
  unfoldable pub apply_contest_events :
      Board → List RankUpdateEvent → RankUpdateMeta → Bool → Bool → ℕ → Board
  apply_contest_events b events maxima apply_meta force_apply snapshot_at =
      apply_contest_events_with_summary b events [] maxima apply_meta force_apply snapshot_at

  -- `grouped[contestID] = append(grouped[contestID], event)` for every event.
  unfoldable pub group :
      Assoc (List RankUpdateEvent) → List RankUpdateEvent → Assoc (List RankUpdateEvent)
  group m [] = m
  group m (e ∷ es) = group (put m e.contest_id (find_or m e.contest_id [] ++ e ∷ [])) es

  -- The loop over the contests.
  unfoldable pub apply_groups :
      Assoc Board → Assoc (List RankUpdateEvent) → Assoc RankUpdateMeta → Assoc Board
  apply_groups all [] info = all
  apply_groups all ((c, events) ∷ rest) info =
      apply_groups
        (put all c (
          apply_contest_events (find_or all c no_board) events (find_or info c no_maxima) true false
            0))
        rest info

  abbrev pub any_missing : List RankUpdateEvent → Bool
  any_missing [] = false
  any_missing (e ∷ es) = str_eq e.contest_id "" || str_eq e.member_id "" || any_missing es

  unfoldable pub apply_filtered : Assoc Board → Filtered → Applied
  apply_filtered all (refused e) = failed (filter_error e)
  apply_filtered all (accepted events info) =
      if any_missing events
      then failed id_required
      else boards (apply_groups all (group [] events) info)

  -- ApplyUpdates
  unfoldable pub apply_updates : Assoc Board → List RankUpdateEvent → Applied
  unfolding apply_filtered
  apply_updates all [] = boards all
  apply_updates all (e ∷ es) = apply_filtered all (sort_and_filter_rank_updates (e ∷ es))

  -- The events of a snapshot's entries, numbered from `idx`; an incomplete entry is left out.
  unfoldable pub restore_events : String → ℕ → List SnapshotEntry → List RankUpdateEvent
  restore_events contest idx [] = []
  restore_events contest idx (s ∷ ss) =
      let rest = restore_events contest (idx + 1) ss in
      if str_eq s.member_id "" || str_eq s.summary_json ""
      then rest
      else record {
        contest_id = contest;
        member_id = s.member_id;
        problem_id = "";
        sort_score = s.sort_score;
        score_total = pos 0;
        penalty = pos 0;
        ac_count = pos 0;
        detail_json = s.detail_json;
        version = "0";
        result_id = idx + 1;
        updated_at = 0;
      }
        ∷ rest

  unfoldable pub complete_entries : List SnapshotEntry → List SnapshotEntry
  complete_entries [] = []
  complete_entries (s ∷ ss) =
      let rest = complete_entries ss in
      if str_eq s.member_id "" || str_eq s.summary_json "" then rest else s ∷ rest

  -- RestoreSnapshotEntries, for a contest that is named
  unfoldable pub restore_snapshot_entries : Board → String → List SnapshotEntry → Board
  restore_snapshot_entries b contest entries = elim (restore_events contest 0 entries) [
    | [] ↦ b
    | e ∷ es ↦
        apply_contest_events_with_summary b (e ∷ es) (complete_entries entries) no_maxima false true
          0
  ]

  -- FinalizeSnapshotMeta, for a contest that is named
  unfoldable pub finalize_snapshot_meta : Board → ℕ → ℕ → ℕ → ℕ → Board
  finalize_snapshot_meta b max_result_id max_version updated_at snapshot_at =
      apply_contest_events b []
        (record {
          max_result_id = max_result_id;
          max_version = max_version;
          max_updated_at = updated_at;
        })
        true false snapshot_at
