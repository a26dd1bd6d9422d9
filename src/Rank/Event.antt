-- ===== src/Rank/Event.antt =====
-- The messages of the rank service (services/rank_service/internal/pmodel/event.go) and what it
-- keeps for a contest in Redis. Ids, versions and times are numbers: the code takes a negative one,
-- or a missing field, as 0.
use fuzoj.Prelude.{ℕ, String, List, [], Bool, false}
use fuzoj.Prelude.Int.{ℤ}
use fuzoj.Prelude.Assoc.{Assoc, find_or}

-- RankUpdateEvent
pub record RankUpdateEvent : Type 0 where
  pub contest_id : String
  pub member_id : String
  pub problem_id : String
  pub sort_score : ℤ
  pub score_total : ℤ
  pub penalty : ℤ
  pub ac_count : ℤ
  pub detail_json : String
  pub version : String
  pub result_id : ℕ
  pub updated_at : ℕ

-- LeaderboardSummary
pub record LeaderboardSummary : Type 0 where
  pub member_id : String
  pub sort_score : ℤ
  pub score_total : ℤ
  pub penalty : ℤ
  pub ac_count : ℤ
  pub detail_json : String
  pub updated_at : ℕ
  pub version : String

-- The hash `contest:lb:detail:{contest}:member`, its problem fields under their ids.
pub record Member : Type 0 where
  pub summary : String
  pub problems : Assoc String
  pub result_id : ℕ
  pub version_num : ℕ

abbrev pub no_member : Member
no_member = record { summary = ""; problems = []; result_id = 0; version_num = 0 }

-- The hash `contest:lb:meta:{contest}`.
pub record Meta : Type 0 where
  pub exists : Bool
  pub seen_result_id : ℕ
  pub recovery_result_id : ℕ
  pub result_id : ℕ
  pub version : ℕ
  pub updated_at : ℕ
  pub snapshot_at : ℕ

abbrev pub no_meta : Meta
no_meta = record {
  exists = false;
  seen_result_id = 0;
  recovery_result_id = 0;
  result_id = 0;
  version = 0;
  updated_at = 0;
  snapshot_at = 0;
}

-- What Redis holds for a contest: the sorted set of scores, the members' hashes, the sorted set of
-- pending result ids and the meta hash.
pub record Board : Type 0 where
  pub scores : Assoc ℤ
  pub members : Assoc Member
  pub pending : List ℕ
  pub meta : Meta

abbrev pub no_board : Board
no_board = record { scores = []; members = []; pending = []; meta = no_meta }

abbrev pub member_of : Assoc Member → String → Member
member_of members m = find_or members m no_member
