-- ===== src/Rank/Script.antt =====
-- `rankApplyScript` of leaderboard_repository.go, which Redis runs as one atomic step.
pub mod Redelivery
pub mod Newest
pub mod Order
pub mod Tracks
pub mod Watermark
use fuzoj.Prelude.{
  ℕ, zero, suc, ◌+◌, List, [], ◌∷◌, String, Bool, true, false, ◌&&◌, not, if◌then◌else◌, ltb, leb,
  ◌==◌, str_eq, length, keep,
}
use fuzoj.Prelude.Int.{ℤ}
use fuzoj.Prelude.Assoc.{Assoc, put}
use fuzoj.Rank.Event.{Board, Meta, Member, member_of}

-- The seven arguments of an event.
pub record Row : Type 0 where
  pub member_id : String
  pub sort_score : ℤ
  pub summary : String
  pub problem_id : String
  pub detail : String
  pub result_id : ℕ
  pub version : ℕ

-- The eight arguments in front of the events, without their number and the key prefix.
pub record Args : Type 0 where
  pub apply_meta : Bool
  pub force_apply : Bool
  pub max_result_id : ℕ
  pub max_version : ℕ
  pub max_updated_at : ℕ
  pub snapshot_at : ℕ
  pub apply_recovery_meta : Bool

-- The script's variables in the course of its loop, and the keys that it has written.
pub record Run : Type 0 where
  pub scores : Assoc ℤ
  pub members : Assoc Member
  pub pending : List ℕ
  pub seen : ℕ
  pub recovery : ℕ
  pub version : ℕ
  pub applied : ℕ

-- `current... = HGET ... or 0`, with the fall-back to `result_id`.
unfoldable pub start : Board → Run
start b = record {
  scores = b.scores;
  members = b.members;
  pending = b.pending;
  seen = if b.meta.seen_result_id == 0 then b.meta.result_id else b.meta.seen_result_id;
  recovery = if b.meta.recovery_result_id == 0 then b.meta.result_id else b.meta.recovery_result_id;
  version = b.meta.version;
  applied = 0;
}

-- shouldApply
unfoldable pub should_apply : Bool → Member → Row → Bool
should_apply force m row =
    if force
    then true
    else if ltb 0 row.result_id
    then ltb m.result_id row.result_id
    else if ltb 0 row.version
    then ltb m.version_num row.version
    else false

-- The HSET calls on the member's hash.
unfoldable pub write_member : Member → Row → Member
write_member m row = record {
  summary = row.summary;
  problems =
      if not (str_eq row.problem_id "") && not (str_eq row.detail "")
      then put m.problems row.problem_id row.detail
      else m.problems;
  result_id = if ltb m.result_id row.result_id then row.result_id else m.result_id;
  version_num = if ltb m.version_num row.version then row.version else m.version_num;
}

-- ZSCORE, as a test
unfoldable pub has_id : List ℕ → ℕ → Bool
has_id [] i = false
has_id (x ∷ xs) i = let rest = has_id xs i in if x == i then true else rest

-- ZREM
unfoldable pub remove_id : List ℕ → ℕ → List ℕ
remove_id [] i = []
remove_id (x ∷ xs) i = let rest = remove_id xs i in if x == i then rest else x ∷ rest

-- ZADD of an id under its own value
unfoldable pub add_id : List ℕ → ℕ → List ℕ
add_id ids i = if has_id ids i then ids else i ∷ ids

-- The `while true` loop: it takes an id out of the set in each round, so the set's size is enough
-- fuel.
unfoldable pub drain : ℕ → ℕ → List ℕ → ℕ × List ℕ
drain zero recovery pending = (recovery, pending)
drain (suc n) recovery pending =
    let rest = drain n (recovery + 1) (remove_id pending (recovery + 1)) in
    if has_id pending (recovery + 1) then rest else (recovery, pending)

-- The branch on the result id: it follows the watermark, is ahead of it, or is behind it.
unfoldable pub advance : ℕ → ℕ → List ℕ → ℕ × List ℕ
advance result_id recovery pending =
    if ltb 0 result_id
    then if result_id == recovery + 1
      then drain (length pending) result_id pending
      else if ltb (recovery + 1) result_id
      then (recovery, add_id pending result_id)
      else (recovery, pending)
    else (recovery, pending)

-- The body of the loop for an event that applies.
unfoldable pub apply_row : Run → Row → Run
apply_row s row =
    let (recovery', pending') = advance row.result_id s.recovery s.pending in
    record {
      scores = put s.scores row.member_id row.sort_score;
      members = put s.members row.member_id (write_member (member_of s.members row.member_id) row);
      pending = pending';
      seen = if ltb s.seen row.result_id then row.result_id else s.seen;
      recovery = recovery';
      version = if ltb s.version row.version then row.version else s.version;
      applied = s.applied + 1;
    }

-- `shouldApply and memberId ~= ""`
unfoldable pub applies : Bool → Run → Row → Bool
applies force s row =
    should_apply force (member_of s.members row.member_id) row && not (str_eq row.member_id "")

-- One round of the loop.
unfoldable pub step : Bool → Run → Row → Run
step force s row = if applies force s row then apply_row s row else s

-- The loop over the events.
unfoldable pub loop : Bool → Run → List Row → Run
loop force s [] = s
loop force s (row ∷ rows) = loop force (step force s row) rows

-- The last part of the script.
unfoldable pub finish : Args → Meta → Run → Board
finish a m s =
    let seen' = (if ltb s.seen a.max_result_id then a.max_result_id else s.seen) in
    let recovery' =
      (if a.apply_recovery_meta && ltb s.recovery a.max_result_id
        then a.max_result_id
        else s.recovery) in
    let version' = (if ltb s.version a.max_version then a.max_version else s.version) in
    if a.apply_meta
    then record {
      scores = s.scores;
      members = s.members;
      pending = if ltb 0 recovery' then keep (λ i. ltb recovery' i) s.pending else s.pending;
      meta = record {
        exists = true;
        seen_result_id = seen';
        recovery_result_id = recovery';
        result_id = recovery';
        version = if ltb 0 version' then version' else m.version;
        updated_at = if ltb 0 a.max_updated_at then a.max_updated_at else m.updated_at;
        snapshot_at = if ltb 0 a.snapshot_at then a.snapshot_at else m.snapshot_at;
      };
    }
    else record { scores = s.scores; members = s.members; pending = s.pending; meta = m }

-- rankApplyScript
unfoldable pub run_script : Args → Board → List Row → Board
run_script a b rows = finish a b.meta (loop a.force_apply (start b) rows)
