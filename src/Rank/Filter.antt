-- ===== src/Rank/Filter.antt =====
-- `SortAndFilterRankUpdates` of leaderboard_repository.go: the newest event of each member, in
-- order. The source's map of newest events is a list with one entry for a contest and member.
pub mod Covers
pub mod Newest
use fuzoj.Prelude.{
  ℕ, List, [], ◌∷◌, String, Bool, true, false, ◌&&◌, ◌||◌, not, Option, none, some, if◌then◌else◌,
  ltb, leb, ◌==◌, str_eq, map,
}
use fuzoj.Prelude.Int.{ℤ, pos_part}
use fuzoj.Prelude.Text.{parse_int64, str_lt}
use fuzoj.Prelude.Sort.{sort_stable}
use fuzoj.Prelude.Assoc.{Assoc, find_or, put}
use fuzoj.Rank.Event.{RankUpdateEvent}

-- normalizedEvent
pub record NormalizedEvent : Type 0 where
  pub event : RankUpdateEvent
  pub version : ℕ
  pub result_id : ℕ
  pub updated_at : ℕ
  pub by_result_id : Bool

-- RankUpdateMeta
pub record RankUpdateMeta : Type 0 where
  pub max_version : ℕ
  pub max_result_id : ℕ
  pub max_updated_at : ℕ

pub data FilterError : Type 0 where
  contest_id_required member_id_required version_invalid : FilterError

pub data Filtered : Type 0 where
  refused : FilterError → Filtered
  accepted : List RankUpdateEvent → Assoc RankUpdateMeta → Filtered

-- shouldReplaceMemberEvent
unfoldable pub should_replace_member_event : NormalizedEvent → NormalizedEvent → Bool
should_replace_member_event existing incoming =
    if (ltb 0 existing.version || ltb 0 incoming.version)
      && not (incoming.version == existing.version)
    then ltb existing.version incoming.version
    else if not (incoming.result_id == existing.result_id)
    then ltb existing.result_id incoming.result_id
    else if not (incoming.updated_at == existing.updated_at)
    then ltb existing.updated_at incoming.updated_at
    else str_lt existing.event.problem_id incoming.event.problem_id

abbrev pub numbered_event : RankUpdateEvent → ℕ → NormalizedEvent
numbered_event e version = record {
  event = e;
  version = version;
  result_id = e.result_id;
  updated_at = e.updated_at;
  by_result_id = ltb 0 e.result_id;
}

-- The checks on an event and its normal form; a version is read only where there is no result id.
unfoldable pub normalize : RankUpdateEvent → Option NormalizedEvent
normalize e =
    if ltb 0 e.result_id then some (numbered_event e 0) else elim (parse_int64 e.version) [
      | none ↦ none
      | some version ↦ some (numbered_event e (pos_part version))
    ]

abbrev pub same_member : RankUpdateEvent → RankUpdateEvent → Bool
same_member a b = str_eq a.contest_id b.contest_id && str_eq a.member_id b.member_id

-- The write to `latestByMember`.
unfoldable pub keep_newest : List NormalizedEvent → NormalizedEvent → List NormalizedEvent
keep_newest [] n = n ∷ []
keep_newest (x ∷ xs) n =
    if same_member x.event n.event
    then (if should_replace_member_event x n then n ∷ xs else x ∷ xs)
    else x ∷ keep_newest xs n

pub data Collected : Type 0 where
  stopped : FilterError → Collected
  collected : List NormalizedEvent → Collected

-- The loop over the events.
unfoldable pub collect : List NormalizedEvent → List RankUpdateEvent → Collected
collect latest [] = collected latest
collect latest (e ∷ es) =
    if str_eq e.contest_id ""
    then stopped contest_id_required
    else if str_eq e.member_id ""
    then stopped member_id_required
    else elim (normalize e) [
      | none ↦ stopped version_invalid
      | some n ↦ collect (keep_newest latest n) es
    ]

abbrev pub no_maxima : RankUpdateMeta
no_maxima = record { max_version = 0; max_result_id = 0; max_updated_at = 0 }

abbrev pub raise : ℕ → ℕ → ℕ
raise n k = if ltb n k then k else n

-- The maxima of a contest, with one more event.
unfoldable pub raise_maxima : RankUpdateMeta → NormalizedEvent → RankUpdateMeta
raise_maxima m n =
    let ids = raise m.max_result_id n.result_id in
    record {
      max_result_id = ids;
      max_version = raise (raise m.max_version n.version) ids;
      max_updated_at = raise m.max_updated_at n.updated_at;
    }

-- metaInfo
unfoldable pub meta_info : Assoc RankUpdateMeta → List NormalizedEvent → Assoc RankUpdateMeta
meta_info m [] = m
meta_info m (n ∷ ns) =
    meta_info (put m n.event.contest_id (raise_maxima (find_or m n.event.contest_id no_maxima) n))
      ns

-- The order of `sort.Slice`.
unfoldable pub before : RankUpdateEvent → RankUpdateEvent → Bool
before a b =
    if not (str_eq a.contest_id b.contest_id)
    then str_lt a.contest_id b.contest_id
    else if not (a.result_id == b.result_id)
    then ltb a.result_id b.result_id
    else if not (str_eq a.version b.version)
    then str_lt a.version b.version
    else str_lt a.member_id b.member_id

unfoldable pub filtered : Collected → Filtered
filtered (stopped e) = refused e
filtered (collected latest) =
    accepted (sort_stable before (map (λ n. n.event) latest)) (meta_info [] latest)

-- SortAndFilterRankUpdates; its two maps of current watermarks are not read.
unfoldable pub sort_and_filter_rank_updates : List RankUpdateEvent → Filtered
unfolding filtered
sort_and_filter_rank_updates events = filtered (collect [] events)
