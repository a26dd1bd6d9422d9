-- ===== src/Contest/Outbox/Relay.antt =====
-- The relay that sends the rank updates to Kafka
-- (services/contest_service/internal/consumer/rank_outbox_relay.go).
use fuzoj.Prelude.{
  ℕ, zero, suc, ◌+◌, ◌*◌, ◌/◌, ◌%◌, List, [], ◌∷◌, ◌++◌, map, String, Bool, true, false, ◌||◌, not,
  Option, none, some, if◌then◌else◌, ltb, ◌==◌, str_eq, length,
}
use fuzoj.Prelude.Sort.{sort_stable}
use fuzoj.Contest.Outbox.{
  Row, or_default, claim_by_contest, mark_sent_by_owner, mark_failed_with_retry, validate_for_claim,
}

-- The options that the relay's work on a contest reads.
pub record RankOutboxRelayOptions : Type 0 where
  pub owner_id : String
  pub publish_batch_size : ℕ
  pub contest_scan_batch : ℕ
  pub claim_batch_size : ℕ
  pub lease_duration : ℕ
  pub lease_renew_interval : ℕ
  pub retry_base_delay : ℕ
  pub retry_max_delay : ℕ
  pub cleanup_batch_size : ℕ
  pub requeue_batch_size : ℕ

-- The defaults of `NewRankOutboxRelay`; `host` is the owner where none is given.
unfoldable pub new_rank_outbox_relay : String → RankOutboxRelayOptions → RankOutboxRelayOptions
new_rank_outbox_relay host o =
    let claim = or_default 200 o.claim_batch_size in
    record {
      owner_id = if str_eq o.owner_id "" then host else o.owner_id;
      publish_batch_size = or_default claim o.publish_batch_size;
      contest_scan_batch = or_default 32 o.contest_scan_batch;
      claim_batch_size = claim;
      lease_duration = or_default 3_000_000_000 o.lease_duration;
      lease_renew_interval = or_default 1_000_000_000 o.lease_renew_interval;
      retry_base_delay = or_default 1_000_000_000 o.retry_base_delay;
      retry_max_delay = or_default 30_000_000_000 o.retry_max_delay;
      cleanup_batch_size = or_default 200 o.cleanup_batch_size;
      requeue_batch_size = or_default 200 o.requeue_batch_size;
    }

-- backoffDuration
unfoldable pub backoff_duration : ℕ → ℕ → ℕ → ℕ
backoff_duration retry_count base max =
    let longest = or_default 30_000_000_000 max in
    let delay = or_default 1_000_000_000 base * (retry_count + 1) in
    if ltb longest delay then longest else delay

-- `failedIDs`: the ids under their retry counts, as they are added
abbrev pub Failed : Type 0
Failed = List (ℕ × ℕ)

unfoldable pub ids_at : ℕ → Failed → List ℕ
ids_at level [] = []
ids_at level ((l, id) ∷ failed) =
    let rest = ids_at level failed in if l == level then id ∷ rest else rest

-- sortedRetryCounts
unfoldable pub insert_level : ℕ → List ℕ → List ℕ
insert_level l [] = l ∷ []
insert_level l (m ∷ ms) =
    let rest = insert_level l ms in
    if l == m then m ∷ ms else if ltb l m then l ∷ m ∷ ms else m ∷ rest

unfoldable pub sorted_retry_counts : Failed → List ℕ
unfolding insert_level
sorted_retry_counts [] = []
sorted_retry_counts ((l, id) ∷ failed) = insert_level l (sorted_retry_counts failed)

-- countFailed, over the levels
unfoldable pub count_failed : Failed → ℕ
count_failed failed = length failed

-- What a batch of claimed rows becomes: ids to mark as sent, ids that failed, and messages.
pub record Batch : Type 0 where
  pub sent_ids : List ℕ
  pub failed_ids : Failed
  pub messages : List Row

abbrev pub no_batch : Batch
no_batch = record { sent_ids = []; failed_ids = []; messages = [] }

-- The loop over the events, from what there is on.
unfoldable pub prepare_from : String → String → Batch → List Row → Batch
prepare_from contest owner b [] = b
prepare_from contest owner b (r ∷ events) =
    prepare_from contest owner
      (if not (validate_for_claim contest owner r)
        then record b { failed_ids = b.failed_ids ++ (r.retry_count, r.id) ∷ [] }
        else if str_eq r.payload ""
        then record b { sent_ids = b.sent_ids ++ r.id ∷ [] }
        else record b { messages = b.messages ++ r ∷ [] })
      events

-- What `WriteMessages` returns: no error, an error for some of the messages, or another error.
pub data WriteAnswer : Type 0 where
  written : WriteAnswer
  write_errors : List Bool → WriteAnswer
  write_failed : WriteAnswer

-- The events whose ids are to be marked as sent, and those that failed.
unfoldable pub split_errors : List Bool → List Row → List Row × List Row
split_errors errors [] = ([], [])
split_errors [] (r ∷ rows) = let (good, bad) = split_errors [] rows in (r ∷ good, bad)
split_errors (e ∷ errors) (r ∷ rows) =
    let (good, bad) = split_errors errors rows in if e then (good, r ∷ bad) else (r ∷ good, bad)

unfoldable pub split_answer : WriteAnswer → List Row → List Row × List Row
unfolding split_errors
split_answer written rows = (rows, [])
split_answer (write_errors errors) rows = split_errors errors rows
split_answer write_failed rows = ([], rows)

-- What an answer says of the messages: those that are written.
unfoldable pub without_error : List Bool → List Row → List Row
without_error errors [] = []
without_error [] (r ∷ rows) = r ∷ rows
without_error (e ∷ errors) (r ∷ rows) =
    let rest = without_error errors rows in if e then rest else r ∷ rest

unfoldable pub acknowledged_by : WriteAnswer → List Row → List Row
unfolding without_error
acknowledged_by written rows = rows
acknowledged_by (write_errors errors) rows = without_error errors rows
acknowledged_by write_failed rows = []

-- The batch after Kafka's answer.
unfoldable pub settle : WriteAnswer → Batch → Batch
unfolding split_answer
settle answer b =
    let (good, bad) = split_answer answer b.messages in
    record b {
      sent_ids = b.sent_ids ++ map (λ r. r.id) good;
      failed_ids = b.failed_ids ++ map (λ r. (r.retry_count, r.id)) bad;
    }

-- The batch of the claimed rows, and the messages that Kafka has acknowledged.
unfoldable pub publish : RankOutboxRelayOptions → String → WriteAnswer → List Row → Batch × List Row
unfolding prepare_from settle acknowledged_by
publish o contest answer events =
    let b = prepare_from contest o.owner_id no_batch (sort_stable (λ r s. ltb r.id s.id) events) in
    (settle answer b, acknowledged_by answer b.messages)

-- `MarkFailedWithRetry` of a level
unfoldable pub mark_level : RankOutboxRelayOptions → ℕ → Failed → ℕ → List Row → List Row
mark_level o now failed level rows =
    mark_failed_with_retry now o.owner_id level (ids_at level failed)
      (some (now + backoff_duration level o.retry_base_delay o.retry_max_delay)) rows

-- The levels one after another, each by a statement that may fail.
unfoldable pub mark_levels :
    RankOutboxRelayOptions → ℕ → (ℕ → Bool) → Failed → List ℕ → List Row → List Row
unfolding mark_level
mark_levels o now fails failed [] rows = rows
mark_levels o now fails failed (level ∷ levels) rows =
    mark_levels o now fails failed levels
      (if fails level then rows else mark_level o now failed level rows)

-- A round of `processContest`: its time, whether the lease is to be renewed and that fails, whether
-- the claim's update or its query fails, and what the other calls answer.
pub record Round : Type 0 where
  pub now : ℕ
  pub renewal_fails : Bool
  pub claim_fails : Bool
  pub query_fails : Bool
  pub answer : WriteAnswer
  pub mark_sent_fails : Bool
  pub mark_failed_fails : ℕ → Bool

-- The part of a round past the claim.
unfoldable pub process_events :
    RankOutboxRelayOptions → String → Round → List Row → List Row → List Row × List Row
unfolding publish mark_levels
process_events o contest round events rows =
    let (batch, acknowledged) = publish o contest round.answer events in
    let rows' =
      (if round.mark_sent_fails
        then rows
        else mark_sent_by_owner round.now o.owner_id batch.sent_ids rows) in
    (
      acknowledged,
      mark_levels o round.now round.mark_failed_fails batch.failed_ids
          (sorted_retry_counts batch.failed_ids) rows',
    )

-- What `processContest` returns, with the rows and the messages that Kafka has acknowledged.
pub record Processed : Type 0 where
  pub processed_any : Bool
  pub fails : Bool
  pub acknowledged : List Row
  pub rows : List Row

-- processContest, of a relay with a publisher, from its `i`-th round on; `none` means that the fuel
-- ran out.
unfoldable pub process_from :
    ℕ
    → RankOutboxRelayOptions
    → String
    → (ℕ → Round)
    → ℕ
    → Bool
    → List Row
    → List Row
    → Option Processed
unfolding process_events
process_from zero o contest rounds i any log rows = none
process_from (suc fuel) o contest rounds i any log rows =
    let round = rounds i in
    let (events, rows') =
      claim_by_contest round.now o.lease_duration contest o.owner_id o.claim_batch_size rows in
    let (acknowledged, rows'') = process_events o contest round events rows' in
    let rest = process_from fuel o contest rounds (i + 1) true (log ++ acknowledged) rows'' in
    if round.renewal_fails || round.claim_fails
    then some (record { processed_any = any; fails = true; acknowledged = log; rows = rows })
    else if round.query_fails
    then some (record { processed_any = any; fails = true; acknowledged = log; rows = rows' })
    else if length events == 0
    then some (record { processed_any = any; fails = false; acknowledged = log; rows = rows' })
    else if ltb (length events) o.claim_batch_size
    then some (record {
      processed_any = true;
      fails = false;
      acknowledged = log ++ acknowledged;
      rows = rows'';
    })
    else rest

-- processContest
unfoldable pub process_contest :
    ℕ → RankOutboxRelayOptions → String → (ℕ → Round) → List Row → Option Processed
unfolding process_from
process_contest fuel o contest rounds rows = process_from fuel o contest rounds 0 false [] rows

-- lockExpireSeconds
unfoldable pub lock_expire_seconds : ℕ → ℕ
lock_expire_seconds duration =
    let seconds = duration / 1_000_000_000 in
    if duration == 0 then 1 else if duration % 1_000_000_000 == 0 then seconds else seconds + 1

-- updateRankOutboxFullScanStreak
unfoldable pub update_rank_outbox_full_scan_streak : ℕ → ℕ → ℕ → ℕ
update_rank_outbox_full_scan_streak current contests scan_batch =
    if contests == 0 || not (contests == scan_batch)
    then 0
    else if ltb 3 (current + 1)
    then 3
    else current + 1

-- shouldRankOutboxSleep
unfoldable pub should_rank_outbox_sleep : ℕ → Bool
should_rank_outbox_sleep streak = ltb streak 3
