-- ===== src/Rank/Batcher.antt =====
-- `UpdateBatcher` (services/rank_service/internal/consumer/update_batcher.go): its goroutine and the
-- callers of `Add` as steps on one state. Times are nanoseconds. Logging, and the ticker that only
-- logs, are left out.
pub mod Fifo
pub mod Stop
use fuzoj.Prelude.{
  ℕ, zero, suc, ◌+◌, ◌-◌, ◌*◌, ◌/◌, ◌≡◌, List, [], ◌∷◌, ◌++◌, map, String, Bool, true, false, ◌&&◌,
  not, Option, none, some, if◌then◌else◌, ltb, leb, str_eq, contains, length, max_of, sum_by,
}
use fuzoj.Rank.Event.{RankUpdateEvent}

pub record QueuedRankUpdate : Type 0 where
  pub event : RankUpdateEvent
  pub enqueued_at : ℕ

-- Where the goroutine is: in its loop, emptying the channel after a stop, or ended.
pub data Phase : Type 0 where
  running draining stopped : Phase

-- The batcher with what its goroutine holds, what the repository has applied in turn, and the
-- contests and versions that were published.
pub record UpdateBatcher : Type 0 where
  pub size : ℕ
  pub queue : List QueuedRankUpdate
  pub buffer : List QueuedRankUpdate
  pub pending : List QueuedRankUpdate
  pub retry_delay : ℕ
  pub next_retry : Option ℕ
  pub stop : Bool
  pub phase : Phase
  pub applied : List QueuedRankUpdate
  pub published : List (String × String)

-- NewUpdateBatcher, and the start of `Start`
unfoldable pub new_update_batcher : ℕ → UpdateBatcher
new_update_batcher size = record {
  size = if ltb 0 size then size else 200;
  queue = [];
  buffer = [];
  pending = [];
  retry_delay = 100_000_000;
  next_retry = none;
  stop = false;
  phase = running;
  applied = [];
  published = [];
}

-- unwrapQueuedEvents
unfoldable pub unwrap_queued_events : List QueuedRankUpdate → List RankUpdateEvent
unwrap_queued_events items = map (λ i. i.event) items

-- queueWaitStats: the longest wait, and the average one
unfoldable pub max_wait : ℕ → List QueuedRankUpdate → ℕ
max_wait now [] = 0
max_wait now (i ∷ items) = max_of (now - i.enqueued_at) (max_wait now items)

unfoldable pub queue_wait_stats : ℕ → List QueuedRankUpdate → ℕ × ℕ
unfolding max_wait
queue_wait_stats now items =
    if leb (length items) 0
    then (0, 0)
    else (max_wait now items, sum_by (λ i. now - i.enqueued_at) items / length items)

-- publish: one message for each contest, with the version of its first event
unfoldable pub publish_from : List String → List RankUpdateEvent → List (String × String)
publish_from seen [] = []
publish_from seen (e ∷ events) =
    let skip = publish_from seen events in
    let rest = publish_from (e.contest_id ∷ seen) events in
    if str_eq e.contest_id ""
    then skip
    else if contains seen e.contest_id
    then skip
    else (e.contest_id, e.version) ∷ rest

unfoldable pub publish : List RankUpdateEvent → List (String × String)
unfolding publish_from
publish events = publish_from [] events

-- A failure of the repository: the batch waits for its next try.
unfoldable pub keep_batch : ℕ → List QueuedRankUpdate → UpdateBatcher → UpdateBatcher
keep_batch later batch b =
    let delay = (if ltb b.retry_delay 2_000_000_000 then b.retry_delay * 2 else b.retry_delay) in
    record b { pending = batch; retry_delay = delay; next_retry = some (later + delay) }

unfoldable pub finish_batch : List QueuedRankUpdate → UpdateBatcher → UpdateBatcher
finish_batch batch b = record b {
  pending = [];
  retry_delay = 100_000_000;
  next_retry = none;
  applied = b.applied ++ batch;
  published = b.published ++ publish (unwrap_queued_events batch);
}

-- `ApplyUpdates` of a batch, which ends at time `later`.
unfoldable pub apply_batch : ℕ → Bool → List QueuedRankUpdate → UpdateBatcher → UpdateBatcher
unfolding keep_batch finish_batch
apply_batch later fails batch b = if fails then keep_batch later batch b else finish_batch batch b

-- Whether the pending batch waits for its next try.
abbrev pub waits_for_retry : ℕ → UpdateBatcher → Bool
waits_for_retry now b = elim b.next_retry [ none ↦ false | some t ↦ ltb now t ]

-- flush
unfoldable pub flush : ℕ → ℕ → Bool → UpdateBatcher → UpdateBatcher
unfolding apply_batch
flush now later fails b = elim b.pending [
  | p ∷ ps ↦ if waits_for_retry now b then b else apply_batch later fails (p ∷ ps) b
  | [] ↦ elim b.buffer [
    | [] ↦ b
    | x ∷ xs ↦ apply_batch later fails (x ∷ xs) (record b { buffer = [] })
  ]
]

-- Add, where the channel has room.
unfoldable pub add : QueuedRankUpdate → UpdateBatcher → Option UpdateBatcher
add item b =
    if ltb (length b.queue) (b.size * 4)
    then some (record b { queue = b.queue ++ item ∷ [] })
    else none

-- A receive from the channel into the buffer, and the loop's branch round it.
unfoldable pub receive : UpdateBatcher → Option UpdateBatcher
receive b = elim b.queue [
  | [] ↦ none
  | item ∷ rest ↦ some (record b { queue = rest; buffer = b.buffer ++ item ∷ [] })
]

unfoldable pub take_in : ℕ → ℕ → Bool → UpdateBatcher → Option UpdateBatcher
unfolding receive flush
take_in now later fails b = elim (receive b) [
  | none ↦ none
  | some b' ↦ some (if leb b'.size (length b'.buffer) then flush now later fails b' else b')
]

-- The branch of a stop when the channel is empty.
unfoldable pub finish : ℕ → ℕ → Bool → UpdateBatcher → Option UpdateBatcher
unfolding flush
finish now later fails b = elim b.queue [
  | [] ↦ some (record (flush now later fails b) { phase = stopped })
  | item ∷ rest ↦ none
]

pub data Step (b : UpdateBatcher) : UpdateBatcher → Type 0 where
  adds : (item : QueuedRankUpdate) {c : UpdateBatcher} → add item b ≡ some c → Step b c
  ticks : (now later : ℕ) (fails : Bool) → b.phase ≡ running → Step b (flush now later fails b)
  takes :
      (now later : ℕ) (fails : Bool) {c : UpdateBatcher}
      → b.phase ≡ running
      → take_in now later fails b ≡ some c
      → Step b c
  stops : Step b (record b { stop = true })
  sees_stop : b.phase ≡ running → b.stop ≡ true → Step b (record b { phase = draining })
  drains : {c : UpdateBatcher} → b.phase ≡ draining → receive b ≡ some c → Step b c
  finishes :
      (now later : ℕ) (fails : Bool) {c : UpdateBatcher}
      → b.phase ≡ draining
      → finish now later fails b ≡ some c
      → Step b c

pub data Reach (b : UpdateBatcher) : UpdateBatcher → Type 0 where
  here : Reach b b
  next : {c d : UpdateBatcher} → Reach b c → Step c d → Reach b d
