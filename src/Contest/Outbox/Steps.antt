-- ===== src/Contest/Outbox/Steps.antt =====
-- The outbox, Kafka and the relays together: relays, by their owner ids, and the consumers that
-- enqueue updates take their steps in any order. A step is one statement or one call. A statement
-- whose failure the relay logs may have been carried out or not.
use fuzoj.Prelude.{ℕ, ◌+◌, ◌≤◌, ◌≡◌, List, [], ◌∷◌, ◌++◌, map, String, Bool, if◌then◌else◌}
use fuzoj.Prelude.Ids.{Ids, put_id}
use fuzoj.Prelude.Assoc.{Assoc, find_or, put}
use fuzoj.Contest.Outbox.{
  Row, new_row, claim_rows, claimed_rows, mark_sent_by_owner, requeue_expired_processing,
  delete_sent_before,
}
use fuzoj.Contest.Outbox.Relay.{
  RankOutboxRelayOptions, Failed, WriteAnswer, publish, mark_level, sorted_retry_counts,
}

-- Where a relay is in `processContest`.
pub data Phase : Type 0 where
  idle : Phase
  claiming : String → Phase
  claimed : String → List Row → Phase
  marking_sent : List ℕ → Failed → Phase
  marking_failed : Failed → List ℕ → Phase

-- The table, the id that is next at least, every row that was ever inserted, the messages that Kafka
-- has acknowledged, and the relays.
pub record System : Type 0 where
  pub rows : List Row
  pub next_id : ℕ
  pub inserted : Ids String
  pub acknowledged : List (ℕ × String)
  pub relays : Assoc Phase

abbrev pub fresh_system : System
fresh_system = record { rows = []; next_id = 1; inserted = []; acknowledged = []; relays = [] }

abbrev pub phase_of : System → String → Phase
phase_of s owner = find_or s.relays owner idle

abbrev pub message_of : Row → ℕ × String
message_of r = (r.id, r.payload)

-- The states that the steps lead to.
abbrev pub inserted_row : ℕ → ℕ → String → String → String → System → System
inserted_row now id contest key payload s = record s {
  rows = s.rows ++ new_row now id contest key payload ∷ [];
  next_id = id + 1;
  inserted = put_id s.inserted id payload;
}

abbrev pub published : RankOutboxRelayOptions → String → WriteAnswer → List Row → System → System
published o contest answer events s =
    let (batch, acknowledged) = publish o contest answer events in
    record s {
      acknowledged = s.acknowledged ++ map message_of acknowledged;
      relays = put s.relays o.owner_id (marking_sent batch.sent_ids batch.failed_ids);
    }

pub data Step (s : System) : System → Type 0 where
  enqueues :
      (now id : ℕ) (contest key payload : String)
      → s.next_id ≤ id
      → Step s (inserted_row now id contest key payload s)
  requeues :
      (now limit : ℕ) → Step s (record s { rows = (requeue_expired_processing now limit s.rows).1 })
  cleans :
      (cutoff limit : ℕ) → Step s (record s { rows = (delete_sent_before cutoff limit s.rows).1 })
  claims :
      (o : RankOutboxRelayOptions) (now : ℕ) (contest : String)
      → phase_of s o.owner_id ≡ idle
      → Step s (record s {
        rows = claim_rows now o.lease_duration contest o.owner_id o.claim_batch_size s.rows;
        relays = put s.relays o.owner_id (claiming contest);
      })
  reads :
      (o : RankOutboxRelayOptions) (contest : String)
      → phase_of s o.owner_id ≡ claiming contest
      → Step s (record s {
        relays =
            put s.relays o.owner_id
              (claimed contest (claimed_rows contest o.owner_id o.claim_batch_size s.rows));
      })
  publishes :
      (o : RankOutboxRelayOptions) (contest : String) (events : List Row) (answer : WriteAnswer)
      → phase_of s o.owner_id ≡ claimed contest events
      → Step s (published o contest answer events s)
  marks_sent :
      (o : RankOutboxRelayOptions) (now : ℕ) (ids : List ℕ) (failed : Failed) (carried_out : Bool)
      → phase_of s o.owner_id ≡ marking_sent ids failed
      → Step s (record s {
        rows = if carried_out then mark_sent_by_owner now o.owner_id ids s.rows else s.rows;
        relays = put s.relays o.owner_id (marking_failed failed (sorted_retry_counts failed));
      })
  marks_failed :
      (o : RankOutboxRelayOptions) (now : ℕ) (failed : Failed) (level : ℕ) (levels : List ℕ)
      (carried_out : Bool)
      → phase_of s o.owner_id ≡ marking_failed failed (level ∷ levels)
      → Step s (record s {
        rows = if carried_out then mark_level o now failed level s.rows else s.rows;
        relays = put s.relays o.owner_id (marking_failed failed levels);
      })
  -- The round ends, an error ends it, or the relay stops at any point and starts again.
  restarts : (owner : String) → Step s (record s { relays = put s.relays owner idle })

pub data Reach : System → Type 0 where
  start : Reach fresh_system
  next : {s e : System} → Reach s → Step s e → Reach e
