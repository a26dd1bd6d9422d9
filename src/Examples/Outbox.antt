-- ===== src/Examples/Outbox.antt =====
-- An outbox of two updates, and a relay that claims one row at a time.
use fuzoj.Prelude.Sort.{sort_stable}
use fuzoj.Prelude.{
  ℕ, zero, suc, ◌+◌, ◌≡◌, ◌⊎◌, refl, List, [], ◌∷◌, Bool, true, false, Option, none, some, arith,
  Any, map,
}
use fuzoj.Prelude.Ids.{find_id, put_id}
use fuzoj.Prelude.Assoc.{Assoc, find_or, put, find}
use fuzoj.Contest.Outbox.{
  Row, new_row, has_id, update_where, update_first, claim_rows, claimed_rows, claim_by_contest,
  mark_sent_by_owner, validate_for_claim, is_sent, mark_failed_with_retry,
}
use fuzoj.Contest.Outbox.Relay.{
  RankOutboxRelayOptions, written, write_errors, Round, Processed, process_contest,
  sorted_retry_counts, ids_at, backoff_duration,
}
use fuzoj.Contest.Outbox.Steps.{
  System, fresh_system, inserted_row, published, enqueues, claims, reads, publishes, claiming,
  claimed, Reach, start, next,
}
use fuzoj.Contest.Outbox.Settled.{IsSent}
use fuzoj.Contest.Outbox.Delivery.{Waits, Reach-delivers}
use fuzoj.Contest.Outbox.Drain.{Ends, process_contest-Ends}
use fuzoj.Contest.Outbox.Lease.{
  LockRow, HeldBy, acquire_contest_lease, acquire_contest_lease-excludes,
  acquire_contest_lease-free,
}

abbrev options : RankOutboxRelayOptions
options = record {
  owner_id = "r1";
  publish_batch_size = 1;
  contest_scan_batch = 32;
  claim_batch_size = 1;
  lease_duration = 3_000_000_000;
  lease_renew_interval = 1_000_000_000;
  retry_base_delay = 1_000_000_000;
  retry_max_delay = 30_000_000_000;
  cleanup_batch_size = 200;
  requeue_batch_size = 200;
}

abbrev two_rows : List Row
two_rows = new_row 5 1 "c1" "k1" "{1}" ∷ new_row 6 2 "c1" "k2" "{2}" ∷ []

abbrev smooth : ℕ → Round
smooth i = record {
  now = 10 + i;
  renewal_fails = false;
  claim_fails = false;
  query_fails = false;
  answer = written;
  mark_sent_fails = false;
  mark_failed_fails = λ level. false;
}

-- Kafka refuses the first message once; the row waits for its delay and the second one is sent.
abbrev refused : ℕ → Round
refused i = record (smooth i) {
  answer = elim i [ zero ↦ write_errors (true ∷ []) | suc j ↦ written ];
}

abbrev outcome : Option Processed → List (ℕ × Bool)
outcome none = []
outcome (some p) = map (λ r. (r.retry_count, is_sent r.status)) p.rows

both_sent : outcome (process_contest 3 options "c1" smooth two_rows) ≡ (0, true) ∷ (0, true) ∷ []
unfolding process_contest claim_by_contest update_first new_row sorted_retry_counts sort_stable
    validate_for_claim mark_sent_by_owner update_where has_id
both_sent = refl

one_sent : outcome (process_contest 4 options "c1" refused two_rows) ≡ (1, false) ∷ (0, true) ∷ []
unfolding process_contest claim_by_contest update_first new_row sorted_retry_counts sort_stable
    validate_for_claim mark_failed_with_retry mark_sent_by_owner ids_at backoff_duration
one_sent = refl

process_contest-Ends_example :
    Ends "c1" smooth 0 3 (λ n. process_contest n options "c1" smooth two_rows)
unfolding new_row
process_contest-Ends_example =
    process_contest-Ends 3 options "c1" smooth two_rows (λ k. (refl, refl, refl, refl, refl))
      (omega arith)

abbrev one_inserted : System
one_inserted = inserted_row 5 1 "c1" "k1" "{1}" fresh_system

abbrev one_taken : System
one_taken = record one_inserted {
  rows = claim_rows 10 3_000_000_000 "c1" "r1" 1 one_inserted.rows;
  relays = put one_inserted.relays "r1" (claiming "c1");
}

abbrev one_read : System
one_read = record one_taken {
  relays = put one_taken.relays "r1" (claimed "c1" (claimed_rows "c1" "r1" 1 one_taken.rows));
}

abbrev one_published : System
one_published = published options "c1" written (claimed_rows "c1" "r1" 1 one_taken.rows) one_read

one_reached : Reach one_published
unfolding find_or put
one_reached =
    next
      (next
        (next (next start (enqueues 5 1 "c1" "k1" "{1}" (omega arith)))
          (claims options 10 "c1" refl))
        (reads options "c1" refl))
      (publishes options "c1" (claimed_rows "c1" "r1" 1 one_taken.rows) written refl)

Reach-delivers_example :
    IsSent one_published.acknowledged 1 "{1}" ⊎ Any (Waits 1 "{1}") one_published.rows
unfolding find_id put_id
Reach-delivers_example = Reach-delivers one_published 1 "{1}" one_reached refl

abbrev no_locks : Assoc LockRow
no_locks = []

-- The lease of a contest that "r1" has at 10 until 40.
abbrev held : Assoc LockRow
held = ("c1", record { owner_id = "r1"; lease_until = 20; updated_at = 0 }) ∷ []

abbrev renewed : Assoc LockRow
renewed = ("c1", record { owner_id = "r1"; lease_until = 40; updated_at = 10 }) ∷ []

acquire_contest_lease-excludes_example :
    (acquire_contest_lease false 39 30 "c1" "r2" renewed ≡ some (false, renewed))
    × HeldBy "c1" "r1" 40 renewed
unfolding acquire_contest_lease find put
acquire_contest_lease-excludes_example =
    acquire_contest_lease-excludes false 10 30 39 30 "c1" "r1" "r2" held renewed refl refl refl refl
      (omega arith)

acquire_contest_lease-free_example :
    (t' : Assoc LockRow) × (acquire_contest_lease false 10 30 "c1" "r1" no_locks ≡ some (false, t'))
    × HeldBy "c1" "r1" 40 t'
unfolding find
acquire_contest_lease-free_example =
    acquire_contest_lease-free false 10 30 "c1" "r1" no_locks refl refl refl
