-- ===== src/Contest/Outbox/Delivery.antt =====
-- No update is lost, and none is taken for sent before Kafka has acknowledged it.
use fuzoj.Prelude.{
  ℕ, ◌+◌, ◌<◌, ◌≤◌, ◌≡◌, subst, List, [], ◌∷◌, ◌++◌, map, String, true, false, some, ◌==◌, ◌⊎◌, inl,
  inr, arith, All, All-append, Any, Bool-cases,
}
use fuzoj.Prelude.ListLaws.{All-imp}
use fuzoj.Prelude.Ids.{Ids, find_id, put_id, find_id-put_id}
use fuzoj.Prelude.Assoc.{put, All-put, All-find_or}
use fuzoj.Contest.Outbox.{
  Row, is_sent, new_row, claim_rows, claimed_rows, mark_sent_by_owner, requeue_expired_processing,
  delete_sent_before,
}
use fuzoj.Contest.Outbox.Rows.{All-keep, All-take, Stands, Stands-append, Stands-last}
use fuzoj.Contest.Outbox.Relay.{
  RankOutboxRelayOptions, WriteAnswer, ids_at, backoff_duration, mark_level, publish,
}
use fuzoj.Contest.Outbox.Steps.{
  Phase, idle, claiming, claimed, marking_sent, marking_failed, System, phase_of, message_of,
  inserted_row, published, Step, enqueues, requeues, cleans, claims, reads, publishes, marks_sent,
  marks_failed, restarts, Reach, start, next,
}
use fuzoj.Contest.Outbox.Settled.{
  Known, IsSent, Settled, RowHolds, PhaseHolds, Grows, Settled-Grows, RowHolds-Grows,
  PhaseHolds-Grows, Grows-append, publish-Settled,
}
use fuzoj.Contest.Outbox.Statements.{
  RowsHold, claim_rows-RowsHold, mark_sent_by_owner-RowsHold, mark_failed_with_retry-RowsHold,
  requeue_expired_processing-RowsHold, delete_sent_before-RowsHold,
}

-- What holds in every state that is reached.
abbrev Valid : System → Type 0
Valid s =
    RowsHold s.inserted s.acknowledged s.rows
    × All (λ e. PhaseHolds s.inserted s.acknowledged e.1) s.relays
    × ((i : ℕ) (p : String) → find_id s.inserted i ≡ some p → i < s.next_id)

phase_of-PhaseHolds :
    (s : System) (owner : String)
    → Valid s
    → PhaseHolds s.inserted s.acknowledged (phase_of s owner)
phase_of-PhaseHolds s owner (rows, relays, below) =
    All-find_or (PhaseHolds s.inserted s.acknowledged) s.relays owner idle relays tt

-- A relay goes on to a phase that holds.
put-Valid :
    (s : System) (owner : String) (phase : Phase)
    → PhaseHolds s.inserted s.acknowledged phase
    → Valid s
    → Valid (record s { relays = put s.relays owner phase })
put-Valid s owner phase h (rows, relays, below) =
    (rows, All-put (PhaseHolds s.inserted s.acknowledged) s.relays owner phase relays h, below)

-- An id that is new leaves the others' rows as they are.
inserted_row-Grows :
    (s : System) (id : ℕ) (payload : String)
    → s.next_id ≤ id
    → ((i : ℕ) (p : String) → find_id s.inserted i ≡ some p → i < s.next_id)
    → Grows s.inserted s.acknowledged (put_id s.inserted id payload) s.acknowledged
inserted_row-Grows s id payload h below = (
  λ i p e.
      let lower : i < s.next_id = below i p e in
      ground (arith, find_id-put_id s.inserted id i payload, e, lower, h),
  λ m x. x,
)

RowsHold-Grows :
    (a : Ids String) (l : List (ℕ × String)) (b : Ids String) (m : List (ℕ × String))
    (rows : List Row)
    → Grows a l b m
    → All (RowHolds a l) rows
    → All (RowHolds b m) rows
RowsHold-Grows a l b m rows g h =
    All-imp (RowHolds a l) (RowHolds b m) rows (RowHolds-Grows a l b m g) h

inserted_row-Valid :
    (now id : ℕ) (contest key payload : String) (s : System)
    → s.next_id ≤ id
    → Valid s
    → Valid (inserted_row now id contest key payload s)
unfolding new_row
inserted_row-Valid now id contest key payload s h ((rows, kept), relays, below) =
    let after = put_id s.inserted id payload in
    let log = s.acknowledged in
    let grows = inserted_row-Grows s id payload h below in
    let row = new_row now id contest key payload in
    let there = find_id-put_id s.inserted id id payload in
    (
      (
        All-append (RowHolds after log) s.rows (row ∷ [])
            (RowsHold-Grows s.inserted log after log s.rows grows rows)
            ((ground (arith, there), λ q. absurd (ground arith)), tt),
        λ i p e. elim (Bool-cases (id == i)) [
          | inl q ↦
              let same : row.id ≡ i = ground arith in
              inr (subst (λ i. Stands i (s.rows ++ row ∷ [])) same (Stands-last s.rows row))
          | inr q ↦
              let old : find_id s.inserted i ≡ some p =
                ground (arith, find_id-put_id s.inserted id i payload, e, q) in
              elim (kept i p old) [
                | inl x ↦ inl (Settled-Grows s.inserted log after log grows i x)
                | inr y ↦ inr (Stands-append i s.rows row y)
              ]
        ],
      ),
      All-imp (λ e. PhaseHolds s.inserted log e.1) (λ e. PhaseHolds after log e.1) s.relays
          (λ e x. PhaseHolds-Grows s.inserted log after log grows e.1 x) relays,
      λ i p e. ground (arith, find_id-put_id s.inserted id i payload, below i p),
    )

published-Valid :
    (o : RankOutboxRelayOptions) (contest : String) (answer : WriteAnswer) (events : List Row)
    (s : System)
    → All (Known s.inserted) events
    → Valid s
    → Valid (published o contest answer events s)
published-Valid o contest answer events s known ((rows, kept), relays, below) =
    let (batch, good) = publish o contest answer events in
    let log = s.acknowledged in
    let after = log ++ map message_of good in
    let grows = Grows-append s.inserted log (map message_of good) in
    (
      (
        RowsHold-Grows s.inserted log s.inserted after s.rows grows rows,
        λ i p e. elim (kept i p e) [
          | inl x ↦ inl (Settled-Grows s.inserted log s.inserted after grows i x)
          | inr y ↦ inr y
        ],
      ),
      All-put (PhaseHolds s.inserted after) s.relays o.owner_id
          (marking_sent batch.sent_ids batch.failed_ids)
          (All-imp (λ e. PhaseHolds s.inserted log e.1) (λ e. PhaseHolds s.inserted after e.1)
            s.relays (λ e x. PhaseHolds-Grows s.inserted log s.inserted after grows e.1 x) relays)
          (publish-Settled s.inserted log o contest answer events known),
      below,
    )

-- One step of anyone.
with_rows-Valid :
    (s : System) (rows : List Row)
    → Valid s
    → RowsHold s.inserted s.acknowledged rows
    → Valid (record s { rows = rows })
with_rows-Valid s rows (old, relays, below) h = (h, relays, below)

Step-Valid : (s e : System) → Step s e → Valid s → Valid e
unfolding claimed_rows mark_level
Step-Valid s _ (enqueues now id contest key payload h) v =
    inserted_row-Valid now id contest key payload s h v
Step-Valid s _ (requeues now limit) v =
    with_rows-Valid s (requeue_expired_processing now limit s.rows).1 v
      (requeue_expired_processing-RowsHold s.inserted s.acknowledged now limit s.rows v.0)
Step-Valid s _ (cleans cutoff limit) v =
    with_rows-Valid s (delete_sent_before cutoff limit s.rows).1 v
      (delete_sent_before-RowsHold s.inserted s.acknowledged cutoff limit s.rows v.0)
Step-Valid s _ (claims o now contest q) v =
    let rows = claim_rows now o.lease_duration contest o.owner_id o.claim_batch_size s.rows in
    put-Valid (record s { rows = rows }) o.owner_id (claiming contest) tt
      (with_rows-Valid s rows v (
        claim_rows-RowsHold s.inserted s.acknowledged now o.lease_duration contest o.owner_id
          o.claim_batch_size s.rows v.0))
Step-Valid s _ (reads o contest q) v =
    put-Valid s o.owner_id
      (claimed contest (claimed_rows contest o.owner_id o.claim_batch_size s.rows))
      (All-take (Known s.inserted) _ _ (
        All-keep (Known s.inserted) _ s.rows (
          All-imp (RowHolds s.inserted s.acknowledged) (Known s.inserted) s.rows (λ r h. h.0)
            v.0.0)))
      v
Step-Valid s _ (publishes o contest events answer q) v =
    published-Valid o contest answer events s
      (subst (PhaseHolds s.inserted s.acknowledged) q (phase_of-PhaseHolds s o.owner_id v)) v
Step-Valid s _ (marks_sent o now ids failed true q) v =
    let rows = mark_sent_by_owner now o.owner_id ids s.rows in
    put-Valid (record s { rows = rows }) o.owner_id _ tt
      (with_rows-Valid s rows v (
        mark_sent_by_owner-RowsHold s.inserted s.acknowledged now o.owner_id ids s.rows
          (subst (PhaseHolds s.inserted s.acknowledged) q (phase_of-PhaseHolds s o.owner_id v))
          v.0))
Step-Valid s _ (marks_sent o now ids failed false q) v = put-Valid s o.owner_id _ tt v
Step-Valid s _ (marks_failed o now failed level levels true q) v =
    let rows = mark_level o now failed level s.rows in
    put-Valid (record s { rows = rows }) o.owner_id (marking_failed failed levels) tt
      (with_rows-Valid s rows v (
        mark_failed_with_retry-RowsHold s.inserted s.acknowledged now o.owner_id level
          (ids_at level failed)
          (some (now + backoff_duration level o.retry_base_delay o.retry_max_delay)) s.rows v.0))
Step-Valid s _ (marks_failed o now failed level levels false q) v =
    put-Valid s o.owner_id (marking_failed failed levels) tt v
Step-Valid s _ (restarts owner) v = put-Valid s owner idle tt v

Reach-Valid : (s : System) → Reach s → Valid s
unfolding find_id
Reach-Valid _ start = ((tt, λ i p e. absurd (ground arith)), tt, λ i p e. absurd (ground arith))
Reach-Valid _ (next {s} {e} r x) = Step-Valid s e x (Reach-Valid s r)

-- A row of the table waits for Kafka with the update under the id.
abbrev pub Waits : ℕ → String → Row → Type 0
Waits i payload r = (r.id ≡ i) × (r.payload ≡ payload) × (is_sent r.status ≡ false)

Settled-IsSent :
    (inserted : Ids String) (log : List (ℕ × String)) (i : ℕ) (p : String)
    → find_id inserted i ≡ some p
    → Settled inserted log i
    → IsSent log i p
Settled-IsSent inserted log i p e (q, f, h) =
    let same : q ≡ p = ground (arith, e, f) in subst (IsSent log i) same h

Stands-Waits :
    (inserted : Ids String) (log : List (ℕ × String)) (i : ℕ) (p : String) (rows : List Row)
    → find_id inserted i ≡ some p
    → All (RowHolds inserted log) rows
    → Stands i rows
    → IsSent log i p ⊎ Any (Waits i p) rows
Stands-Waits inserted log i p [] e h y = absurd y
Stands-Waits inserted log i p (r ∷ rows) e h (inr y) =
    elim (Stands-Waits inserted log i p rows e h.1 y) [ inl x ↦ inl x | inr z ↦ inr (inr z) ]
Stands-Waits inserted log i p (r ∷ rows) e h (inl y) =
    let known : find_id inserted i ≡ some r.payload =
      subst (λ i. find_id inserted i ≡ some r.payload) y h.0.0 in
    let same : r.payload ≡ p = ground (arith, known, e) in
    elim (Bool-cases (is_sent r.status)) [
      | inl q ↦ inl (Settled-IsSent inserted log i p e (subst (Settled inserted log) y (h.0.1 q)))
      | inr q ↦ inr (inl (y, same, q))
    ]

-- However the relays, the consumers that enqueue, requeuing and cleaning interleave, and whatever
-- Kafka answers and whichever statements fail, every update that was inserted is sent, which is that
-- Kafka has acknowledged its message or that its payload is empty, or else its row still stands in
-- the table with the same payload and is not marked as sent.
pub Reach-delivers :
    (s : System) (i : ℕ) (payload : String)
    → Reach s
    → find_id s.inserted i ≡ some payload
    → IsSent s.acknowledged i payload ⊎ Any (Waits i payload) s.rows
Reach-delivers s i p r e =
    let v = Reach-Valid s r in
    elim (v.0.1 i p e) [
      | inl x ↦ inl (Settled-IsSent s.inserted s.acknowledged i p e x)
      | inr y ↦ Stands-Waits s.inserted s.acknowledged i p s.rows e v.0.0 y
    ]
