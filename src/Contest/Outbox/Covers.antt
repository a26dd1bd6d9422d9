-- ===== src/Contest/Outbox/Covers.antt =====
-- What a batch whose messages are all written marks as sent.
use fuzoj.Prelude.{
  ℕ, ◌≡◌, refl, List, [], ◌∷◌, ◌++◌, map, String, Bool, true, ◌||◌, ◌==◌, inl, inr, arith, All,
  Bool-cases, ltb, str_eq, tally,
}
use fuzoj.Prelude.Sort.{sort_stable, All-sort_stable, tally-sort_stable}
use fuzoj.Contest.Outbox.{Row, has_id, validate_for_claim}
use fuzoj.Contest.Outbox.Relay.{
  RankOutboxRelayOptions, Batch, no_batch, prepare_from, written, split_answer, settle, publish,
}

abbrev pub ids_of : List Row → List ℕ
ids_of rows = map (λ r. r.id) rows

has_id-append : (xs ys : List ℕ) (i : ℕ) → has_id (xs ++ ys) i ≡ (has_id xs i || has_id ys i)
unfolding has_id
has_id-append [] ys i = refl
has_id-append (x ∷ xs) ys i = ground (arith, has_id-append xs ys i)

has_id-ids_of :
    (rows : List Row) (i : ℕ) → has_id (ids_of rows) i ≡ ltb 0 (tally (λ r. r.id == i) rows)
unfolding has_id
has_id-ids_of [] i = refl
has_id-ids_of (r ∷ rows) i = ground (arith, has_id-ids_of rows i)

has_id-ids_of-append :
    (rows : List Row) (r : Row) (i : ℕ)
    → has_id (ids_of (rows ++ r ∷ [])) i ≡ (has_id (ids_of rows) i || r.id == i)
unfolding has_id
has_id-ids_of-append [] r i = ground arith
has_id-ids_of-append (x ∷ rows) r i = ground (arith, has_id-ids_of-append rows r i)

-- The ids that a batch will mark as sent if Kafka writes everything.
abbrev covers : Batch → ℕ → Bool
covers b i = has_id b.sent_ids i || has_id (ids_of b.messages) i

prepare_from-covers :
    (contest owner : String) (b : Batch) (events : List Row) (i : ℕ)
    → All (λ r. validate_for_claim contest owner r ≡ true) events
    → (covers (prepare_from contest owner b events) i ≡ (covers b i || has_id (ids_of events) i))
      × ((prepare_from contest owner b events).failed_ids ≡ b.failed_ids)
unfolding prepare_from has_id
prepare_from-covers contest owner b [] i h = (ground arith, refl)
prepare_from-covers contest owner b (r ∷ events) i h = elim (Bool-cases (str_eq r.payload "")) [
  | inl q ↦
      let (c, f) =
        prepare_from-covers contest owner (record b { sent_ids = b.sent_ids ++ r.id ∷ [] }) events i
          h.1 in
      let more = has_id-append b.sent_ids (r.id ∷ []) i in
      rw (h.0, q, prepare_from) (ground (arith, c, more), f)
  | inr q ↦
      let (c, f) =
        prepare_from-covers contest owner (record b { messages = b.messages ++ r ∷ [] }) events i
          h.1 in
      let more = has_id-ids_of-append b.messages r i in
      rw (h.0, q, prepare_from) (ground (arith, c, more), f)
]

module _ (o : RankOutboxRelayOptions) (contest : String) (events : List Row) where
  abbrev Valid : List Row → Type 0
  Valid rows = All (λ r. validate_for_claim contest o.owner_id r ≡ true) rows

  abbrev sorted : List Row
  sorted = sort_stable (λ r s. ltb r.id s.id) events

  sorted-Valid : Valid events → Valid sorted
  sorted-Valid h =
      (All-sort_stable (λ r. validate_for_claim contest o.owner_id r ≡ true) (λ r s. ltb r.id s.id)
        events h).0

  -- A batch whose messages are all written marks every event as sent, and none as failed.
  pub publish-covers :
      (i : ℕ)
      → Valid events
      → has_id (ids_of events) i ≡ true
      → has_id (publish o contest written events).0.sent_ids i ≡ true
  unfolding publish settle split_answer
  publish-covers i h e =
      let c = (prepare_from-covers contest o.owner_id no_batch sorted i (sorted-Valid h)).0 in
      let b = prepare_from contest o.owner_id no_batch sorted in
      let same = tally-sort_stable (λ r. r.id == i) (λ r s. ltb r.id s.id) events in
      let there : has_id (ids_of sorted) i ≡ true =
        ground (arith, same, has_id-ids_of sorted i, has_id-ids_of events i, e) in
      ground (arith, c, there, has_id-append b.sent_ids (ids_of b.messages) i)

  pub publish-failed : Valid events → (publish o contest written events).0.failed_ids ≡ []
  unfolding publish settle split_answer
  publish-failed h =
      rw ((prepare_from-covers contest o.owner_id no_batch sorted 0 (sorted-Valid h)).1) refl
