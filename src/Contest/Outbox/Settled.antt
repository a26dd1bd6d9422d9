-- ===== src/Contest/Outbox/Settled.antt =====
-- When an update is sent: its message is acknowledged, or it has no payload. What a relay holds, and
-- what a table's rows say, agrees with that.
use fuzoj.Prelude.{
  ℕ, ◌≡◌, refl, ap, subst, ◌∙◌, List, [], ◌∷◌, ◌++◌, map, String, Bool, true, false, not, some, ◌⊎◌,
  inl, inr, All, All-append, Among, Bool-cases, str_eq, str_eq_iff, ltb,
}
use fuzoj.Prelude.ListLaws.{All-imp}
use fuzoj.Prelude.Ids.{Ids, find_id}
use fuzoj.Prelude.Sort.{sort_stable, All-sort_stable}
use fuzoj.Contest.Outbox.{Row, is_sent, validate_for_claim}
use fuzoj.Contest.Outbox.Relay.{
  RankOutboxRelayOptions, Batch, no_batch, prepare_from, WriteAnswer, written, write_errors,
  write_failed, split_errors, split_answer, without_error, acknowledged_by, settle, publish,
}
use fuzoj.Contest.Outbox.Steps.{
  Phase, idle, claiming, claimed, marking_sent, marking_failed, message_of,
}

-- A row as it was inserted, and an update that is sent, by the ids that were inserted and the
-- messages that are acknowledged.
abbrev pub Known : Ids String → Row → Type 0
Known inserted r = find_id inserted r.id ≡ some r.payload

abbrev pub IsSent : List (ℕ × String) → ℕ → String → Type 0
IsSent log i payload = (payload ≡ "") ⊎ Among (i, payload) log

abbrev pub Settled : Ids String → List (ℕ × String) → ℕ → Type 0
Settled inserted log i =
    (payload : String) × (find_id inserted i ≡ some payload) × IsSent log i payload

abbrev pub RowHolds : Ids String → List (ℕ × String) → Row → Type 0
RowHolds inserted log r = Known inserted r × (is_sent r.status ≡ true → Settled inserted log r.id)

abbrev pub PhaseHolds : Ids String → List (ℕ × String) → Phase → Type 0
PhaseHolds inserted log idle = Unit
PhaseHolds inserted log (claiming contest) = Unit
PhaseHolds inserted log (claimed contest events) = All (Known inserted) events
PhaseHolds inserted log (marking_sent ids failed) = All (Settled inserted log) ids
PhaseHolds inserted log (marking_failed failed levels) = Unit

-- More is inserted and more is acknowledged.
abbrev pub Grows : Ids String → List (ℕ × String) → Ids String → List (ℕ × String) → Type 0
Grows inserted log inserted' log' =
    ((i : ℕ) (p : String) → find_id inserted i ≡ some p → find_id inserted' i ≡ some p)
    × ((m : ℕ × String) → Among m log → Among m log')

module _ (a : Ids String) (l : List (ℕ × String)) (b : Ids String) (m : List (ℕ × String)) where
  pub Settled-Grows : Grows a l b m → (i : ℕ) → Settled a l i → Settled b m i
  Settled-Grows (g, h) i (p, e, inl q) = (p, g i p e, inl q)
  Settled-Grows (g, h) i (p, e, inr q) = (p, g i p e, inr (h (i, p) q))

  pub RowHolds-Grows : Grows a l b m → (r : Row) → RowHolds a l r → RowHolds b m r
  RowHolds-Grows g r (k, s) = (g.0 r.id r.payload k, λ e. Settled-Grows g r.id (s e))

  pub PhaseHolds-Grows : Grows a l b m → (ph : Phase) → PhaseHolds a l ph → PhaseHolds b m ph
  PhaseHolds-Grows g idle h = tt
  PhaseHolds-Grows g (claiming contest) h = tt
  PhaseHolds-Grows g (claimed contest events) h =
      All-imp (Known a) (Known b) events (λ r k. g.0 r.id r.payload k) h
  PhaseHolds-Grows g (marking_sent ids failed) h =
      All-imp (Settled a l) (Settled b m) ids (Settled-Grows g) h
  PhaseHolds-Grows g (marking_failed failed levels) h = tt

-- What a batch that is prepared holds: the ids to be marked have no payload.
abbrev BatchHolds : Ids String → List (ℕ × String) → Batch → Type 0
BatchHolds inserted log b = All (Settled inserted log) b.sent_ids × All (Known inserted) b.messages

module _ (inserted : Ids String) (log : List (ℕ × String)) where
  prepare_from-BatchHolds :
      (contest owner : String) (b : Batch) (events : List Row)
      → BatchHolds inserted log b
      → All (Known inserted) events
      → BatchHolds inserted log (prepare_from contest owner b events)
  unfolding prepare_from
  prepare_from-BatchHolds contest owner b [] h k = h
  prepare_from-BatchHolds contest owner b (r ∷ events) h k =
      elim (Bool-cases (not (validate_for_claim contest owner r))) [
        | inl e ↦
            rw (e, prepare_from)
              (prepare_from-BatchHolds contest owner
                (record b { failed_ids = b.failed_ids ++ (r.retry_count, r.id) ∷ [] }) events h k.1)
        | inr e ↦ elim (Bool-cases (str_eq r.payload "")) [
          | inl q ↦
              let none_to_send : r.payload ≡ "" = (str_eq_iff r.payload "").0 q in
              rw (e, q, prepare_from)
                (prepare_from-BatchHolds contest owner
                  (record b { sent_ids = b.sent_ids ++ r.id ∷ [] }) events
                  (
                    All-append (Settled inserted log) b.sent_ids (r.id ∷ []) h.0
                        ((r.payload, k.0, inl none_to_send), tt),
                    h.1,
                  )
                  k.1)
          | inr q ↦
              rw (e, q, prepare_from)
                (prepare_from-BatchHolds contest owner
                  (record b { messages = b.messages ++ r ∷ [] }) events
                  (h.0, All-append (Known inserted) b.messages (r ∷ []) h.1 (k.0, tt)) k.1)
        ]
      ]

  split_errors-Known :
      (errors : List Bool) (rows : List Row)
      → All (Known inserted) rows
      → All (Known inserted) (split_errors errors rows).0
  unfolding split_errors
  split_errors-Known errors [] h = tt
  split_errors-Known [] (r ∷ rows) h = (h.0, split_errors-Known [] rows h.1)
  split_errors-Known (true ∷ errors) (r ∷ rows) h = split_errors-Known errors rows h.1
  split_errors-Known (false ∷ errors) (r ∷ rows) h = (h.0, split_errors-Known errors rows h.1)

  split_answer-Known :
      (answer : WriteAnswer) (rows : List Row)
      → All (Known inserted) rows
      → All (Known inserted) (split_answer answer rows).0
  unfolding split_answer
  split_answer-Known written rows h = h
  split_answer-Known (write_errors errors) rows h = split_errors-Known errors rows h
  split_answer-Known write_failed rows h = tt

  Settled-acknowledged :
      (good : List Row)
      → All (Known inserted) good
      → ((m : ℕ × String) → Among m (map message_of good) → Among m log)
      → All (Settled inserted log) (map (λ r. r.id) good)
  Settled-acknowledged [] h k = tt
  Settled-acknowledged (r ∷ good) h k = (
    (r.payload, h.0, inr (k (r.id, r.payload) (inl refl))),
    Settled-acknowledged good h.1 (λ m x. k m (inr x)),
  )

Among-append :
    {A : Type 0} (a : A) (xs ys : List A) → (Among a xs ⊎ Among a ys) → Among a (xs ++ ys)
Among-append a [] ys (inl h) = absurd h
Among-append a [] ys (inr h) = h
Among-append a (x ∷ xs) ys (inl (inl e)) = inl e
Among-append a (x ∷ xs) ys (inl (inr h)) = inr (Among-append a xs ys (inl h))
Among-append a (x ∷ xs) ys (inr h) = inr (Among-append a xs ys (inr h))

-- Kafka's answer makes the log longer.
pub Grows-append :
    (inserted : Ids String) (log more : List (ℕ × String))
    → Grows inserted log inserted (log ++ more)
Grows-append inserted log more = (λ i p e. e, λ m h. Among-append m log more (inl h))

without_error-none : (rows : List Row) → without_error [] rows ≡ rows
unfolding without_error
without_error-none [] = refl
without_error-none (r ∷ rows) = refl

split_errors-acknowledged :
    (errors : List Bool) (rows : List Row)
    → (split_errors errors rows).0 ≡ without_error errors rows
unfolding split_errors without_error
split_errors-acknowledged errors [] = refl
split_errors-acknowledged [] (r ∷ rows) =
    ap (◌∷◌ r) (split_errors-acknowledged [] rows ∙ without_error-none rows)
split_errors-acknowledged (true ∷ errors) (r ∷ rows) = split_errors-acknowledged errors rows
split_errors-acknowledged (false ∷ errors) (r ∷ rows) =
    ap (◌∷◌ r) (split_errors-acknowledged errors rows)

-- What is marked as sent after an answer is what the answer says is written.
split_answer-acknowledged :
    (answer : WriteAnswer) (rows : List Row)
    → (split_answer answer rows).0 ≡ acknowledged_by answer rows
unfolding split_answer acknowledged_by
split_answer-acknowledged written rows = refl
split_answer-acknowledged (write_errors errors) rows = split_errors-acknowledged errors rows
split_answer-acknowledged write_failed rows = refl

-- What is to be marked as sent after Kafka's answer is sent.
pub publish-Settled :
    (inserted : Ids String) (log : List (ℕ × String)) (o : RankOutboxRelayOptions)
    (contest : String) (answer : WriteAnswer) (events : List Row)
    → All (Known inserted) events
    → let (batch, acknowledged) = publish o contest answer events in
      All (Settled inserted (log ++ map message_of acknowledged)) batch.sent_ids
unfolding publish settle
publish-Settled inserted log o contest answer events h =
    let sorted = sort_stable (λ r s. ltb r.id s.id) events in
    let known = (All-sort_stable (Known inserted) (λ r s. ltb r.id s.id) events h).0 in
    let b = prepare_from contest o.owner_id no_batch sorted in
    let holds =
      prepare_from-BatchHolds inserted log contest o.owner_id no_batch sorted (tt, tt) known in
    let good = (split_answer answer b.messages).0 in
    let more = map message_of (acknowledged_by answer b.messages) in
    let same = split_answer-acknowledged answer b.messages in
    All-append (Settled inserted (log ++ more)) b.sent_ids (map (λ r. r.id) good)
      (All-imp (Settled inserted log) (Settled inserted (log ++ more)) b.sent_ids
        (Settled-Grows inserted log inserted (log ++ more) (Grows-append inserted log more))
        holds.0)
      (Settled-acknowledged inserted (log ++ more) good
        (split_answer-Known inserted log answer b.messages holds.1)
        (λ m x. Among-append m log more (inr (subst (λ g. Among m (map message_of g)) same x))))
