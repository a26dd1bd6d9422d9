-- ===== src/Contest/Outbox/Drain.antt =====
-- The end of `processContest`, where nothing fails: each round sends the rows that it claims.
use fuzoj.Prelude.{
  ℕ, zero, suc, ◌+◌, ◌<◌, ◌≡◌, refl, sym, subst, ◌∙◌, List, [], ◌++◌, String, Bool, true, false,
  not, ◌&&◌, Option, none, some, ◌==◌, inl, inr, arith, All, Bool-cases, keep, length, ltb, str_eq,
  str_eq_refl, tally,
}
use fuzoj.Contest.Outbox.{
  Row, is_sent, or_default, is_marked, as_sent, is_claimable, as_claimed, is_claimed, has_id,
  claim_rows, claimed_rows, claim_by_contest, mark_sent_by_owner, validate_for_claim,
}
use fuzoj.Contest.Outbox.Relay.{
  RankOutboxRelayOptions, written, publish, sorted_retry_counts, mark_levels, Round, process_events,
  Processed, process_from, process_contest,
}
use fuzoj.Contest.Outbox.Rows.{All-update_where}
use fuzoj.Contest.Outbox.Covers.{ids_of, publish-covers, publish-failed}
use fuzoj.Contest.Outbox.Tally.{
  tally-update_where-lt, tally-update_first, update_first-All, length-keep, length-take, Any-imp,
  Any-take-keep, All-take-keep,
}

-- The rows of a contest that are not sent.
abbrev pub is_unsent : String → Row → Bool
is_unsent contest r = str_eq r.contest_id contest && not (is_sent r.status)

-- What a relay of the options claims, and the rows after it has sent what it has claimed.
abbrev claim_of : RankOutboxRelayOptions → String → ℕ → List Row → List Row × List Row
claim_of o contest now rows =
    claim_by_contest now o.lease_duration contest o.owner_id o.claim_batch_size rows

abbrev sent_of : RankOutboxRelayOptions → String → ℕ → List Row → List Row
sent_of o contest now rows =
    let (events, rows') = claim_of o contest now rows in
    mark_sent_by_owner now o.owner_id (publish o contest written events).0.sent_ids rows'

module _ (o : RankOutboxRelayOptions) (contest : String) (now : ℕ) (rows : List Row) where
  events-valid :
      All (λ r. validate_for_claim contest o.owner_id r ≡ true) (claim_of o contest now rows).0
  unfolding claim_by_contest claimed_rows validate_for_claim
  events-valid =
      All-take-keep (λ r. validate_for_claim contest o.owner_id r ≡ true) _ _
        (claim_of o contest now rows).1 (λ r e. ground arith)

  claim-tally :
      tally (is_unsent contest) (claim_of o contest now rows).1 ≡ tally (is_unsent contest) rows
  unfolding claim_by_contest claim_rows
  claim-tally = tally-update_first _ _ (is_unsent contest) (λ r e. ground arith) _ rows

  -- A round that claims something leaves fewer rows that are not sent.
  sent_of-tally :
      0 < length (claim_of o contest now rows).0
      → tally (is_unsent contest) (sent_of o contest now rows) < tally (is_unsent contest) rows
  unfolding mark_sent_by_owner claim_by_contest claimed_rows
  sent_of-tally h =
      let (events, rows') = claim_of o contest now rows in
      let ids = (publish o contest written events).0.sent_ids in
      let less =
        tally-update_where-lt (is_marked o.owner_id ids) (as_sent now) (is_unsent contest)
          (λ r e. ground arith) rows'
          (Any-imp
            (λ r. (is_claimed contest o.owner_id r ≡ true) × (has_id (ids_of events) r.id ≡ true))
            (λ r. (is_marked o.owner_id ids r ≡ true) × (is_unsent contest r ≡ true)) rows'
            (λ r h.
              let covered = publish-covers o contest events r.id events-valid h.1 in
              (ground (arith, h.0, covered), ground (arith, h.0)))
            (Any-take-keep (or_default 100 o.claim_batch_size) (is_claimed contest o.owner_id) rows'
              h)) in
      subst (λ n. tally (is_unsent contest) (sent_of o contest now rows) < n) claim-tally less

  -- A claim of less than its limit leaves no row that could be claimed, and neither does the round.
  claim-clears :
      length (claim_of o contest now rows).0 < or_default 100 o.claim_batch_size
      → All (λ r. is_claimable contest now r ≡ false) (claim_of o contest now rows).1
  unfolding claim_by_contest claimed_rows claim_rows
  claim-clears h =
      let rows' = (claim_of o contest now rows).1 in
      let limit = or_default 100 o.claim_batch_size in
      let mine = is_claimed contest o.owner_id in
      let few : tally mine rows' < limit =
        omega (arith, length-take limit (keep mine rows') h, length-keep mine rows') in
      update_first-All (is_claimable contest now) (as_claimed now o.lease_duration o.owner_id) mine
        (λ r e. (ground (arith, str_eq_refl o.owner_id), ground arith)) limit rows few

  sent_of-clears :
      length (claim_of o contest now rows).0 < or_default 100 o.claim_batch_size
      → All (λ r. is_claimable contest now r ≡ false) (sent_of o contest now rows)
  unfolding mark_sent_by_owner
  sent_of-clears h =
      let (events, rows') = claim_of o contest now rows in
      All-update_where (λ r. is_claimable contest now r ≡ false)
        (is_marked o.owner_id (publish o contest written events).0.sent_ids) (as_sent now) rows'
        (λ r x e. ground arith) (claim-clears h)

-- A round in which nothing fails.
abbrev pub Smooth : Round → Type 0
Smooth r =
    (r.renewal_fails ≡ false)
    × (r.claim_fails ≡ false)
    × (r.query_fails ≡ false)
    × (r.answer ≡ written)
    × (r.mark_sent_fails ≡ false)

process_events-Smooth :
    (o : RankOutboxRelayOptions) (contest : String) (round : Round) (rows : List Row)
    → Smooth round
    → let (events, rows') = claim_of o contest round.now rows in
      (process_events o contest round events rows').1 ≡ sent_of o contest round.now rows
unfolding process_events sorted_retry_counts mark_levels
process_events-Smooth o contest round rows (_, _, _, a, m) =
    let (events, rows') = claim_of o contest round.now rows in
    let none_failed = publish-failed o contest events (events-valid o contest round.now rows) in
    simp (a, m, none_failed) refl

-- The work from round `i` on, for each fuel: with the given fuel it ends without an error. Its last round
-- is the one that a fuel of `k + 1` reaches and a fuel of `k` does not, and no row is left that
-- could be claimed at that round's time.
abbrev pub Ends : String → (ℕ → Round) → ℕ → ℕ → (ℕ → Option Processed) → Type 0
Ends contest rounds i fuel run =
    (p : Processed) × (k : ℕ) × (run fuel ≡ some p)
    × (run k ≡ none)
    × (run (suc k) ≡ some p)
    × (p.fails ≡ false)
    × All (λ r. is_claimable contest (rounds (i + k)).now r ≡ false) p.rows

-- Rows that are clear at the time of a round are clear when its number is written otherwise.
clear_at :
    (contest : String) (rounds : ℕ → Round) (rows : List Row) (i j : ℕ)
    → i ≡ j
    → All (λ r. is_claimable contest (rounds i).now r ≡ false) rows
    → All (λ r. is_claimable contest (rounds j).now r ≡ false) rows
clear_at contest rounds rows i j e h =
    subst (λ j. All (λ r. is_claimable contest (rounds j).now r ≡ false) rows) e h

process_from-Ends :
    (fuel : ℕ) (o : RankOutboxRelayOptions) (contest : String) (rounds : ℕ → Round) (i : ℕ)
    (any : Bool) (log rows : List Row)
    → ((k : ℕ) → Smooth (rounds k))
    → tally (is_unsent contest) rows < fuel
    → Ends contest rounds i fuel (λ n. process_from n o contest rounds i any log rows)
unfolding process_from
process_from-Ends zero o contest rounds i any log rows h n = absurd (omega arith)
process_from-Ends (suc fuel) o contest rounds i any log rows h n =
    let round = rounds i in
    let (renewal, claim, query, a, m) = h i in
    let (events, rows') = claim_of o contest round.now rows in
    let (acknowledged, rows'') = process_events o contest round events rows' in
    let same : rows'' ≡ sent_of o contest round.now rows =
      process_events-Smooth o contest round rows (h i) in
    elim (Bool-cases (length events == 0)) [
      | inl e ↦
          simp (renewal, claim, query, e)
            (
              record { processed_any = any; fails = false; acknowledged = log; rows = rows' },
              0,
              refl,
              refl,
              refl,
              refl,
              clear_at contest rounds rows' i (i + 0) (omega arith)
                  (claim-clears o contest round.now rows (ground arith)),
            )
      | inr e ↦ elim (Bool-cases (ltb (length events) o.claim_batch_size)) [
        | inl f ↦
            simp (renewal, claim, query, e, f)
              (
                record {
                  processed_any = true;
                  fails = false;
                  acknowledged = log ++ acknowledged;
                  rows = rows'';
                },
                0,
                refl,
                refl,
                refl,
                refl,
                clear_at contest rounds rows'' i (i + 0) (omega arith) (
                    subst (λ rs. All (λ r. is_claimable contest round.now r ≡ false) rs) (sym same)
                      (sent_of-clears o contest round.now rows (ground arith))),
              )
        | inr f ↦
            let less = sent_of-tally o contest round.now rows (ground arith) in
            let fewer : tally (is_unsent contest) rows'' < fuel = rw same (omega arith) in
            let more : (n : ℕ)
                → process_from (suc n) o contest rounds i any log rows
                  ≡ process_from n o contest rounds (i + 1) true (log ++ acknowledged) rows'' =
              λ n. simp (renewal, claim, query, e, f) refl in
            let (p, k, ends, short, last, fine, clear) =
              process_from-Ends fuel o contest rounds (i + 1) true (log ++ acknowledged) rows'' h
                fewer in
            (
              p,
              suc k,
              more fuel ∙ ends,
              more k ∙ short,
              more (suc k) ∙ last,
              fine,
              clear_at contest rounds p.rows (i + 1 + k) (i + suc k) (omega arith) clear,
            )
      ]
    ]

-- Where nothing fails and Kafka writes every message, `processContest` ends, with more fuel than the
-- contest has rows that are not sent: without an error, and with no row left of the contest that is
-- pending and due at the time of the last round that it ran.
pub process_contest-Ends :
    (fuel : ℕ) (o : RankOutboxRelayOptions) (contest : String) (rounds : ℕ → Round)
    (rows : List Row)
    → ((k : ℕ) → Smooth (rounds k))
    → tally (is_unsent contest) rows < fuel
    → Ends contest rounds 0 fuel (λ n. process_contest n o contest rounds rows)
unfolding process_contest
process_contest-Ends fuel o contest rounds rows h n =
    process_from-Ends fuel o contest rounds 0 false [] rows h n
