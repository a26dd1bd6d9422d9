-- ===== src/Contest/Outbox.antt =====
-- The table of rank updates that wait to be sent
-- (services/contest_service/internal/repository/rank_outbox_repository.go): one function per SQL
-- statement, on the rows in the order of their ids. Times are nanoseconds, and a duration or limit
-- of 0 stands for one that is not positive. Texts compare as they are.
pub mod Relay
pub mod Lease
pub mod Rows
pub mod Steps
pub mod Settled
pub mod Statements
pub mod Delivery
pub mod Covers
pub mod Tally
pub mod Drain
use fuzoj.Prelude.{
  ℕ, zero, suc, ◌+◌, ◌*◌, ◌<◌, List, [], ◌∷◌, ◌++◌, map, String, Bool, true, false, ◌&&◌, ◌||◌, not,
  Option, none, some, if◌then◌else◌, ltb, leb, ◌==◌, str_eq, length, take, keep,
}
use fuzoj.Prelude.Sort.{sort_stable}
use fuzoj.Contest.Score.{Time}

pub data RowStatus : Type 0 where
  pending processing sent : RowStatus

abbrev pub is_pending : RowStatus → Bool
is_pending pending = true
is_pending processing = false
is_pending sent = false

abbrev pub is_processing : RowStatus → Bool
is_processing pending = false
is_processing processing = true
is_processing sent = false

abbrev pub is_sent : RowStatus → Bool
is_sent pending = false
is_sent processing = false
is_sent sent = true

-- RankOutboxEvent, a row of the table
pub record Row : Type 0 where
  pub id : ℕ
  pub contest_id : String
  pub event_key : String
  pub payload : String
  pub status : RowStatus
  pub retry_count : ℕ
  pub next_retry_at : Time
  pub owner_id : Option String
  pub lease_until : Time
  pub created_at : ℕ
  pub updated_at : ℕ

-- `next_retry_at is null or next_retry_at <= now`
abbrev pub is_due : ℕ → Row → Bool
is_due now r = elim r.next_retry_at [ none ↦ true | some t ↦ leb t now ]

-- `lease_until <= now`, of a lease that may be null
abbrev pub lease_is_over : ℕ → Row → Bool
lease_is_over now r = elim r.lease_until [ none ↦ false | some t ↦ leb t now ]

-- `owner_id = owner`
abbrev pub is_owned : String → Row → Bool
is_owned owner r = elim r.owner_id [ none ↦ false | some o ↦ str_eq o owner ]

-- The condition on the owner, which is left out for no owner.
abbrev pub by_owner : String → Row → Bool
by_owner owner r = str_eq owner "" || is_owned owner r

-- `id in (...)`
unfoldable pub has_id : List ℕ → ℕ → Bool
has_id [] id = false
has_id (i ∷ ids) id = i == id || has_id ids id

-- An update of the rows that meet a condition, and of the first of them only.
unfoldable pub update_where : (Row → Bool) → (Row → Row) → List Row → List Row
update_where p f [] = []
update_where p f (r ∷ rows) = (if p r then f r else r) ∷ update_where p f rows

unfoldable pub update_first : ℕ → (Row → Bool) → (Row → Row) → List Row → List Row
update_first limit p f [] = []
update_first zero p f (r ∷ rows) = r ∷ rows
update_first (suc n) p f (r ∷ rows) =
    if p r then f r ∷ update_first n p f rows else r ∷ update_first (suc n) p f rows

-- A limit or duration with its default.
abbrev pub or_default : ℕ → ℕ → ℕ
or_default d n = if ltb 0 n then n else d

-- Enqueue, of an event with a contest, a key and a payload, under the id that the database gives
unfoldable pub new_row : ℕ → ℕ → String → String → String → Row
new_row now id contest key payload = record {
  id = id;
  contest_id = contest;
  event_key = key;
  payload = payload;
  status = pending;
  retry_count = 0;
  next_retry_at = some now;
  owner_id = none;
  lease_until = none;
  created_at = now;
  updated_at = now;
}

-- ListPending
unfoldable pub list_pending : ℕ → ℕ → List Row → List Row
list_pending now limit rows =
    take (or_default 100 limit) (keep (λ r. is_pending r.status && is_due now r) rows)

-- The condition and the assignments of `MarkSentByOwner`.
abbrev pub is_marked : String → List ℕ → Row → Bool
is_marked owner ids r = is_processing r.status && by_owner owner r && has_id ids r.id

abbrev pub as_sent : ℕ → Row → Row
as_sent now r = record r { status = sent; owner_id = none; lease_until = none; updated_at = now }

-- MarkSentByOwner
unfoldable pub mark_sent_by_owner : ℕ → String → List ℕ → List Row → List Row
mark_sent_by_owner now owner ids rows = update_where (is_marked owner ids) (as_sent now) rows

-- MarkSent
unfoldable pub mark_sent : ℕ → List ℕ → List Row → List Row
unfolding mark_sent_by_owner
mark_sent now ids rows = mark_sent_by_owner now "" ids rows

-- MarkFailedWithRetry
unfoldable pub mark_failed_with_retry : ℕ → String → ℕ → List ℕ → Time → List Row → List Row
unfolding update_where has_id
mark_failed_with_retry now owner retry_count ids next_retry rows =
    let at : ℕ = elim next_retry [ none ↦ now | some t ↦ t ] in
    update_where
      (λ r.
        is_processing r.status
        && r.retry_count == retry_count
        && by_owner owner r
        && has_id ids r.id)
      (λ r. record r {
        status = pending;
        retry_count = retry_count + 1;
        next_retry_at = some at;
        owner_id = none;
        lease_until = none;
        updated_at = now;
      })
      rows

-- MarkFailed
unfoldable pub mark_failed : ℕ → Row → Time → List Row → List Row
unfolding mark_failed_with_retry
mark_failed now event next_retry rows =
    mark_failed_with_retry now "" event.retry_count (event.id ∷ []) next_retry rows

-- The statement of `ClaimByContest` that takes rows, with its condition and its assignments.
abbrev pub is_claimable : String → ℕ → Row → Bool
is_claimable contest now r = str_eq r.contest_id contest && is_pending r.status && is_due now r

abbrev pub as_claimed : ℕ → ℕ → String → Row → Row
as_claimed now lease owner r = record r {
  status = processing;
  owner_id = some owner;
  lease_until = some (now + or_default 5_000_000_000 lease);
  updated_at = now;
}

unfoldable pub claim_rows : ℕ → ℕ → String → String → ℕ → List Row → List Row
claim_rows now lease contest owner limit rows =
    update_first (or_default 100 limit) (is_claimable contest now) (as_claimed now lease owner) rows

-- The one that reads them.
abbrev pub is_claimed : String → String → Row → Bool
is_claimed contest owner r =
    str_eq r.contest_id contest && is_processing r.status && is_owned owner r

unfoldable pub claimed_rows : String → String → ℕ → List Row → List Row
claimed_rows contest owner limit rows =
    take (or_default 100 limit) (keep (is_claimed contest owner) rows)

-- ClaimByContest, where it returns no error
unfoldable pub claim_by_contest : ℕ → ℕ → String → String → ℕ → List Row → List Row × List Row
unfolding claim_rows claimed_rows
claim_by_contest now lease contest owner limit rows =
    let rows' = claim_rows now lease contest owner limit rows in
    (claimed_rows contest owner limit rows', rows')

-- `order by lease_until asc` and `order by updated_at asc`
abbrev pub lease_before : Row → Row → Bool
lease_before r s = elim r.lease_until [
  | none ↦ elim s.lease_until [ none ↦ false | some t ↦ true ]
  | some u ↦ elim s.lease_until [ none ↦ false | some t ↦ ltb u t ]
]

abbrev pub updated_before : Row → Row → Bool
updated_before r s = ltb r.updated_at s.updated_at

-- RequeueExpiredProcessing: the rows, and how many are affected
unfoldable pub requeue_expired_processing : ℕ → ℕ → List Row → ℕ × List Row
unfolding update_where has_id sort_stable
requeue_expired_processing now limit rows =
    let over = keep (λ r. is_processing r.status && lease_is_over now r) rows in
    let picks = take (or_default 200 limit) (sort_stable lease_before over) in
    let ids = map (λ r. r.id) picks in
    (
      length picks,
      update_where (λ r. is_processing r.status && lease_is_over now r && has_id ids r.id)
          (λ r. record r {
            status = pending;
            owner_id = none;
            lease_until = none;
            updated_at = now;
          })
          rows,
    )

-- DeleteSentBefore: how many are affected, and the rows
unfoldable pub delete_sent_before : ℕ → ℕ → List Row → ℕ × List Row
unfolding has_id sort_stable
delete_sent_before cutoff limit rows =
    let old = keep (λ r. is_sent r.status && ltb r.updated_at cutoff) rows in
    let picks = take (or_default 200 limit) (sort_stable updated_before old) in
    let ids = map (λ r. r.id) picks in
    (
      length picks,
      keep (λ r. not (is_sent r.status && ltb r.updated_at cutoff && has_id ids r.id)) rows,
    )

-- ValidateForClaim: whether it returns no error
unfoldable pub validate_for_claim : String → String → Row → Bool
validate_for_claim contest owner r = str_eq r.contest_id contest && is_owned owner r
