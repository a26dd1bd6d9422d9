-- ===== src/Contest/Outbox/Statements.antt =====
-- Every statement on the outbox table keeps what its rows say, and loses no row that is not sent.
use fuzoj.Prelude.{
  ℕ, ◌≡◌, refl, subst, List, String, Bool, true, false, Option, some, ◌⊎◌, inl, inr, arith, All,
  keep,
}
use fuzoj.Prelude.Ids.{Ids, find_id}
use fuzoj.Contest.Outbox.{
  Row, is_sent, or_default, update_where, update_first, claim_rows, mark_sent_by_owner,
  mark_failed_with_retry, requeue_expired_processing, delete_sent_before,
}
use fuzoj.Contest.Outbox.Rows.{
  All-update_where, All-update_first, All-keep, Stands, Stands-update_where, Stands-update_first,
  Stands-keep, All-has_id,
}
use fuzoj.Contest.Outbox.Settled.{Settled, RowHolds}

-- The rows hold, and what was inserted is sent or stands in the table.
abbrev pub RowsHold : Ids String → List (ℕ × String) → List Row → Type 0
RowsHold inserted log rows =
    All (RowHolds inserted log) rows
    × ((i : ℕ) (p : String) → find_id inserted i ≡ some p → Settled inserted log i ⊎ Stands i rows)

module _ (inserted : Ids String) (log : List (ℕ × String)) where
  update_where-RowsHold :
      (p : Row → Bool) (f : Row → Row) (rows : List Row)
      → ((r : Row) → (f r).id ≡ r.id)
      → ((r : Row) → RowHolds inserted log r → p r ≡ true → RowHolds inserted log (f r))
      → RowsHold inserted log rows
      → RowsHold inserted log (update_where p f rows)
  update_where-RowsHold p f rows same k (h, kept) = (
    All-update_where (RowHolds inserted log) p f rows k h,
    λ i q e. elim (kept i q e) [
      | inl x ↦ inl x
      | inr y ↦ inr (Stands-update_where i p f rows same y)
    ],
  )

  update_first-RowsHold :
      (n : ℕ) (p : Row → Bool) (f : Row → Row) (rows : List Row)
      → ((r : Row) → (f r).id ≡ r.id)
      → ((r : Row) → RowHolds inserted log r → p r ≡ true → RowHolds inserted log (f r))
      → RowsHold inserted log rows
      → RowsHold inserted log (update_first n p f rows)
  update_first-RowsHold n p f rows same k (h, kept) = (
    All-update_first (RowHolds inserted log) n p f rows k h,
    λ i q e. elim (kept i q e) [
      | inl x ↦ inl x
      | inr y ↦ inr (Stands-update_first i n p f rows same y)
    ],
  )

  pub claim_rows-RowsHold :
      (now lease : ℕ) (contest owner : String) (limit : ℕ) (rows : List Row)
      → RowsHold inserted log rows
      → RowsHold inserted log (claim_rows now lease contest owner limit rows)
  unfolding claim_rows
  claim_rows-RowsHold now lease contest owner limit rows h =
      update_first-RowsHold (or_default 100 limit) _ _ rows (λ r. refl)
        (λ r x e. (x.0, λ q. absurd (ground arith))) h

  pub mark_sent_by_owner-RowsHold :
      (now : ℕ) (owner : String) (ids : List ℕ) (rows : List Row)
      → All (Settled inserted log) ids
      → RowsHold inserted log rows
      → RowsHold inserted log (mark_sent_by_owner now owner ids rows)
  unfolding mark_sent_by_owner
  mark_sent_by_owner-RowsHold now owner ids rows settled h =
      update_where-RowsHold _ _ rows (λ r. refl)
        (λ r x e. (x.0, λ q. All-has_id (Settled inserted log) ids r.id settled (ground arith))) h

  pub mark_failed_with_retry-RowsHold :
      (now : ℕ) (owner : String) (retry_count : ℕ) (ids : List ℕ) (at : Option ℕ) (rows : List Row)
      → RowsHold inserted log rows
      → RowsHold inserted log (mark_failed_with_retry now owner retry_count ids at rows)
  unfolding mark_failed_with_retry
  mark_failed_with_retry-RowsHold now owner retry_count ids at rows h =
      update_where-RowsHold _ _ rows (λ r. refl) (λ r x e. (x.0, λ q. absurd (ground arith))) h

  pub requeue_expired_processing-RowsHold :
      (now limit : ℕ) (rows : List Row)
      → RowsHold inserted log rows
      → RowsHold inserted log (requeue_expired_processing now limit rows).1
  unfolding requeue_expired_processing
  requeue_expired_processing-RowsHold now limit rows h =
      update_where-RowsHold _ _ rows (λ r. refl) (λ r x e. (x.0, λ q. absurd (ground arith))) h

  -- Only rows that are sent are left out.
  keep-RowsHold :
      (p : Row → Bool) (rows : List Row)
      → ((r : Row) → p r ≡ false → is_sent r.status ≡ true)
      → RowsHold inserted log rows
      → RowsHold inserted log (keep p rows)
  keep-RowsHold p rows k (h, kept) = (
    All-keep (RowHolds inserted log) p rows h,
    λ i q e. elim (kept i q e) [
      | inl x ↦ inl x
      | inr y ↦ elim (Stands-keep (RowHolds inserted log) i p rows h y) [
        | inl (r, holds, same, gone) ↦ inl (subst (Settled inserted log) same (holds.1 (k r gone)))
        | inr z ↦ inr z
      ]
    ],
  )

  pub delete_sent_before-RowsHold :
      (cutoff limit : ℕ) (rows : List Row)
      → RowsHold inserted log rows
      → RowsHold inserted log (delete_sent_before cutoff limit rows).1
  unfolding delete_sent_before
  delete_sent_before-RowsHold cutoff limit rows h = keep-RowsHold _ rows (λ r e. ground arith) h
