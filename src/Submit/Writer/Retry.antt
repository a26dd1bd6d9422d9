-- ===== src/Submit/Writer/Retry.antt =====
-- A retry after a failed write of the cache.
use fuzoj.Prelude.{◌≡◌, refl, String, true, false, none, some, arith, str_eq, str_eq_refl, ap}
use fuzoj.Prelude.Int.{ℤ}
use fuzoj.Prelude.Assoc.{find, put, find-put}
use fuzoj.Submit.Payload.{StatusPayload, Json, is_final_status}
use fuzoj.Submit.Cache.{set}
use fuzoj.Submit.Writer.{
  Submission, World, WriteFaults, cache_error, finished_at_or, submission_exists, not_affected,
  write_cache, write_final_status,
}
use fuzoj.Submit.Writer.First.{update_final-first, update_final-none}

module _ (json : Json) (short_hash : String → String) (s : StatusPayload)
    (named : str_eq s.submission_id "" ≡ false) (final : is_final_status s.status ≡ true) where
  -- What is written when the cache's first key fails.
  cache_fails :
      (w : World) (f : WriteFaults) (now : ℤ) (row : Submission)
      → f.exec ≡ false
      → f.redis.set_primary ≡ true
      → find w.submissions s.submission_id ≡ some row
      → row.final_status_at ≡ none
      → write_final_status json short_hash f now w s ≡ (
        some cache_error,
        record w {
          submissions = put w.submissions s.submission_id (record {
            final_status = some (json.encode s);
            final_status_at = some (finished_at_or now s);
          });
        },
      )
  unfolding write_final_status write_cache set
  cache_fails w f now row e p h o =
      rw
        (
          named,
          final,
          e,
          update_final-first w.submissions s.submission_id (json.encode s) (finished_at_or now s)
              row h o,
        )
        (ground arith)

  -- A submission that has its final status is skipped.
  skipped :
      (w : World) (g : WriteFaults) (later old : ℤ) (row : Submission)
      → g.exec ≡ false
      → g.rows_affected ≡ false
      → g.query ≡ false
      → find w.submissions s.submission_id ≡ some row
      → row.final_status_at ≡ some old
      → write_final_status json short_hash g later w s ≡ (none, w)
  unfolding write_final_status submission_exists not_affected
  skipped w g later old row e r q h o =
      rw
        (
          named,
          final,
          e,
          update_final-none w.submissions s.submission_id (json.encode s) (finished_at_or later s)
              old row h o,
          r,
          q,
          h,
        )
        refl

  -- When the row of a final status is written and the cache's first key is not, the write fails
  -- with a cache error; a retry in which nothing fails then succeeds, and has not written the
  -- cache.
  pub write_final_status-retried :
      (w : World) (f g : WriteFaults) (now later : ℤ) (row : Submission)
      → f.exec ≡ false
      → f.redis.set_primary ≡ true
      → find w.submissions s.submission_id ≡ some row
      → row.final_status_at ≡ none
      → g.exec ≡ false
      → g.rows_affected ≡ false
      → g.query ≡ false
      → let once = write_final_status json short_hash f now w s in
        let again = write_final_status json short_hash g later once.1 s in
        (once.0 ≡ some cache_error) × (again.0 ≡ none) × (again.1.cache ≡ w.cache)
  write_final_status-retried w f g now later row e p h o e' r q =
      rw (cache_fails w f now row e p h o) (refl, ap (λ x. x.0) skips, ap (λ x. x.1.cache) skips)
    where
      settled : Submission
      settled = record {
        final_status = some (json.encode s);
        final_status_at = some (finished_at_or now s);
      }

      after : World
      after = record w { submissions = put w.submissions s.submission_id settled }

      there : find after.submissions s.submission_id ≡ some settled
      there = ground (
        arith,
        find-put w.submissions s.submission_id s.submission_id settled,
        str_eq_refl s.submission_id,
      )

      skips : write_final_status json short_hash g later after s ≡ (none, after)
      skips = skipped after g later (finished_at_or now s) settled e' r q there refl
