-- ===== src/Submit/Flow.antt =====
-- `ApplySummary` (pkg/submit/statusflow/updater.go) of an updater with a cache.
pub mod Order
use fuzoj.Prelude.{
  String, Bool, true, false, ◌||◌, ◌&&◌, not, Option, none, some, if◌then◌else◌, str_eq, List, [],
  ◌∷◌,
}
use fuzoj.Prelude.Text.{is_blank}
use fuzoj.Submit.Payload.{StatusPayload, Json, build_summary}
use fuzoj.Submit.Monotonic.{should_accept}
use fuzoj.Submit.Cache.{Store, Faults, Loaded, load_failed, miss, hit, get, set}

-- What the updater returns: an error, or whether the status was accepted and the reason.
pub data Reply : Type 0 where
  error : Reply
  replied : Bool → String → Reply

module _ (json : Json) (short_hash : String → String) where
  abbrev pub accept_after : StatusPayload → StatusPayload → Bool × String
  accept_after current next =
      should_accept current.status current.done_tests current.total_tests next.status
        next.done_tests next.total_tests

  -- Publish: it fails at a blank id, and where Redis does.
  unfoldable pub publish : Faults → String → Bool
  publish f id = if is_blank id then false else not f.publish

  -- The write of the summary, and the notification.
  unfoldable pub write_summary : Faults → Store → StatusPayload → Reply × Store
  write_summary f st next =
      let (ok, st') = set short_hash f st next.submission_id (json.encode (build_summary next)) in
      if not ok
      then (error, st')
      else if publish f next.submission_id
      then (replied true "", st')
      else (error, st')

  -- A current status that can be read is compared.
  unfoldable pub compare_current : Option StatusPayload → StatusPayload → Bool × String
  compare_current none next = (true, "")
  compare_current (some current) next = accept_after current next

  unfoldable pub apply_loaded : Faults → Store → Loaded → StatusPayload → Reply × Store
  apply_loaded f st load_failed next = (error, st)
  apply_loaded f st miss next = write_summary f st next
  apply_loaded f st (hit cached) next =
      if str_eq cached "" || str_eq cached "$NULL$"
      then write_summary f st next
      else let (accept, reason) = compare_current (json.decode cached) next in
        if accept then write_summary f st next else (replied false reason, st)

  -- ApplySummary
  unfoldable pub apply_summary : Faults → Store → StatusPayload → Reply × Store
  apply_summary f st next =
      if str_eq next.submission_id ""
      then (error, st)
      else apply_loaded f st (get short_hash f st next.submission_id) next

  -- A run of updates, each with its faults.
  abbrev pub apply_all : Store → List (Faults × StatusPayload) → Store
  apply_all st [] = st
  apply_all st ((f, next) ∷ rest) = apply_all (apply_summary f st next).1 rest
