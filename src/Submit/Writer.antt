-- ===== src/Submit/Writer.antt =====
-- `WriteFinalStatus` (pkg/submit/statuswriter/writer.go) of a writer with a cache. The table
-- `submissions` is a map of the two columns that the statement reads and writes; what fails is
-- given for each call.
pub mod First
pub mod Retry
use fuzoj.Prelude.{
  ◌&&◌, String, Bool, true, false, not, Option, none, some, if◌then◌else◌, str_eq, List, [], ◌∷◌,
}
use fuzoj.Prelude.Int.{ℤ, pos, ltb_ℤ}
use fuzoj.Prelude.Assoc.{Assoc, find, put}
use fuzoj.Submit.Payload.{StatusPayload, Json, build_summary, is_final_status}
use fuzoj.Submit.Cache.{Store, Faults, set}

-- A row of the table: `final_status` and `final_status_at`.
pub record Submission : Type 0 where
  pub final_status : Option String
  pub final_status_at : Option ℤ

-- What the writer writes to.
pub record World : Type 0 where
  pub submissions : Assoc Submission
  pub cache : Store

pub record WriteFaults : Type 0 where
  pub exec : Bool
  pub rows_affected : Bool
  pub query : Bool
  pub redis : Faults

pub data WriteError : Type 0 where
  submission_id_required final_required database_error submission_not_found cache_error : WriteError

-- finishedAt
unfoldable pub finished_at_or : ℤ → StatusPayload → ℤ
finished_at_or now s = if ltb_ℤ (pos 0) s.finished_at then s.finished_at else now

-- The `update` statement: whether a row is affected, and the table after it.
unfoldable pub update_final : Assoc Submission → String → String → ℤ → Bool × Assoc Submission
update_final t id text at = elim (find t id) [
  | none ↦ (false, t)
  | some row ↦ elim row.final_status_at [
    | some old ↦ (false, t)
    | none ↦ (true, put t id (record { final_status = some text; final_status_at = some at }))
  ]
]

-- submissionExists
unfoldable pub submission_exists : WriteFaults → Assoc Submission → String → Option Bool
submission_exists f t id =
    if f.query then none else elim (find t id) [ none ↦ some false | some row ↦ some true ]

-- The branch in which no row is affected.
unfoldable pub not_affected : Option Bool → Option WriteError
not_affected none = some database_error
not_affected (some true) = none
not_affected (some false) = some submission_not_found

module _ (json : Json) (short_hash : String → String) where
  -- The write of the summary; a failed notification is logged only.
  unfoldable pub write_cache : WriteFaults → World → StatusPayload → Option WriteError × World
  write_cache f w s =
      let (ok, st) =
        set short_hash f.redis w.cache s.submission_id (json.encode (build_summary s)) in
      (if ok then none else some cache_error, record w { cache = st })

  -- WriteFinalStatus at time `now`: its error, and what is written
  unfoldable pub write_final_status :
      WriteFaults → ℤ → World → StatusPayload → Option WriteError × World
  write_final_status f now w s =
      if str_eq s.submission_id ""
      then (some submission_id_required, w)
      else if not (is_final_status s.status)
      then (some final_required, w)
      else if f.exec
      then (some database_error, w)
      else let (affected, t) =
          update_final w.submissions s.submission_id (json.encode s) (finished_at_or now s) in
        let w' : World = record w { submissions = t } in
        if not f.rows_affected && not affected
        then (not_affected (submission_exists f t s.submission_id), w')
        else write_cache f w' s

  -- A run of writes, each with its faults and time.
  abbrev pub write_all : World → List (WriteFaults × ℤ × StatusPayload) → World
  write_all w [] = w
  write_all w ((f, now, s) ∷ rest) = write_all (write_final_status f now w s).1 rest
