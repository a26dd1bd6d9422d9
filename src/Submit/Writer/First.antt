-- ===== src/Submit/Writer/First.antt =====
-- The first final status of a submission is the one that its row keeps.
use fuzoj.Prelude.{
  ◌≡◌, refl, String, true, false, Option, none, some, arith, str_eq, str_eq_iff, str_eq_refl, List,
  [], ◌∷◌, Bool-cases, Option-cases, inl, inr, ◌∙◌,
}
use fuzoj.Prelude.Int.{ℤ}
use fuzoj.Prelude.Assoc.{Assoc, find, put, find-put}
use fuzoj.Submit.Payload.{StatusPayload, Json, is_final_status}
use fuzoj.Submit.Writer.{
  Submission, World, WriteFaults, finished_at_or, update_final, write_cache, write_final_status,
  write_all,
}

-- The statement finds a row with a final status and one without.
pub update_final-none :
    (t : Assoc Submission) (id text : String) (at old : ℤ) (row : Submission)
    → find t id ≡ some row
    → row.final_status_at ≡ some old
    → update_final t id text at ≡ (false, t)
unfolding update_final
update_final-none t id text at old row h o = rw (h, update_final) (rw (o, update_final) refl)

pub update_final-first :
    (t : Assoc Submission) (id text : String) (at : ℤ) (row : Submission)
    → find t id ≡ some row
    → row.final_status_at ≡ none
    → update_final t id text at
      ≡ (true, put t id (record { final_status = some text; final_status_at = some at }))
unfolding update_final
update_final-first t id text at row h o = rw (h, update_final) (rw (o, update_final) refl)

-- Another submission's row stays.
update_final-other :
    (t : Assoc Submission) (i id text : String) (at : ℤ)
    → str_eq i id ≡ false
    → find (update_final t i text at).1 id ≡ find t id
unfolding update_final
update_final-other t i id text at ne = go (find t i) refl
  where
    go : (o : Option Submission) → find t i ≡ o → find (update_final t i text at).1 id ≡ find t id
    go none e = rw (e, update_final) refl
    go (some row) e = elim (Option-cases row.final_status_at) [
      | inl n ↦ rw (update_final-first t i text at row e n, find-put t i id _, ne) refl
      | inr (old, o) ↦ rw (update_final-none t i text at old row e o) refl
    ]

update_final-kept :
    (t : Assoc Submission) (i id text : String) (at old : ℤ) (row : Submission)
    → find t id ≡ some row
    → row.final_status_at ≡ some old
    → find (update_final t i text at).1 id ≡ some row
update_final-kept t i id text at old row h o = elim (Bool-cases (str_eq i id)) [
  | inl e ↦ rw ((str_eq_iff i id).0 e) (rw (update_final-none t id text at old row h o) h)
  | inr e ↦ update_final-other t i id text at e ∙ h
]

module _ (json : Json) (short_hash : String → String) where
  write_final_status-kept :
      (f : WriteFaults) (now : ℤ) (w : World) (s : StatusPayload) (id : String) (old : ℤ)
      (row : Submission)
      → find w.submissions id ≡ some row
      → row.final_status_at ≡ some old
      → find (write_final_status json short_hash f now w s).1.submissions id ≡ some row
  unfolding write_final_status write_cache
  write_final_status-kept f now w s id old row h o = ground (
    arith,
    update_final-kept w.submissions s.submission_id id (json.encode s) (finished_at_or now s) old
        row h o,
  )

  write_all-kept :
      (w : World) (id : String) (old : ℤ) (row : Submission)
      → find w.submissions id ≡ some row
      → row.final_status_at ≡ some old
      → (writes : List (WriteFaults × ℤ × StatusPayload))
      → find (write_all json short_hash w writes).submissions id ≡ some row
  write_all-kept w id old row h o [] = h
  write_all-kept w id old row h o ((f, now, s) ∷ rest) =
      write_all-kept (write_final_status json short_hash f now w s).1 id old row
        (write_final_status-kept f now w s id old row h o) o rest

  -- The row after the first final status is written, whatever fails in the cache.
  write_final_status-row :
      (f : WriteFaults) (now : ℤ) (w : World) (s : StatusPayload) (row : Submission)
      → str_eq s.submission_id "" ≡ false
      → is_final_status s.status ≡ true
      → f.exec ≡ false
      → find w.submissions s.submission_id ≡ some row
      → row.final_status_at ≡ none
      → find (write_final_status json short_hash f now w s).1.submissions s.submission_id
        ≡ some (record {
          final_status = some (json.encode s);
          final_status_at = some (finished_at_or now s);
        })
  unfolding write_final_status write_cache
  write_final_status-row f now w s row i l e h o =
      rw
        (
          i,
          l,
          e,
          update_final-first w.submissions s.submission_id (json.encode s) (finished_at_or now s)
              row h o,
        )
        (ground (
          arith,
          find-put w.submissions s.submission_id s.submission_id (record {
            final_status = some (json.encode s);
            final_status_at = some (finished_at_or now s);
          }),
          str_eq_refl s.submission_id,
        ))

  -- The first final status that is written for a submission without one, by a statement that does
  -- not fail, is what its row holds after any later writes, whatever fails in them.
  pub write_all-first :
      (f : WriteFaults) (now : ℤ) (w : World) (s : StatusPayload) (row : Submission)
      → str_eq s.submission_id "" ≡ false
      → is_final_status s.status ≡ true
      → f.exec ≡ false
      → find w.submissions s.submission_id ≡ some row
      → row.final_status_at ≡ none
      → (later : List (WriteFaults × ℤ × StatusPayload))
      → find (write_all json short_hash w ((f, now, s) ∷ later)).submissions s.submission_id
        ≡ some (record {
          final_status = some (json.encode s);
          final_status_at = some (finished_at_or now s);
        })
  write_all-first f now w s row i l e h o later =
      write_all-kept (write_final_status json short_hash f now w s).1 s.submission_id
        (finished_at_or now s) _ (write_final_status-row f now w s row i l e h o) refl later
