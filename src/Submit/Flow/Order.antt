-- ===== src/Submit/Flow/Order.antt =====
-- The status that the cache holds for a submission moves forward only, and a final one stays.
use fuzoj.Prelude.{
  ◌≡◌, ◌≢◌, ◌⊎◌, inl, inr, refl, sym, String, true, false, arith, str_eq, str_eq_iff, List, [], ◌∷◌,
  Bool-cases, All,
}
use fuzoj.Prelude.Assoc.{find_or, find_or-put}
use fuzoj.Submit.Payload.{StatusPayload, Json, IsReadable, build_summary}
use fuzoj.Submit.Monotonic.{Position, status_stage, stage_unknown, stage_final, should_accept}
use fuzoj.Submit.Monotonic.Order.{Later, should_accept_iff}
use fuzoj.Submit.Cache.{Store, Faults, Loaded, load_failed, miss, hit, get, set}
use fuzoj.Submit.Flow.{
  accept_after, write_summary, compare_current, apply_loaded, apply_summary, apply_all, publish,
}

abbrev pub position : StatusPayload → Position
position p = record { stage = status_stage p.status; done = p.done_tests; total = p.total_tests }

module _ (json : Json) (short_hash : String → String) (id : String) where
  -- The cache holds this status of the submission, readable and of a known stage.
  abbrev pub Holds : Store → StatusPayload → Type 0
  Holds st p =
      (find_or st.primary id "" ≡ json.encode p)
      × (status_stage p.status ≢ stage_unknown)
      × IsReadable json p

  -- The status is the same, or a later one; a final one is the same.
  abbrev pub Forward : StatusPayload → StatusPayload → Type 0
  Forward p q = (p ≡ q) ⊎ ((status_stage p.status ≢ stage_final) × Later (position p) (position q))

  -- The entry of the submission after a write.
  primary-write_summary :
      (f : Faults) (st : Store) (next : StatusPayload)
      → (find_or (write_summary json short_hash f st next).1.primary id ""
          ≡ find_or st.primary id "")
        ⊎ ((next.submission_id ≡ id)
            × (find_or (write_summary json short_hash f st next).1.primary id ""
                ≡ json.encode (build_summary next)))
  unfolding write_summary set publish
  primary-write_summary f st next = ground (
    arith,
    find_or-put st.primary next.submission_id id (json.encode (build_summary next)) "",
    str_eq_iff next.submission_id id,
  )

  get-known :
      (f : Faults) (st : Store) (value : String)
      → str_eq value "" ≡ false
      → str_eq id "" ≡ false
      → find_or st.primary id "" ≡ value
      → (get short_hash f st id ≡ load_failed) ⊎ (get short_hash f st id ≡ hit value)
  unfolding get
  get-known f st value v i h = ground arith

  -- A status that is read is replaced by an accepted one.
  apply_loaded-known :
      (f : Faults) (st : Store) (p next : StatusPayload)
      → IsReadable json p
      → (apply_loaded json short_hash f st (hit (json.encode p)) next).1 ≡ st
        ⊎ (((apply_loaded json short_hash f st (hit (json.encode p)) next).1
              ≡ (write_summary json short_hash f st next).1)
            × ((accept_after json short_hash p next).0 ≡ true))
  unfolding apply_loaded compare_current
  apply_loaded-known f st p next r = rw (r.reads_back, r.nonempty, r.not_null) (ground arith)

  apply_loaded-either :
      (f : Faults) (st : Store) (l : Loaded) (next : StatusPayload)
      → ((apply_loaded json short_hash f st l next).1 ≡ st)
        ⊎ ((apply_loaded json short_hash f st l next).1
            ≡ (write_summary json short_hash f st next).1)
  unfolding apply_loaded
  apply_loaded-either f st load_failed next = inl refl
  apply_loaded-either f st miss next = inr refl
  apply_loaded-either f st (hit cached) next = ground arith

  -- What an update leaves in the entry of the submission.
  Left : StatusPayload → StatusPayload → String → Type 0
  Left p next text =
      (text ≡ json.encode p)
      ⊎ ((text ≡ json.encode (build_summary next))
          × ((accept_after json short_hash p next).0 ≡ true))

  apply_loaded-Left :
      (f : Faults) (st : Store) (l : Loaded) (p next : StatusPayload)
      → IsReadable json p
      → find_or st.primary id "" ≡ json.encode p
      → (next.submission_id ≡ id → (l ≡ load_failed) ⊎ (l ≡ hit (json.encode p)))
      → Left p next (find_or (apply_loaded json short_hash f st l next).1.primary id "")
  unfolding Left apply_loaded
  apply_loaded-Left f st l p next readable h q = elim (apply_loaded-either f st l next) [
    | inl e ↦ inl (rw e h)
    | inr e ↦ elim (primary-write_summary f st next) [
      | inl same ↦ inl (rw (e, same) h)
      | inr (i, new) ↦ elim (q i) [
        | inl fails ↦ inl (rw fails h)
        | inr found ↦ elim (apply_loaded-known f st p next readable) [
          | inl kept ↦ inl (rw (found, kept) h)
          | inr (written, accepted) ↦ inr ((rw (found, written) new), accepted)
        ]
      ]
    ]
  ]

  apply_summary-Left :
      (f : Faults) (st : Store) (p next : StatusPayload)
      → Holds st p
      → str_eq id "" ≡ false
      → Left p next (find_or (apply_summary json short_hash f st next).1.primary id "")
  unfolding apply_summary Left
  apply_summary-Left f st p next h i = elim (Bool-cases (str_eq next.submission_id "")) [
    | inl blank ↦ rw blank (inl h.0)
    | inr e ↦ rw e (
        apply_loaded-Left f st (get short_hash f st next.submission_id) p next h.2 h.0
          (λ same. rw same (get-known f st (json.encode p) h.2.nonempty i h.0)))
  ]

  -- An update of any submission, whatever fails.
  apply_summary-Forward :
      (f : Faults) (st : Store) (p next : StatusPayload)
      → Holds st p
      → str_eq id "" ≡ false
      → IsReadable json (build_summary next)
      → (q : StatusPayload) × Holds (apply_summary json short_hash f st next).1 q × Forward p q
  unfolding Left should_accept build_summary
  apply_summary-Forward f st p next h i readable = elim (apply_summary-Left f st p next h i) [
    | inl same ↦ (p, (same, h.1, h.2), inl refl)
    | inr (text, accepted) ↦
        let after = (should_accept_iff (position p) (position next)).0 accepted in
        (
          build_summary next,
          (text, after.0, readable),
          elim after.1 [ inl unknown ↦ absurd (h.1 unknown) | inr later ↦ inr later ],
        )
  ]

  Forward-trans : (p q r : StatusPayload) → Forward p q → Forward q r → Forward p r
  Forward-trans p q r (inl e) g = rw e g
  Forward-trans p q r (inr f) (inl e) = rw (sym e) (inr f)
  Forward-trans p q r (inr f) (inr g) = ground arith

  -- If the cache holds a readable status of a known stage for a submission, then whatever updates
  -- of whatever submissions follow whose summaries are readable, and whichever calls of Redis fail
  -- in them, it holds such a status after them, which is the same, or a later one where the old one
  -- was not final.
  pub apply_all-Forward :
      (st : Store) (p : StatusPayload)
      → Holds st p
      → str_eq id "" ≡ false
      → (updates : List (Faults × StatusPayload))
      → All (λ u. IsReadable json (build_summary u.1)) updates
      → (q : StatusPayload) × Holds (apply_all json short_hash st updates) q × Forward p q
  apply_all-Forward st p h i [] readable = (p, h, inl refl)
  apply_all-Forward st p h i ((f, next) ∷ rest) (now, later) =
      let (q, there, on) = apply_summary-Forward f st p next h i now in
      let (r, end, further) =
        apply_all-Forward (apply_summary json short_hash f st next).1 q there i rest later in
      (r, end, Forward-trans p q r on further)
