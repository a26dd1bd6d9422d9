-- ===== src/Rank/Script/Watermark.antt =====
-- The recovery watermark: the result ids up to it have been applied, and the next one has not.
use fuzoj.Prelude.{
  ℕ, ◌+◌, ◌≤◌, ◌<◌, ◌≡◌, refl, List, [], ◌∷◌, Bool, true, false, ◌⊎◌, inl, inr, arith,
  if◌then◌else◌, ltb, keep, All, Bool-cases,
}
use fuzoj.Rank.Event.{Board, Meta, no_board}
use fuzoj.Rank.Script.{
  Row, Args, Run, start, applies, apply_row, step, loop, finish, run_script, has_id,
}
use fuzoj.Rank.Script.Tracks.{has_id-keep, TracksAt, Done, advance-Tracks}

-- The result ids that the loop applies, in front of `ids`.
abbrev pub applied_to : List ℕ → Bool → Run → List Row → List ℕ
applied_to ids force s [] = ids
applied_to ids force s (row ∷ rows) =
    applied_to (if applies force s row then row.result_id ∷ ids else ids) force (step force s row)
      rows

step-Tracks :
    (ids : List ℕ) (force : Bool) (s : Run) (row : Row)
    → TracksAt (Done ids) (s.recovery, s.pending)
    → TracksAt
        (Done (if applies force s row then row.result_id ∷ ids else ids))
        ((step force s row).recovery, (step force s row).pending)
unfolding step apply_row
step-Tracks ids force s row t = elim (Bool-cases (applies force s row)) [
  | inr e ↦ rw (e, step) t
  | inl e ↦ rw (e, step) (advance-Tracks ids row.result_id s.recovery s.pending t)
]

loop-Tracks :
    (ids : List ℕ) (force : Bool) (s : Run) (rows : List Row)
    → TracksAt (Done ids) (s.recovery, s.pending)
    → let t = loop force s rows in
      TracksAt (Done (applied_to ids force s rows)) (t.recovery, t.pending)
unfolding loop
loop-Tracks ids force s [] t = t
loop-Tracks ids force s (row ∷ rows) t =
    loop-Tracks (if applies force s row then row.result_id ∷ ids else ids) force (step force s row)
      rows (step-Tracks ids force s row t)

-- Batches that the consumer applies: they bring their own maxima, and do not move the recovery
-- watermark by them.
abbrev pub IsUpdate : Args × List Row → Type 0
IsUpdate (a, rows) = (a.apply_meta ≡ true) × (a.apply_recovery_meta ≡ false)

abbrev pub run_batches : Board → List (Args × List Row) → Board
run_batches b [] = b
run_batches b ((a, rows) ∷ rest) = run_batches (run_script a b rows) rest

-- The result ids that the batches apply.
abbrev pub applied_over : List ℕ → Board → List (Args × List Row) → List ℕ
applied_over ids b [] = ids
applied_over ids b ((a, rows) ∷ rest) =
    applied_over (applied_to ids a.force_apply (start b) rows) (run_script a b rows) rest

record Follows (ids : List ℕ) (b : Board) : Type 0 where
  tracks : TracksAt (Done ids) (b.meta.recovery_result_id, b.pending)
  same : b.meta.result_id ≡ b.meta.recovery_result_id

start-recovery :
    (ids : List ℕ) (b : Board) → Follows ids b → (start b).recovery ≡ b.meta.recovery_result_id
unfolding start
start-recovery ids b f = ground (arith, f.same)

Tracks-keep :
    (done : ℕ → Type 0) (r : ℕ) (p : List ℕ)
    → TracksAt done (r, p)
    → TracksAt done (r, if ltb 0 r then keep (λ i. ltb r i) p else p)
Tracks-keep done r p (t, gap) = elim (Bool-cases (ltb 0 r)) [
  | inr e ↦ rw e (t, gap)
  | inl e ↦ rw e (
    record {
      below = t.below;
      above = λ i d. elim (t.above i d) [
        | inl le ↦ inl le
        | inr q ↦ inr (ground (arith, has_id-keep p r i, (t.ahead i q).1))
      ];
      ahead = λ i q. t.ahead i (ground (arith, has_id-keep p r i));
    },
    ground (arith, has_id-keep p r (r + 1), gap),
  )
]

finish-Follows :
    (ids : List ℕ) (a : Args) (m : Meta) (s : Run)
    → a.apply_meta ≡ true
    → a.apply_recovery_meta ≡ false
    → TracksAt (Done ids) (s.recovery, s.pending)
    → Follows ids (finish a m s)
unfolding finish
finish-Follows ids a m s e f t =
    simp (e, f) (record { tracks = Tracks-keep (Done ids) s.recovery s.pending t; same = refl })

run_script-Follows :
    (ids : List ℕ) (b : Board) (a : Args) (rows : List Row)
    → IsUpdate (a, rows)
    → Follows ids b
    → Follows (applied_to ids a.force_apply (start b) rows) (run_script a b rows)
unfolding run_script
run_script-Follows ids b a rows u f =
    finish-Follows (applied_to ids a.force_apply (start b) rows) a b.meta
      (loop a.force_apply (start b) rows) u.0 u.1
      (loop-Tracks ids a.force_apply (start b) rows
        (rw (start-recovery ids b f) (unfold start in f.tracks)))

run_batches-Follows :
    (ids : List ℕ) (b : Board) (batches : List (Args × List Row))
    → All IsUpdate batches
    → Follows ids b
    → Follows (applied_over ids b batches) (run_batches b batches)
run_batches-Follows ids b [] u f = f
run_batches-Follows ids b ((a, rows) ∷ rest) u f =
    run_batches-Follows (applied_to ids a.force_apply (start b) rows) (run_script a b rows) rest u.1
      (run_script-Follows ids b a rows u.0 f)

no_board-Follows : Follows [] no_board
unfolding has_id
no_board-Follows = record {
  tracks = (
    record { below = λ i lo hi. absurd (omega arith); above = λ i d. cc; ahead = λ i q. cc },
    refl,
  );
  same = refl;
}

-- After any batches of updates to an empty board, every result id from 1 up to the recovery
-- watermark has been applied, and the id after it has not: the watermark is the longest prefix
-- without a gap.
pub recovery_result_id_exact :
    (batches : List (Args × List Row))
    → All IsUpdate batches
    → let r = (run_batches no_board batches).meta.recovery_result_id in
      let ids = applied_over [] no_board batches in
      ((i : ℕ) → 0 < i → i ≤ r → has_id ids i ≡ true) × (has_id ids (r + 1) ≡ false)
recovery_result_id_exact batches u = (f.tracks.0.below, not_next (Bool-cases (has_id ids (r + 1))))
  where
    r : ℕ
    r = (run_batches no_board batches).meta.recovery_result_id

    ids : List ℕ
    ids = applied_over [] no_board batches

    f : Follows ids (run_batches no_board batches)
    f = run_batches-Follows [] no_board batches u no_board-Follows

    not_next :
        (has_id ids (r + 1) ≡ true) ⊎ (has_id ids (r + 1) ≡ false) → has_id ids (r + 1) ≡ false
    not_next (inr e) = e
    not_next (inl e) = elim (f.tracks.0.above (r + 1) e) [
      | inl le ↦ absurd (omega arith)
      | inr q ↦ cc (f.tracks.1, q)
    ]
