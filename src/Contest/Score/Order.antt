-- ===== src/Contest/Score/Order.antt =====
-- The order of the leaderboard that `SortScore` gives.
use fuzoj.Prelude.{ℕ, ◌*◌, ◌<◌, ◌≡◌, ◌⊎◌, ◌↔◌, ◌∙◌, ap, arith}
use fuzoj.Prelude.Int.{pos, ◌-ℤ◌, ◌<ℤ◌, -ℤ_parts, to_int64, to_int64_lem}
use fuzoj.Contest.Score.{sort_score}

-- Up to 9223372 problems and below 10^12 seconds, nothing wraps around.
sort_score_lem :
    (a p : ℕ)
    → a < 9_223_373
    → p < 1_000_000_000_000
    → sort_score a p ≡ pos (a * 1_000_000_000_000) -ℤ pos p
unfolding sort_score ◌-ℤ◌
sort_score_lem a p ha hp =
    let product = to_int64_lem (pos (a * 1_000_000_000_000)) (omega arith) (omega arith) in
    ap (λ z. to_int64 (z -ℤ pos p)) product
    ∙ to_int64_lem (pos (a * 1_000_000_000_000) -ℤ pos p) (ground arith) (ground arith)

-- For counts of solved problems up to 9223372, beyond which the score does not fit an int64, and total
-- penalties below 10^12 seconds, a score is larger exactly if more problems are solved, or as many with
-- less penalty.
pub sort_score_iff :
    (a b p q : ℕ)
    → a < 9_223_373
    → b < 9_223_373
    → p < 1_000_000_000_000
    → q < 1_000_000_000_000
    → (sort_score a p <ℤ sort_score b q) ↔ ((a < b) ⊎ ((a ≡ b) × (q < p)))
sort_score_iff a b p q ha hb hp hq =
    let x = -ℤ_parts (pos (a * 1_000_000_000_000)) (pos p) in
    let y = -ℤ_parts (pos (b * 1_000_000_000_000)) (pos q) in
    rw (sort_score_lem a p ha hp, sort_score_lem b q hb hq)
      (λ h. ground (arith, x, y, h), λ h. ground (arith, x, y, h))
