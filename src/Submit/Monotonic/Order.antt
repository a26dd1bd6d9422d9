-- ===== src/Submit/Monotonic/Order.antt =====
-- The order on statuses that `ShouldAccept` enforces.
use fuzoj.Prelude.{◌≡◌, ◌≢◌, ◌⊎◌, ◌↔◌, true, arith}
use fuzoj.Prelude.Int.{◌≤ℤ◌, ◌<ℤ◌, eq_ℤ_iff}
use fuzoj.Submit.Monotonic.{Position, stage_unknown, stage_final, should_accept_at}

-- A later position: a later stage, or more tests at the same stage and fewer in neither count.
abbrev pub Later : Position → Position → Type 0
Later c n =
    (c.stage <ℤ n.stage)
    ⊎ ((c.stage ≡ n.stage)
        × (c.done ≤ℤ n.done)
        × (c.total ≤ℤ n.total)
        × ((c.done <ℤ n.done) ⊎ (c.total <ℤ n.total)))

-- A status is accepted exactly if it is known and the current one is unknown, or not final and
-- earlier.
pub should_accept_iff :
    (c n : Position)
    → ((should_accept_at c n).0 ≡ true) ↔ (
        (n.stage ≢ stage_unknown)
        × ((c.stage ≡ stage_unknown) ⊎ ((c.stage ≢ stage_final) × Later c n)))
unfolding should_accept_at
should_accept_iff c n = (accepted, λ h. later h)
  where
    accepted :
        (should_accept_at c n).0 ≡ true
        → (n.stage ≢ stage_unknown)
          × ((c.stage ≡ stage_unknown) ⊎ ((c.stage ≢ stage_final) × Later c n))
    accepted h = ground (
      arith,
      eq_ℤ_iff n.stage stage_unknown,
      eq_ℤ_iff c.stage stage_unknown,
      eq_ℤ_iff c.stage stage_final,
      eq_ℤ_iff n.stage c.stage,
      eq_ℤ_iff c.stage n.stage,
    )

    later :
        (n.stage ≢ stage_unknown)
          × ((c.stage ≡ stage_unknown) ⊎ ((c.stage ≢ stage_final) × Later c n))
        → (should_accept_at c n).0 ≡ true
    later h = ground (
      arith,
      eq_ℤ_iff n.stage stage_unknown,
      eq_ℤ_iff c.stage stage_unknown,
      eq_ℤ_iff c.stage stage_final,
      eq_ℤ_iff n.stage c.stage,
    )
