-- ===== src/Kq/Schedule.antt =====
-- `buildDispatchSchedule` of weighted_kq.go: each topic stands in the schedule as often as it
-- weighs.
use fuzoj.Prelude.{
  ℕ, zero, suc, ◌+◌, ◌*◌, ◌≡◌, refl, List, [], ◌∷◌, ◌++◌, String, arith, if◌then◌else◌, str_eq,
  str_eq_iff, Bool-cases, inl, inr, tally, tally-append, replicate, length,
}
use fuzoj.Prelude.Assoc.{Assoc, find_or}
use fuzoj.Kq.Weights.{max_int}

-- buildDispatchSchedule
unfoldable pub build_dispatch_schedule : List String → Assoc ℕ → List String
build_dispatch_schedule [] weights = []
build_dispatch_schedule (t ∷ ts) weights =
    replicate (max_int 1 (find_or weights t 0)) t ++ build_dispatch_schedule ts weights

-- How often a topic stands in a list of topics.
abbrev pub occurrences : String → List String → ℕ
occurrences t = tally λ u. str_eq u t

occurrences-replicate :
    (t u : String) (n : ℕ) → occurrences t (replicate n u) ≡ (if str_eq u t then n else 0)
occurrences-replicate t u zero = ground arith
occurrences-replicate t u (suc n) = ground (arith, occurrences-replicate t u n)

length-replicate : (u : String) (n : ℕ) → length (replicate n u) ≡ n
length-replicate u zero = refl
length-replicate u (suc n) = omega (arith, length-replicate u n)

-- A topic stands in the schedule its weight, at least one, times as often as among the topics.
pub occurrences-build_dispatch_schedule :
    (t : String) (ts : List String) (weights : Assoc ℕ)
    → occurrences t (build_dispatch_schedule ts weights)
      ≡ occurrences t ts * max_int 1 (find_or weights t 0)
unfolding build_dispatch_schedule
occurrences-build_dispatch_schedule t [] weights = omega arith
occurrences-build_dispatch_schedule t (u ∷ ts) weights = elim (Bool-cases (str_eq u t)) [
  | inl e ↦
      rw
        (
          split,
          occurrences-replicate t u (weight u),
          occurrences-build_dispatch_schedule t ts weights,
          e,
        )
        (rw ((str_eq_iff u t).0 e) (omega arith))
  | inr e ↦
      rw
        (
          split,
          occurrences-replicate t u (weight u),
          occurrences-build_dispatch_schedule t ts weights,
          e,
        )
        (omega arith)
]
  where
    weight : String → ℕ
    weight v = max_int 1 (find_or weights v 0)

    split :
        occurrences t (replicate (weight u) u ++ build_dispatch_schedule ts weights)
        ≡ occurrences t (replicate (weight u) u)
          + occurrences t (build_dispatch_schedule ts weights)
    split =
        tally-append (λ v. str_eq v t) (replicate (weight u) u) (build_dispatch_schedule ts weights)
