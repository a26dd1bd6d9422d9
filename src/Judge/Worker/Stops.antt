-- ===== src/Judge/Worker/Stops.antt =====
-- The loop over the tests stops at the first one that fails.
use fuzoj.Prelude.{
  ℕ, ◌≡◌, refl, sym, List, [], ◌∷◌, ◌++◌, String, true, false, ◌&&◌, not, ◌⊎◌, inl, inr, arith,
  str_eq, All, All-append, map, Bool-cases, subst,
}
use mathlib.Core.List.{append_assoc, map-append}
use fuzoj.Judge.Verdict.{TestcaseResult, is_ac}
use fuzoj.Judge.Request.{
  mkdir_failed, copy_failed, checker_profile_failed, TestcaseSpec, JudgeError,
}
use fuzoj.Judge.Worker.{
  LanguageSpec, Environment, RunAnswer, ran, run_error, Progress, absorb, Looped, broke, crashed,
  ended, checker_loads, run_tests,
}

-- The runner labels a result with its test.
abbrev pub Labels : Environment → Type 0
Labels env = (t : TestcaseSpec) (r : TestcaseResult) → env.run t ≡ ran r → r.test_id ≡ t.test_id

abbrev pub Passes : TestcaseResult → Type 0
Passes r = is_ac r.verdict ≡ true

abbrev pub Named : TestcaseSpec → Type 0
Named t = str_eq t.test_id "" ≡ false

-- Either every test run so far has passed, or the last one has failed, it alone, and is recorded.
abbrev Running : Progress → Type 0
Running p = (p.global_failed ≡ false) × (p.first_failed_test_id ≡ "") × All Passes p.tests

abbrev Stopped : Progress → Type 0
Stopped p =
    (before : List TestcaseResult) × (r : TestcaseResult) × (p.global_failed ≡ true)
    × (p.tests ≡ before ++ r ∷ [])
    × All Passes before
    × (is_ac r.verdict ≡ false)
    × (p.first_failed_test_id ≡ r.test_id)
    × (str_eq r.test_id "" ≡ false)

absorb-cases :
    (total : ℕ) (p : Progress) (r : TestcaseResult)
    → Running p
    → str_eq r.test_id "" ≡ false
    → Running (absorb total p r) ⊎ Stopped (absorb total p r)
unfolding absorb
absorb-cases total p r (g, f, a) n = elim (Bool-cases (is_ac r.verdict)) [
  | inl e ↦ inl (ground (arith, e), ground (arith, e), All-append Passes p.tests (r ∷ []) a (e, tt))
  | inr e ↦
      let empty : str_eq p.first_failed_test_id "" ≡ true = rw f refl in
      inr (p.tests, r, ground (arith, e), refl, a, e, ground (arith, e), n)
]

-- The ids of the tests run and still to run are those of the request, in order.
abbrev Ordered : List TestcaseSpec → List TestcaseSpec → Progress → Type 0
Ordered all todo p =
    map (λ r. r.test_id) p.tests ++ map (λ t. t.test_id) todo ≡ map (λ t. t.test_id) all

absorb-Ordered :
    (total : ℕ) (all ts : List TestcaseSpec) (t : TestcaseSpec) (p : Progress) (r : TestcaseResult)
    → r.test_id ≡ t.test_id
    → Ordered all (t ∷ ts) p
    → Ordered all ts (absorb total p r)
unfolding absorb
absorb-Ordered total all ts t p r e o = rw (map-append, append_assoc, e) o

-- How a loop that ends has ended: with all tests passed, or stopped at one.
abbrev pub Ending : List TestcaseSpec → Progress → Type 0
Ending all p =
    (Running p × Ordered all [] p) ⊎ (Stopped p × ((todo : List TestcaseSpec) × Ordered all todo p))

abbrev pub EndsWell : List TestcaseSpec → Looped → Type 0
EndsWell all (ended p) = Ending all p
EndsWell all (broke e p) = Unit {0}
EndsWell all (crashed p) = Unit {0}

module _ (env : Environment) (labels : Labels env) (lang : LanguageSpec) (language_id : String)
    (total : ℕ) (all : List TestcaseSpec) where
  abbrev loop : List TestcaseSpec → Progress → Looped
  loop = run_tests env lang language_id total

  stops :
      (t : TestcaseSpec) (ts : List TestcaseSpec) (p : Progress)
      → p.global_failed ≡ true
      → loop (t ∷ ts) p ≡ ended p
  unfolding run_tests
  stops t ts p g = ground arith

  -- A round breaks off, or runs its test.
  abbrev Round : TestcaseSpec → List TestcaseSpec → Progress → Type 0
  Round t ts p =
      ((e : JudgeError) × (loop (t ∷ ts) p ≡ broke e p))
      ⊎ (loop (t ∷ ts) p ≡ crashed p)
      ⊎ ((r : TestcaseResult) × (env.run t ≡ ran r)
          × (loop (t ∷ ts) p ≡ loop ts (absorb total p r)))

  round :
      (t : TestcaseSpec) (ts : List TestcaseSpec) (p : Progress)
      → p.global_failed ≡ false
      → Round t ts p
  unfolding run_tests
  round t ts p g = elim (Bool-cases (not (env.make_test_dir t.test_id))) [
    | inl e ↦ inl (mkdir_failed, ground (arith, e))
    | inr e ↦ elim (Bool-cases (lang.compile_enabled && not (env.copy_binary t.test_id))) [
      | inl f ↦ inl (copy_failed, ground (arith, e, f))
      | inr f ↦ elim (Bool-cases (not (checker_loads env language_id t))) [
        | inl h ↦ inl (checker_profile_failed, ground (arith, e, f, h))
        | inr h ↦ answered (env.run t) refl e f h
      ]
    ]
  ]
    where
      answered :
          (o : RunAnswer)
          → env.run t ≡ o
          → not (env.make_test_dir t.test_id) ≡ false
          → (lang.compile_enabled && not (env.copy_binary t.test_id)) ≡ false
          → not (checker_loads env language_id t) ≡ false
          → Round t ts p
      answered run_error q e f h = inr (inl (ground (arith, q, e, f, h)))
      answered (ran r) q e f h = inr (inr (r, q, ground (arith, q, e, f, h)))

  run_tests-Stopped :
      (ts : List TestcaseSpec) (p : Progress)
      → Stopped p
      → Ordered all ts p
      → EndsWell all (loop ts p)
  run_tests-Stopped [] p s o = unfold run_tests in inr (s, ([], o))
  run_tests-Stopped (t ∷ ts) p s o =
      subst (EndsWell all) (sym (stops t ts p s.2)) (inr (s, (t ∷ ts, o)))

  after_test :
      (t : TestcaseSpec) (ts : List TestcaseSpec) (p : Progress) (r : TestcaseResult)
      → (Running (absorb total p r) → EndsWell all (loop ts (absorb total p r)))
      → Ordered all ts (absorb total p r)
      → Running (absorb total p r) ⊎ Stopped (absorb total p r)
      → EndsWell all (loop ts (absorb total p r))
  after_test t ts p r go o (inl s) = go s
  after_test t ts p r go o (inr s) = run_tests-Stopped ts (absorb total p r) s o

  pub run_tests-EndsWell :
      (ts : List TestcaseSpec) (p : Progress)
      → All Named ts
      → Running p
      → Ordered all ts p
      → EndsWell all (loop ts p)
  run_tests-EndsWell [] p n s o = unfold run_tests in inl (s, o)
  run_tests-EndsWell (t ∷ ts) p n s o = elim (round t ts p s.0) [
    | inl (e, q) ↦ subst (EndsWell all) (sym q) tt
    | inr (inl q) ↦ subst (EndsWell all) (sym q) tt
    | inr (inr (r, a, q)) ↦
        let o' = absorb-Ordered total all ts t p r (labels t r a) o in
        subst (EndsWell all) (sym q) (
          after_test t ts p r (λ s'. run_tests-EndsWell ts (absorb total p r) n.1 s' o') o'
            (absorb-cases total p r s (rw (labels t r a) n.0)))
  ]
