-- ===== src/Judge/Worker/Outcome.antt =====
-- What a judgement that ends without an error says.
use fuzoj.Prelude.{
  ℕ, ◌≡◌, refl, sym, ◌∙◌, List, [], ◌∷◌, ◌++◌, true, false, ◌&&◌, not, ◌⊎◌, inl, inr, Option, none,
  some, arith, if◌then◌else◌, ltb, str_eq, All, map, Bool-cases, Option-cases, subst, length,
}
use mathlib.Core.List.{append-nil}
use fuzoj.Judge.Verdict.{
  Verdict, ac, ce, TestcaseResult, is_ac, priority, aggregate_from, aggregate_verdict,
}
use fuzoj.Judge.Request.{
  TestcaseSpec, JudgeRequest, JudgeError, validate_test, validate_tests, validate_judge_request,
}
use fuzoj.Judge.Scoring.{Prepared, bad_subtasks, prepared, prepare_subtasks}
use fuzoj.Judge.Worker.{
  LanguageSpec, Environment, JudgeResult, Report, Execution, Progress, Looped, broke, crashed,
  ended, conclude, after_loop, start_progress, judge_tests, compile_first, execute_in, execute,
  compile_error, compiled, CompileAnswer,
}
use fuzoj.Judge.Worker.Stops.{Labels, Passes, Named, Ending, EndsWell, run_tests-EndsWell}

-- The verdict of tests of which only the last has failed is its verdict.
aggregate_from-last :
    (before : List TestcaseResult) (r : TestcaseResult)
    → All Passes before
    → is_ac r.verdict ≡ false
    → aggregate_from ac 0 (before ++ r ∷ []) ≡ r.verdict
unfolding aggregate_from
aggregate_from-last [] r a f = fails r.verdict f
  where
    fails : (v : Verdict) → is_ac v ≡ false → (if ltb 0 (priority v) then v else ac) ≡ v
    fails v h = ground arith
aggregate_from-last (x ∷ xs) r a f =
    rw (ac_priority x.verdict a.0, aggregate_from) (aggregate_from-last xs r a.1 f)
  where
    ac_priority : (v : Verdict) → is_ac v ≡ true → priority v ≡ 0
    ac_priority v h = ground arith

-- The tests all passed and all were run; or a test failed, none before it did, and none after it
-- was run.
abbrev pub Judged : JudgeRequest → JudgeResult → Type 0
Judged req j =
    ((j.verdict ≡ ac)
      × All Passes j.tests
      × (map (λ r. r.test_id) j.tests ≡ map (λ t. t.test_id) req.tests)
      × (j.summary.failed_test_id ≡ ""))
    ⊎ ((before : List TestcaseResult) × (r : TestcaseResult) × (todo : List TestcaseSpec) × (j.tests
          ≡ before ++ r ∷ [])
        × All Passes before
        × (is_ac r.verdict ≡ false)
        × (j.verdict ≡ r.verdict)
        × (j.summary.failed_test_id ≡ r.test_id)
        × (map (λ x. x.test_id) j.tests ++ map (λ t. t.test_id) todo
            ≡ map (λ t. t.test_id) req.tests))

abbrev pub NotCompiled : JudgeResult → Type 0
NotCompiled j = (j.verdict ≡ ce) × (j.tests ≡ [])

-- An execution with no error has judged the tests, or found that the program does not compile.
abbrev pub Concluded : JudgeRequest → Execution → Type 0
Concluded req x = x.error ≡ none → Judged req x.result ⊎ NotCompiled x.result

conclude-Judged :
    (req : JudgeRequest) (total : ℕ) (base : JudgeResult) (p : Progress)
    → Ending req.tests p
    → Judged req (conclude total base p).result
unfolding conclude aggregate_verdict
conclude-Judged req total base p (inl ((g, f, a), o)) =
    let e : str_eq p.first_failed_test_id "" ≡ true = rw f refl in
    inl (ground (arith, e), a, sym (append-nil _) ∙ o, f)
conclude-Judged req total base p (inr ((before, r, g, e, a, h, f, n), (todo, o))) =
    inr (before, r, todo, e, a, h, rw (f, n, e) (aggregate_from-last before r a h), f, o)

after_loop-Concluded :
    (req : JudgeRequest) (total : ℕ) (base : JudgeResult) (l : Looped)
    → EndsWell req.tests l
    → Concluded req (after_loop total base l)
unfolding after_loop
after_loop-Concluded req total base (broke e p) w h = cc
after_loop-Concluded req total base (crashed p) w h = cc
after_loop-Concluded req total base (ended p) w h = inl (conclude-Judged req total base p w)

module _ (env : Environment) (labels : Labels env) (req : JudgeRequest)
    (named : All Named req.tests) where
  judge_tests-Concluded :
      (lang : LanguageSpec) (base : JudgeResult) (reports : List Report)
      → Concluded req (judge_tests env lang req base reports)
  unfolding judge_tests
  judge_tests-Concluded lang base reports = go (prepare_subtasks req.subtasks req.tests) refl
    where
      go :
          (o : Prepared)
          → prepare_subtasks req.subtasks req.tests ≡ o
          → Concluded req (judge_tests env lang req base reports)
      go (bad_subtasks e) q = rw (q, judge_tests) (λ h. cc)
      go (prepared m) q =
          rw (q, judge_tests)
            (after_loop-Concluded req (length req.tests) base _ (
              run_tests-EndsWell env labels lang req.language_id (length req.tests) req.tests
                req.tests (start_progress m _) named (refl, refl, tt) refl))

  compile_first-Concluded :
      (lang : LanguageSpec) (base : JudgeResult)
      → base.tests ≡ []
      → Concluded req (compile_first env lang req base)
  unfolding compile_first
  compile_first-Concluded lang base b = elim (Bool-cases (not env.make_compile_dir)) [
    | inl e ↦ rw (e, compile_first) (λ h. cc)
    | inr e ↦ compiles env.compile refl e
  ]
    where
      compiles :
          (a : CompileAnswer)
          → env.compile ≡ a
          → not env.make_compile_dir ≡ false
          → Concluded req (compile_first env lang req base)
      compiles compile_error q e = simp (e, q, compile_first) (λ h. cc)
      compiles (compiled true) q e = simp (e, q, compile_first) (judge_tests-Concluded lang base _)
      compiles (compiled false) q e = simp (e, q, compile_first) (λ h. inr (refl, b))

  execute_in-Concluded : (lang : LanguageSpec) → Concluded req (execute_in env lang req)
  unfolding execute_in
  execute_in-Concluded lang = elim (Bool-cases (not (env.run_profile lang.id))) [
    | inl e ↦ rw (e, execute_in) (λ h. cc)
    | inr e ↦ elim (Bool-cases (lang.compile_enabled && not (env.compile_profile lang.id))) [
      | inl f ↦ rw (e, f, execute_in) (λ h. cc)
      | inr f ↦ elim (Bool-cases (not env.make_root)) [
        | inl g ↦ rw (e, f, g, execute_in) (λ h. cc)
        | inr g ↦ elim (Bool-cases lang.compile_enabled) [
          | inl c ↦ rw (e, f, g, execute_in) (simp c (compile_first-Concluded lang _ refl))
          | inr c ↦ rw (e, f, g, execute_in) (simp c (judge_tests-Concluded lang _ []))
        ]
      ]
    ]
  ]

validate_test-Named : (t : TestcaseSpec) → validate_test t ≡ none → Named t
unfolding validate_test
validate_test-Named t h = ground arith

validate_tests-Named : (ts : List TestcaseSpec) → validate_tests ts ≡ none → All Named ts
unfolding validate_tests
validate_tests-Named [] h = tt
validate_tests-Named (t ∷ ts) h = elim (Option-cases (validate_test t)) [
  | inl e ↦ (validate_test-Named t e, validate_tests-Named ts (ground (arith, e)))
  | inr (x, e) ↦ absurd (ground (arith, e))
]

validate_judge_request-Named :
    (req : JudgeRequest) → validate_judge_request req ≡ none → All Named req.tests
unfolding validate_judge_request
validate_judge_request-Named req h = go req.tests refl
  where
    go : (ts : List TestcaseSpec) → req.tests ≡ ts → All Named req.tests
    go [] q = absurd (ground (arith, q))
    go (t ∷ ts) q = subst (All Named) (sym q) (validate_tests-Named (t ∷ ts) (ground (arith, q)))

-- For every request, on a machine whose runner labels results with their tests: an execution with
-- no error has found that the program does not compile, and ran no test; or its verdict is AC,
-- every test was run, in order, and passed; or a test failed, those before it passed, none after it
-- was run, and the verdict and the failed test's id are that test's.
pub execute_outcome :
    (env : Environment) (req : JudgeRequest)
    → Labels env
    → (execute env req).error ≡ none
    → Judged req (execute env req).result ⊎ NotCompiled (execute env req).result
unfolding execute
execute_outcome env req labels = go (validate_judge_request req) refl
  where
    known :
        (o : Option LanguageSpec)
        → env.language req.language_id ≡ o
        → validate_judge_request req ≡ none
        → not env.initialized ≡ false
        → Concluded req (execute env req)
    known none q v i = rw (v, execute) (rw i (rw (q, execute) (λ h. cc)))
    known (some lang) q v i =
        rw (v, execute)
          (rw i (
            rw (q, execute)
              (execute_in-Concluded env labels req (validate_judge_request-Named req v) lang)))

    go : (o : Option JudgeError) → validate_judge_request req ≡ o → Concluded req (execute env req)
    go (some e) v = rw (v, execute) (λ h. cc)
    go none v = elim (Bool-cases (not env.initialized)) [
      | inl i ↦ rw (v, execute) (rw i (λ h. cc))
      | inr i ↦ known (env.language req.language_id) refl v i
    ]
