-- ===== src/Judge/Scoring/Counts.antt =====
-- When the score of a subtask counts.
use fuzoj.Prelude.{
  ℕ, ◌+◌, ◌≤◌, ◌<◌, ◌≡◌, refl, sym, ◌∙◌, ◌↔◌, inl, inr, List, [], ◌∷◌, String, Bool, true, false,
  ◌&&◌, ◌||◌, not, Option, none, some, if◌then◌else◌, ltb, str_eq, str_eq_iff, tally, arith,
  Bool-cases, ap, subst,
}
use fuzoj.Prelude.Assoc.{Assoc, find, put, find-put}
use fuzoj.Judge.Verdict.{TestcaseResult, is_ac}
use fuzoj.Judge.Request.{TestcaseSpec, SubtaskSpec}
use fuzoj.Judge.Scoring.{
  SubtaskState, Prepared, bad_subtasks, prepared, strategy_of, index_subtasks, count_expected,
  then_count, prepare_subtasks, update_subtask_state, counts,
}

-- The results of a run, one after the other.
abbrev pub update_all : Assoc SubtaskState → List TestcaseResult → Assoc SubtaskState
update_all m [] = m
update_all m (r ∷ rs) = update_all (update_subtask_state m r) rs

-- The tests of a subtask, its results, and those of them that did not pass.
abbrev pub tests_of : String → List TestcaseSpec → ℕ
tests_of k = tally λ t. str_eq t.subtask_id k

abbrev pub results_of : String → List TestcaseResult → ℕ
results_of k = tally λ r. str_eq r.subtask_id k

abbrev pub failures_of : String → List TestcaseResult → ℕ
failures_of k = tally λ r. str_eq r.subtask_id k && not (is_ac r.verdict)

-- The state of a subtask, if it is there.
abbrev Has : ℕ → ℕ → Bool → Option SubtaskState → Type 0
Has expected executed failed none = Unit {0}
Has expected executed failed (some s) =
    (s.expected ≡ expected) × (s.executed ≡ executed) × (s.failed ≡ failed)

abbrev states_of : Prepared → Assoc SubtaskState
states_of (bad_subtasks e) = []
states_of (prepared m) = m

Has-cast :
    (e d x y : ℕ) (f g : Bool) (o : Option SubtaskState)
    → e ≡ d
    → x ≡ y
    → f ≡ g
    → Has e x f o
    → Has d y g o
Has-cast e d x y f g none p q r h = tt
Has-cast e d x y f g (some s) p q r (a, b, c) = (a ∙ p, b ∙ q, c ∙ r)

-- The state of a subtask after a write to one's entry.
put-Has :
    (k j : String) (m : Assoc SubtaskState) (s : SubtaskState) (e x : ℕ) (f : Bool)
    → (str_eq j k ≡ true → Has e x f (some s))
    → (str_eq j k ≡ false → Has e x f (find m k))
    → Has e x f (find (put m j s) k)
put-Has k j m s e x f there other = elim (Bool-cases (str_eq j k)) [
  | inl q ↦ rw (find-put m j k s, q) (there q)
  | inr q ↦ rw (find-put m j k s, q) (other q)
]

module _ (k : String) (named : str_eq k "" ≡ false) where
  index_subtasks-Has :
      (m n : Assoc SubtaskState) (ss : List SubtaskSpec)
      → Has 0 0 false (find m k)
      → index_subtasks m ss ≡ prepared n
      → Has 0 0 false (find n k)
  unfolding index_subtasks
  index_subtasks-Has m n [] h e = rw (sym (ap states_of e)) h
  index_subtasks-Has m n (s ∷ ss) h e = elim (Bool-cases (str_eq (strategy_of s) "min")) [
    | inr bad ↦ absurd (ground (arith, bad, e))
    | inl good ↦
        index_subtasks-Has (put m s.id fresh) n ss
          (put-Has k s.id m fresh 0 0 false (λ q. (refl, refl, refl)) (λ q. h))
          (ground (arith, good, e))
  ]
    where
      fresh : SubtaskState
      fresh = record {
        spec = record s { strategy = strategy_of s };
        expected = 0;
        executed = 0;
        failed = false;
      }

  count_expected-Has :
      (m n : Assoc SubtaskState) (ts : List TestcaseSpec) (x : ℕ)
      → Has x 0 false (find m k)
      → count_expected m ts ≡ prepared n
      → Has (x + tests_of k ts) 0 false (find n k)
  unfolding count_expected
  count_expected-Has m n [] x h e =
      rw (sym (ap states_of e)) (subst (λ y. Has y 0 false (find m k)) (omega arith) h)
  count_expected-Has m n (t ∷ ts) x h e = elim (Bool-cases (str_eq t.subtask_id "")) [
    | inl blank ↦
        let other : str_eq t.subtask_id k ≡ false =
          ground (arith, str_eq_iff t.subtask_id "", str_eq_iff t.subtask_id k, blank, named) in
        rw other (count_expected-Has m n ts x h (ground (arith, blank, e)))
    | inr there ↦ go (λ m' y. count_expected-Has m' n ts y) there (find m t.subtask_id) refl
  ]
    where
      after : SubtaskState → Assoc SubtaskState
      after s = put m t.subtask_id (record s { expected = s.expected + 1 })

      go :
          ((m' : Assoc SubtaskState) (y : ℕ)
            → Has y 0 false (find m' k)
            → count_expected m' ts ≡ prepared n
            → Has (y + tests_of k ts) 0 false (find n k))
          → str_eq t.subtask_id "" ≡ false
          → (o : Option SubtaskState) → find m t.subtask_id ≡ o
          → Has (x + tests_of k (t ∷ ts)) 0 false (find n k)
      go recur there none q = absurd (ground (arith, there, q, e))
      go recur there (some s) q =
          let rest : count_expected (after s) ts ≡ prepared n = ground (arith, there, q, e) in
          elim (Bool-cases (str_eq t.subtask_id k)) [
            | inr other ↦ rw other (
                recur (after s) x
                  (put-Has k t.subtask_id m (record s { expected = s.expected + 1 }) x 0 false
                    (λ same. absurd (ground (arith, same, other))) (λ ne. h))
                  rest)
            | inl same ↦
                let old : Has x 0 false (some s) =
                  subst (Has x 0 false) (ap (find m) (sym ((str_eq_iff t.subtask_id k).0 same)) ∙ q)
                    h in
                Has-cast (x + 1 + tests_of k ts) (x + tests_of k (t ∷ ts)) 0 0 false false
                  (find n k) (ground (arith, same)) refl refl
                  (recur (after s) (x + 1)
                    (put-Has k t.subtask_id m (record s { expected = s.expected + 1 }) (x + 1) 0
                      false (λ q. (omega (arith, old.0), old.1, old.2))
                      (λ ne. absurd (ground (arith, same, ne))))
                    rest)
          ]

  update_subtask_state-Has :
      (m : Assoc SubtaskState) (r : TestcaseResult) (e x : ℕ) (f : Bool)
      → Has e x f (find m k)
      → Has e
          (if str_eq r.subtask_id k then x + 1 else x)
          (f || (str_eq r.subtask_id k && not (is_ac r.verdict)))
          (find (update_subtask_state m r) k)
  unfolding update_subtask_state
  update_subtask_state-Has m r e x f h = go (find m r.subtask_id) refl
    where
      x' : ℕ
      x' = if str_eq r.subtask_id k then x + 1 else x

      f' : Bool
      f' = f || (str_eq r.subtask_id k && not (is_ac r.verdict))

      other_result : str_eq r.subtask_id k ≡ false → Has e x' f' (find m k)
      other_result ne =
          Has-cast e e x x' f f' (find m k) refl (ground (arith, ne)) (ground (arith, ne)) h

      go :
          (o : Option SubtaskState)
          → find m r.subtask_id ≡ o
          → Has e x' f' (find (update_subtask_state m r) k)
      go none q =
          let kept : update_subtask_state m r ≡ m = ground (arith, q) in
          rw kept (elim (Bool-cases (str_eq r.subtask_id k)) [
            | inr ne ↦ other_result ne
            | inl same ↦ rw (ap (find m) (sym ((str_eq_iff r.subtask_id k).0 same)) ∙ q) tt
          ])
      go (some s) q = elim (Bool-cases (str_eq r.subtask_id "")) [
        | inl blank ↦
            rw (blank, update_subtask_state)
              (other_result (
                ground
                  (arith, str_eq_iff r.subtask_id "", str_eq_iff r.subtask_id k, blank, named)))
        | inr there ↦
            let after : SubtaskState = record s {
              executed = s.executed + 1;
              failed = if is_ac r.verdict then s.failed else true;
            } in
            let written : update_subtask_state m r ≡ put m r.subtask_id after =
              rw (there, update_subtask_state) (rw (q, update_subtask_state) refl) in
            rw written (
              put-Has k r.subtask_id m after e x' f'
                (λ same.
                  let old : Has e x f (some s) =
                    subst (Has e x f) (ap (find m) (sym ((str_eq_iff r.subtask_id k).0 same)) ∙ q)
                      h in
                  (old.0, ground (arith, old.1, same), ground (arith, old.2, same)))
                other_result)
      ]

  update_all-Has :
      (m : Assoc SubtaskState) (rs : List TestcaseResult) (e x : ℕ) (f : Bool)
      → Has e x f (find m k)
      → Has e (x + results_of k rs) (f || ltb 0 (failures_of k rs)) (find (update_all m rs) k)
  update_all-Has m [] e x f h =
      Has-cast e e x (x + 0) f (f || ltb 0 0) (find m k) refl (omega arith) (ground arith) h
  update_all-Has m (r ∷ rs) e x f h =
      Has-cast e e _ (x + results_of k (r ∷ rs)) _ (f || ltb 0 (failures_of k (r ∷ rs)))
        (find (update_all m (r ∷ rs)) k) refl (ground arith) (ground arith)
        (update_all-Has (update_subtask_state m r) rs e _ _ (update_subtask_state-Has m r e x f h))

  prepare_subtasks-Has :
      (subtasks : List SubtaskSpec) (tests : List TestcaseSpec) (m : Assoc SubtaskState)
      → prepare_subtasks subtasks tests ≡ prepared m
      → Has (tests_of k tests) 0 false (find m k)
  unfolding prepare_subtasks then_count find
  prepare_subtasks-Has subtasks tests m h = go (index_subtasks [] subtasks) refl
    where
      go :
          (o : Prepared)
          → index_subtasks [] subtasks ≡ o
          → Has (tests_of k tests) 0 false (find m k)
      go (bad_subtasks e) q = absurd (ground (arith, q, h))
      go (prepared n) q =
          Has-cast (0 + tests_of k tests) (tests_of k tests) 0 0 false false (find m k)
            (omega arith) refl refl
            (count_expected-Has n m tests 0 (index_subtasks-Has [] n subtasks tt q)
              (ground (arith, q, h)))

  -- The score of a subtask counts, after any results, exactly if it has a test, has a result for
  -- each of its tests at least, and every result of it has passed.
  pub counts_iff :
      (subtasks : List SubtaskSpec) (tests : List TestcaseSpec) (m : Assoc SubtaskState)
      (rs : List TestcaseResult) (s : SubtaskState)
      → prepare_subtasks subtasks tests ≡ prepared m
      → find (update_all m rs) k ≡ some s
      → (counts s ≡ true)
        ↔ ((0 < tests_of k tests) × (tests_of k tests ≤ results_of k rs) × (failures_of k rs ≡ 0))
  unfolding counts
  counts_iff subtasks tests m rs s p q =
      let state : Has (tests_of k tests) (results_of k rs) (ltb 0 (failures_of k rs)) (some s) =
        subst (Has (tests_of k tests) (results_of k rs) (ltb 0 (failures_of k rs))) q (
          Has-cast (tests_of k tests) (tests_of k tests) (0 + results_of k rs) (results_of k rs)
            (false || ltb 0 (failures_of k rs)) (ltb 0 (failures_of k rs))
            (find (update_all m rs) k) refl (omega arith) refl
            (update_all-Has m rs (tests_of k tests) 0 false
              (prepare_subtasks-Has subtasks tests m p))) in
      ((λ c. ground (arith, state, c)), (λ h. ground (arith, state, h)))
