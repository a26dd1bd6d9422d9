-- ===== src/Examples/Alloc.antt =====
-- Consumers shared out between two topics, with whole numbers for the floats, and their schedule.
use fuzoj.Prelude.Sort.{sort_stable}
use fuzoj.Prelude.{
  ℕ, ◌≡◌, ◌≤◌, ◌*◌, ◌-◌, ◌/◌, refl, List, [], ◌∷◌, String, true, some, ltb, arith, contains,
}
use fuzoj.Prelude.Assoc.{Assoc, find_or, put}
use fuzoj.Kq.Weights.{max_int}
use fuzoj.Kq.Alloc.{
  Floats, alloc_by_weight, assign, share, weight_total, hand_out, by_fraction, remainder,
}
use fuzoj.Kq.Alloc.Sum.{allotted, at_least_one, consumers-alloc_by_weight}
use fuzoj.Kq.Alloc.Assigned.{consumers}
use fuzoj.Kq.Schedule.{build_dispatch_schedule, occurrences, occurrences-build_dispatch_schedule}

abbrev hundredths : Floats
hundredths = record {
  Float = ℕ;
  of_int = λ n. n * 100;
  mul = λ a b. a * b / 100;
  div = λ a b. a * 100 / b;
  sub = λ a b. a - b;
  trunc = λ a. a / 100;
  gt = λ a b. ltb b a;
}

abbrev topics : List String
topics = "judge" ∷ "retry" ∷ []

abbrev weights : Assoc ℕ
weights = ("judge", 2) ∷ ("retry", 1) ∷ []

-- Five consumers, by weights of two and one.
shared_out : alloc_by_weight hundredths topics weights 5 ≡ some (("judge", 3) ∷ ("retry", 2) ∷ [])
unfolding alloc_by_weight assign share find_or weight_total hand_out sort_stable by_fraction
    remainder put
shared_out = refl

consumers-alloc_by_weight_example :
    (r : Assoc ℕ) × (alloc_by_weight hundredths topics weights 5 ≡ some r)
    × (consumers topics r ≡ allotted hundredths topics weights (at_least_one 5))
    × ((t : String) → contains topics t ≡ true → 1 ≤ find_or r t 0)
    × (5 ≤ consumers topics r)
consumers-alloc_by_weight_example =
    consumers-alloc_by_weight hundredths topics weights (refl, (refl, tt)) (omega arith) 5

occurrences-build_dispatch_schedule_example :
    occurrences "judge" (build_dispatch_schedule topics weights)
    ≡ occurrences "judge" topics * max_int 1 (find_or weights "judge" 0)
occurrences-build_dispatch_schedule_example =
    occurrences-build_dispatch_schedule "judge" topics weights
