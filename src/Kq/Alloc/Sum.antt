-- ===== src/Kq/Alloc/Sum.antt =====
-- The consumers that `alloc_by_weight` hands out, counted.
use fuzoj.Prelude.{
  ℕ, ◌-◌, ◌≤◌, ◌<◌, ◌≡◌, refl, List, [], ◌∷◌, String, true, Option, some, arith, if◌then◌else◌, ltb,
  leb, length, str_eq_iff, contains, sum_by, ◌∙◌, Bool-cases, inl, inr, max_of,
}
use fuzoj.Prelude.Sort.{sort_stable, All-sort_stable}
use fuzoj.Prelude.ListLaws.{sum_by-congr, All-imp, All-contains, sum_by-one}
use fuzoj.Prelude.Assoc.{Assoc, find_or, put, find_or-put}
use fuzoj.Kq.Alloc.{
  Floats, Rem, all_one, weight_total, share, assign, by_fraction, hand_out, alloc_by_weight,
}
use fuzoj.Kq.Alloc.Assigned.{
  Distinct, consumers, find_or-assign, assigned-assign, rems-assign, share-pos, hand_out-consumers,
}

find_or-all_one :
    (ts : List String) (m : Assoc ℕ) (t : String)
    → find_or (all_one ts m) t 0 ≡ (if contains ts t then 1 else find_or m t 0)
unfolding all_one
find_or-all_one [] m t = refl
find_or-all_one (x ∷ ts) m t =
    ground (arith, find_or-all_one ts (put m x 1) t, find_or-put m x t 1 0, str_eq_iff x t)

-- `total <= 0` is read as 1.
abbrev pub at_least_one : ℕ → ℕ
at_least_one total = if leb total 0 then 1 else total

-- What the topics have together: one each if there are too few, and else all of them; more than
-- asked for only where the minimum of one pushes the sum of the shares above it.
abbrev pub allotted : Floats → List String → Assoc ℕ → ℕ → ℕ
allotted F topics ws total =
    if ltb total (length topics)
    then length topics
    else max_of total (sum_by (share F total (weight_total topics ws) ws) topics)

module _ (F : Floats) (topics : List String) (ws : Assoc ℕ) (d : Distinct topics)
    (nonempty : 0 < length topics) where
  abbrev Allots : Option (Assoc ℕ) → ℕ → Type 0
  Allots o n =
      (r : Assoc ℕ) × (o ≡ some r)
      × (consumers topics r ≡ n)
      × ((t : String) → contains topics t ≡ true → 1 ≤ find_or r t 0)

  scarce : Allots (some (all_one topics [])) (length topics)
  unfolding find_or
  scarce = (
    all_one topics [],
    refl,
    sum_by-congr (λ t. find_or (all_one topics []) t 0) (λ t. 1) topics
          (All-imp (λ t. contains topics t ≡ true) (λ t. find_or (all_one topics []) t 0 ≡ 1) topics
            (λ t h. ground (arith, find_or-all_one topics [] t)) (All-contains topics))
        ∙ sum_by-one topics,
    λ t h. ground (arith, find_or-all_one topics [] t),
  )

  abbrev assigned : ℕ → Assoc ℕ × ℕ × List (Rem F)
  assigned total = assign F total (weight_total topics ws) ws topics [] 0 []

  find_or-assigned :
      (total : ℕ) (t : String)
      → contains topics t ≡ true
      → find_or (assigned total).0 t 0 ≡ share F total (weight_total topics ws) ws t
  find_or-assigned total t h =
      ground (arith, find_or-assign F total (weight_total topics ws) ws topics [] 0 [] t)

  consumers-assigned :
      (total : ℕ)
      → consumers topics (assigned total).0
        ≡ sum_by (share F total (weight_total topics ws) ws) topics
  consumers-assigned total =
      sum_by-congr (λ t. find_or (assigned total).0 t 0) (share F total (weight_total topics ws) ws)
        topics
        (All-imp (λ t. contains topics t ≡ true)
          (λ t. find_or (assigned total).0 t 0 ≡ share F total (weight_total topics ws) ws t) topics
          (find_or-assigned total) (All-contains topics))

  plenty :
      (total : ℕ)
      → Allots
          (if ltb (assigned total).1 total
            then hand_out F
                (sort_stable (by_fraction F) (assigned total).2)
                0
                (total - (assigned total).1)
                (assigned total).0
            else some (assigned total).0)
          (max_of total (sum_by (share F total (weight_total topics ws) ws) topics))
  plenty total = elim (Bool-cases (ltb (assigned total).1 total)) [
    | inl e ↦
        let (w, n) =
          rems-assign F total (weight_total topics ws) ws topics topics [] 0 []
            (All-contains topics) tt in
        let (w', n') =
          All-sort_stable (λ r. contains topics r.topic ≡ true) (by_fraction F) (assigned total).2
            w in
        let (r, q, c, le) =
          hand_out-consumers F topics (sort_stable (by_fraction F) (assigned total).2) d w'
            (omega (arith, n, n', nonempty)) 0 (total - (assigned total).1) (assigned total).0 in
        (
          r,
          rw e q,
          ground (arith, c, consumers-assigned total, e, sum),
          λ t h. omega (
            arith,
            le t,
            find_or-assigned total t h,
            share-pos F total (weight_total topics ws) ws t,
          ),
        )
    | inr e ↦ (
      (assigned total).0,
      rw e,
      ground (arith, consumers-assigned total, e, sum),
      λ t h.
          omega
            (arith, find_or-assigned total t h, share-pos F total (weight_total topics ws) ws t),
    )
  ]
    where
      sum : (assigned total).1 ≡ sum_by (share F total (weight_total topics ws) ws) topics
      sum = omega (arith, assigned-assign F total (weight_total topics ws) ws topics [] 0 [])

  -- For distinct topics, at least one of them, `alloc_by_weight` does not panic; every topic has at
  -- least one consumer; and together they have `allotted`, which is never less than was asked for.
  pub consumers-alloc_by_weight :
      (total : ℕ)
      → (r : Assoc ℕ) × (alloc_by_weight F topics ws total ≡ some r)
        × (consumers topics r ≡ allotted F topics ws (at_least_one total))
        × ((t : String) → contains topics t ≡ true → 1 ≤ find_or r t 0)
        × (total ≤ consumers topics r)
  unfolding alloc_by_weight
  consumers-alloc_by_weight total = elim (Bool-cases (ltb (at_least_one total) (length topics))) [
    | inl e ↦
        let (r, q, c, p) = scarce in (r, rw e q, ground (arith, e, c), p, ground (arith, e, c))
    | inr e ↦
        let (r, q, c, p) = plenty (at_least_one total) in
        (r, rw e q, ground (arith, e, c), p, ground (arith, e, c))
  ]
