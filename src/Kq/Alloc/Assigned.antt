-- ===== src/Kq/Alloc/Assigned.antt =====
-- The consumers that the loops of `alloc_by_weight` assign, counted.
use fuzoj.Prelude.{
  ℕ, zero, suc, ◌+◌, ◌%◌, ◌≤◌, ◌<◌, ◌≡◌, refl, List, [], ◌∷◌, ◌++◌, String, true, false, some,
  arith, if◌then◌else◌, length, str_eq_iff, contains, sum_by, All, All-append, length-append,
}
use fuzoj.Prelude.ListLaws.{All-get_elem?}
use fuzoj.Prelude.Assoc.{Assoc, find_or, put, find_or-put}
use fuzoj.Kq.Alloc.{Floats, Rem, bump, share, assign, hand_out, remainder}

-- The topics are distinct.
abbrev pub Distinct : List String → Type 0
Distinct [] = Unit {0}
Distinct (t ∷ ts) = (contains ts t ≡ false) × Distinct ts

-- The consumers of the topics together.
abbrev pub consumers : List String → Assoc ℕ → ℕ
consumers ts m = sum_by (λ t. find_or m t 0) ts

consumers-put_absent :
    (ts : List String) (m : Assoc ℕ) (k : String) (v : ℕ)
    → contains ts k ≡ false
    → consumers ts (put m k v) ≡ consumers ts m
consumers-put_absent [] m k v h = refl
consumers-put_absent (t ∷ ts) m k v h =
    ground
      (arith, find_or-put m k t v 0, str_eq_iff k t, str_eq_iff t k, consumers-put_absent ts m k v)

-- Writing one topic's entry changes the total by the difference.
consumers-put :
    (ts : List String) (m : Assoc ℕ) (k : String) (v : ℕ)
    → Distinct ts
    → contains ts k ≡ true
    → consumers ts (put m k v) + find_or m k 0 ≡ consumers ts m + v
consumers-put [] m k v d h = absurd (ground arith)
consumers-put (t ∷ ts) m k v d h = ground (
  arith,
  find_or-put m k t v 0,
  str_eq_iff k t,
  str_eq_iff t k,
  consumers-put ts m k v d.1,
  consumers-put_absent ts m k v,
)

module _ (F : Floats) (total sum : ℕ) (ws : Assoc ℕ) where
  pub find_or-assign :
      (ts : List String) (m : Assoc ℕ) (a : ℕ) (rs : List (Rem F)) (j : String)
      → find_or (assign F total sum ws ts m a rs).0 j 0
        ≡ (if contains ts j then share F total sum ws j else find_or m j 0)
  unfolding assign
  find_or-assign [] m a rs j = refl
  find_or-assign (t ∷ ts) m a rs j = ground (
    arith,
    find_or-assign ts (put m t (share F total sum ws t)) (a + share F total sum ws t)
        (rs ++ remainder F total sum ws t ∷ []) j,
    find_or-put m t j (share F total sum ws t) 0,
    str_eq_iff t j,
  )

  -- What is assigned is the sum of the shares.
  pub assigned-assign :
      (ts : List String) (m : Assoc ℕ) (a : ℕ) (rs : List (Rem F))
      → (assign F total sum ws ts m a rs).1 ≡ a + sum_by (share F total sum ws) ts
  unfolding assign
  assigned-assign [] m a rs = omega arith
  assigned-assign (t ∷ ts) m a rs = omega (
    arith,
    assigned-assign ts (put m t (share F total sum ws t)) (a + share F total sum ws t)
        (rs ++ remainder F total sum ws t ∷ []),
  )

  abbrev Within : List String → List (Rem F) → Type 0
  Within topics rs = All (λ r. contains topics r.topic ≡ true) rs

  pub rems-assign :
      (topics ts : List String) (m : Assoc ℕ) (a : ℕ) (rs : List (Rem F))
      → All (λ t. contains topics t ≡ true) ts
      → Within topics rs
      → Within topics (assign F total sum ws ts m a rs).2
        × (length (assign F total sum ws ts m a rs).2 ≡ length rs + length ts)
  unfolding assign
  rems-assign topics [] m a rs h w = (w, omega arith)
  rems-assign topics (t ∷ ts) m a rs h w =
      let (w', n) =
        rems-assign topics ts (put m t (share F total sum ws t)) (a + share F total sum ws t)
          (rs ++ remainder F total sum ws t ∷ []) h.1
          (All-append (λ r. contains topics r.topic ≡ true) rs (remainder F total sum ws t ∷ []) w
            (unfold remainder in (h.0, tt))) in
      (w', omega (arith, n, length-append rs (remainder F total sum ws t ∷ [])))

  pub share-pos : (t : String) → 1 ≤ share F total sum ws t
  unfolding share
  share-pos t = ground arith

find_or-bump_le : (m : Assoc ℕ) (k t : String) → find_or m t 0 ≤ find_or (bump m k) t 0
unfolding bump
find_or-bump_le m k t = ground (arith, find_or-put m k t (find_or m k 0 + 1) 0, str_eq_iff k t)

consumers-bump :
    (ts : List String) (m : Assoc ℕ) (k : String)
    → Distinct ts
    → contains ts k ≡ true
    → consumers ts (bump m k) ≡ consumers ts m + 1
unfolding bump
consumers-bump ts m k d h = omega (arith, consumers-put ts m k (find_or m k 0 + 1) d h)

module _ (F : Floats) (topics : List String) (rems : List (Rem F)) (d : Distinct topics)
    (w : All (λ r. contains topics r.topic ≡ true) rems) (some_rem : 0 < length rems) where
  -- With a topic to choose from, each round adds one consumer to a topic of the list.
  pub hand_out-consumers :
      (i n : ℕ) (m : Assoc ℕ)
      → (r : Assoc ℕ) × (hand_out F rems i n m ≡ some r)
        × (consumers topics r ≡ consumers topics m + n)
        × ((t : String) → find_or m t 0 ≤ find_or r t 0)
  unfolding hand_out
  hand_out-consumers i zero m = (m, refl, omega arith, λ t. omega arith)
  hand_out-consumers i (suc n) m =
      let (x, e, p) =
        All-get_elem? (λ r. contains topics r.topic ≡ true) rems (i % length rems) (grind arith)
          w in
      let (r, q, c, le) = hand_out-consumers (i + 1) n (bump m x.topic) in
      (
        r,
        rw (e, hand_out) q,
        omega (arith, c, consumers-bump topics m x.topic d p),
        λ t. omega (arith, le t, find_or-bump_le m x.topic t),
      )
