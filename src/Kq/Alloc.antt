-- ===== src/Kq/Alloc.antt =====
-- `allocByWeight` of weighted_kq.go: consumers shared out by weight, at least one for each topic.
-- The floats of the shares are a parameter, since rounding decides ties; nothing is assumed of
-- them.
pub mod Assigned
pub mod Sum
use fuzoj.Prelude.{
  ℕ, zero, suc, ◌+◌, ◌-◌, ◌%◌, ◌≡◌, List, [], ◌∷◌, ◌++◌, String, Bool, Option, none, some,
  if◌then◌else◌, ltb, length, get_elem?, leb, sum_by,
}
use fuzoj.Prelude.Sort.{sort_stable}
use fuzoj.Prelude.Assoc.{Assoc, find_or, put}
use fuzoj.Kq.Weights.{max_int}

-- float64, as far as `allocByWeight` uses it.
pub record Floats : Type 1 where
  pub Float : Type 0
  pub of_int : ℕ → Float
  pub mul : Float → Float → Float
  pub div : Float → Float → Float
  pub sub : Float → Float → Float
  pub trunc : Float → ℕ
  pub gt : Float → Float → Bool

-- The loop that gives every topic one consumer.
unfoldable pub all_one : List String → Assoc ℕ → Assoc ℕ
all_one [] m = m
all_one (t ∷ ts) m = all_one ts (put m t 1)

-- The sum of the weights.
unfoldable pub weight_total : List String → Assoc ℕ → ℕ
unfolding max_int
weight_total [] weights = 0
weight_total (t ∷ ts) weights = max_int 1 (find_or weights t 0) + weight_total ts weights

-- result[topic]++
unfoldable pub bump : Assoc ℕ → String → Assoc ℕ
bump m t = put m t (find_or m t 0 + 1)

module _ (F : Floats) where
  open F use {Float, of_int, mul, div, sub, trunc, gt}

  pub record Rem : Type 0 where
    pub topic : String
    pub fraction : Float

  -- The exact share of a topic.
  unfoldable pub raw_share : ℕ → ℕ → Assoc ℕ → String → Float
  unfolding max_int
  raw_share total weight_sum weights t =
      div (mul (of_int total) (of_int (max_int 1 (find_or weights t 0)))) (of_int weight_sum)

  -- The whole consumers that the share gives, at least one.
  unfoldable pub share : ℕ → ℕ → Assoc ℕ → String → ℕ
  unfolding raw_share
  share total weight_sum weights t =
      let count = trunc (raw_share total weight_sum weights t) in if ltb count 1 then 1 else count

  unfoldable pub remainder : ℕ → ℕ → Assoc ℕ → String → Rem
  remainder total weight_sum weights t = record {
    topic = t;
    fraction =
        sub (raw_share total weight_sum weights t) (of_int (share total weight_sum weights t));
  }

  -- The loop that fills `result`, `assigned` and `remainders`.
  unfoldable pub assign :
      ℕ → ℕ → Assoc ℕ → List String → Assoc ℕ → ℕ → List Rem → Assoc ℕ × ℕ × List Rem
  assign total weight_sum weights [] result assigned rems = (result, assigned, rems)
  assign total weight_sum weights (t ∷ ts) result assigned rems =
      let count = share total weight_sum weights t in
      assign total weight_sum weights ts (put result t count) (assigned + count)
        (rems ++ remainder total weight_sum weights t ∷ [])

  unfoldable pub by_fraction : Rem → Rem → Bool
  by_fraction a b = gt a.fraction b.fraction

  -- The loop that hands out what is left, with `n` rounds left; `i % 0` is a panic.
  unfoldable pub hand_out : List Rem → ℕ → ℕ → Assoc ℕ → Option (Assoc ℕ)
  unfolding bump
  hand_out rems i zero result = some result
  hand_out rems i (suc n) result = elim (get_elem? rems (i % length rems)) [
    | none ↦ none
    | some r ↦ hand_out rems (i + 1) n (bump result r.topic)
  ]

  unfoldable pub alloc_by_weight : List String → Assoc ℕ → ℕ → Option (Assoc ℕ)
  alloc_by_weight topics weights total =
      let total = (if leb total 0 then 1 else total) in
      if ltb total (length topics)
      then some (all_one topics [])
      else let (result, assigned, rems) =
          assign total (weight_total topics weights) weights topics [] 0 [] in
        if ltb assigned total
        then hand_out (sort_stable by_fraction rems) 0 (total - assigned) result
        else some result
