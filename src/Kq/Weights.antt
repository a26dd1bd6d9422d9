-- ===== src/Kq/Weights.antt =====
-- Topic weights of weighted_kq.go: `buildTopicWeights`, `defaultWeights` and the small helpers.
-- A weight is a number: the code treats a negative one as it treats 0.
use fuzoj.Prelude.{
  ℕ, zero, suc, ◌+◌, List, [], ◌∷◌, String, Bool, true, false, str_eq, if◌then◌else◌, ltb, leb,
  get_or, length,
}
use fuzoj.Prelude.Assoc.{Assoc, find_or, put}

-- maxInt
unfoldable pub max_int : ℕ → ℕ → ℕ
max_int a b = if ltb b a then a else b

-- containsTopic
unfoldable pub contains_topic : List String → String → Bool
contains_topic [] topic = false
contains_topic (t ∷ ts) topic =
    let rest = contains_topic ts topic in if str_eq t topic then true else rest

-- defaultGroup
unfoldable pub default_group : String → String
default_group group = if str_eq group "" then "fuzoj-judge" else group

abbrev pub base_weights : List ℕ
base_weights = 8 ∷ 4 ∷ 2 ∷ 1 ∷ []

-- The loop of `defaultWeights` from index `i`, with `n` rounds left.
unfoldable pub default_weights_from : ℕ → ℕ → List ℕ
default_weights_from i zero = []
default_weights_from i (suc n) =
    (if ltb i (length base_weights) then get_or base_weights i 0 else 1)
    ∷ default_weights_from (i + 1) n

-- defaultWeights
unfoldable pub default_weights : ℕ → List ℕ
unfolding default_weights_from
default_weights count = default_weights_from 0 count

-- The loop of `buildTopicWeights` over the default weights.
unfoldable pub assign_defaults : List String → List ℕ → Assoc ℕ → Assoc ℕ
assign_defaults [] ws m = m
assign_defaults (t ∷ ts) [] m = m
assign_defaults (t ∷ ts) (w ∷ ws) m = assign_defaults ts ws (if str_eq t "" then m else put m t w)

-- The loop of `buildTopicWeights` over the explicit weights.
unfoldable pub assign_explicit : List String → Assoc ℕ → Assoc ℕ → Assoc ℕ
assign_explicit [] explicit m = m
assign_explicit (t ∷ ts) explicit m = assign_explicit ts explicit (
    if str_eq t ""
    then m
    else put m t (if leb (find_or explicit t 0) 0 then 1 else find_or explicit t 0))

-- buildTopicWeights
unfoldable pub build_topic_weights : List String → Assoc ℕ → Assoc ℕ
unfolding assign_defaults assign_explicit default_weights
build_topic_weights topics [] = assign_defaults topics (default_weights (length topics)) []
build_topic_weights topics (e ∷ es) = assign_explicit topics (e ∷ es) []
