-- ===== src/Kq/Confs.antt =====
-- `BuildWeightedKqConfs` of weighted_kq.go. `append` on a copied slice is a new list.
use fuzoj.Prelude.{
  ℕ, List, [], ◌∷◌, ◌++◌, String, Bool, ◌&&◌, not, none, some, if◌then◌else◌, str_eq,
}
use fuzoj.Prelude.Assoc.{Assoc, find_or}
use fuzoj.Kq.Weights.{max_int, contains_topic, default_group, build_topic_weights}
use fuzoj.Kq.Alloc.{Floats, alloc_by_weight}

-- WeightedKqOptions; its `RetryMaxInFlight` is not read here.
pub record WeightedKqOptions : Type 0 where
  pub brokers : List String
  pub group : String
  pub topics : List String
  pub topic_weights : Assoc ℕ
  pub consumers_total : ℕ
  pub processors_total : ℕ
  pub min_bytes : ℕ
  pub max_bytes : ℕ
  pub service_name : String
  pub retry_topic : String
  pub auto_add_retry : Bool

-- kq.KqConf, its fields that are set; a name is kept as its prefix and topic.
pub record KqConf : Type 0 where
  pub brokers : List String
  pub group : String
  pub topic : String
  pub consumers : ℕ
  pub processors : ℕ
  pub min_bytes : ℕ
  pub max_bytes : ℕ
  pub name : String × String

pub data ConfsResult : Type 0 where
  confs : List KqConf → ConfsResult
  brokers_required topics_required panic : ConfsResult

-- The topics, with the retry topic added where it is wanted and missing.
unfoldable pub with_retry_topic : WeightedKqOptions → List String
with_retry_topic o =
    if o.auto_add_retry
      && not (str_eq o.retry_topic "")
      && not (contains_topic o.topics o.retry_topic)
    then o.topics ++ o.retry_topic ∷ []
    else o.topics

unfoldable pub conf_for : WeightedKqOptions → Assoc ℕ → String → KqConf
conf_for o consumers topic = record {
  brokers = o.brokers;
  group = default_group o.group;
  topic = topic;
  consumers = find_or consumers topic 0;
  processors = max_int 1 o.processors_total;
  min_bytes = o.min_bytes;
  max_bytes = o.max_bytes;
  name = (if str_eq o.service_name "" then "kq" else o.service_name, topic);
}

-- The loop over the topics.
unfoldable pub confs_for : WeightedKqOptions → Assoc ℕ → List String → List KqConf
confs_for o consumers [] = []
confs_for o consumers (t ∷ ts) = conf_for o consumers t ∷ confs_for o consumers ts

-- BuildWeightedKqConfs past its first check, at the topics in use.
unfoldable pub confs_of_topics : Floats → WeightedKqOptions → List String → ConfsResult
confs_of_topics F o [] = topics_required
confs_of_topics F o (t ∷ ts) =
    elim (alloc_by_weight F (t ∷ ts) (build_topic_weights (t ∷ ts) o.topic_weights)
      o.consumers_total) [ none ↦ panic | some consumers ↦ confs (confs_for o consumers (t ∷ ts)) ]

-- BuildWeightedKqConfs
unfoldable pub build_weighted_kq_confs : Floats → WeightedKqOptions → ConfsResult
build_weighted_kq_confs F o = elim o.brokers [
  | [] ↦ brokers_required
  | b ∷ bs ↦ confs_of_topics F o (with_retry_topic o)
]
