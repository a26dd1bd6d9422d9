-- ===== src/Kq/Policy.antt =====
-- `NewWeightedKqQueuesWithPolicy` of weighted_kq.go. Whether `kq.NewQueue` opens a queue is a
-- parameter.
pub mod Limit
use fuzoj.Prelude.{
  ℕ, ◌/◌, List, [], ◌∷◌, String, Bool, true, ◌&&◌, not, Option, none, some, if◌then◌else◌, str_eq,
  ltb, leb, map,
}
use fuzoj.Prelude.Assoc.{Assoc, find_or, put}
use fuzoj.Kq.Weights.{max_int}
use fuzoj.Kq.Confs.{KqConf}
use fuzoj.Kq.Dispatch.{Dispatcher, Options, new_shared_dispatcher}

-- WeightedQueuePolicy; a negative number of retries in flight is taken as 0.
pub record WeightedQueuePolicy : Type 0 where
  pub topic_weights : Option (Assoc ℕ)
  pub retry_topic : String
  pub retry_max_in_flight : ℕ

pub data Queues : Type 0 where
  confs_missing handler_missing not_opened : Queues
  queue_group : List KqConf → Dispatcher → Queues

-- The weight of a configuration's topic.
abbrev pub weight_of : WeightedQueuePolicy → KqConf → ℕ
weight_of p c = elim p.topic_weights [
  | none ↦ max_int 1 c.consumers
  | some weights ↦ max_int 1 (find_or weights c.topic 0)
]

-- The loop over the configurations: its weights, and its number of workers.
unfoldable pub policy_weights : WeightedQueuePolicy → List KqConf → Assoc ℕ → Assoc ℕ
policy_weights p [] m = m
policy_weights p (c ∷ cs) m = policy_weights p cs (put m c.topic (weight_of p c))

unfoldable pub most_processors : List KqConf → ℕ → ℕ
most_processors [] workers = workers
most_processors (c ∷ cs) workers =
    most_processors cs (if ltb workers c.processors then c.processors else workers)

-- retryCap
unfoldable pub retry_cap_for : WeightedQueuePolicy → ℕ → ℕ
retry_cap_for p workers =
    if not (str_eq p.retry_topic "") && leb p.retry_max_in_flight 0
    then max_int 1 (workers / 8)
    else p.retry_max_in_flight

-- sharedDispatcherOptions of the call; the guard on `workers` never applies, as it starts at 1.
unfoldable pub dispatcher_options : WeightedQueuePolicy → List KqConf → Options
dispatcher_options p cs = record {
  topics = map (λ c. c.topic) cs;
  weights = policy_weights p cs [];
  workers = most_processors cs 1;
  retry_topic = p.retry_topic;
  retry_cap = retry_cap_for p (most_processors cs 1);
}

-- The loop that opens the queues.
unfoldable pub all_open : (KqConf → Bool) → List KqConf → Bool
all_open opens [] = true
all_open opens (c ∷ cs) = opens c && all_open opens cs

-- NewWeightedKqQueuesWithPolicy, given whether there is a handler
unfoldable pub new_weighted_kq_queues_with_policy :
    (KqConf → Bool) → List KqConf → Bool → WeightedQueuePolicy → Queues
new_weighted_kq_queues_with_policy opens [] handler p = confs_missing
new_weighted_kq_queues_with_policy opens (c ∷ cs) handler p =
    if not handler
    then handler_missing
    else if not (all_open opens (c ∷ cs))
    then not_opened
    else queue_group (c ∷ cs) (new_shared_dispatcher (dispatcher_options p (c ∷ cs)))
