-- ===== src/Examples/Dispatch.antt =====
-- A dispatcher with a limited retry topic that serves two tasks.
use fuzoj.Kq.Schedule.{build_dispatch_schedule}
use fuzoj.Kq.Weights.{max_int}
use fuzoj.Prelude.Assoc.{find, put, find_or}
use fuzoj.Prelude.{ℕ, ◌≡◌, ◌≤◌, refl, [], ◌∷◌, true, Option, none, some, length}
use fuzoj.Kq.Dispatch.{
  Task, Dispatcher, Options, new_shared_dispatcher, Submitted, sent, blocked, unknown_topic, submit,
  pick, push_job, take_job, finish_job, next_task, submits, picks, pushes, takes, finishes, Reach,
  here, next, empty_queues, clamp_weights, scan, poll, pull,
}
use fuzoj.Kq.Confs.{KqConf}
use fuzoj.Kq.Policy.{
  WeightedQueuePolicy, queue_group, dispatcher_options, retry_cap_for, most_processors, all_open,
  new_weighted_kq_queues_with_policy,
}
use fuzoj.Kq.Policy.Limit.{new_weighted_kq_queues_with_policy-limits}
use fuzoj.Prelude.{tally, str_eq, String, List, ◌+◌}
use fuzoj.Kq.Dispatch.Invariant.{Reach-IsValid}
use fuzoj.Kq.Dispatch.Valid.{IsValid}
use fuzoj.Kq.Dispatch.Progress.{Serviced, next_task_serves_in_turn}
use fuzoj.Kq.Dispatch.Conserve.{tasks_of, submissions, tasks_of-reached}

abbrev options : Options
options = record {
  topics = "judge" ∷ "retry" ∷ [];
  weights = ("judge", 2) ∷ ("retry", 1) ∷ [];
  workers = 1;
  retry_topic = "retry";
  retry_cap = 1;
}

abbrev retry_task : ℕ → Task
retry_task c = record { call = c; topic = "retry"; key = "k"; value = "v"; enqueued_at = 5 }

abbrev after_submit : Dispatcher → Submitted → Dispatcher
after_submit d unknown_topic = d
after_submit d blocked = d
after_submit d (sent e) = e

abbrev after_step : Dispatcher → Option Dispatcher → Dispatcher
after_step d none = d
after_step d (some e) = e

abbrev new : Dispatcher
new = new_shared_dispatcher options

abbrev waiting : Dispatcher
waiting = after_submit new (submit new (retry_task 1))

abbrev two_waiting : Dispatcher
two_waiting = after_submit waiting (submit waiting (retry_task 2))

abbrev picked : Dispatcher
picked = (pick two_waiting).1

abbrev pushed : Dispatcher
pushed = after_step picked (push_job 9 picked)

abbrev taken : Dispatcher
taken = after_step pushed (take_job pushed)

abbrev finished : Dispatcher
finished = after_step taken (finish_job 0 true taken)

to_taken : Reach new taken
unfolding submit new_shared_dispatcher push_job take_job find empty_queues put max_int pick
    next_task build_dispatch_schedule find_or clamp_weights scan poll
to_taken =
    next
      (next
        (next (next (next here (submits (retry_task 1) refl)) (submits (retry_task 2) refl))
          (picks refl))
        (pushes 9 refl))
      (takes refl)

to_finished : Reach new finished
unfolding finish_job pull take_job push_job pick submit find new_shared_dispatcher empty_queues put
    max_int next_task build_dispatch_schedule find_or clamp_weights scan poll
to_finished = next to_taken (finishes 0 true refl)

-- The call of the first task has its error.
first_answered : finished.answered ≡ (1, true) ∷ []
unfolding finish_job pull take_job push_job pick submit find new_shared_dispatcher empty_queues put
    max_int next_task build_dispatch_schedule find_or clamp_weights scan poll
first_answered = refl

Reach-IsValid_example : IsValid finished
Reach-IsValid_example = Reach-IsValid options to_finished

tasks_of-reached_example : tasks_of 1 finished ≡ submissions 1 to_finished
tasks_of-reached_example = tasks_of-reached options to_finished 1

next_task_serves_in_turn_example : Serviced finished (length finished.schedule) (next_task finished)
next_task_serves_in_turn_example = next_task_serves_in_turn options to_finished

abbrev conf : String → KqConf
conf topic = record {
  brokers = "b" ∷ [];
  group = "g";
  topic = topic;
  consumers = 2;
  processors = 16;
  min_bytes = 0;
  max_bytes = 0;
  name = ("judge", topic);
}

abbrev policy : WeightedQueuePolicy
policy = record { topic_weights = none; retry_topic = "retry"; retry_max_in_flight = 0 }

abbrev confs : List KqConf
confs = conf "judge" ∷ conf "retry" ∷ []

abbrev limited : Dispatcher
limited = new_shared_dispatcher (dispatcher_options policy confs)

-- Two of sixteen workers may handle retry tasks.
two_retries : limited.retry_cap ≡ 2
unfolding new_shared_dispatcher max_int dispatcher_options retry_cap_for most_processors
two_retries = refl

opened :
    new_weighted_kq_queues_with_policy (λ c. true) confs true policy ≡ queue_group confs limited
unfolding new_weighted_kq_queues_with_policy all_open
opened = refl

abbrev limited_waiting : Dispatcher
limited_waiting = after_submit limited (submit limited (retry_task 1))

to_limited_waiting : Reach limited limited_waiting
unfolding submit find new_shared_dispatcher empty_queues dispatcher_options put max_int
    most_processors
to_limited_waiting = next here (submits (retry_task 1) refl)

new_weighted_kq_queues_with_policy-limits_example :
    let cap = retry_cap_for policy (most_processors confs 1) in
    (1 ≤ cap)
    × (tally (λ t. str_eq t.topic "retry") limited_waiting.jobs
          + tally (λ t. str_eq t.topic "retry") limited_waiting.running
        ≤ cap)
new_weighted_kq_queues_with_policy-limits_example =
    new_weighted_kq_queues_with_policy-limits (λ c. true) confs confs true policy limited refl
      opened limited_waiting to_limited_waiting
