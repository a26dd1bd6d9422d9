-- ===== src/Kq/Dispatch.antt =====
-- The shared dispatcher of weighted_kq.go as a state with one function for each atomic step of its
-- goroutines: `Submit` (a send to a topic's channel), `nextTask` and the two arms of
-- `dispatchPending`, and the two halves of a worker's round. A send to a full channel and a receive
-- from an empty one block: such a step is not enabled (`none`). Waking is left out, since it moves
-- no task, and so are `stopCh` and the log lines.
pub mod Valid
pub mod Picks
pub mod Invariant
pub mod Progress
pub mod Conserve
use fuzoj.Prelude.{
  ℕ, zero, suc, ◌+◌, ◌-◌, ◌*◌, ◌%◌, List, [], ◌∷◌, ◌++◌, String, Bool, true, false, ◌&&◌, not,
  Option, none, some, if◌then◌else◌, str_eq, ltb, leb, length, get_or, ◌≡◌,
}
use fuzoj.Prelude.Assoc.{Assoc, find_or, find, put}
use fuzoj.Kq.Weights.{max_int}
use fuzoj.Kq.Schedule.{build_dispatch_schedule}

-- dispatchTask, with a number for the call of `Submit` that waits on its `done` channel.
pub record Task : Type 0 where
  pub call : ℕ
  pub topic : String
  pub key : String
  pub value : String
  pub enqueued_at : ℕ

-- topicWindowStats
pub record WindowStats : Type 0 where
  pub dispatched : ℕ
  pub successes : ℕ
  pub failures : ℕ
  pub wait_total : ℕ
  pub wait_max : ℕ

-- sharedDispatcher. `held` is the task that `dispatchPending` waits to send, `running` the tasks
-- that workers handle, `answered` the calls whose `done` channel has its error.
pub record Dispatcher : Type 0 where
  pub workers : ℕ
  pub queue_size : ℕ
  pub retry_topic : String
  pub retry_cap : ℕ
  pub topic_queues : Assoc (List Task)
  pub schedule : List String
  pub cursor : ℕ
  pub retry_in_flight : ℕ
  pub held : Option Task
  pub jobs : List Task
  pub running : List Task
  pub answered : List (ℕ × Bool)
  pub stats : Assoc WindowStats

-- sharedDispatcherOptions
pub record Options : Type 0 where
  pub topics : List String
  pub weights : Assoc ℕ
  pub workers : ℕ
  pub retry_topic : String
  pub retry_cap : ℕ

unfoldable pub empty_queues : List String → Assoc (List Task) → Assoc (List Task)
empty_queues [] m = m
empty_queues (t ∷ ts) m = empty_queues ts (put m t [])

unfoldable pub clamp_weights : List String → Assoc ℕ → Assoc ℕ → Assoc ℕ
clamp_weights [] weights m = m
clamp_weights (t ∷ ts) weights m =
    clamp_weights ts weights (put m t (max_int 1 (find_or weights t 0)))

abbrev pub no_stats : WindowStats
no_stats = record { dispatched = 0; successes = 0; failures = 0; wait_total = 0; wait_max = 0 }

-- newDispatcherStats
unfoldable pub new_dispatcher_stats : List String → Assoc WindowStats → Assoc WindowStats
new_dispatcher_stats [] m = m
new_dispatcher_stats (t ∷ ts) m = new_dispatcher_stats ts (put m t no_stats)

-- newSharedDispatcher
unfoldable pub new_shared_dispatcher : Options → Dispatcher
new_shared_dispatcher o = record {
  workers = max_int 1 o.workers;
  queue_size = max_int 64 (max_int 1 o.workers * 4);
  retry_topic = o.retry_topic;
  retry_cap = max_int 0 o.retry_cap;
  topic_queues = empty_queues o.topics [];
  schedule = build_dispatch_schedule o.topics (clamp_weights o.topics o.weights []);
  cursor = 0;
  retry_in_flight = 0;
  held = none;
  jobs = [];
  running = [];
  answered = [];
  stats = new_dispatcher_stats o.topics [];
}

-- `d.retryTopic != "" && topic == d.retryTopic && d.retryCap > 0`
abbrev pub is_limited : Dispatcher → String → Bool
is_limited d topic =
    not (str_eq d.retry_topic "") && str_eq topic d.retry_topic && ltb 0 d.retry_cap

-- recordDispatch
unfoldable pub record_dispatch : Assoc WindowStats → String → ℕ → Assoc WindowStats
record_dispatch stats topic wait =
    let item = find_or stats topic no_stats in
    put stats topic (record item {
      dispatched = item.dispatched + 1;
      wait_total = item.wait_total + wait;
      wait_max = if ltb item.wait_max wait then wait else item.wait_max;
    })

-- recordResult
unfoldable pub record_result : Assoc WindowStats → String → Bool → Assoc WindowStats
record_result stats topic failed =
    let item = find_or stats topic no_stats in
    put stats topic (
      if failed
      then record item { failures = item.failures + 1 }
      else record item { successes = item.successes + 1 })

pub data Submitted : Type 0 where
  unknown_topic : Submitted
  blocked : Submitted
  sent : Dispatcher → Submitted

-- Submit, up to its send: the channel of a topic holds `queue_size` tasks.
unfoldable pub submit : Dispatcher → Task → Submitted
submit d task = elim (find d.topic_queues task.topic) [
  | none ↦ unknown_topic
  | some queue ↦
      if ltb (length queue) d.queue_size
      then sent (record d { topic_queues = put d.topic_queues task.topic (queue ++ task ∷ []) })
      else blocked
]

-- The body of `nextTask`'s loop past the cursor's move: a full retry budget skips the topic, and
-- the `select` takes a task if the channel has one.
unfoldable pub poll : Dispatcher → String → Option (Task × Dispatcher)
poll d topic =
    if is_limited d topic && leb d.retry_cap d.retry_in_flight
    then none
    else elim (find_or d.topic_queues topic []) [
      | [] ↦ none
      | task ∷ rest ↦ some (
        task,
        record d {
          topic_queues = put d.topic_queues topic rest;
          retry_in_flight = if is_limited d topic then d.retry_in_flight + 1 else d.retry_in_flight;
        },
      )
    ]

-- The loop of `nextTask`, with `n` rounds left.
unfoldable pub scan : ℕ → Dispatcher → Option Task × Dispatcher
scan zero d = (none, d)
scan (suc n) d =
    let topic = get_or d.schedule d.cursor "" in
    let d' = record d { cursor = (d.cursor + 1) % length d.schedule } in
    elim (poll d' topic) [ some (task, d'') ↦ (some task, d'') | none ↦ scan n d' ]

-- nextTask
unfoldable pub next_task : Dispatcher → Option Task × Dispatcher
next_task d = elim d.schedule [ [] ↦ (none, d) | t ∷ ts ↦ scan (suc (length ts)) d ]

-- `task, ok := d.nextTask()`: the flag is whether a task is held after it.
unfoldable pub hold : Option Task × Dispatcher → Bool × Dispatcher
hold (none, d) = (false, d)
hold (some task, d) = (true, record d { held = some task })

-- A round of `dispatchPending`: the next task is taken if none is held.
unfoldable pub pick : Dispatcher → Bool × Dispatcher
unfolding hold
pick d = elim d.held [ some task ↦ (true, d) | none ↦ hold (next_task d) ]

-- `d.jobs <- task`: the channel holds `2 * workers` tasks.
unfoldable pub push_job : ℕ → Dispatcher → Option Dispatcher
push_job now d = elim d.held [
  | none ↦ none
  | some task ↦
      if ltb (length d.jobs) (d.workers * 2)
      then some (record d {
        held = none;
        jobs = d.jobs ++ task ∷ [];
        stats = record_dispatch d.stats task.topic (now - task.enqueued_at);
      })
      else none
]

-- `task := <-d.jobs`, by one of the workers that are not busy.
unfoldable pub take_job : Dispatcher → Option Dispatcher
take_job d = elim d.jobs [
  | [] ↦ none
  | task ∷ rest ↦
      if ltb (length d.running) d.workers
      then some (record d { jobs = rest; running = d.running ++ task ∷ [] })
      else none
]

-- The `i`-th of the running tasks, and the others.
unfoldable pub pull : ℕ → List Task → Option (Task × List Task)
pull i [] = none
pull zero (t ∷ ts) = some (t, ts)
pull (suc i) (t ∷ ts) = elim (pull i ts) [ none ↦ none | some (u, us) ↦ some (u, t ∷ us) ]

-- The handler of the `i`-th running task returns, and the worker answers the call.
unfoldable pub finish_job : ℕ → Bool → Dispatcher → Option Dispatcher
finish_job i failed d = elim (pull i d.running) [
  | none ↦ none
  | some (task, rest) ↦ some (record d {
    running = rest;
    retry_in_flight = if is_limited d task.topic then d.retry_in_flight - 1 else d.retry_in_flight;
    stats = record_result d.stats task.topic failed;
    answered = d.answered ++ (task.call, failed) ∷ [];
  })
]

-- One step of one goroutine.
pub data Step (d : Dispatcher) : Dispatcher → Type 0 where
  submits : (task : Task) {e : Dispatcher} → submit d task ≡ sent e → Step d e
  picks : {e : Dispatcher} → (pick d).1 ≡ e → Step d e
  pushes : (now : ℕ) {e : Dispatcher} → push_job now d ≡ some e → Step d e
  takes : {e : Dispatcher} → take_job d ≡ some e → Step d e
  finishes : (i : ℕ) (failed : Bool) {e : Dispatcher} → finish_job i failed d ≡ some e → Step d e

-- Any interleaving of steps.
pub data Reach (d : Dispatcher) : Dispatcher → Type 0 where
  here : Reach d d
  next : {e f : Dispatcher} → Reach d e → Step e f → Reach d f
