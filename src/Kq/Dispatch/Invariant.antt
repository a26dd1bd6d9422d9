-- ===== src/Kq/Dispatch/Invariant.antt =====
-- What holds of the dispatcher between any two steps.
use fuzoj.Prelude.{
  ℕ, zero, suc, ◌+◌, ◌-◌, ◌*◌, ◌≡◌, refl, List, [], ◌∷◌, ◌++◌, String, Bool, none, some,
  if◌then◌else◌, ltb, length, length-append, arith, tally, tally-append, Option-cases, inl, inr,
  Bool-cases, ap,
}
use fuzoj.Prelude.Assoc.{Assoc, find_or, put, find_or-put}
use fuzoj.Kq.Dispatch.{
  Task, Dispatcher, Options, is_limited, record_dispatch, record_result, push_job, take_job, pull,
  finish_job, Step, submits, picks, pushes, takes, finishes, Reach, here, next,
  new_shared_dispatcher, empty_queues,
}
use fuzoj.Kq.Dispatch.Valid.{limited_task, IsValid, submit-IsValid}
use fuzoj.Kq.Dispatch.Picks.{pick-IsValid}

push_job-IsValid : (now : ℕ) (d e : Dispatcher) → IsValid d → push_job now d ≡ some e → IsValid e
unfolding push_job
push_job-IsValid now d e v h = elim (Option-cases d.held) [
  | inl n ↦ absurd (ground (arith, n))
  | inr (task, q) ↦ elim (Bool-cases (ltb (length d.jobs) (d.workers * 2))) [
    | inr full ↦ absurd (ground (arith, q, full))
    | inl room ↦
        let is : e ≡ record d {
          held = none;
          jobs = d.jobs ++ task ∷ [];
          stats = record_dispatch d.stats task.topic (now - task.enqueued_at);
        } =
          ground (arith, q, room) in
        rw is (record {
          in_flight =
              ground (arith, v.in_flight, q, tally-append (limited_task d) d.jobs (task ∷ []));
          within_cap = v.within_cap;
          cursor_bound = v.cursor_bound;
          jobs_bound = ground (arith, length-append d.jobs (task ∷ []), room);
          running_bound = v.running_bound;
          queue_bound = v.queue_bound;
          queue_topic = v.queue_topic;
        })
  ]
]

take_job-IsValid : (d e : Dispatcher) → IsValid d → take_job d ≡ some e → IsValid e
unfolding take_job
take_job-IsValid d e v h = go d.jobs refl
  where
    go : (js : List Task) → d.jobs ≡ js → IsValid e
    go [] n = absurd (ground (arith, n))
    go (task ∷ rest) q = elim (Bool-cases (ltb (length d.running) d.workers)) [
      | inr full ↦ absurd (ground (arith, q, full))
      | inl room ↦
          let is : e ≡ record d { jobs = rest; running = d.running ++ task ∷ [] } =
            ground (arith, q, room) in
          rw is (record {
            in_flight = ground (
              arith,
              v.in_flight,
              ap (tally (limited_task d)) q,
              tally-append (limited_task d) d.running (task ∷ []),
            );
            within_cap = v.within_cap;
            cursor_bound = v.cursor_bound;
            jobs_bound = omega (arith, v.jobs_bound, ap length q);
            running_bound = ground (arith, length-append d.running (task ∷ []), room);
            queue_bound = v.queue_bound;
            queue_topic = v.queue_topic;
          })
    ]

pub tally-pull :
    (p : Task → Bool) (i : ℕ) (ts : List Task) (t : Task) (rest : List Task)
    → pull i ts ≡ some (t, rest)
    → (tally p ts ≡ (if p t then 1 else 0) + tally p rest) × (length ts ≡ suc (length rest))
unfolding pull
tally-pull p i [] t rest h = absurd (cc)
tally-pull p zero (x ∷ ts) t rest h = (ground arith, ground arith)
tally-pull p (suc i) (x ∷ ts) t rest h = elim (Option-cases (pull i ts)) [
  | inl n ↦ absurd (ground (arith, n))
  | inr ((u, us), e) ↦ ground (arith, e, tally-pull p i ts u us e)
]

finish_job-IsValid :
    (i : ℕ) (failed : Bool) (d e : Dispatcher)
    → IsValid d
    → finish_job i failed d ≡ some e
    → IsValid e
unfolding finish_job
finish_job-IsValid i failed d e v h = elim (Option-cases (pull i d.running)) [
  | inl n ↦ absurd (ground (arith, n))
  | inr ((task, rest), q) ↦
      let is : e ≡ record d {
        running = rest;
        retry_in_flight =
            if is_limited d task.topic then d.retry_in_flight - 1 else d.retry_in_flight;
        stats = record_result d.stats task.topic failed;
        answered = d.answered ++ (task.call, failed) ∷ [];
      } =
        ground (arith, q) in
      rw is (record {
        in_flight =
            ground (arith, v.in_flight, tally-pull (limited_task d) i d.running task rest q);
        within_cap = ground (arith, v.within_cap);
        cursor_bound = v.cursor_bound;
        jobs_bound = v.jobs_bound;
        running_bound =
            omega (arith, v.running_bound, tally-pull (limited_task d) i d.running task rest q);
        queue_bound = v.queue_bound;
        queue_topic = v.queue_topic;
      })
]

Step-IsValid : {d e : Dispatcher} → Step d e → IsValid d → IsValid e
Step-IsValid {d} {e} (submits task h) v = submit-IsValid d e task v h
Step-IsValid {d} (picks h) v = rw (← h) (pick-IsValid d v)
Step-IsValid {d} {e} (pushes now h) v = push_job-IsValid now d e v h
Step-IsValid {d} {e} (takes h) v = take_job-IsValid d e v h
Step-IsValid {d} {e} (finishes i failed h) v = finish_job-IsValid i failed d e v h

find_or-empty_queues :
    (ts : List String) (m : Assoc (List Task)) (t : String)
    → find_or m t [] ≡ []
    → find_or (empty_queues ts m) t [] ≡ []
unfolding empty_queues
find_or-empty_queues [] m t h = h
find_or-empty_queues (u ∷ ts) m t h =
    find_or-empty_queues ts (put m u []) t (ground (arith, find_or-put m u t [] []))

new_shared_dispatcher-IsValid : (o : Options) → IsValid (new_shared_dispatcher o)
unfolding new_shared_dispatcher find_or
new_shared_dispatcher-IsValid o = record {
  in_flight = omega arith;
  within_cap = omega arith;
  cursor_bound = λ h. h;
  jobs_bound = omega arith;
  running_bound = omega arith;
  queue_bound = λ t. rw (find_or-empty_queues o.topics [] t refl) (omega arith);
  queue_topic = λ t. rw (find_or-empty_queues o.topics [] t refl) tt;
}

-- In every state that any interleaving of submissions, the dispatcher and the workers reaches from
-- a new dispatcher, `retryInFlight` is the number of retry tasks picked and not finished, it is at
-- most `retryCap`, no channel holds more than its capacity, at most `workers` tasks are handled at
-- once, and a topic's channel holds tasks of that topic only.
pub Reach-IsValid : (o : Options) {d : Dispatcher} → Reach (new_shared_dispatcher o) d → IsValid d
Reach-IsValid o here = new_shared_dispatcher-IsValid o
Reach-IsValid o (next r s) = Step-IsValid s (Reach-IsValid o r)
