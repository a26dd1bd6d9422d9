-- ===== src/Kq/Policy/Limit.antt =====
-- The limit that a policy puts on retry tasks.
use fuzoj.Prelude.{
  ℕ, zero, suc, ◌+◌, ◌≤◌, ◌≡◌, refl, sym, ◌∙◌, List, [], ◌∷◌, String, Bool, false, ◌&&◌, Option,
  none, some, str_eq, leb, arith, tally, length, get_or, ◌%◌, Bool-cases, inl, inr, subst,
}
use fuzoj.Prelude.Assoc.{find_or}
use fuzoj.Kq.Weights.{max_int}
use fuzoj.Kq.Confs.{KqConf}
use fuzoj.Kq.Dispatch.{
  Task, Dispatcher, Options, is_limited, new_shared_dispatcher, submit, poll, scan, next_task, hold,
  pick, push_job, take_job, finish_job, Step, submits, picks, pushes, takes, finishes, Reach, here,
  next,
}
use fuzoj.Kq.Dispatch.Invariant.{Reach-IsValid}
use fuzoj.Kq.Dispatch.Valid.{IsValid, limited_task}
use fuzoj.Kq.Policy.{
  WeightedQueuePolicy, queue_group, dispatcher_options, retry_cap_for, most_processors,
  new_weighted_kq_queues_with_policy,
}

-- The limit is a constant of the dispatcher.
abbrev SameLimit : Dispatcher → Dispatcher → Type 0
SameLimit d e = (e.retry_topic ≡ d.retry_topic) × (e.retry_cap ≡ d.retry_cap)

abbrev SameLimitAfter : Dispatcher → Option (Task × Dispatcher) → Type 0
SameLimitAfter d none = Unit {0}
SameLimitAfter d (some (task, e)) = SameLimit d e

queue-SameLimit :
    (d : Dispatcher) (topic : String) (q : List Task)
    → (is_limited d topic && leb d.retry_cap d.retry_in_flight) ≡ false
    → find_or d.topic_queues topic [] ≡ q
    → SameLimitAfter d (poll d topic)
unfolding poll
queue-SameLimit d topic [] free e = rw (free, poll) (rw (e, poll) tt)
queue-SameLimit d topic (task ∷ rest) free e = rw (free, poll) (rw (e, poll) (refl, refl))

poll-SameLimit : (d : Dispatcher) (topic : String) → SameLimitAfter d (poll d topic)
unfolding poll
poll-SameLimit d topic =
    elim (Bool-cases (is_limited d topic && leb d.retry_cap d.retry_in_flight)) [
      | inl full ↦ rw (full, poll) tt
      | inr free ↦ queue-SameLimit d topic (find_or d.topic_queues topic []) free refl
    ]

scan-SameLimit : (n : ℕ) (d : Dispatcher) → SameLimit d (scan n d).1
unfolding scan
scan-SameLimit zero d = (refl, refl)
scan-SameLimit (suc n) d =
    go (poll moved topic) refl (poll-SameLimit moved topic) (scan-SameLimit n moved)
  where
    moved : Dispatcher
    moved = record d { cursor = (d.cursor + 1) % length d.schedule }

    topic : String
    topic = get_or d.schedule d.cursor ""

    go :
        (o : Option (Task × Dispatcher))
        → poll moved topic ≡ o
        → SameLimitAfter moved o
        → SameLimit moved (scan n moved).1
        → SameLimit d (scan (suc n) d).1
    go none e p ih = rw (e, scan) ih
    go (some (task, f)) e p ih = rw (e, scan) p

next_task-SameLimit : (d : Dispatcher) → SameLimit d (next_task d).1
unfolding next_task
next_task-SameLimit d = go d.schedule refl
  where
    go : (s : List String) → d.schedule ≡ s → SameLimit d (next_task d).1
    go [] e = rw (e, next_task) (refl, refl)
    go (t ∷ ts) e = rw (e, next_task) (scan-SameLimit (suc (length ts)) d)

hold-SameLimit :
    (d : Dispatcher) (r : Option Task × Dispatcher) → SameLimit d r.1 → SameLimit d (hold r).1
unfolding hold
hold-SameLimit d (none, e) h = h
hold-SameLimit d (some task, e) h = h

pick-SameLimit : (d : Dispatcher) → SameLimit d (pick d).1
unfolding pick
pick-SameLimit d = go d.held refl
  where
    go : (o : Option Task) → d.held ≡ o → SameLimit d (pick d).1
    go (some task) e = rw (e, pick) (refl, refl)
    go none e = rw (e, pick) (hold-SameLimit d (next_task d) (next_task-SameLimit d))

Step-SameLimit : {d e : Dispatcher} → Step d e → SameLimit d e
unfolding submit push_job take_job finish_job
Step-SameLimit {d} {e} (submits task h) = ground (arith, h)
Step-SameLimit {d} {e} (picks h) = rw (sym h) (pick-SameLimit d)
Step-SameLimit {d} {e} (pushes now h) = ground (arith, h)
Step-SameLimit {d} {e} (takes h) = ground (arith, h)
Step-SameLimit {d} {e} (finishes i failed h) = ground (arith, h)

Reach-SameLimit : {d e : Dispatcher} → Reach d e → SameLimit d e
Reach-SameLimit here = (refl, refl)
Reach-SameLimit (next r s) =
    ((Step-SameLimit s).0 ∙ (Reach-SameLimit r).0, (Step-SameLimit s).1 ∙ (Reach-SameLimit r).1)

tally-agree :
    (f g : Task → Bool) (ts : List Task) → ((t : Task) → f t ≡ g t) → tally f ts ≡ tally g ts
tally-agree f g [] h = refl
tally-agree f g (t ∷ ts) h = ground (arith, h t, tally-agree f g ts h)

-- The number of retry tasks that a policy lets run.
retry_cap_for-positive :
    (p : WeightedQueuePolicy) (workers : ℕ)
    → str_eq p.retry_topic "" ≡ false
    → 1 ≤ retry_cap_for p workers
unfolding retry_cap_for max_int
retry_cap_for-positive p workers h = ground arith

group-dispatcher :
    (opens : KqConf → Bool) (cs opened : List KqConf) (handler : Bool) (p : WeightedQueuePolicy)
    (d : Dispatcher)
    → new_weighted_kq_queues_with_policy opens cs handler p ≡ queue_group opened d
    → (opened ≡ cs) × (d ≡ new_shared_dispatcher (dispatcher_options p cs))
unfolding new_weighted_kq_queues_with_policy
group-dispatcher opens [] opened handler p d h = ground (arith, h)
group-dispatcher opens (c ∷ cs) opened handler p d h = ground (arith, h)

new_limit :
    (p : WeightedQueuePolicy) (cs : List KqConf)
    → ((new_shared_dispatcher (dispatcher_options p cs)).retry_topic ≡ p.retry_topic)
      × ((new_shared_dispatcher (dispatcher_options p cs)).retry_cap
          ≡ retry_cap_for p (most_processors cs 1))
unfolding new_shared_dispatcher dispatcher_options max_int
new_limit p cs = (refl, ground arith)

-- Whatever a policy with a retry topic says of the number of retries in flight, the dispatcher of
-- its queues never handles more than `retryCap` retry tasks at once, waiting jobs included, and
-- that cap is at least one.
pub new_weighted_kq_queues_with_policy-limits :
    (opens : KqConf → Bool) (cs opened : List KqConf) (handler : Bool) (p : WeightedQueuePolicy)
    (d : Dispatcher)
    → str_eq p.retry_topic "" ≡ false
    → new_weighted_kq_queues_with_policy opens cs handler p ≡ queue_group opened d
    → (e : Dispatcher) → Reach d e
    → let cap = retry_cap_for p (most_processors cs 1) in
      (1 ≤ cap)
      × (tally (λ t. str_eq t.topic p.retry_topic) e.jobs
            + tally (λ t. str_eq t.topic p.retry_topic) e.running
          ≤ cap)
new_weighted_kq_queues_with_policy-limits opens cs opened handler p d named h e reached = (
  positive,
  omega (
    arith,
    v.in_flight,
    v.within_cap,
    cap,
    tally-agree (limited_task e) (λ t. str_eq t.topic p.retry_topic) e.jobs agree,
    tally-agree (limited_task e) (λ t. str_eq t.topic p.retry_topic) e.running agree,
  ),
)
  where
    o : Options
    o = dispatcher_options p cs

    is : d ≡ new_shared_dispatcher o
    is = (group-dispatcher opens cs opened handler p d h).1

    from_new : Reach (new_shared_dispatcher o) e
    from_new = subst (λ x. Reach x e) is reached

    v : IsValid e
    v = Reach-IsValid o from_new

    positive : 1 ≤ retry_cap_for p (most_processors cs 1)
    positive = retry_cap_for-positive p (most_processors cs 1) named

    topic : e.retry_topic ≡ p.retry_topic
    topic = (Reach-SameLimit from_new).0 ∙ (new_limit p cs).0

    cap : e.retry_cap ≡ retry_cap_for p (most_processors cs 1)
    cap = (Reach-SameLimit from_new).1 ∙ (new_limit p cs).1

    agree : (t : Task) → limited_task e t ≡ str_eq t.topic p.retry_topic
    agree t = rw (topic, cap) (ground (arith, positive, named))
