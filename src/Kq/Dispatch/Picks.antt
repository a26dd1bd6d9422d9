-- ===== src/Kq/Dispatch/Picks.antt =====
-- A pick keeps what holds between any two steps.
use native.Mathlib.Nat.{mod-lt}
use fuzoj.Prelude.{
  ℕ, zero, suc, ◌+◌, ◌%◌, ◌≡◌, refl, List, [], ◌∷◌, String, false, ◌&&◌, Option, none, some, leb,
  length, get_or, arith, All, Option-cases, inl, inr, Bool-cases,
}
use fuzoj.Prelude.Assoc.{find_or}
use fuzoj.Kq.Dispatch.{Task, Dispatcher, is_limited, poll, scan, next_task, hold, pick}
use fuzoj.Kq.Dispatch.Valid.{limited_held, IsValidWith, IsValid, queue_bound-put, queue_topic-put}

abbrev After : Dispatcher → Option Task × Dispatcher → Type 0
After d r = IsValidWith (limited_held r.1 r.0) r.1 × (r.1.held ≡ d.held)

abbrev Polled : Dispatcher → String → Option (Task × Dispatcher) → Type 0
Polled d topic none = Unit {0}
Polled d topic (some (task, e)) = After d (some task, e)

queue-Polled :
    (d : Dispatcher) (topic : String) (q : List Task)
    → IsValid d
    → (is_limited d topic && leb d.retry_cap d.retry_in_flight) ≡ false
    → find_or d.topic_queues topic [] ≡ q
    → Polled d topic (poll d topic)
unfolding poll
queue-Polled d topic [] v free e = rw (free, poll) (rw (e, poll) tt)
queue-Polled d topic (task ∷ rest) v free e =
    rw (free, poll)
      (rw (e, poll)
        (
          record {
            in_flight = ground (arith, v.in_flight, fits.0);
            within_cap = ground (arith, v.within_cap, free);
            cursor_bound = v.cursor_bound;
            jobs_bound = v.jobs_bound;
            running_bound = v.running_bound;
            queue_bound =
                queue_bound-put d.topic_queues topic rest d.queue_size v.queue_bound
                  (omega (arith, rw e at (v.queue_bound topic)));
            queue_topic = queue_topic-put d.topic_queues topic rest v.queue_topic fits.1;
          },
          refl,
        ))
  where
    fits : All (λ x. x.topic ≡ topic) (task ∷ rest)
    fits = rw e at (v.queue_topic topic)

poll-Polled : (d : Dispatcher) (topic : String) → IsValid d → Polled d topic (poll d topic)
unfolding poll
poll-Polled d topic v =
    elim (Bool-cases (is_limited d topic && leb d.retry_cap d.retry_in_flight)) [
      | inl full ↦ rw (full, poll) tt
      | inr free ↦ queue-Polled d topic (find_or d.topic_queues topic []) v free refl
    ]

move_cursor :
    (d : Dispatcher)
    → IsValid d
    → IsValid (record d { cursor = (d.cursor + 1) % length d.schedule })
move_cursor d v = record {
  in_flight = v.in_flight;
  within_cap = v.within_cap;
  cursor_bound = λ h. mod-lt (d.cursor + 1) h;
  jobs_bound = v.jobs_bound;
  running_bound = v.running_bound;
  queue_bound = v.queue_bound;
  queue_topic = v.queue_topic;
}

scan-After : (n : ℕ) (d : Dispatcher) → IsValid d → After d (scan n d)
unfolding scan
scan-After zero d v = (v, refl)
scan-After (suc n) d v =
    go (poll moved topic) refl (poll-Polled moved topic v') (scan-After n moved v')
  where
    moved : Dispatcher
    moved = record d { cursor = (d.cursor + 1) % length d.schedule }

    topic : String
    topic = get_or d.schedule d.cursor ""

    v' : IsValid moved
    v' = move_cursor d v

    go :
        (o : Option (Task × Dispatcher))
        → poll moved topic ≡ o
        → Polled moved topic o
        → After moved (scan n moved)
        → After d (scan (suc n) d)
    go none e p ih = rw (e, scan) ih
    go (some (task, f)) e p ih = rw (e, scan) p

next_task-After : (d : Dispatcher) → IsValid d → After d (next_task d)
unfolding next_task
next_task-After d v = go d.schedule refl
  where
    go : (s : List String) → d.schedule ≡ s → After d (next_task d)
    go [] e = rw (e, next_task) (v, refl)
    go (t ∷ ts) e = rw (e, next_task) (scan-After (suc (length ts)) d v)

hold-IsValid :
    (d : Dispatcher) (r : Option Task × Dispatcher) → d.held ≡ none → After d r → IsValid (hold r).1
unfolding hold
hold-IsValid d (none, e) h a = a.0
hold-IsValid d (some task, e) h a = record {
  in_flight = ground (arith, a.0.in_flight, a.1, h);
  within_cap = a.0.within_cap;
  cursor_bound = a.0.cursor_bound;
  jobs_bound = a.0.jobs_bound;
  running_bound = a.0.running_bound;
  queue_bound = a.0.queue_bound;
  queue_topic = a.0.queue_topic;
}

pub pick-IsValid : (d : Dispatcher) → IsValid d → IsValid (pick d).1
unfolding pick
pick-IsValid d v = elim (Option-cases d.held) [
  | inl h ↦ simp (h, pick) (hold-IsValid d (next_task d) h (next_task-After d v))
  | inr (task, h) ↦ simp (h, pick) v
]
