-- ===== src/Kq/Dispatch/Conserve.antt =====
-- No task is lost or answered twice: each step moves a task on by one place.
use fuzoj.Prelude.{
  ℕ, zero, suc, ◌+◌, ◌%◌, ◌≡◌, refl, List, [], ◌∷◌, ◌++◌, String, Bool, false, ◌&&◌, Option, none,
  some, if◌then◌else◌, str_eq, ltb, leb, length, get_or, arith, tally, tally-append, sum_by,
  Option-cases, Bool-cases, inl, inr, ap, ◌==◌,
}
use fuzoj.Prelude.Assoc.{Assoc, find_or, find, put}
use fuzoj.Kq.Dispatch.{
  Task, Dispatcher, Options, is_limited, sent, submit, poll, scan, next_task, hold, pick, push_job,
  take_job, pull, finish_job, submits, picks, pushes, takes, finishes, Reach, here, next,
  new_shared_dispatcher, empty_queues,
}
use fuzoj.Kq.Dispatch.Invariant.{tally-pull}

abbrev pub of_call : ℕ → Task → Bool
of_call c t = t.call == c

-- How many tasks of call `c` wait in the channels of the topics.
abbrev pub queued : ℕ → Dispatcher → ℕ
queued c d = sum_by (λ e. tally (of_call c) e.1) d.topic_queues

abbrev pub count_held : ℕ → Option Task → ℕ
count_held c none = 0
count_held c (some t) = if t.call == c then 1 else 0

-- How many tasks of call `c` the dispatcher has anywhere, those answered too.
abbrev pub tasks_of : ℕ → Dispatcher → ℕ
tasks_of c d =
    queued c d
    + count_held c d.held
    + tally (of_call c) d.jobs
    + tally (of_call c) d.running
    + tally (λ a. a.0 == c) d.answered

queued-put :
    (c : ℕ) (m : Assoc (List Task)) (k : String) (q : List Task)
    → sum_by (λ e. tally (of_call c) e.1) (put m k q) + tally (of_call c) (find_or m k [])
      ≡ sum_by (λ e. tally (of_call c) e.1) m + tally (of_call c) q
unfolding put find_or
queued-put c [] k q = omega arith
queued-put c ((j, w) ∷ m) k q = elim (Bool-cases (str_eq j k)) [
  | inl e ↦ rw (e, put, find_or) (omega arith)
  | inr e ↦ rw (e, put, find_or) (omega (arith, queued-put c m k q))
]

find_or-of-find :
    (m : Assoc (List Task)) (k : String) (q : List Task) → find m k ≡ some q → find_or m k [] ≡ q
unfolding find find_or
find_or-of-find [] k q e = cc
find_or-of-find ((j, v) ∷ m) k q e = ground (arith, find_or-of-find m k q)

submit-tasks_of :
    (c : ℕ) (d e : Dispatcher) (task : Task)
    → submit d task ≡ sent e
    → tasks_of c e ≡ tasks_of c d + (if task.call == c then 1 else 0)
unfolding submit
submit-tasks_of c d e task h = elim (Option-cases (find d.topic_queues task.topic)) [
  | inl n ↦ absurd (ground (arith, n))
  | inr (q, f) ↦ elim (Bool-cases (ltb (length q) d.queue_size)) [
    | inr full ↦ absurd (ground (arith, f, full))
    | inl room ↦
        let is : e ≡ record d { topic_queues = put d.topic_queues task.topic (q ++ task ∷ []) } =
          ground (arith, f, room) in
        rw is (
          omega (
            arith,
            queued-put c d.topic_queues task.topic (q ++ task ∷ []),
            ap (tally (of_call c)) (find_or-of-find d.topic_queues task.topic q f),
            tally-append (of_call c) q (task ∷ []),
          ))
  ]
]

-- A task in hand, and the dispatcher beside it.
abbrev in_hand : ℕ → Option Task × Dispatcher → ℕ
in_hand c r = count_held c r.0 + tasks_of c r.1

abbrev Moved : ℕ → Dispatcher → Option Task × Dispatcher → Type 0
Moved c d r = (in_hand c r ≡ tasks_of c d) × (r.1.held ≡ d.held)

abbrev MovedBy : ℕ → Dispatcher → Option (Task × Dispatcher) → Type 0
MovedBy c d none = Unit {0}
MovedBy c d (some (task, e)) = Moved c d (some task, e)

queue-MovedBy :
    (c : ℕ) (d : Dispatcher) (t : String) (q : List Task)
    → (is_limited d t && leb d.retry_cap d.retry_in_flight) ≡ false
    → find_or d.topic_queues t [] ≡ q
    → MovedBy c d (poll d t)
unfolding poll
queue-MovedBy c d t [] free e = rw (free, poll) (rw (e, poll) tt)
queue-MovedBy c d t (task ∷ rest) free e =
    rw (free, poll)
      (rw (e, poll)
        (ground (arith, queued-put c d.topic_queues t rest, ap (tally (of_call c)) e), refl))

poll-MovedBy : (c : ℕ) (d : Dispatcher) (t : String) → MovedBy c d (poll d t)
unfolding poll
poll-MovedBy c d t = elim (Bool-cases (is_limited d t && leb d.retry_cap d.retry_in_flight)) [
  | inl full ↦ rw (full, poll) tt
  | inr free ↦ queue-MovedBy c d t (find_or d.topic_queues t []) free refl
]

scan-Moved : (c n : ℕ) (d : Dispatcher) → Moved c d (scan n d)
unfolding scan
scan-Moved c zero d = (omega arith, refl)
scan-Moved c (suc n) d =
    go (poll moved topic) refl (poll-MovedBy c moved topic) (scan-Moved c n moved)
  where
    moved : Dispatcher
    moved = record d { cursor = (d.cursor + 1) % length d.schedule }

    topic : String
    topic = get_or d.schedule d.cursor ""

    go :
        (o : Option (Task × Dispatcher))
        → poll moved topic ≡ o
        → MovedBy c moved o
        → Moved c moved (scan n moved)
        → Moved c d (scan (suc n) d)
    go none e p ih = rw (e, scan) ih
    go (some (task, f)) e p ih = rw (e, scan) p

next_task-Moved : (c : ℕ) (d : Dispatcher) → Moved c d (next_task d)
unfolding next_task
next_task-Moved c d = go d.schedule refl
  where
    go : (s : List String) → d.schedule ≡ s → Moved c d (next_task d)
    go [] e = simp (e, next_task) (omega arith, refl)
    go (t ∷ ts) e = simp (e, next_task) (scan-Moved c (suc (length ts)) d)

hold-tasks_of :
    (c : ℕ) (d : Dispatcher) (r : Option Task × Dispatcher)
    → d.held ≡ none
    → Moved c d r
    → tasks_of c (hold r).1 ≡ tasks_of c d
unfolding hold
hold-tasks_of c d (none, e) h m = omega (arith, m.0)
hold-tasks_of c d (some task, e) h m = ground (arith, m.0, m.1, h)

pick-tasks_of : (c : ℕ) (d : Dispatcher) → tasks_of c (pick d).1 ≡ tasks_of c d
unfolding pick
pick-tasks_of c d = elim (Option-cases d.held) [
  | inl h ↦ simp (h, pick) (simp h at (hold-tasks_of c d (next_task d) h (next_task-Moved c d)))
  | inr (task, h) ↦ simp (h, pick)
]

push_job-tasks_of :
    (c now : ℕ) (d e : Dispatcher) → push_job now d ≡ some e → tasks_of c e ≡ tasks_of c d
unfolding push_job
push_job-tasks_of c now d e h = elim (Option-cases d.held) [
  | inl n ↦ absurd (ground (arith, n))
  | inr (task, q) ↦ ground (arith, q, tally-append (of_call c) d.jobs (task ∷ []))
]

take_job-tasks_of : (c : ℕ) (d e : Dispatcher) → take_job d ≡ some e → tasks_of c e ≡ tasks_of c d
unfolding take_job
take_job-tasks_of c d e h = go d.jobs refl
  where
    go : (js : List Task) → d.jobs ≡ js → tasks_of c e ≡ tasks_of c d
    go [] n = absurd (ground (arith, n))
    go (task ∷ rest) q =
        ground (arith, q, ap (tally (of_call c)) q, tally-append (of_call c) d.running (task ∷ []))

finish_job-tasks_of :
    (c i : ℕ) (failed : Bool) (d e : Dispatcher)
    → finish_job i failed d ≡ some e
    → tasks_of c e ≡ tasks_of c d
unfolding finish_job
finish_job-tasks_of c i failed d e h = elim (Option-cases (pull i d.running)) [
  | inl n ↦ absurd (ground (arith, n))
  | inr ((task, rest), q) ↦ ground (
    arith,
    q,
    tally-pull (of_call c) i d.running task rest q,
    tally-append (λ a. a.0 == c) d.answered ((task.call, failed) ∷ []),
  )
]

-- How often call `c` was submitted along the way.
abbrev pub submissions : ℕ → {d e : Dispatcher} → Reach d e → ℕ
submissions c here = 0
submissions c (next r (submits task h)) = submissions c r + (if task.call == c then 1 else 0)
submissions c (next r (picks h)) = submissions c r
submissions c (next r (pushes now h)) = submissions c r
submissions c (next r (takes h)) = submissions c r
submissions c (next r (finishes i failed h)) = submissions c r

tasks_of-Reach :
    (c : ℕ) {d e : Dispatcher} (r : Reach d e) → tasks_of c e ≡ tasks_of c d + submissions c r
tasks_of-Reach c here = omega arith
tasks_of-Reach c (next {e} {f} r (submits task h)) =
    omega (arith, tasks_of-Reach c r, submit-tasks_of c e f task h)
tasks_of-Reach c (next {e} r (picks h)) =
    rw (← h) (omega (arith, tasks_of-Reach c r, pick-tasks_of c e))
tasks_of-Reach c (next {e} {f} r (pushes now h)) =
    omega (arith, tasks_of-Reach c r, push_job-tasks_of c now e f h)
tasks_of-Reach c (next {e} {f} r (takes h)) =
    omega (arith, tasks_of-Reach c r, take_job-tasks_of c e f h)
tasks_of-Reach c (next {e} {f} r (finishes i failed h)) =
    omega (arith, tasks_of-Reach c r, finish_job-tasks_of c i failed e f h)

queued-empty_queues :
    (c : ℕ) (ts : List String) (m : Assoc (List Task))
    → sum_by (λ e. tally (of_call c) e.1) m ≡ 0
    → sum_by (λ e. tally (of_call c) e.1) (empty_queues ts m) ≡ 0
unfolding empty_queues
queued-empty_queues c [] m h = h
queued-empty_queues c (t ∷ ts) m h =
    queued-empty_queues c ts (put m t []) (omega (arith, queued-put c m t []))

-- After any interleaving of steps from a new dispatcher, the tasks of a call that wait in a
-- channel, are held, are jobs, run or have been answered are together as many as its submissions.
pub tasks_of-reached :
    (o : Options) {d : Dispatcher} (r : Reach (new_shared_dispatcher o) d) (c : ℕ)
    → tasks_of c d ≡ submissions c r
unfolding new_shared_dispatcher
tasks_of-reached o r c = omega (arith, tasks_of-Reach c r, queued-empty_queues c o.topics [] refl)
