-- ===== src/Kq/Dispatch/Valid.antt =====
-- What holds of the dispatcher between any two steps, and that a submission keeps it.
use fuzoj.Prelude.{
  ℕ, ◌+◌, ◌*◌, ◌≤◌, ◌<◌, ◌≡◌, refl, List, [], ◌∷◌, ◌++◌, String, Bool, Option, none, some,
  if◌then◌else◌, str_eq, str_eq_iff, ltb, length, length-append, arith, tally, All, All-append,
  Option-cases, inl, inr, Bool-cases,
}
use fuzoj.Prelude.Assoc.{Assoc, find_or, find, put, find_or-put}
use fuzoj.Kq.Dispatch.{Task, Dispatcher, is_limited, sent, submit}

abbrev pub limited_task : Dispatcher → Task → Bool
limited_task d t = is_limited d t.topic

abbrev pub limited_held : Dispatcher → Option Task → ℕ
limited_held d none = 0
limited_held d (some t) = if is_limited d t.topic then 1 else 0

-- The retry budget counts the retry tasks past their channel, `extra` of them in hand; no buffer is
-- overfull; and a channel holds its own topic's tasks.
pub record IsValidWith (extra : ℕ) (d : Dispatcher) : Type 0 where
  pub in_flight :
      d.retry_in_flight
      ≡ extra
        + limited_held d d.held
        + tally (limited_task d) d.jobs
        + tally (limited_task d) d.running
  pub within_cap : d.retry_in_flight ≤ d.retry_cap
  pub cursor_bound : 0 < length d.schedule → d.cursor < length d.schedule
  pub jobs_bound : length d.jobs ≤ d.workers * 2
  pub running_bound : length d.running ≤ d.workers
  pub queue_bound : (t : String) → length (find_or d.topic_queues t []) ≤ d.queue_size
  pub queue_topic : (t : String) → All (λ k. k.topic ≡ t) (find_or d.topic_queues t [])

abbrev pub IsValid : Dispatcher → Type 0
IsValid = IsValidWith 0

-- Each of the two facts about channels, after a write to one channel.
pub queue_bound-put :
    (m : Assoc (List Task)) (k : String) (q : List Task) (n : ℕ)
    → ((t : String) → length (find_or m t []) ≤ n)
    → length q ≤ n
    → (t : String) → length (find_or (put m k q) t []) ≤ n
queue_bound-put m k q n h b t = ground (arith, find_or-put m k t q [], h t)

pub queue_topic-put :
    (m : Assoc (List Task)) (k : String) (q : List Task)
    → ((t : String) → All (λ x. x.topic ≡ t) (find_or m t []))
    → All (λ x. x.topic ≡ k) q
    → (t : String) → All (λ x. x.topic ≡ t) (find_or (put m k q) t [])
queue_topic-put m k q h b t = elim (Bool-cases (str_eq k t)) [
  | inl e ↦ rw (find_or-put m k t q [], e) (rw (← (str_eq_iff k t).0 e) b)
  | inr e ↦ rw (find_or-put m k t q [], e) (h t)
]

find_or-of-find :
    (m : Assoc (List Task)) (k : String) (q : List Task) → find m k ≡ some q → find_or m k [] ≡ q
unfolding find find_or
find_or-of-find [] k q e = cc
find_or-of-find ((j, v) ∷ m) k q e = ground (arith, find_or-of-find m k q)

-- A submission keeps the invariant.
pub submit-IsValid :
    (d e : Dispatcher) (task : Task) → IsValid d → submit d task ≡ sent e → IsValid e
unfolding submit
submit-IsValid d e task v h = elim (Option-cases (find d.topic_queues task.topic)) [
  | inl n ↦ absurd (ground (arith, n))
  | inr (q, f) ↦ elim (Bool-cases (ltb (length q) d.queue_size)) [
    | inr full ↦ absurd (ground (arith, f, full))
    | inl room ↦
        let is : e ≡ record d { topic_queues = put d.topic_queues task.topic (q ++ task ∷ []) } =
          ground (arith, f, room) in
        rw is (record {
          in_flight = v.in_flight;
          within_cap = v.within_cap;
          cursor_bound = v.cursor_bound;
          jobs_bound = v.jobs_bound;
          running_bound = v.running_bound;
          queue_bound =
              queue_bound-put d.topic_queues task.topic (q ++ task ∷ []) d.queue_size v.queue_bound
                (ground (arith, length-append q (task ∷ []), room));
          queue_topic = queue_topic-put d.topic_queues task.topic (q ++ task ∷ []) v.queue_topic (
              All-append (λ x. x.topic ≡ task.topic) q (task ∷ [])
                (rw (find_or-of-find d.topic_queues task.topic q f) at (v.queue_topic task.topic))
                (refl, tt));
        })
  ]
]
