-- ===== src/Kq/Dispatch/Progress.antt =====
-- `nextTask` passes over nothing that it could serve, and serves the slots of the schedule in turn.
use native.Mathlib.Nat.{mod-lt, mod-add-mod, mod-eq_of_lt}
use fuzoj.Prelude.{
  ℕ, zero, suc, ◌+◌, ◌%◌, ◌≤◌, ◌<◌, ◌≡◌, refl, List, [], ◌∷◌, String, Option, none, some, length,
  get_or, arith, true, subst, if◌then◌else◌, str_eq_refl, str_eq_iff, ◌⊎◌, sym, ◌∙◌, ap, ◌↔◌,
}
use fuzoj.Prelude.Assoc.{Assoc, find_or, find_or-put, put}
use fuzoj.Kq.Dispatch.{
  Task, Dispatcher, Options, is_limited, poll, scan, next_task, Reach, new_shared_dispatcher,
}
use fuzoj.Kq.Dispatch.Invariant.{Reach-IsValid}
use fuzoj.Kq.Dispatch.Valid.{IsValid}

-- The topic of slot `i` of the schedule, counted from the cursor and round.
abbrev pub slot : Dispatcher → ℕ → String
slot d i = get_or d.schedule ((d.cursor + i) % length d.schedule) ""

-- The topic has nothing to give: its channel is empty, or it is the retry topic and its budget is used up.
abbrev pub IsIdle : Dispatcher → String → Type 0
IsIdle d t =
    (find_or d.topic_queues t [] ≡ [])
    ⊎ ((is_limited d t ≡ true) × (d.retry_cap ≤ d.retry_in_flight))

-- The oldest task leaves the channel of `t`, the other channels stay, and a retry task is counted.
abbrev pub Serves : Dispatcher → String → Task → Dispatcher → Type 0
Serves d t task e =
    (find_or d.topic_queues t [] ≡ task ∷ find_or e.topic_queues t [])
    × ((u : String) → (t ≡ u → ⊥) → find_or e.topic_queues u [] ≡ find_or d.topic_queues u [])
    × (e.retry_in_flight ≡ d.retry_in_flight + (if is_limited d t then 1 else 0))

-- What `n` slots from the cursor on give: all of them are idle and nothing moves, or the first one
-- that is not idle is served, and the cursor stands behind it.
abbrev pub Serviced : Dispatcher → ℕ → Option Task × Dispatcher → Type 0
Serviced d n (none, e) =
    ((i : ℕ) → i < n → IsIdle d (slot d i))
    × (e.topic_queues ≡ d.topic_queues)
    × (e.retry_in_flight ≡ d.retry_in_flight)
Serviced d n (some task, e) =
    (k : ℕ) × (k < n)
    × ((i : ℕ) → i < k → IsIdle d (slot d i))
    × ¬ IsIdle d (slot d k)
    × Serves d (slot d k) task e
    × (e.cursor ≡ (d.cursor + k + 1) % length d.schedule)

-- The same in terms of `poll`.
abbrev IsPassed : Dispatcher → ℕ → Type 0
IsPassed d i = poll d (slot d i) ≡ none

-- A poll ignores the cursor.
poll-cursor :
    (d : Dispatcher) (c : ℕ) (t : String)
    → poll (record d { cursor = c }) t ≡ none
    → poll d t ≡ none
unfolding poll
poll-cursor d c t h = ground arith

poll-cursor' :
    (d : Dispatcher) (c : ℕ) (t : String)
    → poll d t ≡ none
    → poll (record d { cursor = c }) t ≡ none
unfolding poll
poll-cursor' d c t h = ground arith

abbrev Scanned : Dispatcher → ℕ → Option Task × Dispatcher → Type 0
Scanned d n (none, e) =
    ((i : ℕ) → i < n → IsPassed d i)
    × (e.topic_queues ≡ d.topic_queues)
    × (e.retry_in_flight ≡ d.retry_in_flight)
Scanned d n (some task, e) =
    (k : ℕ) × (k < n)
    × ((i : ℕ) → i < k → IsPassed d i)
    × (poll (record d { cursor = (d.cursor + k + 1) % length d.schedule }) (slot d k)
        ≡ some (task, e))

abbrev advance : Dispatcher → Dispatcher
advance d = record d { cursor = (d.cursor + 1) % length d.schedule }

rotate : (c i n : ℕ) → ((c + 1) % n + i) % n ≡ (c + suc i) % n
rotate c i n = mod-add-mod (c + 1) n i ∙ ap (λ m. m % n) (omega arith)

slot-suc : (d : Dispatcher) (i : ℕ) → slot (advance d) i ≡ slot d (suc i)
slot-suc d i = ap (λ n. get_or d.schedule n "") (rotate d.cursor i (length d.schedule))

IsPassed-suc : (d : Dispatcher) (i : ℕ) → IsPassed (advance d) i ↔ IsPassed d (suc i)
IsPassed-suc d i = (
  λ h. poll-cursor d (advance d).cursor (slot d (suc i)) (rw (slot-suc d i) at h),
  λ h. rw (slot-suc d i) (poll-cursor' d (advance d).cursor (slot d (suc i)) h),
)

longer :
    (d : Dispatcher) (n : ℕ)
    → IsPassed d 0
    → ((i : ℕ) → i < n → IsPassed (advance d) i)
    → (i : ℕ) → i < suc n
    → IsPassed d i
longer d n idle all zero h = idle
longer d n idle all (suc i) h = (IsPassed-suc d i).0 (all i (omega arith))

slot-zero :
    (d : Dispatcher) → d.cursor < length d.schedule → get_or d.schedule d.cursor "" ≡ slot d 0
slot-zero d h =
    ap (λ n. get_or d.schedule n "")
      (sym (mod-eq_of_lt h) ∙ ap (λ m. m % length d.schedule) (omega arith))

-- A longer scan: the first slot is idle, and then the rest is scanned.
Scanned-suc :
    (d : Dispatcher) (n : ℕ) (r : Option Task × Dispatcher)
    → IsPassed d 0
    → Scanned (advance d) n r
    → Scanned d (suc n) r
Scanned-suc d n (none, e) idle (all, same, flight) = (longer d n idle all, same, flight)
Scanned-suc d n (some task, e) idle (k, lt, before, gives) = (
  suc k,
  omega arith,
  longer d k idle before,
  subst (λ c. gives_at c (slot d (suc k))) last moved,
)
  where
    gives_at : ℕ → String → Type 0
    gives_at c t = poll (record d { cursor = c }) t ≡ some (task, e)

    moved : gives_at (((advance d).cursor + k + 1) % length d.schedule) (slot d (suc k))
    moved =
        subst (λ t. gives_at (((advance d).cursor + k + 1) % length d.schedule) t) (slot-suc d k)
          gives

    last :
        ((advance d).cursor + k + 1) % length d.schedule
        ≡ (d.cursor + suc k + 1) % length d.schedule
    last =
        ap (λ m. m % length d.schedule) (omega arith)
        ∙ rotate d.cursor (k + 1) (length d.schedule)
        ∙ ap (λ m. m % length d.schedule) (omega arith)

scan-Scanned : (n : ℕ) (d : Dispatcher) → d.cursor < length d.schedule → Scanned d n (scan n d)
unfolding scan
scan-Scanned zero d h = (λ i lt. absurd (omega arith), refl, refl)
scan-Scanned (suc n) d h =
    go (poll (advance d) (get_or d.schedule d.cursor "")) refl
      (scan-Scanned n (advance d) (mod-lt (d.cursor + 1) (omega arith)))
  where
    go :
        (o : Option (Task × Dispatcher))
        → poll (advance d) (get_or d.schedule d.cursor "") ≡ o
        → Scanned (advance d) n (scan n (advance d))
        → Scanned d (suc n) (scan (suc n) d)
    go none q ih =
        rw (q, scan)
          (Scanned-suc d n (scan n (advance d))
            (poll-cursor d (advance d).cursor (slot d 0) (rw (slot-zero d h) at q)) ih)
    go (some (task, e)) q ih =
        rw (q, scan)
          (
            0,
            omega arith,
            λ i lt. absurd (omega arith),
            subst (λ c. poll (record d { cursor = c }) (slot d 0) ≡ some (task, e))
                (ap (λ m. m % length d.schedule) (omega arith)) (rw (slot-zero d h) at q),
          )

next_task-Scanned : (d : Dispatcher) → IsValid d → Scanned d (length d.schedule) (next_task d)
unfolding next_task
next_task-Scanned d v = go d.schedule refl
  where
    go : (s : List String) → d.schedule ≡ s → Scanned d (length d.schedule) (next_task d)
    go [] e = simp (e, next_task) (λ i lt. absurd (omega arith), refl, refl)
    go (t ∷ ts) e =
        simp (next_task, e)
          (subst (λ n. Scanned d n (scan n d)) (ap length e)
            (scan-Scanned (length d.schedule) d
              (v.cursor_bound (subst (λ s. 0 < length s) (sym e) (omega arith)))))

poll-none :
    (d : Dispatcher) (t : String)
    → poll d t ≡ none
    → (find_or d.topic_queues t [] ≡ [])
      ⊎ ((is_limited d t ≡ true) × (d.retry_cap ≤ d.retry_in_flight))
unfolding poll
poll-none d t h = ground arith

none-poll : (d : Dispatcher) (t : String) → IsIdle d t → poll d t ≡ none
unfolding poll
none-poll d t h = ground arith

-- A task that `poll` gives was the first one of the channel, which has the others left.
poll-takes :
    (d : Dispatcher) (c : ℕ) (t : String) (task : Task) (e : Dispatcher)
    → poll (record d { cursor = c }) t ≡ some (task, e)
    → (rest : List Task) × (find_or d.topic_queues t [] ≡ task ∷ rest)
      × (e.topic_queues ≡ put d.topic_queues t rest)
unfolding poll
poll-takes d c t task e h = go (find_or d.topic_queues t []) refl
  where
    go :
        (q : List Task)
        → find_or d.topic_queues t [] ≡ q
        → (rest : List Task) × (find_or d.topic_queues t [] ≡ task ∷ rest)
          × (e.topic_queues ≡ put d.topic_queues t rest)
    go [] same = absurd (ground arith)
    go (first ∷ rest) same = (rest, ground arith, ground arith)

-- What a channel set to the rest of its tasks means for all channels.
channels-put :
    (queues after : Assoc (List Task)) (t : String) (task : Task) (rest : List Task)
    → find_or queues t [] ≡ task ∷ rest
    → after ≡ put queues t rest
    → (find_or queues t [] ≡ task ∷ find_or after t [])
      × ((u : String) → (t ≡ u → ⊥) → find_or after u [] ≡ find_or queues u [])
channels-put queues after t task rest before now = (
  rw (before, now, find_or-put, str_eq_refl t) refl,
  λ u other. rw (now, find_or-put) (ground (arith, str_eq_iff t u)),
)

poll-Serves :
    (d : Dispatcher) (c : ℕ) (t : String) (task : Task) (e : Dispatcher)
    → poll (record d { cursor = c }) t ≡ some (task, e)
    → ¬ IsIdle d t × Serves d t task e × (e.cursor ≡ c)
unfolding poll
poll-Serves d c t task e h =
    let (rest, before, after) = poll-takes d c t task e h in
    let (own, others) = channels-put d.topic_queues e.topic_queues t task rest before after in
    (ground arith, (own, others, ground arith), ground arith)

Scanned-Serviced :
    (d : Dispatcher) (n : ℕ) (r : Option Task × Dispatcher) → Scanned d n r → Serviced d n r
Scanned-Serviced d n (none, e) (all, same, flight) =
    (λ i lt. poll-none d (slot d i) (all i lt), same, flight)
Scanned-Serviced d n (some task, e) (k, lt, before, gives) =
    let (busy, serves, at) =
      poll-Serves d ((d.cursor + k + 1) % length d.schedule) (slot d k) task e gives in
    (k, lt, λ i l. poll-none d (slot d i) (before i l), busy, serves, at)

-- In every reachable state `nextTask` gives the oldest task of the first slot, from the cursor and
-- round, that is not idle: whose channel has a task, and whose topic is not the retry topic with its
-- budget used up. The task leaves its channel, the other channels stay, a retry task is counted, and the
-- cursor stands behind the slot. It gives none only if every slot is idle, and then moves nothing.
pub next_task_serves_in_turn :
    (o : Options) {d : Dispatcher}
    → Reach (new_shared_dispatcher o) d
    → Serviced d (length d.schedule) (next_task d)
next_task_serves_in_turn o {d} r =
    Scanned-Serviced d (length d.schedule) (next_task d) (next_task-Scanned d (Reach-IsValid o r))
