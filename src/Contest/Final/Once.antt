-- ===== src/Contest/Final/Once.antt =====
-- An event that the final-status consumer sees again after it has handled it.
use fuzoj.Prelude.{
  ℕ, ◌≡◌, ◌≤◌, refl, subst, List, [], ◌∷◌, String, Bool, true, false, not, ◌||◌, str_eq,
  str_eq_refl, str_eq_iff, ◌⊎◌, ◌&&◌, inl, inr, All, ◌++◌, arith, Bool-cases,
}
use fuzoj.Prelude.Int.{ℤ, eq_ℤ, eq_ℤ_iff}
use fuzoj.Prelude.Assoc.{Assoc}
use fuzoj.Prelude.Text.{parse_int64}
use fuzoj.Contest.Final.{ContestRows}
use fuzoj.Contest.Final.Handlers.{
  Handlers, HandlerStep, sets_key, writes, ends, HandlerRun, here, next,
}
use fuzoj.Contest.Final.Handle.{
  StatusEvent, World, Faults, Setting, JudgeFinalOptions, has_key, clear_key, finished_at_of,
  process_user, finish_key, handle_event, is_incomplete, is_expired,
}

is_expired-later :
    (o : JudgeFinalOptions) (now later : ℕ) (e : StatusEvent)
    → now ≤ later
    → is_expired o now e ≡ true
    → is_expired o later e ≡ true
unfolding is_expired
is_expired-later o now later e h x = ground arith

-- An event whose key is there, or which is skipped, changes nothing.
handle_event-key :
    (g : Setting) (f : Faults) (now : ℕ) (w : World) (e : StatusEvent)
    → f.set_key ≡ false
    → has_key w.idempotency e.status.submission_id (finished_at_of e) ≡ true
    → handle_event g f now w e ≡ (false, w)
unfolding handle_event
handle_event-key g f now w e s h =
    elim (Bool-cases (not e.is_final || is_incomplete e.status || is_expired g.options now e)) [
      | inl y ↦ rw y refl
      | inr n ↦ rw (n, s, h) refl
    ]

handle_event-skip :
    (g : Setting) (f : Faults) (now later : ℕ) (w : World) (e : StatusEvent)
    → now ≤ later
    → (not e.is_final || is_incomplete e.status || is_expired g.options now e) ≡ true
    → handle_event g f later w e ≡ (false, w)
unfolding handle_event
handle_event-skip g f now later w e h s =
    let skips : (not e.is_final || is_incomplete e.status || is_expired g.options later e) ≡ true =
      ground (arith, is_expired-later g.options now later e h) in
    rw skips refl

has_key-first :
    (submission : String) (finished : ℤ) (keys : List (String × ℤ))
    → has_key ((submission, finished) ∷ keys) submission finished ≡ true
unfolding has_key
has_key-first submission finished keys = ground (arith, str_eq_refl submission)

finish_key-has_key :
    (f : Faults) (e : StatusEvent) (keys : List (String × ℤ)) (r : Bool × Assoc ContestRows)
    (w : World)
    → finish_key f e keys r ≡ (false, w)
    → w.idempotency ≡ keys
unfolding finish_key
finish_key-has_key f e keys (false, all) w h = ground arith
finish_key-has_key f e keys (true, all) w h = absurd (ground arith)

-- Clearing a key leaves another one.
has_key-clear_key :
    (keys : List (String × ℤ)) (s t : String) (x y : ℤ)
    → (str_eq s t && eq_ℤ x y) ≡ false
    → has_key (clear_key keys s x) t y ≡ has_key keys t y
unfolding has_key clear_key
has_key-clear_key [] s t x y other = refl
has_key-clear_key ((k, z) ∷ keys) s t x y other =
    let rest = has_key-clear_key keys s t x y other in
    elim (Bool-cases (str_eq k s && eq_ℤ z x)) [
      | inl e ↦
          let apart : (str_eq k t && eq_ℤ z y) ≡ false =
            ground (arith, str_eq_iff k s, str_eq_iff k t, str_eq_iff s t) in
          rw (e, apart) rest
      | inr n ↦ rw (n, has_key, rest) refl
    ]

-- A key that is there and one that is not are apart.
keys_apart :
    (keys : List (String × ℤ)) (s t : String) (x y : ℤ)
    → has_key keys s x ≡ false
    → has_key keys t y ≡ true
    → (str_eq s t && eq_ℤ x y) ≡ false
keys_apart keys s t x y absent there = elim (Bool-cases (str_eq s t && eq_ℤ x y)) [
  | inr n ↦ n
  | inl e ↦
      let same : s ≡ t = (str_eq_iff s t).0 (ground arith) in
      let equal : x ≡ y = (eq_ℤ_iff x y).0 (ground arith) in
      absurd (
        cc (
          subst (λ z. has_key keys t z ≡ false) equal
              (subst (λ u. has_key keys u x ≡ false) same absent),
          there,
        ))
]

-- An event that is handled without an error is skipped, or has its key afterwards.
handle_event-done :
    (g : Setting) (f : Faults) (now : ℕ) (w after : World) (e : StatusEvent)
    → handle_event g f now w e ≡ (false, after)
    → ((not e.is_final || is_incomplete e.status || is_expired g.options now e) ≡ true)
      ⊎ (has_key after.idempotency e.status.submission_id (finished_at_of e) ≡ true)
unfolding handle_event
handle_event-done g f now w after e first =
    let keys = (e.status.submission_id, finished_at_of e) ∷ w.idempotency in
    elim (Bool-cases (not e.is_final || is_incomplete e.status || is_expired g.options now e)) [
      | inl y ↦ inl y
      | inr n ↦ elim (Bool-cases f.set_key) [
        | inl y ↦ absurd (ground arith)
        | inr m ↦
            elim (Bool-cases (has_key w.idempotency e.status.submission_id (finished_at_of e))) [
              | inl y ↦
                  let same : w ≡ after = ground arith in
                  inr (
                    subst
                      (λ w. has_key w.idempotency e.status.submission_id (finished_at_of e) ≡ true)
                      same y)
              | inr k ↦
                  let r = process_user g f now w.contests e (parse_int64 e.status.user_id) in
                  let done : finish_key f e keys r ≡ (false, after) = ground arith in
                  inr (
                    rw (finish_key-has_key f e keys r after done)
                      (has_key-first e.status.submission_id (finished_at_of e) w.idempotency))
            ]
      ]
    ]

-- What holds while an event's key is there and none of the handlers at work has set it.
abbrev IsKept : String → ℤ → Handlers → Type 0
IsKept t y h =
    (has_key h.world.idempotency t y ≡ true)
    × All (λ o. (str_eq o.status.submission_id t && eq_ℤ (finished_at_of o) y) ≡ false) h.at_work

-- A handler's end clears no key but its own.
has_key-finish_key :
    (f : Faults) (o : StatusEvent) (keys : List (String × ℤ)) (fails : Bool)
    (all : Assoc ContestRows) (t : String) (y : ℤ)
    → (str_eq o.status.submission_id t && eq_ℤ (finished_at_of o) y) ≡ false
    → has_key keys t y ≡ true
    → has_key (finish_key f o keys (fails, all)).1.idempotency t y ≡ true
unfolding finish_key
has_key-finish_key f o keys false all t y other there = there
has_key-finish_key f o keys true all t y other there =
    let kept = has_key-clear_key keys o.status.submission_id t (finished_at_of o) y other in
    elim (Bool-cases f.clear_key) [ inl h ↦ rw h there | inr h ↦ rw (h, kept) there ]

All-middle :
    (P : StatusEvent → Type 0) (front back : List StatusEvent) (e : StatusEvent)
    → All P (front ++ e ∷ back)
    → P e × All P (front ++ back)
All-middle P [] back e h = h
All-middle P (x ∷ front) back e (h, hs) =
    let (mine, others) = All-middle P front back e hs in (mine, (h, others))

Step-IsKept : {h k : Handlers} (t : String) (y : ℤ) → HandlerStep h k → IsKept t y h → IsKept t y k
unfolding has_key
Step-IsKept {h} t y (sets_key o absent) (there, others) =
    let apart =
      keys_apart h.world.idempotency o.status.submission_id t (finished_at_of o) y absent there in
    (ground (arith, there), (apart, others))
Step-IsKept t y (writes all) kept = kept
Step-IsKept {h} t y (ends front back o f fails e) (there, others) =
    let differs : StatusEvent → Type 0 =
      λ o. (str_eq o.status.submission_id t && eq_ℤ (finished_at_of o) y) ≡ false in
    let (mine, rest) = All-middle differs front back o (subst (λ l. All differs l) e others) in
    (has_key-finish_key f o h.world.idempotency fails h.world.contests t y mine there, rest)

Run-IsKept : {h k : Handlers} (t : String) (y : ℤ) → HandlerRun h k → IsKept t y h → IsKept t y k
Run-IsKept t y here kept = kept
Run-IsKept t y (next r s) kept = Step-IsKept t y s (Run-IsKept t y r kept)

-- An event that is handled without an error, while no other handler with its key is at work, is not
-- counted again as long as keys do not expire: whatever other handlers do in the meantime, at the same
-- time and with any faults, the same event, at a later time and where Redis answers, is handled without
-- an error and changes neither the rows nor the idempotency keys.
pub handle_event-HandlerRun :
    (g : Setting) (f again : Faults) (now later : ℕ) (w after : World) (e : StatusEvent)
    (at_work : List StatusEvent) {h : Handlers}
    → now ≤ later
    → again.set_key ≡ false
    → handle_event g f now w e ≡ (false, after)
    → All
        (λ o.
          (str_eq o.status.submission_id e.status.submission_id
            && eq_ℤ (finished_at_of o) (finished_at_of e))
          ≡ false)
        at_work
    → HandlerRun (record { world = after; at_work = at_work }) h
    → handle_event g again later h.world e ≡ (false, h.world)
handle_event-HandlerRun g f again now later w after e at_work {h} le s first others r =
    elim (handle_event-done g f now w after e first) [
      | inl skips ↦ handle_event-skip g again now later h.world e le skips
      | inr there ↦
          let (kept, _) = Run-IsKept e.status.submission_id (finished_at_of e) r (there, others) in
          handle_event-key g again later h.world e s kept
    ]
