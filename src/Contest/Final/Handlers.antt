-- ===== src/Contest/Final/Handlers.antt =====
-- The handlers of judge_status_final_consumer.go that are at work at the same time, as far as the idempotency
-- keys go: Redis sets a key that is not there in one step, and the deferred function of a handler that
-- has set its key clears it after an error.
use fuzoj.Prelude.{ℕ, ◌≡◌, refl, List, [], ◌∷◌, ◌++◌, Bool, false, not, ◌||◌, Bool-cases, inl, inr}
use fuzoj.Prelude.Assoc.{Assoc}
use fuzoj.Prelude.Text.{parse_int64}
use fuzoj.Contest.Final.{ContestRows}
use fuzoj.Contest.Final.Handle.{
  StatusEvent, World, Faults, Setting, has_key, finished_at_of, finish_key, process_user,
  handle_event, is_incomplete, is_expired,
}

-- What the handlers share, and the events of those that have set their key.
pub record Handlers : Type 0 where
  pub world : World
  pub at_work : List StatusEvent

-- A handler sets its key, some transaction commits, or a handler that has set its key ends. Those that
-- skip their event, find its key or cannot set it change nothing.
pub data HandlerStep (h : Handlers) : Handlers → Type 0 where
  sets_key :
      (e : StatusEvent)
      → has_key h.world.idempotency e.status.submission_id (finished_at_of e) ≡ false
      → HandlerStep h (record {
        world = record h.world {
          idempotency = (e.status.submission_id, finished_at_of e) ∷ h.world.idempotency;
        };
        at_work = e ∷ h.at_work;
      })
  writes :
      (all : Assoc ContestRows)
      → HandlerStep h (record h { world = record h.world { contests = all } })
  ends :
      (front back : List StatusEvent) (e : StatusEvent) (f : Faults) (fails : Bool)
      → h.at_work ≡ front ++ e ∷ back
      → HandlerStep h (record {
        world = (finish_key f e h.world.idempotency (fails, h.world.contests)).1;
        at_work = front ++ back;
      })

-- Any interleaving.
pub data HandlerRun (h : Handlers) : Handlers → Type 0 where
  here : HandlerRun h h
  next : {k l : Handlers} → HandlerRun h k → HandlerStep k l → HandlerRun h l

-- A handling with nothing of other handlers between its calls is a run of these steps.
pub handle_event-run :
    (g : Setting) (f : Faults) (now : ℕ) (w : World) (e : StatusEvent) (at_work : List StatusEvent)
    → HandlerRun
        (record { world = w; at_work = at_work })
        (record { world = (handle_event g f now w e).1; at_work = at_work })
unfolding handle_event
handle_event-run g f now w e at_work =
    let (fails, all) = process_user g f now w.contests e (parse_int64 e.status.user_id) in
    elim (Bool-cases (not e.is_final || is_incomplete e.status || is_expired g.options now e)) [
      | inl skips ↦ rw skips here
      | inr n ↦ elim (Bool-cases f.set_key) [
        | inl broken ↦ simp (n, broken) here
        | inr m ↦
            elim (Bool-cases (has_key w.idempotency e.status.submission_id (finished_at_of e))) [
              | inl there ↦ simp (n, m, there) here
              | inr absent ↦
                  simp (n, m, absent)
                    (next (next (next here (sets_key e absent)) (writes all))
                      (ends [] at_work e f fails refl))
            ]
      ]
    ]
