-- ===== src/Rank/Batcher/Fifo.antt =====
-- What a batcher holds and has applied, against what `Add` took.
use fuzoj.Prelude.{
  ℕ, ◌*◌, ◌≡◌, refl, sym, ap, subst, ◌∙◌, List, [], ◌∷◌, ◌++◌, Bool, true, false, some, ltb, leb,
  length, Bool-cases, Option-cases, inl, inr, arith,
}
use mathlib.Core.List.{append_assoc}
use fuzoj.Rank.Batcher.{
  QueuedRankUpdate, UpdateBatcher, stopped, new_update_batcher, keep_batch, finish_batch,
  apply_batch, waits_for_retry, flush, add, receive, take_in, finish, Step, adds, ticks, takes,
  stops, sees_stop, drains, finishes, Reach, here, next,
}

-- What a step takes from `Add`, and what a run takes, in turn.
unfoldable pub added_by : {b c : UpdateBatcher} → Step b c → List QueuedRankUpdate
added_by (adds item h) = item ∷ []
added_by (ticks now later fails p) = []
added_by (takes now later fails p h) = []
added_by stops = []
added_by (sees_stop p s) = []
added_by (drains p h) = []
added_by (finishes now later fails p h) = []

unfoldable pub added : {b c : UpdateBatcher} → Reach b c → List QueuedRankUpdate
unfolding added_by
added here = []
added (next r s) = added r ++ added_by s

-- What is applied, and then what waits: the pending batch, the buffer and the channel.
abbrev pub line_of : UpdateBatcher → List QueuedRankUpdate
line_of b = b.applied ++ (b.pending ++ (b.buffer ++ b.queue))

line_of-apply_batch :
    (later : ℕ) (fails : Bool) (batch : List QueuedRankUpdate) (b : UpdateBatcher)
    → line_of (apply_batch later fails batch b) ≡ b.applied ++ (batch ++ (b.buffer ++ b.queue))
unfolding apply_batch keep_batch finish_batch
line_of-apply_batch later true batch b = refl
line_of-apply_batch later false batch b = append_assoc b.applied batch (b.buffer ++ b.queue)

-- By what is pending and what is in the buffer.
flush_by_cases :
    (now later : ℕ) (fails : Bool) (b : UpdateBatcher) (buffer pending : List QueuedRankUpdate)
    → let b' = record b { buffer = buffer; pending = pending } in
      line_of (flush now later fails b') ≡ line_of b'
unfolding flush
flush_by_cases now later fails b [] [] = refl
flush_by_cases now later fails b (x ∷ xs) [] =
    line_of-apply_batch later fails (x ∷ xs) (record b { buffer = []; pending = [] })
flush_by_cases now later fails b buffer (p ∷ ps) =
    let b' = record b { buffer = buffer; pending = p ∷ ps } in
    elim (Bool-cases (waits_for_retry now b')) [
      | inl e ↦ simp (e, flush) refl
      | inr e ↦ simp (e, flush) (line_of-apply_batch later fails (p ∷ ps) b')
    ]

line_of-flush :
    (now later : ℕ) (fails : Bool) (b : UpdateBatcher)
    → line_of (flush now later fails b) ≡ line_of b
line_of-flush now later fails b = flush_by_cases now later fails b b.buffer b.pending

receive_by_cases :
    (b c : UpdateBatcher) (queue : List QueuedRankUpdate)
    → receive (record b { queue = queue }) ≡ some c
    → line_of c ≡ line_of (record b { queue = queue })
unfolding receive
receive_by_cases b c [] h = absurd (ground arith)
receive_by_cases b c (item ∷ rest) h =
    let same : record b { queue = rest; buffer = b.buffer ++ item ∷ [] } ≡ c = ground arith in
    subst (λ c. line_of c ≡ line_of (record b { queue = item ∷ rest })) same
      (ap (λ w. b.applied ++ (b.pending ++ w)) (append_assoc b.buffer (item ∷ []) rest))

line_of-receive : (b c : UpdateBatcher) → receive b ≡ some c → line_of c ≡ line_of b
line_of-receive b c h = receive_by_cases b c b.queue h

line_of-take_in :
    (now later : ℕ) (fails : Bool) (b c : UpdateBatcher)
    → take_in now later fails b ≡ some c
    → line_of c ≡ line_of b
unfolding take_in
line_of-take_in now later fails b c h = elim (Option-cases (receive b)) [
  | inl e ↦ absurd (ground arith)
  | inr (b', e) ↦
      let same = line_of-receive b b' e in
      elim (Bool-cases (leb b'.size (length b'.buffer))) [
        | inl q ↦
            let flushed : flush now later fails b' ≡ c = ground arith in
            ap line_of (sym flushed) ∙ line_of-flush now later fails b' ∙ same
        | inr q ↦ let kept : b' ≡ c = ground arith in ap line_of (sym kept) ∙ same
      ]
]

finish_by_cases :
    (now later : ℕ) (fails : Bool) (b c : UpdateBatcher) (queue : List QueuedRankUpdate)
    → finish now later fails (record b { queue = queue }) ≡ some c
    → (queue ≡ [])
      × (c ≡ record (flush now later fails (record b { queue = [] })) { phase = stopped })
unfolding finish
finish_by_cases now later fails b c [] h = (refl, ground arith)
finish_by_cases now later fails b c (item ∷ rest) h = absurd (ground arith)

line_of-add :
    (item : QueuedRankUpdate) (b c : UpdateBatcher)
    → add item b ≡ some c
    → line_of c ≡ line_of b ++ item ∷ []
unfolding add
line_of-add item b c h = elim (Bool-cases (ltb (length b.queue) (b.size * 4))) [
  | inl e ↦
      let same : record b { queue = b.queue ++ item ∷ [] } ≡ c = ground arith in
      ap line_of (sym same)
      ∙ ap (λ w. b.applied ++ (b.pending ++ w)) (sym (append_assoc b.buffer b.queue (item ∷ [])))
      ∙ ap (λ w. b.applied ++ w) (sym (append_assoc b.pending (b.buffer ++ b.queue) (item ∷ [])))
      ∙ sym (append_assoc b.applied (b.pending ++ (b.buffer ++ b.queue)) (item ∷ []))
  | inr e ↦ absurd (ground arith)
]

append_nil : (xs : List QueuedRankUpdate) → xs ++ [] ≡ xs
append_nil [] = refl
append_nil (x ∷ xs) = ap (λ ys. x ∷ ys) (append_nil xs)

line_of-Step : {b c : UpdateBatcher} (s : Step b c) → line_of c ≡ line_of b ++ added_by s
unfolding added_by
line_of-Step {b} {c} (adds item h) = line_of-add item b c h
line_of-Step {b} (ticks now later fails p) =
    line_of-flush now later fails b ∙ sym (append_nil (line_of b))
line_of-Step {b} {c} (takes now later fails p h) =
    line_of-take_in now later fails b c h ∙ sym (append_nil (line_of b))
line_of-Step {b} stops = sym (append_nil (line_of b))
line_of-Step {b} (sees_stop p s) = sym (append_nil (line_of b))
line_of-Step {b} {c} (drains p h) = line_of-receive b c h ∙ sym (append_nil (line_of b))
line_of-Step {b} {c} (finishes now later fails p h) =
    let (empty, ended) = finish_by_cases now later fails b c b.queue h in
    ap line_of ended
    ∙ line_of-flush now later fails (record b { queue = [] })
    ∙ ap (λ w. b.applied ++ (b.pending ++ (b.buffer ++ w))) (sym empty)
    ∙ sym (append_nil (line_of b))

-- Nothing is lost, doubled or reordered: whatever the goroutine and the callers of `Add` do, and
-- whichever calls of the repository fail, what is applied, followed by the pending batch, the buffer
-- and the channel, is what `Add` took in this run, in its order. (The goroutine's end can leave a part
-- of that in the buffer for good.)
pub Reach-line_of :
    (size : ℕ) {b : UpdateBatcher} (r : Reach (new_update_batcher size) b)
    → b.applied ++ (b.pending ++ (b.buffer ++ b.queue)) ≡ added r
unfolding new_update_batcher added
Reach-line_of size here = refl
Reach-line_of size (next r s) = line_of-Step s ∙ ap (λ w. w ++ added_by s) (Reach-line_of size r)
