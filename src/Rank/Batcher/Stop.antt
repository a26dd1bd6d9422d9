-- ===== src/Rank/Batcher/Stop.antt =====
-- The end of a batcher.
use fuzoj.Prelude.{
  ℕ, ◌*◌, ◌≡◌, ◌⊎◌, refl, subst, ◌∙◌, List, [], ◌∷◌, ◌++◌, Bool, some, ltb, length, Bool-cases, inl,
  inr, arith,
}
use fuzoj.Rank.Batcher.{
  QueuedRankUpdate, UpdateBatcher, stopped, apply_batch, keep_batch, finish_batch, waits_for_retry,
  flush, add, finish, Step, adds, ticks, takes, stops, sees_stop, drains, finishes, Reach, here,
  next,
}

-- What an ended batcher keeps.
abbrev Ended : UpdateBatcher → UpdateBatcher → Type 0
Ended b c = (c.phase ≡ stopped) × (c.applied ≡ b.applied) × (c.buffer ≡ b.buffer)

add-Ended :
    (item : QueuedRankUpdate) (b c : UpdateBatcher)
    → b.phase ≡ stopped
    → add item b ≡ some c
    → Ended b c
unfolding add
add-Ended item b c p h = elim (Bool-cases (ltb (length b.queue) (b.size * 4))) [
  | inl e ↦
      let same : record b { queue = b.queue ++ item ∷ [] } ≡ c = ground arith in
      subst (Ended b) same (p, refl, refl)
  | inr e ↦ absurd (ground arith)
]

Step-Ended : (b c : UpdateBatcher) → b.phase ≡ stopped → Step b c → Ended b c
Step-Ended b c p (adds item h) = add-Ended item b c p h
Step-Ended b _ p (ticks now later fails q) = absurd (ground arith)
Step-Ended b c p (takes now later fails q h) = absurd (ground arith)
Step-Ended b _ p stops = (p, refl, refl)
Step-Ended b _ p (sees_stop q s) = absurd (ground arith)
Step-Ended b c p (drains q h) = absurd (ground arith)
Step-Ended b c p (finishes now later fails q h) = absurd (ground arith)

Reach-Ended : (b c : UpdateBatcher) → b.phase ≡ stopped → Reach b c → Ended b c
Reach-Ended b _ p here = (p, refl, refl)
Reach-Ended b c p (next {c = d} r s) =
    let (q, x, y) = Reach-Ended b d p r in
    let (q', x', y') = Step-Ended d c q s in (q', x' ∙ x, y' ∙ y)

-- A flush with a batch pending does not look at the buffer.
abbrev BufferKept : UpdateBatcher → UpdateBatcher → Type 0
BufferKept b c =
    (c.buffer ≡ b.buffer) × ((c.applied ≡ b.applied) ⊎ (c.applied ≡ b.applied ++ b.pending))

flush-BufferKept :
    (now later : ℕ) (fails : Bool) (b : UpdateBatcher) (p : QueuedRankUpdate)
    (ps : List QueuedRankUpdate)
    → BufferKept
        (record b { pending = p ∷ ps })
        (flush now later fails (record b { pending = p ∷ ps }))
unfolding flush apply_batch keep_batch finish_batch
flush-BufferKept now later fails b p ps =
    elim (Bool-cases (waits_for_retry now (record b { pending = p ∷ ps }))) [
      | inl e ↦ simp (e, flush) (refl, inl refl)
      | inr e ↦ elim (Bool-cases fails) [
        | inl f ↦ simp (e, f, flush, apply_batch) (refl, inl refl)
        | inr f ↦ simp (e, f, flush, apply_batch) (refl, inr refl)
      ]
    ]

finish_by_cases :
    (now later : ℕ) (fails : Bool) (b c : UpdateBatcher) (queue pending : List QueuedRankUpdate)
    (p : QueuedRankUpdate) (ps : List QueuedRankUpdate)
    → pending ≡ p ∷ ps
    → finish now later fails (record b { queue = queue; pending = pending }) ≡ some c
    → (c.phase ≡ stopped) × BufferKept (record b { queue = queue; pending = pending }) c
unfolding finish
finish_by_cases now later fails b c [] [] p ps e h = absurd (ground arith)
finish_by_cases now later fails b c [] (x ∷ xs) p ps e h =
    let b' = record b { queue = []; pending = x ∷ xs } in
    let same : record (flush now later fails b') { phase = stopped } ≡ c = ground arith in
    subst (λ c. (c.phase ≡ stopped) × BufferKept b' c) same
      (refl, flush-BufferKept now later fails (record b { queue = [] }) x xs)
finish_by_cases now later fails b c (item ∷ rest) pending p ps e h = absurd (ground arith)

-- A batcher that ends while a batch is pending loses its buffer: the flush at its end is of the
-- pending batch at most, and whatever happens afterwards, nothing more is applied and the updates in
-- the buffer, which `Add` had taken, are still there.
pub finish-drops :
    (now later : ℕ) (fails : Bool) (b c d : UpdateBatcher) (p : QueuedRankUpdate)
    (ps : List QueuedRankUpdate)
    → b.pending ≡ p ∷ ps
    → finish now later fails b ≡ some c
    → Reach c d
    → (d.buffer ≡ b.buffer) × ((d.applied ≡ b.applied) ⊎ (d.applied ≡ b.applied ++ b.pending))
finish-drops now later fails b c d p ps e h r =
    let (ended, (kept, applied)) = finish_by_cases now later fails b c b.queue b.pending p ps e h in
    let (_, x, y) = Reach-Ended c d ended r in
    (y ∙ kept, elim applied [ inl a ↦ inl (x ∙ a) | inr a ↦ inr (x ∙ a) ])
