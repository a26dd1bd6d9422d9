-- ===== src/Contest/Outbox/Tally.antt =====
-- How the statements on the outbox table change how many rows pass a test, and what a limit leaves.
use fuzoj.Prelude.{
  ℕ, zero, suc, ◌<◌, ◌≤◌, ◌≡◌, refl, subst, List, [], ◌∷◌, Bool, true, false, inl, inr, arith, All,
  Any, Bool-cases, take, keep, length, tally,
}
use fuzoj.Contest.Outbox.{Row, has_id, update_where, update_first}
use fuzoj.Contest.Outbox.Covers.{ids_of}

module _ (p : Row → Bool) (f : Row → Row) (q : Row → Bool) where
  -- Rows that are updated no longer count.
  tally-update_where-le :
      ((r : Row) → p r ≡ true → q (f r) ≡ false)
      → (rows : List Row) → tally q (update_where p f rows) ≤ tally q rows
  unfolding update_where
  tally-update_where-le k [] = omega arith
  tally-update_where-le k (r ∷ rows) = ground (arith, tally-update_where-le k rows, k r)

  pub tally-update_where-lt :
      ((r : Row) → p r ≡ true → q (f r) ≡ false)
      → (rows : List Row) → Any (λ r. (p r ≡ true) × (q r ≡ true)) rows
      → tally q (update_where p f rows) < tally q rows
  unfolding update_where
  tally-update_where-lt k [] h = absurd h
  tally-update_where-lt k (r ∷ rows) (inl h) = ground (arith, tally-update_where-le k rows, k r, h)
  tally-update_where-lt k (r ∷ rows) (inr h) = ground (arith, tally-update_where-lt k rows h, k r)

  pub tally-update_first :
      ((r : Row) → p r ≡ true → q (f r) ≡ q r)
      → (n : ℕ) (rows : List Row) → tally q (update_first n p f rows) ≡ tally q rows
  unfolding update_first
  tally-update_first k n [] = refl
  tally-update_first k zero (r ∷ rows) = refl
  tally-update_first k (suc n) (r ∷ rows) =
      ground (arith, tally-update_first k n rows, tally-update_first k (suc n) rows, k r)

  -- An update that does not reach its limit leaves no row of its condition.
  pub update_first-All :
      ((r : Row) → p r ≡ true → (q (f r) ≡ true) × (p (f r) ≡ false))
      → (n : ℕ) (rows : List Row) → tally q (update_first n p f rows) < n
      → All (λ r. p r ≡ false) (update_first n p f rows)
  unfolding update_first
  update_first-All k n [] h = tt
  update_first-All k zero (r ∷ rows) h = absurd (omega arith)
  update_first-All k (suc n) (r ∷ rows) h = elim (Bool-cases (p r)) [
    | inl e ↦ rw e ((k r e).1, update_first-All k n rows (ground (arith, k r e)))
    | inr e ↦ rw e (e, update_first-All k (suc n) rows (ground arith))
  ]

pub length-keep : (c : Row → Bool) (rows : List Row) → length (keep c rows) ≡ tally c rows
length-keep c [] = refl
length-keep c (r ∷ rows) = ground (arith, length-keep c rows)

pub length-take : (n : ℕ) (rows : List Row) → length (take n rows) < n → length rows < n
length-take zero rows h = absurd (omega arith)
length-take (suc n) [] h = h
length-take (suc n) (r ∷ rows) h = omega (arith, length-take n rows (omega arith))

pub Any-imp :
    (P Q : Row → Type 0) (rows : List Row) → ((r : Row) → P r → Q r) → Any P rows → Any Q rows
Any-imp P Q [] k h = absurd h
Any-imp P Q (r ∷ rows) k (inl h) = inl (k r h)
Any-imp P Q (r ∷ rows) k (inr h) = inr (Any-imp P Q rows k h)

-- The first row that is kept.
pub Any-take-keep :
    (n : ℕ) (c : Row → Bool) (rows : List Row)
    → 0 < length (take n (keep c rows))
    → Any (λ r. (c r ≡ true) × (has_id (ids_of (take n (keep c rows))) r.id ≡ true)) rows
unfolding has_id
Any-take-keep zero c rows h = absurd (omega arith)
Any-take-keep (suc n) c [] h = absurd (omega arith)
Any-take-keep (suc n) c (r ∷ rows) h = elim (Bool-cases (c r)) [
  | inl e ↦ inl (e, rw e (ground arith))
  | inr e ↦
      let same : keep c rows ≡ keep c (r ∷ rows) = rw e refl in
      inr (
        subst (λ ks. Any (λ r. (c r ≡ true) × (has_id (ids_of (take (suc n) ks)) r.id ≡ true)) rows)
          same (Any-take-keep (suc n) c rows (ground arith)))
]

pub All-take-keep :
    (P : Row → Type 0) (n : ℕ) (c : Row → Bool) (rows : List Row)
    → ((r : Row) → c r ≡ true → P r)
    → All P (take n (keep c rows))
All-take-keep P zero c rows k = tt
All-take-keep P (suc n) c [] k = tt
All-take-keep P (suc n) c (r ∷ rows) k = elim (Bool-cases (c r)) [
  | inl e ↦ rw e (k r e, All-take-keep P n c rows k)
  | inr e ↦ rw e (All-take-keep P (suc n) c rows k)
]
