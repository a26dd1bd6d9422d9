-- ===== src/Contest/Outbox/Rows.antt =====
-- Laws of the statements on the outbox table: what holds of every row, and which ids stand in it.
use fuzoj.Prelude.{
  ℕ, zero, suc, ◌≡◌, refl, subst, ◌∙◌, ◌==◌, List, [], ◌∷◌, ◌++◌, Bool, true, false, ◌⊎◌, inl, inr,
  arith, All, Any, take, keep, Bool-cases,
}
use fuzoj.Contest.Outbox.{Row, has_id, update_where, update_first}

pub All-update_where :
    (P : Row → Type 0) (p : Row → Bool) (f : Row → Row) (rows : List Row)
    → ((r : Row) → P r → p r ≡ true → P (f r))
    → All P rows
    → All P (update_where p f rows)
unfolding update_where
All-update_where P p f [] k h = tt
All-update_where P p f (r ∷ rows) k h = elim (Bool-cases (p r)) [
  | inl e ↦ rw e (k r h.0 e, All-update_where P p f rows k h.1)
  | inr e ↦ rw e (h.0, All-update_where P p f rows k h.1)
]

pub All-update_first :
    (P : Row → Type 0) (n : ℕ) (p : Row → Bool) (f : Row → Row) (rows : List Row)
    → ((r : Row) → P r → p r ≡ true → P (f r))
    → All P rows
    → All P (update_first n p f rows)
unfolding update_first
All-update_first P n p f [] k h = tt
All-update_first P zero p f (r ∷ rows) k h = h
All-update_first P (suc n) p f (r ∷ rows) k h = elim (Bool-cases (p r)) [
  | inl e ↦ rw e (k r h.0 e, All-update_first P n p f rows k h.1)
  | inr e ↦ rw e (h.0, All-update_first P (suc n) p f rows k h.1)
]

pub All-keep :
    (P : Row → Type 0) (p : Row → Bool) (rows : List Row) → All P rows → All P (keep p rows)
All-keep P p [] h = tt
All-keep P p (r ∷ rows) h = elim (Bool-cases (p r)) [
  | inl e ↦ rw e (h.0, All-keep P p rows h.1)
  | inr e ↦ rw e (All-keep P p rows h.1)
]

pub All-take : (P : Row → Type 0) (n : ℕ) (rows : List Row) → All P rows → All P (take n rows)
All-take P zero rows h = tt
All-take P (suc n) [] h = tt
All-take P (suc n) (r ∷ rows) h = (h.0, All-take P n rows h.1)

-- The ids that stand in the table.
abbrev pub Stands : ℕ → List Row → Type 0
Stands i rows = Any (λ r. r.id ≡ i) rows

pub Stands-update_where :
    (i : ℕ) (p : Row → Bool) (f : Row → Row) (rows : List Row)
    → ((r : Row) → (f r).id ≡ r.id)
    → Stands i rows
    → Stands i (update_where p f rows)
unfolding update_where
Stands-update_where i p f [] k h = absurd h
Stands-update_where i p f (r ∷ rows) k (inr h) = inr (Stands-update_where i p f rows k h)
Stands-update_where i p f (r ∷ rows) k (inl h) = elim (Bool-cases (p r)) [
  | inl e ↦ rw e (inl (k r ∙ h))
  | inr e ↦ rw e (inl h)
]

pub Stands-update_first :
    (i n : ℕ) (p : Row → Bool) (f : Row → Row) (rows : List Row)
    → ((r : Row) → (f r).id ≡ r.id)
    → Stands i rows
    → Stands i (update_first n p f rows)
unfolding update_first
Stands-update_first i n p f [] k h = absurd h
Stands-update_first i zero p f (r ∷ rows) k h = h
Stands-update_first i (suc n) p f (r ∷ rows) k h = elim (Bool-cases (p r)) [
  | inl e ↦
      rw e (elim h [ inl q ↦ inl (k r ∙ q) | inr q ↦ inr (Stands-update_first i n p f rows k q) ])
  | inr e ↦
      rw e (elim h [ inl q ↦ inl q | inr q ↦ inr (Stands-update_first i (suc n) p f rows k q) ])
]

pub Stands-append : (i : ℕ) (rows : List Row) (r : Row) → Stands i rows → Stands i (rows ++ r ∷ [])
Stands-append i [] r h = absurd h
Stands-append i (x ∷ rows) r (inl h) = inl h
Stands-append i (x ∷ rows) r (inr h) = inr (Stands-append i rows r h)

pub Stands-last : (rows : List Row) (r : Row) → Stands r.id (rows ++ r ∷ [])
Stands-last [] r = inl refl
Stands-last (x ∷ rows) r = inr (Stands-last rows r)

-- A row that is left out fails the test.
pub Stands-keep :
    (P : Row → Type 0) (i : ℕ) (p : Row → Bool) (rows : List Row)
    → All P rows
    → Stands i rows
    → ((r : Row) × P r × (r.id ≡ i) × (p r ≡ false)) ⊎ Stands i (keep p rows)
Stands-keep P i p [] a h = absurd h
Stands-keep P i p (r ∷ rows) a h = elim (Bool-cases (p r)) [
  | inl e ↦ elim h [
    | inl q ↦ inr (rw e (inl q))
    | inr q ↦ elim (Stands-keep P i p rows a.1 q) [ inl x ↦ inl x | inr y ↦ inr (rw e (inr y)) ]
  ]
  | inr e ↦ elim h [
    | inl q ↦ inl (r, a.0, q, e)
    | inr q ↦ elim (Stands-keep P i p rows a.1 q) [ inl x ↦ inl x | inr y ↦ inr (rw e y) ]
  ]
]

-- Ids of a list of which something holds.
pub All-has_id : (P : ℕ → Type 0) (ids : List ℕ) (i : ℕ) → All P ids → has_id ids i ≡ true → P i
unfolding has_id
All-has_id P [] i h e = absurd (ground arith)
All-has_id P (j ∷ ids) i h e = elim (Bool-cases (j == i)) [
  | inl q ↦ let same : j ≡ i = ground arith in subst P same h.0
  | inr q ↦ let behind : has_id ids i ≡ true = ground arith in All-has_id P ids i h.1 behind
]
