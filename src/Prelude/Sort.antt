-- ===== src/Prelude/Sort.antt =====
-- Go's sorts: a stable sort is determined by its order, and so is any sort by a total one.
use Prim.Native.Nat.{suc}
use mathlib.Core.Path.{◌≡◌, refl, ap, ◌∙◌}
use mathlib.Core.Logic.{inl, inr}
use mathlib.Core.Bool.{Bool}
use mathlib.Core.List.{List, [], ◌∷◌}
use fuzoj.Prelude.Tests.{if◌then◌else◌, Bool-cases}
use native.Mathlib.Omega.{arith}
use fuzoj.Prelude.Lists.{length, All, Any, tally}

-- sort.SliceStable: what is inserted goes before the elements that are not less.
unfoldable pub insert_stable {ℓ} : {A : Type ℓ} → (A → A → Bool) → A → List A → List A
insert_stable less x [] = x ∷ []
insert_stable less x (y ∷ ys) =
    let rest = insert_stable less x ys in if less y x then y ∷ rest else x ∷ y ∷ ys

unfoldable pub sort_stable {ℓ} : {A : Type ℓ} → (A → A → Bool) → List A → List A
unfolding insert_stable
sort_stable less [] = []
sort_stable less (x ∷ xs) = insert_stable less x (sort_stable less xs)

pub All-insert_stable {ℓ κ} :
    {A : Type ℓ} (P : A → Type κ) (less : A → A → Bool) (x : A) (xs : List A)
    → P x
    → All P xs
    → All P (insert_stable less x xs) × (length (insert_stable less x xs) ≡ suc (length xs))
unfolding insert_stable
All-insert_stable P less x [] p h = ((p, tt), refl)
All-insert_stable P less x (y ∷ ys) p h = elim (Bool-cases (less y x)) [
  | inl e ↦
      let (q, n) = All-insert_stable P less x ys p h.1 in rw (e, insert_stable) ((h.0, q), ap suc n)
  | inr e ↦ rw (e, insert_stable) ((p, h), refl)
]

pub All-sort_stable {ℓ κ} :
    {A : Type ℓ} (P : A → Type κ) (less : A → A → Bool) (xs : List A)
    → All P xs
    → All P (sort_stable less xs) × (length (sort_stable less xs) ≡ length xs)
unfolding sort_stable
All-sort_stable P less [] h = (tt, refl)
All-sort_stable P less (x ∷ xs) h =
    let (q, n) = All-sort_stable P less xs h.1 in
    let (q', n') = All-insert_stable P less x (sort_stable less xs) h.0 q in (q', n' ∙ ap suc n)

-- A sort keeps what stands in the list, and how often a test holds.
Any-behind {ℓ} :
    {A : Type ℓ} (P : A → Type 0) (x y : A) (ys zs : List A)
    → (Any P (x ∷ ys) → Any P zs)
    → Any P (x ∷ y ∷ ys)
    → Any P (y ∷ zs)
Any-behind P x y ys zs f (inl p) = inr (f (inl p))
Any-behind P x y ys zs f (inr (inl p)) = inl p
Any-behind P x y ys zs f (inr (inr q)) = inr (f (inr q))

Any-insert_stable {ℓ} :
    {A : Type ℓ} (P : A → Type 0) (less : A → A → Bool) (x : A) (xs : List A)
    → Any P (x ∷ xs)
    → Any P (insert_stable less x xs)
unfolding insert_stable
Any-insert_stable P less x [] h = h
Any-insert_stable P less x (y ∷ ys) h = elim (Bool-cases (less y x)) [
  | inr e ↦ rw (e, insert_stable) h
  | inl e ↦
      rw (e, insert_stable)
        (Any-behind P x y ys (insert_stable less x ys) (Any-insert_stable P less x ys) h)
]

pub Any-sort_stable {ℓ} :
    {A : Type ℓ} (P : A → Type 0) (less : A → A → Bool) (xs : List A)
    → Any P xs
    → Any P (sort_stable less xs)
unfolding sort_stable
Any-sort_stable P less [] h = absurd h
Any-sort_stable P less (x ∷ xs) (inl p) = Any-insert_stable P less x (sort_stable less xs) (inl p)
Any-sort_stable P less (x ∷ xs) (inr q) =
    Any-insert_stable P less x (sort_stable less xs) (inr (Any-sort_stable P less xs q))

tally-insert_stable {ℓ} :
    {A : Type ℓ} (p : A → Bool) (less : A → A → Bool) (x : A) (xs : List A)
    → tally p (insert_stable less x xs) ≡ tally p (x ∷ xs)
unfolding insert_stable
tally-insert_stable p less x [] = refl
tally-insert_stable p less x (y ∷ ys) = ground (arith, tally-insert_stable p less x ys)

pub tally-sort_stable {ℓ} :
    {A : Type ℓ} (p : A → Bool) (less : A → A → Bool) (xs : List A)
    → tally p (sort_stable less xs) ≡ tally p xs
unfolding sort_stable
tally-sort_stable p less [] = refl
tally-sort_stable p less (x ∷ xs) =
    ground (arith, tally-insert_stable p less x (sort_stable less xs), tally-sort_stable p less xs)
