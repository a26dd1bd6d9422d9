-- ===== src/Prelude/ListLaws.antt =====
-- Laws of the lists that several parts share.
use Prim.Native.Nat.{ℕ, zero, suc, ◌<◌}
use Prim.Native.String.{String}
use mathlib.Core.Path.{◌≡◌, refl}
use mathlib.Core.Logic.{inl, inr}
use mathlib.Core.Bool.{Bool, true}
use mathlib.Core.Option.{some}
use mathlib.Core.List.{List, [], ◌∷◌, map}
use native.Mathlib.Omega.{arith}
use text.Mathlib.TextPositions.{eq_refl}
use fuzoj.Prelude.Lists.{length, All, get_elem?, sum_by, contains, Among, Any, tally}

pub All-get_elem? {ℓ κ} :
    {A : Type ℓ} (P : A → Type κ) (xs : List A) (k : ℕ)
    → k < length xs
    → All P xs
    → (x : A) × (get_elem? xs k ≡ some x) × P x
All-get_elem? P [] k h q = absurd (omega arith)
All-get_elem? P (x ∷ xs) zero h q = (x, refl, q.0)
All-get_elem? P (x ∷ xs) (suc k) h q = All-get_elem? P xs k (omega arith) q.1

pub sum_by-congr {ℓ} :
    {A : Type ℓ} (f g : A → ℕ) (xs : List A) → All (λ x. f x ≡ g x) xs → sum_by f xs ≡ sum_by g xs
sum_by-congr f g [] h = refl
sum_by-congr f g (x ∷ xs) h = omega (arith, h.0, sum_by-congr f g xs h.1)

pub All-imp {ℓ κ μ} :
    {A : Type ℓ} (P : A → Type κ) (Q : A → Type μ) (xs : List A)
    → ((x : A) → P x → Q x)
    → All P xs
    → All Q xs
All-imp P Q [] f h = tt
All-imp P Q (x ∷ xs) f h = (f x h.0, All-imp P Q xs f h.1)

pub All-contains : (ts : List String) → All (λ t. contains ts t ≡ true) ts
All-contains [] = tt
All-contains (t ∷ ts) = (
  ground (arith, eq_refl t),
  All-imp (λ u. contains ts u ≡ true) (λ u. contains (t ∷ ts) u ≡ true) ts (λ u h. ground arith)
      (All-contains ts),
)

pub sum_by-one : (ts : List String) → sum_by (λ t. 1) ts ≡ length ts
sum_by-one [] = refl
sum_by-one (t ∷ ts) = omega (arith, sum_by-one ts)

pub All-map {ℓ κ} :
    {A : Type ℓ} {B : Type κ} (P : B → Type 0) (f : A → B) (xs : List A)
    → All (λ a. P (f a)) xs
    → All P (map f xs)
All-map P f [] h = tt
All-map P f (x ∷ xs) h = (h.0, All-map P f xs h.1)

pub Any-map {ℓ κ} :
    {A : Type ℓ} {B : Type κ} (P : B → Type 0) (f : A → B) (xs : List A)
    → Any (λ a. P (f a)) xs
    → Any P (map f xs)
Any-map P f [] h = h
Any-map P f (x ∷ xs) (inl p) = inl p
Any-map P f (x ∷ xs) (inr q) = inr (Any-map P f xs q)

pub tally-map {ℓ κ} :
    {A : Type ℓ} {B : Type κ} (p : B → Bool) (f : A → B) (xs : List A)
    → tally p (map f xs) ≡ tally (λ a. p (f a)) xs
tally-map p f [] = refl
tally-map p f (x ∷ xs) = ground (arith, tally-map p f xs)

-- Every element stands in its list.
pub All-Among : {A : Type 0} (xs : List A) → All (λ x. Among x xs) xs
All-Among [] = tt
All-Among (x ∷ xs) =
    (inl refl, All-imp (λ y. Among y xs) (λ y. Among y (x ∷ xs)) xs (λ y a. inr a) (All-Among xs))
