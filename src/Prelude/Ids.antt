-- ===== src/Prelude/Ids.antt =====
-- A map with numbers as keys, as an association list in which the first entry of a key counts.
use Prim.Native.Nat.{ℕ, ◌+◌}
use mathlib.Core.Path.{◌≡◌, refl}
use mathlib.Core.List.{List, [], ◌∷◌}
use mathlib.Core.Option.{Option, none, some}
use native.Mathlib.Omega.{arith}
use fuzoj.Prelude.Tests.{if◌then◌else◌, ◌==◌}
use fuzoj.Prelude.Lists.{sum_by}

abbrev pub Ids {ℓ} : Type ℓ → Type ℓ
Ids V = List (ℕ × V)

module _ {ℓ} {V : Type ℓ} where
  unfoldable pub find_id : Ids V → ℕ → Option V
  find_id [] k = none
  find_id ((j, v) ∷ m) k = if j == k then some v else find_id m k

  unfoldable pub put_id : Ids V → ℕ → V → Ids V
  put_id [] k v = (k, v) ∷ []
  put_id ((j, w) ∷ m) k v = if j == k then (j, v) ∷ m else (j, w) ∷ put_id m k v

  pub find_id-put_id :
      (m : Ids V) (k j : ℕ) (v : V)
      → find_id (put_id m k v) j ≡ (if k == j then some v else find_id m j)
  unfolding find_id put_id
  find_id-put_id [] k j v = refl
  find_id-put_id ((i, w) ∷ m) k j v = ground (arith, find_id-put_id m k j v)

  -- What an entry that may be missing adds to a sum.
  abbrev pub part : (V → ℕ) → Option V → ℕ
  part f none = 0
  part f (some v) = f v

  -- A sum over the entries changes by one entry's part.
  pub sum_by-put_id :
      (f : V → ℕ) (m : Ids V) (k : ℕ) (v : V)
      → sum_by (λ e. f e.1) (put_id m k v) + part f (find_id m k) ≡ sum_by (λ e. f e.1) m + f v
  unfolding find_id put_id
  sum_by-put_id f [] k v = ground arith
  sum_by-put_id f ((i, w) ∷ m) k v = ground (arith, sum_by-put_id f m k v)
