-- ===== src/Prelude/Assoc.antt =====
-- A map with text keys as an association list in which a key stands once.
use Prim.Native.String.{String}
use mathlib.Core.Path.{◌≡◌, refl, subst}
use mathlib.Core.List.{List, [], ◌∷◌, map}
use mathlib.Core.Option.{Option, none, some}
use native.Mathlib.Omega.{arith}
use text.Mathlib.Text.{◌==◌}
use text.Mathlib.TextEquality.{eq_iff}
use mathlib.Core.Logic.{inl, inr}
use fuzoj.Prelude.Tests.{if◌then◌else◌, Bool-cases}
use fuzoj.Prelude.Lists.{All}

abbrev pub Assoc {ℓ} : Type ℓ → Type ℓ
Assoc V = List (String × V)

module _ {ℓ} {V : Type ℓ} where
  -- m[k]
  unfoldable pub find : Assoc V → String → Option V
  find [] k = none
  find ((j, v) ∷ m) k = if j == k then some v else find m k

  -- m[k], or a default where the key is missing
  unfoldable pub find_or : Assoc V → String → V → V
  find_or [] k d = d
  find_or ((j, v) ∷ m) k d = if j == k then v else find_or m k d

  -- m[k] = v
  unfoldable pub put : Assoc V → String → V → Assoc V
  put [] k v = (k, v) ∷ []
  put ((j, w) ∷ m) k v = if j == k then (j, v) ∷ m else (j, w) ∷ put m k v

  -- delete(m, k)
  unfoldable pub remove : Assoc V → String → Assoc V
  remove [] k = []
  remove ((j, w) ∷ m) k = let rest = remove m k in if j == k then rest else (j, w) ∷ rest

  abbrev pub keys : Assoc V → List String
  keys = map λ e. e.0

module _ {ℓ} {V : Type ℓ} where
  pub find-put :
      (m : Assoc V) (k j : String) (v : V)
      → find (put m k v) j ≡ (if k == j then some v else find m j)
  unfolding find put
  find-put [] k j v = refl
  find-put ((i, w) ∷ m) k j v = ground (arith, eq_iff k j, eq_iff i k, eq_iff i j, find-put m k j v)

  pub find_or-put :
      (m : Assoc V) (k j : String) (v d : V)
      → find_or (put m k v) j d ≡ (if k == j then v else find_or m j d)
  unfolding find_or put
  find_or-put [] k j v d = refl
  find_or-put ((i, w) ∷ m) k j v d =
      ground (arith, eq_iff k j, eq_iff i k, eq_iff i j, find_or-put m k j v d)

  pub find-remove :
      (m : Assoc V) (k j : String) → find (remove m k) j ≡ (if k == j then none else find m j)
  unfolding find remove
  find-remove [] k j = ground arith
  find-remove ((i, v) ∷ m) k j =
      ground (arith, find-remove m k j, eq_iff i k, eq_iff i j, eq_iff k j)

  -- What holds of every value goes on to hold of the values of a map that has one more.
  pub All-put {κ} :
      (P : V → Type κ) (m : Assoc V) (k : String) (v : V)
      → All (λ e. P e.1) m
      → P v
      → All (λ e. P e.1) (put m k v)
  unfolding put
  All-put P [] k v h p = (p, tt)
  All-put P ((j, w) ∷ m) k v h p = elim (Bool-cases (j == k)) [
    | inl e ↦ rw (e, put) (p, h.1)
    | inr e ↦ rw (e, put) (h.0, All-put P m k v h.1 p)
  ]

  pub All-find_or {κ} :
      (P : V → Type κ) (m : Assoc V) (k : String) (d : V)
      → All (λ e. P e.1) m
      → P d
      → P (find_or m k d)
  unfolding find_or
  All-find_or P [] k d h p = p
  All-find_or P ((j, w) ∷ m) k d h p = elim (Bool-cases (j == k)) [
    | inl e ↦ rw (e, find_or) h.0
    | inr e ↦ rw (e, find_or) (All-find_or P m k d h.1 p)
  ]

  pub All-find {κ} :
      (P : V → Type κ) (m : Assoc V) (k : String) (v : V)
      → All (λ e. P e.1) m
      → find m k ≡ some v
      → P v
  unfolding find
  All-find P [] k v h e = absurd (ground arith)
  All-find P ((j, w) ∷ m) k v h e = elim (Bool-cases (j == k)) [
    | inl q ↦ let same : w ≡ v = ground arith in subst P same h.0
    | inr q ↦ let behind : find m k ≡ some v = ground arith in All-find P m k v h.1 behind
  ]
