-- ===== src/Rank/Script/Tracks.antt =====
-- What the script's branch on the result id does to the watermark and the pending ids.
use native.Mathlib.Decide.{dec_le}
use fuzoj.Prelude.{
  ℕ, zero, suc, ◌+◌, ◌≤◌, ◌<◌, ◌≡◌, refl, List, [], ◌∷◌, true, false, ◌⊎◌, inl, inr, arith,
  if◌then◌else◌, ltb, ◌==◌, length, keep, Bool-cases, ap, subst, ◌≢◌,
}
use fuzoj.Rank.Script.{has_id, remove_id, add_id, drain, advance}

has_id-remove_id :
    (p : List ℕ) (i j : ℕ) → has_id (remove_id p i) j ≡ (if i == j then false else has_id p j)
unfolding has_id remove_id
has_id-remove_id [] i j = ground arith
has_id-remove_id (x ∷ p) i j = ground (arith, has_id-remove_id p i j)

length-remove_id : (p : List ℕ) (i : ℕ) → length (remove_id p i) ≤ length p
unfolding remove_id
length-remove_id [] i = omega arith
length-remove_id (x ∷ p) i = ground (arith, length-remove_id p i)

length-remove_id_lt : (p : List ℕ) (i : ℕ) → has_id p i ≡ true → length (remove_id p i) < length p
unfolding remove_id has_id
length-remove_id_lt [] i h = cc
length-remove_id_lt (x ∷ p) i h = ground (arith, length-remove_id_lt p i, length-remove_id p i)

has_id-add_id :
    (p : List ℕ) (i j : ℕ) → has_id (add_id p i) j ≡ (if i == j then true else has_id p j)
unfolding add_id has_id
has_id-add_id p i j = ground arith

pub has_id-keep :
    (p : List ℕ) (r j : ℕ)
    → has_id (keep (λ i. ltb r i) p) j ≡ (if ltb r j then has_id p j else false)
unfolding has_id
has_id-keep [] r j = ground arith
has_id-keep (x ∷ p) r j = ground (arith, has_id-keep p r j)

-- All ids up to the watermark are done; what is done lies up to it or is pending; what is pending
-- is done and lies past it.
pub record Tracks (done : ℕ → Type 0) (recovery : ℕ) (pending : List ℕ) : Type 0 where
  pub below : (i : ℕ) → 0 < i → i ≤ recovery → done i
  pub above : (i : ℕ) → done i → (i ≤ recovery) ⊎ (has_id pending i ≡ true)
  pub ahead : (i : ℕ) → has_id pending i ≡ true → done i × (recovery < i)

abbrev pub TracksAt : (ℕ → Type 0) → ℕ × List ℕ → Type 0
TracksAt done r = Tracks done r.0 r.1 × (has_id r.1 (r.0 + 1) ≡ false)

Tracks-suc :
    (done : ℕ → Type 0) (r : ℕ) (p : List ℕ)
    → Tracks done r p
    → has_id p (r + 1) ≡ true
    → Tracks done (r + 1) (remove_id p (r + 1))
Tracks-suc done r p t h = record {
  below = λ i lo hi. elim (dec_le i r) [
    | yes le ↦ t.below i lo le
    | no gt ↦ subst done (omega arith) (t.ahead (r + 1) h).0
  ];
  above = λ i d. elim (t.above i d) [
    | inl le ↦ inl (omega arith)
    | inr q ↦ ground (arith, has_id-remove_id p (r + 1) i)
  ];
  ahead = λ i q.
      let e : has_id p i ≡ true = ground (arith, has_id-remove_id p (r + 1) i) in
      let ne : r + 1 ≢ i = λ e. ground (arith, has_id-remove_id p (r + 1) i) in
      ((t.ahead i e).0, omega (arith, (t.ahead i e).1));
}

-- The loop's fuel, the size of the set, is enough: at its end the next id is not pending.
drain-Tracks :
    (done : ℕ → Type 0) (n r : ℕ) (p : List ℕ)
    → length p ≤ n
    → Tracks done r p
    → TracksAt done (drain n r p)
unfolding drain
drain-Tracks done zero r [] h t = (t, unfold has_id in refl)
drain-Tracks done zero r (x ∷ p) h t = absurd (omega arith)
drain-Tracks done (suc n) r p h t = elim (Bool-cases (has_id p (r + 1))) [
  | inr e ↦ rw (e, drain) (t, e)
  | inl e ↦
      rw (e, drain)
        (drain-Tracks done n (r + 1) (remove_id p (r + 1))
          (omega (arith, length-remove_id_lt p (r + 1) e)) (Tracks-suc done r p t e))
]

-- An id is among those done.
abbrev pub Done : List ℕ → ℕ → Type 0
Done ids i = has_id ids i ≡ true

Tracks-more :
    (ids : List ℕ) (i r : ℕ) (p : List ℕ)
    → Tracks (Done ids) r p
    → i ≤ r
    → Tracks (Done (i ∷ ids)) r p
unfolding has_id
Tracks-more ids i r p t le = record {
  below = λ j lo hi. ground (arith, t.below j lo hi);
  above = λ j d. elim (Bool-cases (i == j)) [
    | inl e ↦ inl (ground arith)
    | inr e ↦ t.above j (ground (arith, e))
  ];
  ahead = λ j q. (ground (arith, (t.ahead j q).0), (t.ahead j q).1);
}

Tracks-next :
    (ids : List ℕ) (r : ℕ) (p : List ℕ)
    → TracksAt (Done ids) (r, p)
    → Tracks (Done ((r + 1) ∷ ids)) (r + 1) p
unfolding has_id
Tracks-next ids r p (t, gap) = record {
  below = λ j lo hi. elim (dec_le j r) [
    | yes le ↦ ground (arith, t.below j lo le)
    | no gt ↦ ground arith
  ];
  above = λ j d. elim (Bool-cases ((r + 1) == j)) [
    | inl e ↦ inl (ground arith)
    | inr e ↦ elim (t.above j (ground (arith, e))) [ inl le ↦ inl (omega arith) | inr q ↦ inr q ]
  ];
  ahead = λ j q.
      let ne : r + 1 ≢ j = λ e. cc (ap (has_id p) e) in
      (ground (arith, (t.ahead j q).0), omega (arith, (t.ahead j q).1));
}

Tracks-pending :
    (ids : List ℕ) (i r : ℕ) (p : List ℕ)
    → TracksAt (Done ids) (r, p)
    → r + 1 < i
    → TracksAt (Done (i ∷ ids)) (r, add_id p i)
Tracks-pending ids i r p (t, gap) lt = (
  record {
    below = λ j lo hi. unfold has_id in ground (arith, t.below j lo hi);
    above = λ j d. elim (Bool-cases (i == j)) [
      | inl e ↦ inr (ground (arith, has_id-add_id p i j))
      | inr e ↦ elim (t.above j (unfold has_id in ground (arith, e))) [
        | inl le ↦ inl le
        | inr q ↦ inr (ground (arith, has_id-add_id p i j))
      ]
    ];
    ahead = λ j q. elim (Bool-cases (i == j)) [
      | inl e ↦ (unfold has_id in ground (arith, e), ground arith)
      | inr e ↦
          let h : has_id p j ≡ true = ground (arith, has_id-add_id p i j) in
          (unfold has_id in ground (arith, (t.ahead j h).0), (t.ahead j h).1)
    ];
  },
  ground (arith, has_id-add_id p i (r + 1)),
)

pub advance-Tracks :
    (ids : List ℕ) (i r : ℕ) (p : List ℕ)
    → TracksAt (Done ids) (r, p)
    → TracksAt (Done (i ∷ ids)) (advance i r p)
unfolding advance
advance-Tracks ids i r p t = elim (Bool-cases (ltb 0 i)) [
  | inr e ↦ rw (e, advance) (Tracks-more ids i r p t.0 (ground arith), t.1)
  | inl e ↦ elim (Bool-cases (i == r + 1)) [
    | inl f ↦
        let same : i ≡ r + 1 = ground arith in
        rw (e, f, advance)
          (drain-Tracks (Done (i ∷ ids)) (length p) i p (omega arith)
            (rw same (Tracks-next ids r p t)))
    | inr f ↦ elim (Bool-cases (ltb (r + 1) i)) [
      | inl g ↦ rw (e, f, g, advance) (Tracks-pending ids i r p t (ground arith))
      | inr g ↦ rw (e, f, g, advance) (Tracks-more ids i r p t.0 (ground arith), t.1)
    ]
  ]
]
