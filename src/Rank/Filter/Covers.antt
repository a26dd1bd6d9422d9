-- ===== src/Rank/Filter/Covers.antt =====
-- What one write to the newest events keeps of those seen before.
use fuzoj.Prelude.{
  ◌≤◌, ◌<◌, ◌≡◌, sym, ◌∙◌, ap, List, [], ◌∷◌, Bool, true, false, ◌⊎◌, inl, inr, arith,
  if◌then◌else◌, str_eq, str_eq_iff, All, Any, Among, Bool-cases,
}
use fuzoj.Rank.Event.{RankUpdateEvent}
use fuzoj.Rank.Filter.{
  NormalizedEvent, numbered_event, should_replace_member_event, keep_newest, same_member,
}

-- Every event has a result id.
abbrev pub Numbered : List RankUpdateEvent → Type 0
Numbered = All λ e. 0 < e.result_id

-- An entry is an event's normal form, from among `events`.
abbrev pub Sound : List RankUpdateEvent → NormalizedEvent → Type 0
Sound events n = Among n.event events × (n ≡ numbered_event n.event 0)

-- The entry is of the event's member, and not older.
abbrev pub Covers : RankUpdateEvent → NormalizedEvent → Type 0
Covers e n = (same_member n.event e ≡ true) × (e.result_id ≤ n.event.result_id)

pub same_member_trans :
    (a b c : RankUpdateEvent) → same_member a b ≡ true → same_member a c ≡ same_member b c
same_member_trans a b c h = ground (
  arith,
  str_eq_iff a.contest_id b.contest_id,
  str_eq_iff a.member_id b.member_id,
  ap (λ s. str_eq s c.contest_id) (eq_contest a b h),
  ap (λ s. str_eq s c.member_id) (eq_member a b h),
)
  where
    eq_contest : (a b : RankUpdateEvent) → same_member a b ≡ true → a.contest_id ≡ b.contest_id
    eq_contest a b h = ground (arith, str_eq_iff a.contest_id b.contest_id)

    eq_member : (a b : RankUpdateEvent) → same_member a b ≡ true → a.member_id ≡ b.member_id
    eq_member a b h = ground (arith, str_eq_iff a.member_id b.member_id)

pub same_member-join :
    (a b c : RankUpdateEvent)
    → same_member a c ≡ true
    → same_member b c ≡ true
    → same_member a b ≡ true
same_member-join a b c h k = ground (
  arith,
  str_eq_iff a.contest_id c.contest_id,
  str_eq_iff b.contest_id c.contest_id,
  str_eq_iff a.contest_id b.contest_id,
  str_eq_iff a.member_id c.member_id,
  str_eq_iff b.member_id c.member_id,
  str_eq_iff a.member_id b.member_id,
)

replace_order :
    (x n : NormalizedEvent)
    → x ≡ numbered_event x.event 0
    → n ≡ numbered_event n.event 0
    → if should_replace_member_event x n
      then x.event.result_id ≤ n.event.result_id
      else n.event.result_id ≤ x.event.result_id
unfolding should_replace_member_event
replace_order x n e f =
    let xv : x.version ≡ 0 = ap (λ k. k.version) e in
    let nv : n.version ≡ 0 = ap (λ k. k.version) f in
    let xr : x.result_id ≡ x.event.result_id = ap (λ k. k.result_id) e in
    let nr : n.result_id ≡ n.event.result_id = ap (λ k. k.result_id) f in ground arith

Covers-newer :
    (e : RankUpdateEvent) (x n : NormalizedEvent)
    → same_member x.event n.event ≡ true
    → x.event.result_id ≤ n.event.result_id
    → Covers e x
    → Covers e n
Covers-newer e x n f le c = (sym (same_member_trans x.event n.event e f) ∙ c.0, omega (arith, c.1))

Covers-older :
    (e : RankUpdateEvent) (x n : NormalizedEvent)
    → same_member x.event n.event ≡ true
    → n.event.result_id ≤ x.event.result_id
    → Covers e n
    → Covers e x
Covers-older e x n f le c = (same_member_trans x.event n.event e f ∙ c.0, omega (arith, c.1))

replace-Covers :
    (e : RankUpdateEvent) (x n : NormalizedEvent) (xs : List NormalizedEvent) (b : Bool)
    → same_member x.event n.event ≡ true
    → (if b then x.event.result_id ≤ n.event.result_id else n.event.result_id ≤ x.event.result_id)
    → Any (Covers e) (x ∷ xs) ⊎ Covers e n
    → Any (Covers e) (if b then n ∷ xs else x ∷ xs)
replace-Covers e x n xs true f le (inl (inl c)) = inl (Covers-newer e x n f le c)
replace-Covers e x n xs true f le (inl (inr a)) = inr a
replace-Covers e x n xs true f le (inr c) = inl c
replace-Covers e x n xs false f le (inl a) = a
replace-Covers e x n xs false f le (inr c) = inl (Covers-older e x n f le c)

behind-Covers :
    (e : RankUpdateEvent) (x n : NormalizedEvent) (xs ys : List NormalizedEvent)
    → (Any (Covers e) xs ⊎ Covers e n → Any (Covers e) ys)
    → Any (Covers e) (x ∷ xs) ⊎ Covers e n
    → Any (Covers e) (x ∷ ys)
behind-Covers e x n xs ys f (inl (inl c)) = inl c
behind-Covers e x n xs ys f (inl (inr a)) = inr (f (inl a))
behind-Covers e x n xs ys f (inr c) = inr (f (inr c))

-- What was covered stays covered, and the new event is covered.
pub keep_newest-Covers :
    (events : List RankUpdateEvent) (e : RankUpdateEvent) (xs : List NormalizedEvent)
    (n : NormalizedEvent)
    → All (Sound events) xs
    → Sound events n
    → Any (Covers e) xs ⊎ Covers e n
    → Any (Covers e) (keep_newest xs n)
unfolding keep_newest
keep_newest-Covers events e [] n s t (inl a) = absurd a
keep_newest-Covers events e [] n s t (inr c) = inl c
keep_newest-Covers events e (x ∷ xs) n s t h = elim (Bool-cases (same_member x.event n.event)) [
  | inr f ↦
      rw (f, keep_newest)
        (behind-Covers e x n xs (keep_newest xs n) (keep_newest-Covers events e xs n s.1 t) h)
  | inl f ↦
      rw (f, keep_newest)
        (replace-Covers e x n xs (should_replace_member_event x n) f (replace_order x n s.0.1 t.1)
          h)
]

pub keep_newest-Sound :
    (events : List RankUpdateEvent) (xs : List NormalizedEvent) (n : NormalizedEvent)
    → All (Sound events) xs
    → Sound events n
    → All (Sound events) (keep_newest xs n)
unfolding keep_newest
keep_newest-Sound events [] n s t = (t, tt)
keep_newest-Sound events (x ∷ xs) n s t = elim (Bool-cases (same_member x.event n.event)) [
  | inr f ↦ rw (f, keep_newest) (s.0, keep_newest-Sound events xs n s.1 t)
  | inl f ↦ elim (Bool-cases (should_replace_member_event x n)) [
    | inl g ↦ rw (f, g, keep_newest) (t, s.1)
    | inr g ↦ rw (f, g, keep_newest) s
  ]
]
