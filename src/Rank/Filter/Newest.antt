-- ===== src/Rank/Filter/Newest.antt =====
-- The filter keeps the newest event of every member, where every event has a result id.
use fuzoj.Prelude.{
  ℕ, ◌≤◌, ◌<◌, ◌≡◌, refl, sym, List, [], ◌∷◌, true, false, ◌⊎◌, inl, inr, some, arith, str_eq_iff,
  All, Any, Among, tally, map, subst,
}
use fuzoj.Prelude.Sort.{sort_stable, All-sort_stable, Any-sort_stable, tally-sort_stable}
use fuzoj.Prelude.ListLaws.{All-imp, All-Among, All-map, Any-map, tally-map}
use fuzoj.Prelude.Assoc.{Assoc}
use fuzoj.Rank.Event.{RankUpdateEvent}
use fuzoj.Rank.Filter.{
  NormalizedEvent, numbered_event, RankUpdateMeta, accepted, Collected, stopped, collected, collect,
  filtered, normalize, keep_newest, same_member, before, sort_and_filter_rank_updates,
}
use fuzoj.Rank.Filter.Covers.{
  Numbered, Sound, Covers, same_member_trans, same_member-join, keep_newest-Covers,
  keep_newest-Sound,
}

-- How many entries are of the event's member.
abbrev entries_of : RankUpdateEvent → List NormalizedEvent → ℕ
entries_of e = tally λ n. same_member n.event e

keep_newest-once :
    (e : RankUpdateEvent) (xs : List NormalizedEvent) (n : NormalizedEvent)
    → entries_of e xs ≤ 1
    → (entries_of e (keep_newest xs n) ≤ 1)
      × (same_member n.event e ≡ false → entries_of e (keep_newest xs n) ≡ entries_of e xs)
unfolding keep_newest
keep_newest-once e [] n h = ground arith
keep_newest-once e (x ∷ xs) n h = ground (
  arith,
  same_member_trans x.event n.event e,
  same_member-join x.event n.event e,
  keep_newest-once e xs n,
)

normalize-Numbered :
    (e : RankUpdateEvent) → 0 < e.result_id → normalize e ≡ some (numbered_event e 0)
unfolding normalize
normalize-Numbered e h = ground arith

-- What the collected entries say of the events: they are among them, at most one is of a member,
-- and those collected are covered.
abbrev Collects : List RankUpdateEvent → List RankUpdateEvent → List NormalizedEvent → Type 0
Collects events seen latest =
    All (Sound events) latest
    × ((e : RankUpdateEvent) → entries_of e latest ≤ 1)
    × ((e : RankUpdateEvent) → Among e seen → Any (Covers e) latest)

same_member_self : (e : RankUpdateEvent) → same_member e e ≡ true
same_member_self e =
    ground (arith, str_eq_iff e.contest_id e.contest_id, str_eq_iff e.member_id e.member_id)

collect-cons :
    (latest result : List NormalizedEvent) (e : RankUpdateEvent) (es : List RankUpdateEvent)
    → 0 < e.result_id
    → collect latest (e ∷ es) ≡ collected result
    → collect (keep_newest latest (numbered_event e 0)) es ≡ collected result
unfolding collect
collect-cons latest result e es p h = ground (arith, normalize-Numbered e p)

Collects-cons :
    (events seen : List RankUpdateEvent) (latest : List NormalizedEvent) (e : RankUpdateEvent)
    → Among e events
    → Collects events seen latest
    → Collects events (e ∷ seen) (keep_newest latest (numbered_event e 0))
Collects-cons events seen latest e within (s, o, c) =
    (keep_newest-Sound events latest n s t, λ e'. (keep_newest-once e' latest n (o e')).0, covered)
  where
    n : NormalizedEvent
    n = numbered_event e 0

    t : Sound events n
    t = (within, refl)

    covered : (e' : RankUpdateEvent) → Among e' (e ∷ seen) → Any (Covers e') (keep_newest latest n)
    covered e' (inl q) =
        keep_newest-Covers events e' latest n s t
          (inr (subst (λ k. Covers k n) (sym q) (same_member_self e, omega arith)))
    covered e' (inr a) = keep_newest-Covers events e' latest n s t (inl (c e' a))

all_seen :
    (e d : RankUpdateEvent) (seen es : List RankUpdateEvent)
    → Among e seen ⊎ Among e (d ∷ es)
    → Among e (d ∷ seen) ⊎ Among e es
all_seen e d seen es (inl a) = inl (inr a)
all_seen e d seen es (inr (inl q)) = inl (inl q)
all_seen e d seen es (inr (inr a)) = inr a

collect-Collects :
    (events seen rest : List RankUpdateEvent) (latest result : List NormalizedEvent)
    → Numbered rest
    → All (λ e. Among e events) rest
    → Collects events seen latest
    → collect latest rest ≡ collected result
    → All (Sound events) result
      × ((e : RankUpdateEvent) → entries_of e result ≤ 1)
      × ((e : RankUpdateEvent) → Among e seen ⊎ Among e rest → Any (Covers e) result)
unfolding collect
collect-Collects events seen [] latest result n within c h =
    subst
      (λ r.
        All (Sound events) r
        × ((e : RankUpdateEvent) → entries_of e r ≤ 1)
        × ((e : RankUpdateEvent) → Among e seen ⊎ Among e [] → Any (Covers e) r))
      (cc) (c.0, c.1, λ e a. elim a [ inl q ↦ c.2 e q | inr q ↦ absurd q ])
collect-Collects events seen (e ∷ es) latest result n within c h =
    let (s, o, all) =
      collect-Collects events (e ∷ seen) es (keep_newest latest (numbered_event e 0)) result n.1
        within.1 (Collects-cons events seen latest e within.0 c)
        (collect-cons latest result e es n.0 h) in
    (s, o, λ d a. all d (all_seen d e seen es a))

filtered-accepted :
    (c : Collected) (out : List RankUpdateEvent) (info : Assoc RankUpdateMeta)
    → filtered c ≡ accepted out info
    → (latest : List NormalizedEvent) × (c ≡ collected latest)
      × (out ≡ sort_stable before (map (λ n. n.event) latest))
unfolding filtered
filtered-accepted (stopped e) out info h = cc
filtered-accepted (collected latest) out info h = (latest, refl, ground arith)

-- Where every event has a result id and the filter accepts them, each event that it passes on is
-- one of them, at most one is passed on for a contest and member, and for every event one of its
-- contest and member is passed on whose result id is at least its own.
pub sort_and_filter_rank_updates-newest :
    (events out : List RankUpdateEvent) (info : Assoc RankUpdateMeta)
    → Numbered events
    → sort_and_filter_rank_updates events ≡ accepted out info
    → All (λ f. Among f events) out
      × ((e : RankUpdateEvent) → tally (λ f. same_member f e) out ≤ 1)
      × ((e : RankUpdateEvent)
          → Among e events
          → Any (λ f. (same_member f e ≡ true) × (e.result_id ≤ f.result_id)) out)
unfolding sort_and_filter_rank_updates
sort_and_filter_rank_updates-newest events out info n h =
    let (latest, c, sorted) = filtered-accepted (collect [] events) out info h in
    let (s, o, all) =
      collect-Collects events [] events [] latest n (All-Among events)
        (tt, λ e. omega arith, λ e a. a) c in
    rw sorted (
      (All-sort_stable (λ f. Among f events) before (map (λ k. k.event) latest)
          (All-map (λ f. Among f events) (λ k. k.event) latest
            (All-imp (Sound events) (λ k. Among k.event events) latest (λ k q. q.0) s))).0,
      λ e. omega (
        arith,
        tally-sort_stable (λ f. same_member f e) before (map (λ k. k.event) latest),
        tally-map (λ f. same_member f e) (λ k. k.event) latest,
        o e,
      ),
      λ e a.
          Any-sort_stable (λ f. (same_member f e ≡ true) × (e.result_id ≤ f.result_id)) before
            (map (λ k. k.event) latest)
            (Any-map (λ f. (same_member f e ≡ true) × (e.result_id ≤ f.result_id)) (λ k. k.event)
              latest (all e (inr a))),
    )
