-- ===== src/Gateway/Access/OnlyTrue.antt =====
-- The local caches only ever hold `true`, so that a cached value never lets anyone pass.
use fuzoj.Prelude.{
  ℕ, ◌≡◌, ◌⊎◌, refl, ap, subst, List, [], ◌∷◌, String, Bool, true, false, Option, none, some, ltb,
  length, str_eq, All, Bool-cases, Option-cases, inl, inr, arith, ◌==◌,
}
use fuzoj.Prelude.Int.{ℤ}
use fuzoj.Gateway.Lru.{
  CacheEntry, LruCache, item, remove_element, evict_oldest, expired, expiry, get_item, set_item,
  delete_item,
}
use fuzoj.Gateway.Access.{is_empty}
use fuzoj.Gateway.Bans.{local_get, local_set, ask_redis, is_member, unmark_banned}

abbrev pub IsTrue : CacheEntry → Type 0
IsTrue e = e.value ≡ true

abbrev pub OnlyTrue : Option LruCache → Type 0
OnlyTrue none = Unit
OnlyTrue (some c) = All IsTrue c.order

All-remove_element :
    (es : List CacheEntry) (k : String) → All IsTrue es → All IsTrue (remove_element es k)
unfolding remove_element
All-remove_element [] k h = tt
All-remove_element (e ∷ es) k h = elim (Bool-cases (str_eq e.key k)) [
  | inl q ↦ rw q (All-remove_element es k h.1)
  | inr q ↦ rw q (h.0, All-remove_element es k h.1)
]

All-evict_oldest : (es : List CacheEntry) → All IsTrue es → All IsTrue (evict_oldest es)
unfolding evict_oldest
All-evict_oldest [] h = tt
All-evict_oldest (e ∷ []) h = tt
All-evict_oldest (e ∷ f ∷ es) h = (h.0, All-evict_oldest (f ∷ es) h.1)

item-IsTrue :
    (es : List CacheEntry) (k : String) (e : CacheEntry)
    → All IsTrue es
    → item es k ≡ some e
    → IsTrue e
unfolding item
item-IsTrue [] k e h q = absurd (ground arith)
item-IsTrue (x ∷ es) k e h q = elim (Bool-cases (str_eq x.key k)) [
  | inl t ↦ let same : x ≡ e = ground arith in subst IsTrue same h.0
  | inr t ↦ let behind : item es k ≡ some e = ground arith in item-IsTrue es k e h.1 behind
]

-- A look leaves the cache as it should be, and finds nothing but `true`.
abbrev Looked : Option Bool × Option LruCache → Type 0
Looked r = OnlyTrue r.1 × ((r.0 ≡ none) ⊎ (r.0 ≡ some true))

get_item-Looked :
    (now : ℕ) (c : LruCache) (k : String)
    → All IsTrue c.order
    → All IsTrue (get_item now c k).1.order
      × (((get_item now c k).0 ≡ none) ⊎ ((get_item now c k).0 ≡ some true))
unfolding get_item
get_item-Looked now c k h = elim (Option-cases (item c.order k)) [
  | inl q ↦ rw (q, get_item) (h, inl refl)
  | inr (e, q) ↦
      let value = item-IsTrue c.order k e h q in
      elim (Bool-cases (expired now e.expires_at)) [
        | inl x ↦ rw (q, get_item, x) (All-remove_element c.order k h, inl refl)
        | inr x ↦ rw (q, get_item, x) ((value, All-remove_element c.order k h), inr (ap some value))
      ]
]

local_get-Looked :
    (now : ℕ) (local : Option LruCache) (k : String)
    → OnlyTrue local
    → Looked (local_get now local k)
unfolding local_get
local_get-Looked now none k h = (tt, inl refl)
local_get-Looked now (some c) k h = get_item-Looked now c k h

set_item-OnlyTrue :
    (now : ℕ) (c : LruCache) (k : String) (ttl : ℤ)
    → All IsTrue c.order
    → All IsTrue (set_item now c k true ttl).order
unfolding set_item
set_item-OnlyTrue now c k ttl h =
    let new : CacheEntry = record { key = k; value = true; expires_at = expiry now c.ttl ttl } in
    elim (Option-cases (item c.order k)) [
      | inr (e, q) ↦ rw (q, set_item) (refl, All-remove_element c.order k h)
      | inl q ↦ elim (Bool-cases (ltb c.max_size (length (new ∷ c.order)))) [
        | inl x ↦ rw (q, set_item, x) (All-evict_oldest (new ∷ c.order) (refl, h))
        | inr x ↦ rw (q, set_item, x) (refl, h)
      ]
    ]

pub local_set-OnlyTrue :
    (now : ℕ) (local : Option LruCache) (k : String) (ttl : ℤ)
    → OnlyTrue local
    → OnlyTrue (local_set now local k ttl)
unfolding local_set
local_set-OnlyTrue now none k ttl h = tt
local_set-OnlyTrue now (some c) k ttl h = set_item-OnlyTrue now c k ttl h

pub unmark_banned-OnlyTrue :
    (user : String) (local : Option LruCache) → OnlyTrue local → OnlyTrue (unmark_banned user local)
unfolding unmark_banned delete_item
unmark_banned-OnlyTrue user none h = tt
unmark_banned-OnlyTrue user (some c) h = All-remove_element c.order user h

pub is_empty-OnlyTrue : (local : Option LruCache) → is_empty local ≡ true → OnlyTrue local
is_empty-OnlyTrue none h = tt
is_empty-OnlyTrue (some c) h = no_entries c.order h
  where
    no_entries : (es : List CacheEntry) → (length es == 0) ≡ true → All IsTrue es
    no_entries [] q = tt
    no_entries (e ∷ es) q = absurd (ground arith)

-- An answer that is not `true`, an error aside, is Redis's own.
abbrev pub Asked : Option Bool → Option Bool × Option LruCache → Type 0
Asked redis r = OnlyTrue r.1 × ((r.0 ≡ none) ⊎ (r.0 ≡ some true) ⊎ (redis ≡ some false))

ask_redis-Asked :
    (now : ℕ) (ttl : ℤ) (k : String) (redis : Option Bool) (local : Option LruCache)
    → OnlyTrue local
    → Asked redis (ask_redis now ttl k redis local)
unfolding ask_redis
ask_redis-Asked now ttl k none local h = (h, inl refl)
ask_redis-Asked now ttl k (some true) local h =
    (local_set-OnlyTrue now local k ttl h, inr (inl refl))
ask_redis-Asked now ttl k (some false) local h = (h, inr (inr refl))

pub is_member-Asked :
    (now : ℕ) (ttl : ℤ) (k : String) (redis : Option Bool) (local : Option LruCache)
    → OnlyTrue local
    → Asked redis (is_member now ttl k redis local)
unfolding is_member
is_member-Asked now ttl k redis local h =
    let (kept, found) = local_get-Looked now local k h in
    elim found [
      | inl q ↦ rw (q, is_member) (ask_redis-Asked now ttl k redis (local_get now local k).1 kept)
      | inr q ↦ rw (q, is_member) (kept, inr (inl refl))
    ]
