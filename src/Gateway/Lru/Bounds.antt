-- ===== src/Gateway/Lru/Bounds.antt =====
-- What the cache holds after any calls.
use fuzoj.Prelude.{
  ℕ, ◌≤◌, ◌<◌, ◌≡◌, refl, sym, inl, inr, List, [], ◌∷◌, String, Bool, true, Option, none, some,
  if◌then◌else◌, ltb, str_eq, str_eq_iff, str_eq_refl, length, arith, tally, Bool-cases,
}
use fuzoj.Prelude.Int.{ℤ}
use fuzoj.Gateway.Lru.{
  CacheEntry, LruCache, new_lru_cache, item, remove_element, evict_oldest, expired, expiry,
  get_item, set_item, delete_item, Call, gets, sets, deletes, called, calls,
}

-- How many entries have a key.
abbrev pub entries_under : String → List CacheEntry → ℕ
entries_under k = tally λ e. str_eq e.key k

-- The cache is within its size, and holds a key once.
pub record IsBounded (c : LruCache) : Type 0 where
  pub some_room : 0 < c.max_size
  pub within_size : length c.order ≤ c.max_size
  pub once : (k : String) → entries_under k c.order ≤ 1

item-none : (es : List CacheEntry) (k : String) → item es k ≡ none → entries_under k es ≡ 0
unfolding item
item-none [] k h = refl
item-none (e ∷ es) k h = ground (arith, item-none es k)

entries_under-remove_element :
    (es : List CacheEntry) (k j : String)
    → (entries_under k (remove_element es k) ≡ 0)
      × (entries_under j (remove_element es k) ≤ entries_under j es)
      × (length (remove_element es k) ≤ length es)
unfolding remove_element
entries_under-remove_element [] k j = (refl, omega arith, omega arith)
entries_under-remove_element (e ∷ es) k j = ground (arith, entries_under-remove_element es k j)

item-some :
    (es : List CacheEntry) (k : String) (e : CacheEntry)
    → item es k ≡ some e
    → (str_eq e.key k ≡ true) × (length (remove_element es k) < length es)
unfolding item remove_element
item-some [] k e h = cc
item-some (x ∷ xs) k e h = elim (Bool-cases (str_eq x.key k)) [
  | inl q ↦
      let same : x ≡ e = ground (arith, h, q) in
      (rw (sym same) q, ground (arith, q, entries_under-remove_element xs k k))
  | inr q ↦
      let (named, shorter) = item-some xs k e (ground (arith, h, q)) in
      (named, ground (arith, q, shorter))
]

length-evict_oldest :
    (e : CacheEntry) (es : List CacheEntry) → length (evict_oldest (e ∷ es)) ≡ length es
unfolding evict_oldest
length-evict_oldest e [] = refl
length-evict_oldest e (f ∷ es) = omega (arith, length-evict_oldest f es)

entries_under-evict_oldest :
    (es : List CacheEntry) (k : String) → entries_under k (evict_oldest es) ≤ entries_under k es
unfolding evict_oldest
entries_under-evict_oldest [] k = omega arith
entries_under-evict_oldest (e ∷ []) k = omega arith
entries_under-evict_oldest (e ∷ f ∷ es) k = ground (arith, entries_under-evict_oldest (f ∷ es) k)

-- An entry moved to the front, or put there.
moved-IsBounded :
    (c : LruCache) (k : String) (e f : CacheEntry)
    → IsBounded c
    → item c.order k ≡ some e
    → str_eq f.key k ≡ true
    → IsBounded (record c { order = f ∷ remove_element c.order k })
moved-IsBounded c k e f b h q = record {
  some_room = b.some_room;
  within_size = omega (arith, b.within_size, (item-some c.order k e h).1);
  once = λ j. ground (
    arith,
    entries_under-remove_element c.order k j,
    b.once j,
    str_eq_iff f.key k,
    str_eq_iff f.key j,
  );
}

removed-IsBounded :
    (c : LruCache) (k : String)
    → IsBounded c
    → IsBounded (record c { order = remove_element c.order k })
removed-IsBounded c k b = record {
  some_room = b.some_room;
  within_size = omega (arith, b.within_size, entries_under-remove_element c.order k k);
  once = λ j. omega (arith, entries_under-remove_element c.order k j, b.once j);
}

get_item-IsBounded :
    (now : ℕ) (c : LruCache) (k : String) → IsBounded c → IsBounded (get_item now c k).1
unfolding get_item
get_item-IsBounded now c k b = go (item c.order k) refl
  where
    go : (o : Option CacheEntry) → item c.order k ≡ o → IsBounded (get_item now c k).1
    go none h = rw (h, get_item) b
    go (some e) h = elim (Bool-cases (expired now e.expires_at)) [
      | inl q ↦ rw (h, get_item) (rw q (removed-IsBounded c k b))
      | inr q ↦ rw (h, get_item) (rw q (moved-IsBounded c k e e b h (item-some c.order k e h).0))
    ]

set_item-IsBounded :
    (now : ℕ) (c : LruCache) (k : String) (v : Bool) (ttl : ℤ)
    → IsBounded c
    → IsBounded (set_item now c k v ttl)
unfolding set_item
set_item-IsBounded now c k v ttl b = go (item c.order k) refl
  where
    fresh : CacheEntry
    fresh = record { key = k; value = v; expires_at = expiry now c.ttl ttl }

    go : (o : Option CacheEntry) → item c.order k ≡ o → IsBounded (set_item now c k v ttl)
    go (some e) h = rw (h, set_item) (moved-IsBounded c k e fresh b h (str_eq_refl k))
    go none h = elim (Bool-cases (ltb c.max_size (length (fresh ∷ c.order)))) [
      | inl full ↦
          rw (h, set_item)
            (rw full (record {
              some_room = b.some_room;
              within_size = omega (arith, length-evict_oldest fresh c.order, b.within_size);
              once = λ j. ground (
                arith,
                entries_under-evict_oldest (fresh ∷ c.order) j,
                item-none c.order k h,
                b.once j,
                str_eq_iff k j,
              );
            }))
      | inr room ↦
          rw (h, set_item)
            (rw room (record {
              some_room = b.some_room;
              within_size = ground (arith, room);
              once = λ j. ground (arith, item-none c.order k h, b.once j, str_eq_iff k j);
            }))
    ]

calls-IsBounded : (c : LruCache) (xs : List Call) → IsBounded c → IsBounded (calls c xs)
calls-IsBounded c [] b = b
calls-IsBounded c (gets now k ∷ xs) b =
    calls-IsBounded (get_item now c k).1 xs (get_item-IsBounded now c k b)
calls-IsBounded c (sets now k v ttl ∷ xs) b =
    calls-IsBounded (set_item now c k v ttl) xs (set_item-IsBounded now c k v ttl b)
calls-IsBounded c (deletes k ∷ xs) b =
    calls-IsBounded (called c (deletes k)) xs (unfold delete_item in removed-IsBounded c k b)

new_lru_cache-IsBounded : (max_size ttl : ℤ) → IsBounded (new_lru_cache max_size ttl)
unfolding new_lru_cache
new_lru_cache-IsBounded max_size ttl = record {
  some_room = ground arith;
  within_size = omega arith;
  once = λ k. omega arith;
}

-- Whatever size is asked for and whichever calls follow, the cache has room for an entry, is never
-- larger than its maximal size, and holds no key twice.
pub calls-new_lru_cache :
    (max_size ttl : ℤ) (xs : List Call) → IsBounded (calls (new_lru_cache max_size ttl) xs)
calls-new_lru_cache max_size ttl xs =
    calls-IsBounded (new_lru_cache max_size ttl) xs (new_lru_cache-IsBounded max_size ttl)

-- An entry that is evicted is not the one at the front of several.
item-evict_oldest :
    (e : CacheEntry) (es : List CacheEntry) (k : String)
    → str_eq e.key k ≡ true
    → 0 < length es
    → item (evict_oldest (e ∷ es)) k ≡ some e
unfolding evict_oldest item
item-evict_oldest e [] k q lt = absurd (omega arith)
item-evict_oldest e (f ∷ es) k q lt = ground (arith, q)

item-set_item :
    (now : ℕ) (c : LruCache) (k : String) (v : Bool) (ttl : ℤ)
    → IsBounded c
    → item (set_item now c k v ttl).order k
      ≡ some (record { key = k; value = v; expires_at = expiry now c.ttl ttl })
unfolding set_item item
item-set_item now c k v ttl b = go (item c.order k) refl
  where
    fresh : CacheEntry
    fresh = record { key = k; value = v; expires_at = expiry now c.ttl ttl }

    go :
        (o : Option CacheEntry)
        → item c.order k ≡ o
        → item (set_item now c k v ttl).order k ≡ some fresh
    go (some e) h = rw (h, set_item) (ground (arith, str_eq_refl k))
    go none h = elim (Bool-cases (ltb c.max_size (length (fresh ∷ c.order)))) [
      | inl full ↦
          rw (h, set_item)
            (rw full (
              item-evict_oldest fresh c.order k (str_eq_refl k)
                (ground (arith, b.some_room, full))))
      | inr room ↦ rw (h, set_item) (rw room (ground (arith, str_eq_refl k)))
    ]

-- After any calls, a value that is set is what `Get` finds, until it has expired.
pub get_item-set_item :
    (max_size default : ℤ) (xs : List Call) (now later : ℕ) (k : String) (v : Bool) (ttl : ℤ)
    → let c = calls (new_lru_cache max_size default) xs in
      (get_item later (set_item now c k v ttl) k).0
      ≡ (if expired later (expiry now c.ttl ttl) then none else some v)
unfolding get_item set_item
get_item-set_item max_size default xs now later k v ttl =
    rw
      (
        get_item,
        item-set_item now c k v ttl (
            calls-IsBounded (new_lru_cache max_size default) xs
              (new_lru_cache-IsBounded max_size default)),
      )
      (ground arith)
  where
    c : LruCache
    c = calls (new_lru_cache max_size default) xs
