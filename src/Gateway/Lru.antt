-- ===== src/Gateway/Lru.antt =====
-- `LRUCache` (repository/lru_cache.go), whose methods hold its lock from end to end. The elements
-- of `order`, the latest first, are those of `items` under their keys, so that one list stands for
-- both. The time of a call is an argument.
pub mod Bounds
use fuzoj.Prelude.{
  ℕ, ◌+◌, List, [], ◌∷◌, String, Bool, true, false, Option, none, some, if◌then◌else◌, ltb, str_eq,
  length,
}
use fuzoj.Prelude.Int.{ℤ, pos, pos_part, ltb_ℤ, eq_ℤ}

-- cacheEntry; no `expires_at` is the zero time.
pub record CacheEntry : Type 0 where
  pub key : String
  pub value : Bool
  pub expires_at : Option ℕ

-- LRUCache
pub record LruCache : Type 0 where
  pub order : List CacheEntry
  pub max_size : ℕ
  pub ttl : ℤ

-- NewLRUCache
unfoldable pub new_lru_cache : ℤ → ℤ → LruCache
new_lru_cache max_size ttl = record {
  order = [];
  max_size = if ltb_ℤ (pos 0) max_size then pos_part max_size else 1024;
  ttl = ttl;
}

-- c.items[key]
unfoldable pub item : List CacheEntry → String → Option CacheEntry
item [] k = none
item (e ∷ es) k = if str_eq e.key k then some e else item es k

-- removeElement
unfoldable pub remove_element : List CacheEntry → String → List CacheEntry
remove_element [] k = []
remove_element (e ∷ es) k =
    let rest = remove_element es k in if str_eq e.key k then rest else e ∷ rest

-- evictOldest
unfoldable pub evict_oldest : List CacheEntry → List CacheEntry
evict_oldest [] = []
evict_oldest (e ∷ []) = []
evict_oldest (e ∷ f ∷ es) = e ∷ evict_oldest (f ∷ es)

-- `!entry.expiresAt.IsZero() && time.Now().After(entry.expiresAt)`
abbrev pub expired : ℕ → Option ℕ → Bool
expired now none = false
expired now (some at) = ltb at now

-- `exp` of `Set`
unfoldable pub expiry : ℕ → ℤ → ℤ → Option ℕ
expiry now default ttl =
    let used = (if eq_ℤ ttl (pos 0) then default else ttl) in
    if ltb_ℤ (pos 0) used then some (now + pos_part used) else none

-- Get: the value if there is one, and the cache after it
unfoldable pub get_item : ℕ → LruCache → String → Option Bool × LruCache
get_item now c k = elim (item c.order k) [
  | none ↦ (none, c)
  | some e ↦
      if expired now e.expires_at
      then (none, record c { order = remove_element c.order k })
      else (some e.value, record c { order = e ∷ remove_element c.order k })
]

-- Set
unfoldable pub set_item : ℕ → LruCache → String → Bool → ℤ → LruCache
set_item now c k v ttl =
    let fresh : CacheEntry = record { key = k; value = v; expires_at = expiry now c.ttl ttl } in
    elim (item c.order k) [
      | some e ↦ record c { order = fresh ∷ remove_element c.order k }
      | none ↦
          if ltb c.max_size (length (fresh ∷ c.order))
          then record c { order = evict_oldest (fresh ∷ c.order) }
          else record c { order = fresh ∷ c.order }
    ]

-- Delete
unfoldable pub delete_item : LruCache → String → LruCache
delete_item c k = record c { order = remove_element c.order k }

-- A call of one of the methods.
pub data Call : Type 0 where
  gets : ℕ → String → Call
  sets : ℕ → String → Bool → ℤ → Call
  deletes : String → Call

abbrev pub called : LruCache → Call → LruCache
called c (gets now k) = (get_item now c k).1
called c (sets now k v ttl) = set_item now c k v ttl
called c (deletes k) = delete_item c k

abbrev pub calls : LruCache → List Call → LruCache
calls c [] = c
calls c (x ∷ xs) = calls (called c x) xs
