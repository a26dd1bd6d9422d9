-- ===== src/Examples/Gateway.antt =====
-- A cache of two entries whose third entry drops the oldest.
use fuzoj.Prelude.{◌≡◌, refl, List, [], ◌∷◌, true, false, none, some, if◌then◌else◌, map}
use fuzoj.Prelude.Int.{pos}
use fuzoj.Gateway.Lru.{
  Call, gets, sets, LruCache, calls, new_lru_cache, get_item, set_item, expired, expiry, item,
  remove_element, evict_oldest,
}
use fuzoj.Gateway.Lru.Bounds.{IsBounded, calls-new_lru_cache, get_item-set_item}

abbrev three_calls : List Call
three_calls =
    sets 1 "ann" true (pos 0)
    ∷ sets 2 "bob" false (pos 0)
    ∷ gets 3 "ann"
    ∷ sets 4 "eve" true (pos 0)
    ∷ []

abbrev cache : LruCache
cache = calls (new_lru_cache (pos 2) (pos 10)) three_calls

-- The entry that was read stays.
oldest_dropped : map (λ e. e.key) cache.order ≡ "eve" ∷ "ann" ∷ []
unfolding set_item item get_item new_lru_cache expiry remove_element evict_oldest
oldest_dropped = refl

calls-new_lru_cache_example : IsBounded (calls (new_lru_cache (pos 2) (pos 10)) three_calls)
calls-new_lru_cache_example = calls-new_lru_cache (pos 2) (pos 10) three_calls

get_item-set_item_example :
    (get_item 14 (set_item 5 cache "bob" true (pos 0)) "bob").0
    ≡ (if expired 14 (expiry 5 cache.ttl (pos 0)) then none else some true)
get_item-set_item_example = get_item-set_item (pos 2) (pos 10) three_calls 5 14 "bob" true (pos 0)
