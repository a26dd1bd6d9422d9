-- ===== src/Gateway/Bans.antt =====
-- Revoked tokens and banned users (repository/ban_cache.go and token_blacklist.go): a local cache
-- before a set in Redis, which answers as it is told to, with `none` for an error or no Redis.
use fuzoj.Prelude.{ℕ, String, Bool, true, false, Option, none, some, if◌then◌else◌, str_eq}
use fuzoj.Prelude.Int.{ℤ, pos, ltb_ℤ}
use fuzoj.Gateway.Lru.{LruCache, get_item, set_item, delete_item}

-- A look into the local cache, where there is one, and a value put into it.
unfoldable pub local_get : ℕ → Option LruCache → String → Option Bool × Option LruCache
local_get now none k = (none, none)
local_get now (some c) k = let (v, c') = get_item now c k in (v, some c')

unfoldable pub local_set : ℕ → Option LruCache → String → ℤ → Option LruCache
local_set now none k ttl = none
local_set now (some c) k ttl = some (set_item now c k true ttl)

-- IsBanned and IsBlacklisted past their first guard: the answer, `none` for an error, and the cache
unfoldable pub ask_redis :
    ℕ → ℤ → String → Option Bool → Option LruCache → Option Bool × Option LruCache
unfolding local_set
ask_redis now ttl k none local = (none, local)
ask_redis now ttl k (some true) local = (some true, local_set now local k ttl)
ask_redis now ttl k (some false) local = (some false, local)

unfoldable pub is_member :
    ℕ → ℤ → String → Option Bool → Option LruCache → Option Bool × Option LruCache
unfolding local_get ask_redis
is_member now ttl k redis local =
    let (cached, local') = local_get now local k in
    elim cached [ some v ↦ (some v, local') | none ↦ ask_redis now ttl k redis local' ]

-- IsBlacklisted
unfoldable pub is_blacklisted :
    ℕ → ℤ → String → Option Bool → Option LruCache → Option Bool × Option LruCache
unfolding is_member
is_blacklisted now ttl hash redis local =
    if str_eq hash "" then (some false, local) else is_member now ttl hash redis local

-- MarkBanned and UnmarkBanned, by the text of the user's number
unfoldable pub mark_banned : ℕ → ℤ → String → ℤ → Option LruCache → Option LruCache
unfolding local_set
mark_banned now default user ttl local =
    local_set now local user (if ltb_ℤ (pos 0) ttl then ttl else default)

unfoldable pub unmark_banned : String → Option LruCache → Option LruCache
unmark_banned user none = none
unmark_banned user (some c) = some (delete_item c user)
