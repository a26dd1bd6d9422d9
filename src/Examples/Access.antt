-- ===== src/Examples/Access.antt =====
-- A user with a valid token asks for a route of users.
use fuzoj.Prelude.Text.{to_lower, parse_int64}
use fuzoj.Prelude.{◌≡◌, refl, [], ◌∷◌, true, false, Option, some}
use fuzoj.Prelude.Int.{pos}
use fuzoj.Gateway.Lru.{new_lru_cache, get_item, item, set_item, expiry}
use fuzoj.Gateway.Access.{
  AuthService, parsed, Caches, RedisSets, UserInfo, AuthPolicy, passes, refused, forbidden,
  auth_middleware, extract_bearer_token, role_suffices, fresh, Reach, parse_token,
}
use fuzoj.Gateway.Bans.{mark_banned}
use fuzoj.Gateway.Access.Sound.{Admitted, auth_middleware-admits}

abbrev service : AuthService
service = record {
  jwt_secret = "s";
  jwt_issuer = "fuzoj";
  has_blacklist = true;
  has_ban_repo = true;
  local_ttl = pos 60;
  redis_ttl = pos 60;
  parse = λ raw.
      parsed (record { role = "user"; token_type = "access"; issuer = "fuzoj"; subject = "7" });
  hash_token = λ raw. "h";
  print = λ id. "7";
}

abbrev sets : RedisSets
sets = record { blacklisted = λ h. some false; banned = λ id. some false }

abbrev caches : Caches
caches = record {
  tokens = some (new_lru_cache (pos 8) (pos 60));
  bans = some (new_lru_cache (pos 8) (pos 60));
}

abbrev user_route : AuthPolicy
user_route = record { mode = "required"; roles = "admin" ∷ "USER" ∷ [] }

abbrev user : UserInfo
user = record { id = pos 7; role = "user" }

let_in : (auth_middleware (some service) sets 1 caches user_route "bearer t").0 ≡ passes (some user)
unfolding auth_middleware to_lower extract_bearer_token parse_token parse_int64 get_item item
    new_lru_cache
let_in = refl

-- After the ban is marked, what Redis says no longer matters.
abbrev marked : Caches
marked = record caches { bans = mark_banned 1 (pos 60) "7" (pos 30) caches.bans }

kept_out :
    (auth_middleware (some service) sets 2 marked user_route "bearer t").0 ≡ refused forbidden
unfolding auth_middleware to_lower extract_bearer_token parse_token parse_int64 get_item item
    new_lru_cache mark_banned set_item expiry
kept_out = refl

caches_reached : Reach service caches
unfolding new_lru_cache
caches_reached =
    fresh (some (new_lru_cache (pos 8) (pos 60))) (some (new_lru_cache (pos 8) (pos 60))) refl refl

auth_middleware-admits_example :
    (u : UserInfo) × ◌≡◌ {A = Option UserInfo} (some user) (some u)
    × (role_suffices user_route u.role ≡ true)
    × Admitted service sets (extract_bearer_token "bearer t") u
unfolding to_lower
auth_middleware-admits_example =
    auth_middleware-admits service sets 1 caches user_route "bearer t" (some user) caches_reached
      refl let_in
