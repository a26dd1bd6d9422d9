-- ===== src/Gateway/Access.antt =====
-- Who may pass the gateway: service/auth_service.go and middleware/auth.go. The JWT library, SHA-256
-- and the text of a number are parameters. A token is the code points of its text.
pub mod OnlyTrue
pub mod Token
pub mod Sound
use fuzoj.Prelude.{
  ℕ, ◌+◌, List, [], ◌∷◌, map, String, Bool, true, false, ◌&&◌, ◌||◌, not, Option, none, some,
  if◌then◌else◌, ltb, leb, ◌==◌, ◌≡◌, str_eq, length,
}
use fuzoj.Prelude.Int.{ℤ, pos, ltb_ℤ}
use fuzoj.Prelude.Text.{codes, codes_eq, to_lower, trim_space, parse_int64}
use fuzoj.Gateway.Lru.{LruCache, get_item, set_item, delete_item}
use fuzoj.Gateway.Bans.{is_member, is_blacklisted, mark_banned, unmark_banned}

pub data AccessError : Type 0 where
  token_invalid token_expired service_unavailable forbidden : AccessError

-- tokenClaims, and what the library makes of a token.
pub record TokenClaims : Type 0 where
  pub role : String
  pub token_type : String
  pub issuer : String
  pub subject : String

pub data Parsed : Type 0 where
  past_its_time : Parsed
  not_valid : Parsed
  parsed : TokenClaims → Parsed

-- AuthService, with its repositories where they are given, and what it reads.
pub record AuthService : Type 0 where
  pub jwt_secret : String
  pub jwt_issuer : String
  pub has_blacklist : Bool
  pub has_ban_repo : Bool
  pub local_ttl : ℤ
  pub redis_ttl : ℤ
  pub parse : List ℕ → Parsed
  pub hash_token : List ℕ → String
  pub print : ℤ → String

-- The local caches of the two repositories.
pub record Caches : Type 0 where
  pub tokens : Option LruCache
  pub bans : Option LruCache

-- What the two sets in Redis answer.
pub record RedisSets : Type 0 where
  pub blacklisted : String → Option Bool
  pub banned : ℤ → Option Bool

pub record UserInfo : Type 0 where
  pub id : ℤ
  pub role : String

-- A value, or an error.
pub data Result (A : Type 0) : Type 0 where
  done : A → Result A
  denied : AccessError → Result A

-- parseToken past the call of the library, and its two kinds of errors
unfoldable pub check_claims : String → TokenClaims → Result TokenClaims
check_claims issuer c =
    if not (str_eq issuer "") && not (str_eq c.issuer issuer)
    then denied token_invalid
    else if not (str_eq c.token_type "access")
    then denied token_invalid
    else if str_eq c.subject ""
    then denied token_invalid
    else done c

unfoldable pub from_library : String → Parsed → Result TokenClaims
unfolding check_claims
from_library issuer past_its_time = denied token_expired
from_library issuer not_valid = denied token_invalid
from_library issuer (parsed c) = check_claims issuer c

-- parseToken
unfoldable pub parse_token : AuthService → List ℕ → Result TokenClaims
unfolding from_library
parse_token a raw =
    if str_eq a.jwt_secret "" then denied token_invalid else from_library a.jwt_issuer (a.parse raw)

-- The check of a repository, where it is given: an error, or whether it is a member.
abbrev pub when_given :
    Bool → Option Bool × Option LruCache → Option LruCache → Option Bool × Option LruCache
when_given given asked local = if given then asked else (some false, local)

-- `Authenticate` from the ban list on, and from the blacklist on.
unfoldable pub pass_bans : UserInfo → Option Bool → Result UserInfo
pass_bans u none = denied service_unavailable
pass_bans u (some true) = denied forbidden
pass_bans u (some false) = done u

unfoldable pub check_bans :
    AuthService → RedisSets → ℕ → Caches → UserInfo → Result UserInfo × Caches
unfolding pass_bans is_member
check_bans a redis now s u =
    let (banned, bans) =
      when_given a.has_ban_repo
        (is_member now a.redis_ttl (a.print u.id) (redis.banned u.id) s.bans) s.bans in
    (pass_bans u banned, record s { bans = bans })

unfoldable pub pass_blacklist :
    AuthService → RedisSets → ℕ → Caches → UserInfo → Option Bool → Result UserInfo × Caches
unfolding check_bans
pass_blacklist a redis now s u none = (denied service_unavailable, s)
pass_blacklist a redis now s u (some true) = (denied token_invalid, s)
pass_blacklist a redis now s u (some false) = check_bans a redis now s u

unfoldable pub check_blacklist :
    AuthService → RedisSets → ℕ → Caches → List ℕ → UserInfo → Result UserInfo × Caches
unfolding pass_blacklist is_blacklisted
check_blacklist a redis now s raw u =
    let hash = a.hash_token raw in
    let (blacklisted, tokens) =
      when_given a.has_blacklist
        (is_blacklisted now a.local_ttl hash (redis.blacklisted hash) s.tokens) s.tokens in
    pass_blacklist a redis now (record s { tokens = tokens }) u blacklisted

-- `Authenticate` from `parseUserID` on, of the claims' role, and from `parseToken` on.
unfoldable pub with_user :
    AuthService → RedisSets → ℕ → Caches → List ℕ → String → Option ℤ → Result UserInfo × Caches
unfolding check_blacklist
with_user a redis now s raw role none = (denied token_invalid, s)
with_user a redis now s raw role (some id) =
    check_blacklist a redis now s raw (record { id = id; role = role })

unfoldable pub with_claims :
    AuthService → RedisSets → ℕ → Caches → List ℕ → Result TokenClaims → Result UserInfo × Caches
unfolding with_user
with_claims a redis now s raw (denied e) = (denied e, s)
with_claims a redis now s raw (done c) = with_user a redis now s raw c.role (parse_int64 c.subject)

-- Authenticate
unfoldable pub authenticate :
    AuthService → RedisSets → ℕ → Caches → List ℕ → Result UserInfo × Caches
unfolding with_claims
authenticate a redis now s raw =
    if codes_eq raw []
    then (denied token_invalid, s)
    else with_claims a redis now s raw (parse_token a raw)

-- strings.EqualFold, where one of the texts is ASCII
unfoldable pub fold_case : ℕ → ℕ
fold_case c =
    if leb 65 c && leb c 90
    then c + 32
    else if c == 0x17F
    then 115
    else if c == 0x212A
    then 107
    else c

unfoldable pub equal_fold : List ℕ → List ℕ → Bool
unfolding fold_case
equal_fold s t = codes_eq (map fold_case s) (map fold_case t)

-- `strings.SplitN(s, " ", 2)`: the parts before and after the first space
unfoldable pub split_space : List ℕ → Option (List ℕ × List ℕ)
split_space [] = none
split_space (c ∷ cs) =
    let rest = split_space cs in
    if c == 32
    then some ([], cs)
    else elim rest [ none ↦ none | some (front, back) ↦ some (c ∷ front, back) ]

-- extractBearerToken
unfoldable pub extract_bearer_token : String → List ℕ
unfolding split_space equal_fold trim_space
extract_bearer_token header = elim (split_space (codes header)) [
  | none ↦ []
  | some (scheme, token) ↦ if equal_fold scheme (codes "Bearer") then trim_space token else []
]

-- hasRole
unfoldable pub has_role : String → List String → Bool
unfolding equal_fold
has_role role [] = false
has_role role (r ∷ allowed) = equal_fold (codes role) (codes r) || has_role role allowed

pub record AuthPolicy : Type 0 where
  pub mode : String
  pub roles : List String

-- What becomes of a request: it goes on, with a user or without one, or it is refused.
pub data Access : Type 0 where
  passes : Option UserInfo → Access
  refused : AccessError → Access

abbrev pub is_public : AuthPolicy → Bool
is_public p = codes_eq (to_lower (codes p.mode)) (codes "public")

abbrev pub role_suffices : AuthPolicy → String → Bool
role_suffices p role = elim p.roles [ [] ↦ true | r ∷ rs ↦ has_role role (r ∷ rs) ]

unfoldable pub check_role : AuthPolicy → Result UserInfo → Access
unfolding has_role
check_role p (denied e) = refused e
check_role p (done u) = if role_suffices p u.role then passes (some u) else refused forbidden

-- AuthMiddleware, with an authentication service or without one
unfoldable pub auth_middleware :
    Option AuthService → RedisSets → ℕ → Caches → AuthPolicy → String → Access × Caches
unfolding check_role authenticate
auth_middleware service redis now s p header =
    if is_public p then (passes none, s) else elim service [
      | none ↦ (refused service_unavailable, s)
      | some a ↦
          let (result, s') = authenticate a redis now s (extract_bearer_token header) in
          (check_role p result, s')
    ]

abbrev pub is_empty : Option LruCache → Bool
is_empty none = true
is_empty (some c) = length c.order == 0

-- What the caches go through: they start empty or missing, requests are authenticated, and bans are
-- marked and taken back.
pub data Reach (a : AuthService) : Caches → Type 0 where
  fresh :
      (tokens bans : Option LruCache)
      → is_empty tokens ≡ true
      → is_empty bans ≡ true
      → Reach a (record { tokens = tokens; bans = bans })
  authenticates :
      (redis : RedisSets) (now : ℕ) (raw : List ℕ) {s : Caches}
      → Reach a s
      → Reach a (authenticate a redis now s raw).1
  marks :
      (now : ℕ) (user : String) (ttl : ℤ) {s : Caches}
      → Reach a s
      → Reach a (record s { bans = mark_banned now a.redis_ttl user ttl s.bans })
  unmarks :
      (user : String) {s : Caches}
      → Reach a s
      → Reach a (record s { bans = unmark_banned user s.bans })
