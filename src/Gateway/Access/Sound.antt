-- ===== src/Gateway/Access/Sound.antt =====
-- Who passes is who he says, and neither banned nor logged out.
use fuzoj.Prelude.{
  ℕ, ◌≡◌, ◌⊎◌, refl, subst, List, [], String, Bool, true, false, Option, none, some, str_eq,
  str_eq_iff, Bool-cases, inl, inr, arith,
}
use fuzoj.Prelude.Int.{ℤ}
use fuzoj.Prelude.Text.{codes_eq, parse_int64}
use fuzoj.Gateway.Lru.{LruCache}
use fuzoj.Gateway.Access.{
  AuthService, TokenClaims, parsed, Caches, RedisSets, UserInfo, Result, done, denied, AccessError,
  token_invalid, parse_token, with_user, when_given, pass_bans, check_bans, pass_blacklist,
  check_blacklist, with_claims, authenticate, extract_bearer_token, AuthPolicy, passes, is_public,
  role_suffices, check_role, auth_middleware, Reach, fresh, authenticates, marks, unmarks,
}
use fuzoj.Gateway.Bans.{is_blacklisted, mark_banned}
use fuzoj.Gateway.Access.Token.{Parses, parse_token-done}
use fuzoj.Gateway.Access.OnlyTrue.{
  OnlyTrue, is_member-Asked, local_set-OnlyTrue, unmark_banned-OnlyTrue, is_empty-OnlyTrue,
}

abbrev pub Holds : Caches → Type 0
Holds s = OnlyTrue s.tokens × OnlyTrue s.bans

-- What the two sets say of a token and of a user who passes.
abbrev pub NotListed : AuthService → RedisSets → List ℕ → Type 0
NotListed a redis raw =
    (a.has_blacklist ≡ false)
    ⊎ ((a.hash_token raw ≡ "") ⊎ (redis.blacklisted (a.hash_token raw) ≡ some false))

abbrev pub NotBanned : AuthService → RedisSets → ℤ → Type 0
NotBanned a redis id = (a.has_ban_repo ≡ false) ⊎ (redis.banned id ≡ some false)

-- What the token of a user who passes says.
abbrev pub Claims : AuthService → List ℕ → UserInfo → Type 0
Claims a raw u =
    (c : TokenClaims) × (a.parse raw ≡ parsed c)
    × ((a.jwt_issuer ≡ "") ⊎ (c.issuer ≡ a.jwt_issuer))
    × (c.token_type ≡ "access")
    × (parse_int64 c.subject ≡ some u.id)
    × (c.role ≡ u.role)

-- The caches hold, and a user that results meets a condition.
abbrev Outcome : (UserInfo → Type 0) → Result UserInfo × Caches → Type 0
Outcome P r = Holds r.1 × ((v : UserInfo) → r.0 ≡ done v → P v)

denied-Outcome :
    (P : UserInfo → Type 0) (e : AccessError) (s : Caches) → Holds s → Outcome P (denied e, s)
denied-Outcome P e s h = (h, λ v q. absurd (ground arith))

pass_bans-done :
    (u v : UserInfo) (o : Option Bool) → pass_bans u o ≡ done v → (o ≡ some false) × (u ≡ v)
unfolding pass_bans
pass_bans-done u v none h = absurd (ground arith)
pass_bans-done u v (some true) h = absurd (ground arith)
pass_bans-done u v (some false) h = (refl, ground arith)

check_bans-Outcome :
    (a : AuthService) (redis : RedisSets) (now : ℕ) (s : Caches) (u : UserInfo)
    → Holds s
    → Outcome (λ v. (u ≡ v) × NotBanned a redis u.id) (check_bans a redis now s u)
unfolding check_bans
check_bans-Outcome a redis now s u (tokens, bans) =
    let asked = is_member-Asked now a.redis_ttl (a.print u.id) (redis.banned u.id) s.bans bans in
    elim (Bool-cases a.has_ban_repo) [
      | inl e ↦
          simp (e, check_bans)
            (
              (tokens, asked.0),
              λ v q.
                  let (answered, same) = pass_bans-done u v _ q in
                  (
                    same,
                    elim asked.1 [
                      | inl x ↦ absurd (ground arith)
                      | inr (inl x) ↦ absurd (ground arith)
                      | inr (inr x) ↦ inr x
                    ],
                  ),
            )
      | inr e ↦
          simp (e, check_bans)
            ((tokens, bans), λ v q. ((pass_bans-done u v (some false) q).1, inl refl))
    ]

pass_blacklist-Outcome :
    (a : AuthService) (redis : RedisSets) (now : ℕ) (s : Caches) (u : UserInfo) (Q : Type 0)
    (o : Option Bool)
    → Holds s
    → ((o ≡ none) ⊎ ((o ≡ some true) ⊎ Q))
    → Outcome (λ v. Q × ((u ≡ v) × NotBanned a redis u.id)) (pass_blacklist a redis now s u o)
unfolding pass_blacklist
pass_blacklist-Outcome a redis now s u Q none h c = (h, λ v q. absurd (ground arith))
pass_blacklist-Outcome a redis now s u Q (some true) h c = (h, λ v q. absurd (ground arith))
pass_blacklist-Outcome a redis now s u Q (some false) h c =
    let (kept, ok) = check_bans-Outcome a redis now s u h in
    (
      kept,
      λ v q. (
        elim c [
          | inl x ↦ absurd (ground arith)
          | inr (inl x) ↦ absurd (ground arith)
          | inr (inr x) ↦ x
        ],
        ok v q,
      ),
    )

-- The blacklist's answer, where it is given.
blacklist_answer :
    (a : AuthService) (redis : RedisSets) (now : ℕ) (raw : List ℕ) (local : Option LruCache)
    → OnlyTrue local
    → let hash = a.hash_token raw in
      let r =
        when_given a.has_blacklist
          (is_blacklisted now a.local_ttl hash (redis.blacklisted hash) local)
          local in
      OnlyTrue r.1 × ((r.0 ≡ none) ⊎ ((r.0 ≡ some true) ⊎ NotListed a redis raw))
unfolding is_blacklisted
blacklist_answer a redis now raw local h =
    let hash = a.hash_token raw in
    let asked = is_member-Asked now a.local_ttl hash (redis.blacklisted hash) local h in
    elim (Bool-cases a.has_blacklist) [
      | inr e ↦ simp e (h, inr (inr (inl refl)))
      | inl e ↦ elim (Bool-cases (str_eq hash "")) [
        | inl n ↦ simp (e, n, is_blacklisted) (h, inr (inr (inr (inl ((str_eq_iff hash "").0 n)))))
        | inr n ↦
            simp (e, n, is_blacklisted)
              (
                asked.0,
                elim asked.1 [
                  | inl x ↦ inl x
                  | inr (inl x) ↦ inr (inl x)
                  | inr (inr x) ↦ inr (inr (inr (inr x)))
                ],
              )
      ]
    ]

check_blacklist-Outcome :
    (a : AuthService) (redis : RedisSets) (now : ℕ) (s : Caches) (raw : List ℕ) (u : UserInfo)
    → Holds s
    → Outcome
        (λ v. NotListed a redis raw × ((u ≡ v) × NotBanned a redis u.id))
        (check_blacklist a redis now s raw u)
unfolding check_blacklist
check_blacklist-Outcome a redis now s raw u (tokens, bans) =
    let hash = a.hash_token raw in
    let (kept, answer) = blacklist_answer a redis now raw s.tokens tokens in
    let r =
      when_given a.has_blacklist
        (is_blacklisted now a.local_ttl hash (redis.blacklisted hash) s.tokens) s.tokens in
    pass_blacklist-Outcome a redis now (record s { tokens = r.1 }) u (NotListed a redis raw) r.0
      (kept, bans) answer

-- All that is known of a user who passes `authenticate`.
abbrev pub Admitted : AuthService → RedisSets → List ℕ → UserInfo → Type 0
Admitted a redis raw v = Claims a raw v × NotListed a redis raw × NotBanned a redis v.id

with_user-Outcome :
    (a : AuthService) (redis : RedisSets) (now : ℕ) (s : Caches) (raw : List ℕ) (c : TokenClaims)
    (o : Option ℤ)
    → Holds s
    → Parses a raw c
    → parse_int64 c.subject ≡ o
    → Outcome (Admitted a redis raw) (with_user a redis now s raw c.role o)
unfolding with_user
with_user-Outcome a redis now s raw c none h p e = (h, λ v q. absurd (ground arith))
with_user-Outcome a redis now s raw c (some id) h (read, issued, typed) e =
    let u : UserInfo = record { id = id; role = c.role } in
    let (kept, ok) = check_blacklist-Outcome a redis now s raw u h in
    (
      kept,
      λ v q.
          let (listed, (same, banned)) = ok v q in
          subst (Admitted a redis raw) same ((c, read, issued, typed, e, refl), listed, banned),
    )

with_claims-Outcome :
    (a : AuthService) (redis : RedisSets) (now : ℕ) (s : Caches) (raw : List ℕ)
    (r : Result TokenClaims)
    → Holds s
    → ((d : TokenClaims) → r ≡ done d → Parses a raw d)
    → Outcome (Admitted a redis raw) (with_claims a redis now s raw r)
unfolding with_claims
with_claims-Outcome a redis now s raw (denied e) h p = denied-Outcome (Admitted a redis raw) e s h
with_claims-Outcome a redis now s raw (done c) h p =
    with_user-Outcome a redis now s raw c (parse_int64 c.subject) h (p c refl) refl

authenticate-Outcome :
    (a : AuthService) (redis : RedisSets) (now : ℕ) (s : Caches) (raw : List ℕ)
    → Holds s
    → Outcome (Admitted a redis raw) (authenticate a redis now s raw)
unfolding authenticate
authenticate-Outcome a redis now s raw h = elim (Bool-cases (codes_eq raw [])) [
  | inl e ↦ rw (e, authenticate) (denied-Outcome (Admitted a redis raw) token_invalid s h)
  | inr e ↦
      rw (e, authenticate)
        (with_claims-Outcome a redis now s raw (parse_token a raw) h (parse_token-done a raw))
]

Reach-Holds : (a : AuthService) (s : Caches) → Reach a s → Holds s
unfolding mark_banned
Reach-Holds a _ (fresh tokens bans t b) = (is_empty-OnlyTrue tokens t, is_empty-OnlyTrue bans b)
Reach-Holds a _ (authenticates redis now raw {s = s} r) =
    (authenticate-Outcome a redis now s raw (Reach-Holds a s r)).0
Reach-Holds a _ (marks now user ttl {s = s} r) =
    let (tokens, bans) = Reach-Holds a s r in (tokens, local_set-OnlyTrue now s.bans user _ bans)
Reach-Holds a _ (unmarks user {s = s} r) =
    let (tokens, bans) = Reach-Holds a s r in (tokens, unmark_banned-OnlyTrue user s.bans bans)

check_role-passes :
    (p : AuthPolicy) (r : Result UserInfo) (u : UserInfo)
    → check_role p r ≡ passes (some u)
    → (r ≡ done u) × (role_suffices p u.role ≡ true)
unfolding check_role
check_role-passes p (denied e) u h = absurd (ground arith)
check_role-passes p (done v) u h = elim (Bool-cases (role_suffices p v.role)) [
  | inl e ↦
      let same : v ≡ u = ground arith in
      subst (λ u. (done v ≡ done u) × (role_suffices p u.role ≡ true)) same (refl, e)
  | inr e ↦ absurd (ground arith)
]

check_role-none : (p : AuthPolicy) (r : Result UserInfo) → check_role p r ≡ passes none → ⊥
unfolding check_role
check_role-none p (denied e) h = ground arith
check_role-none p (done v) h = ground arith

-- A request that passes a route which is not public, at any time in the gateway's life, has a
-- user: the library has found its token valid, with the issuer that is asked for, if any, of the kind
-- "access", and naming the user and his role; the role suffices for the route; Redis says that the
-- token is not on the blacklist and that the user is not banned, where those repositories are given,
-- whatever the local caches hold.
pub auth_middleware-admits :
    (a : AuthService) (redis : RedisSets) (now : ℕ) (s : Caches) (p : AuthPolicy) (header : String)
    (who : Option UserInfo)
    → Reach a s
    → is_public p ≡ false
    → (auth_middleware (some a) redis now s p header).0 ≡ passes who
    → (u : UserInfo) × (who ≡ some u)
      × (role_suffices p u.role ≡ true)
      × Admitted a redis (extract_bearer_token header) u
unfolding auth_middleware
auth_middleware-admits a redis now s p header none r n h =
    let raw = extract_bearer_token header in
    let passed : check_role p (authenticate a redis now s raw).0 ≡ passes none =
      ground (arith, n, h) in
    absurd (check_role-none p (authenticate a redis now s raw).0 passed)
auth_middleware-admits a redis now s p header (some u) r n h =
    let raw = extract_bearer_token header in
    let passed : check_role p (authenticate a redis now s raw).0 ≡ passes (some u) =
      ground (arith, n, h) in
    let (ended, suffices) = check_role-passes p (authenticate a redis now s raw).0 u passed in
    (u, refl, suffices, (authenticate-Outcome a redis now s raw (Reach-Holds a s r)).1 u ended)
