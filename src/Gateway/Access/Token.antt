-- ===== src/Gateway/Access/Token.antt =====
-- What is known of a token that `parseToken` lets through.
use fuzoj.Prelude.{
  ℕ, ◌≡◌, ◌⊎◌, refl, subst, List, String, str_eq, str_eq_iff, Bool-cases, inl, inr, arith,
}
use fuzoj.Gateway.Access.{
  AuthService, TokenClaims, Parsed, past_its_time, not_valid, parsed, done, check_claims,
  from_library, parse_token,
}

check_claims-done :
    (issuer : String) (c d : TokenClaims)
    → check_claims issuer c ≡ done d
    → (c ≡ d) × ((issuer ≡ "") ⊎ (c.issuer ≡ issuer)) × (c.token_type ≡ "access")
unfolding check_claims
check_claims-done issuer c d h = (
  ground (arith, h),
  elim (Bool-cases (str_eq issuer "")) [
    | inl e ↦ inl ((str_eq_iff issuer "").0 e)
    | inr e ↦ inr ((str_eq_iff c.issuer issuer).0 (ground (arith, h, e)))
  ],
  (str_eq_iff c.token_type "access").0 (ground (arith, h)),
)

-- What `parse_token` lets through.
abbrev pub Parses : AuthService → List ℕ → TokenClaims → Type 0
Parses a raw d =
    (a.parse raw ≡ parsed d)
    × ((a.jwt_issuer ≡ "") ⊎ (d.issuer ≡ a.jwt_issuer))
    × (d.token_type ≡ "access")

from_library-done :
    (issuer : String) (o : Parsed) (d : TokenClaims)
    → from_library issuer o ≡ done d
    → (o ≡ parsed d) × ((issuer ≡ "") ⊎ (d.issuer ≡ issuer)) × (d.token_type ≡ "access")
unfolding from_library
from_library-done issuer past_its_time d h = absurd (ground arith)
from_library-done issuer not_valid d h = absurd (ground arith)
from_library-done issuer (parsed c) d h =
    let (same, issued, typed) = check_claims-done issuer c d h in
    subst
      (λ d.
        (parsed c ≡ parsed d) × ((issuer ≡ "") ⊎ (d.issuer ≡ issuer)) × (d.token_type ≡ "access"))
      same (refl, issued, typed)

pub parse_token-done :
    (a : AuthService) (raw : List ℕ) (d : TokenClaims) → parse_token a raw ≡ done d → Parses a raw d
unfolding parse_token
parse_token-done a raw d h = elim (Bool-cases (str_eq a.jwt_secret "")) [
  | inl e ↦ absurd (ground arith)
  | inr e ↦
      let read : from_library a.jwt_issuer (a.parse raw) ≡ done d = ground arith in
      from_library-done a.jwt_issuer (a.parse raw) d read
]
