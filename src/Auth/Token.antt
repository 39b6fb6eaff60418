-- ===== src/Auth/Token.antt =====
-- internal/module/auth/token.go: the manager of access tokens and refresh tokens.
use contentflow.Prelude.{
  if◌then◌else◌, ℤ, pos, leb_ℤ, Err, Result, Proc, lift, wrapping, ◌>>=◌, ok, err, ℕ, String,
  str_eq,
}
use contentflow.Auth.Data.{Env, AccessTokenClaims, World, next_tick, read_clock}
use contentflow.CollectionJob.Backoff.{add_duration}

pub record JwtTokenManager : Type 0 where
  pub secret : String
  pub issuer : String
  pub access_token_ttl : ℤ
  pub refresh_token_ttl : ℤ

-- `NewJWTTokenManager`
unfoldable pub new_jwt_token_manager : JwtTokenManager → Result JwtTokenManager
new_jwt_token_manager cfg =
    if str_eq cfg.secret ""
    then err (Err.other "jwt secret is required")
    else if leb_ℤ cfg.access_token_ttl (pos 0)
    then err (Err.other "access token ttl must be positive")
    else if leb_ℤ cfg.refresh_token_ttl (pos 0)
    then err (Err.other "refresh token ttl must be positive")
    else ok (if str_eq cfg.issuer "" then record cfg { issuer = "contentflow" } else cfg)

module _ (env : Env) (m : JwtTokenManager) where
  abbrev pub claims_at : ℕ → ℕ → String → AccessTokenClaims
  claims_at now user_id email = record {
    user_id = pos user_id;
    email = email;
    issuer = m.issuer;
    expires_at = add_duration now m.access_token_ttl;
    issued_at = now;
  }

  -- `GenerateAccessToken`
  unfoldable pub generate_access_token : ℕ → String → Proc World String
  unfolding add_duration
  generate_access_token user_id email = do
    now ← read_clock env
    wrapping "sign access token" (lift (env.sign m.secret (claims_at now user_id email)))

  -- `GenerateRefreshToken`: the token and its hash
  unfoldable pub generate_refresh_token : Proc World (String × String)
  generate_refresh_token w = elim (env.random_token w.tick) [
    | err e ↦ (err (Err.wrap "generate refresh token" e), next_tick w)
    | ok token ↦ (ok (token, env.sha256 token), next_tick w)
  ]

  -- `ParseAccessToken`
  unfoldable pub parse_access_token : String → Proc World AccessTokenClaims
  parse_access_token token = do
    now ← read_clock env
    wrapping "parse access token" (lift (env.read m.secret m.issuer now token))
