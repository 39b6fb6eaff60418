-- ===== src/Auth/Service.antt =====
-- internal/module/auth/service.go: registration, login, refresh and logout.
use contentflow.Prelude.{
  ltb, if◌then◌else◌, trim_space, byte_length, Sentinel, Err, is_error, Result, Proc, pure, raise,
  lift, wrapping, trying, ◌>>=◌, ◌>>◌, ok, err, ℕ, String, Bool, true, false, not, str_eq,
}
use contentflow.Auth.Data.{
  Env, User, RegisterRequest, AuthUser, AuthResponse, World, next_tick, LoginRequest, read_clock,
}
use contentflow.Auth.Repositories.{
  create_user, find_by_email, create_token, find_by_id, find_valid_by_hash, revoke_by_hash,
}
use contentflow.Auth.Token.{JwtTokenManager, generate_refresh_token, generate_access_token}
use contentflow.CollectionJob.Backoff.{add_duration}

-- an error that the caller is to take for another one
abbrev pub translated : {A : Type 0} → Sentinel → Sentinel → String → Result A → Result A
translated sought shown text (ok a) = ok a
translated sought shown text (err e) =
    if is_error e sought then err (Err.sentinel shown) else err (Err.wrap text e)

abbrev pub auth_user : User → AuthUser
auth_user u = record { id = u.id; email = u.email; display_name = u.display_name }

-- `validatePassword`
unfoldable pub validate_password : String → Result (Unit {0})
validate_password password =
    if ltb (byte_length password) 8 then err (Err.sentinel Sentinel.weak_password) else ok tt

module _ (env : Env) where
  -- `normalizeEmail`
  unfoldable pub normalize_email : String → Result String
  normalize_email raw =
      let email = trim_space (env.to_lower raw) in
      if str_eq email ""
      then err (Err.sentinel Sentinel.invalid_email)
      else if not (env.is_address email)
      then err (Err.sentinel Sentinel.invalid_email)
      else ok email

  -- `hashPassword`
  unfoldable pub hash_password : String → Proc World String
  hash_password password w =
      wrapping "hash password" (lift (env.bcrypt w.tick password)) (next_tick w)

  -- `check existing user`: an error, or whether the user exists
  abbrev existing : Result User → Result Bool
  existing (ok u) = ok true
  existing (err e) =
      if is_error e Sentinel.user_not_found
      then ok false
      else err (Err.wrap "check existing user" e)

  -- the rest of `Register` for an address that has no account
  unfoldable pub register_new : String → RegisterRequest → Proc World AuthUser
  register_new email req = do
    password_hash ← wrapping "hash password" (hash_password req.password)
    r ← trying (create_user env email password_hash (trim_space req.display_name))
    u ←
        lift
          (translated Sentinel.email_already_exists Sentinel.email_already_exists "create user" r)
    pure (auth_user u)

  -- `Register`
  unfoldable pub register : RegisterRequest → Proc World AuthUser
  register req = do
    email ← lift (normalize_email req.email)
    lift (validate_password req.password)
    r ← trying (find_by_email env email)
    exists ← lift (existing r)
    elim exists [
      | true ↦ raise (Err.sentinel Sentinel.email_already_exists)
      | false ↦ register_new email req
    ]

-- what `Login` answers to a wrong address and to a wrong password
abbrev refused : {A : Type 0} → Result A
refused = err (Err.sentinel Sentinel.invalid_credentials)

module _ (env : Env) (m : JwtTokenManager) where
  -- the refresh token of `Login` and `Refresh` is stored, and the answer made
  unfoldable pub store_token : User → String → String × String → ℕ → Proc World AuthResponse
  unfolding add_duration
  store_token u access pair now = do
    wrapping "create refresh token"
        (create_token env u.id pair.1 (add_duration now m.refresh_token_ttl))
    pure (record { user = auth_user u; access_token = access; refresh_token = pair.0 })

  -- `Login` once the user is found
  unfoldable pub login_found : String → LoginRequest → User → Proc World AuthResponse
  login_found email req u = elim (env.bcrypt_matches u.password_hash req.password) [
    | false ↦ lift refused
    | true ↦ do
      access ← wrapping "generate token" (generate_access_token env m u.id email)
      pair ← wrapping "generate refresh token" (generate_refresh_token env m)
      now ← read_clock env
      store_token u access pair now
  ]

  abbrev login_email : LoginRequest → Result String → Proc World AuthResponse
  login_email req (err e) = lift refused
  login_email req (ok email) = do
    r ← trying (find_by_email env email)
    u ←
        lift
          (translated Sentinel.user_not_found Sentinel.invalid_credentials "find user by email" r)
    login_found email req u

  -- `Login`
  unfoldable pub login : LoginRequest → Proc World AuthResponse
  login req = login_email req (normalize_email env req.email)

  -- `Refresh` once the old token is revoked
  unfoldable pub refresh_revoked : User → ℕ → Proc World AuthResponse
  refresh_revoked u now = do
    access ← wrapping "generate access token" (generate_access_token env m u.id u.email)
    pair ← wrapping "generate refresh token" (generate_refresh_token env m)
    store_token u access pair now

  -- the rest of `Refresh` for the hash of a token
  unfoldable pub refresh_hash : String → ℕ → Proc World AuthResponse
  refresh_hash hash now = do
    found ← trying (find_valid_by_hash env hash now)
    token ← lift (
        translated Sentinel.refresh_token_not_found Sentinel.invalid_refresh_token
          "find refresh token" found)
    owner ← trying (find_by_id env token.user_id)
    u ←
        lift (
          translated Sentinel.user_not_found Sentinel.invalid_refresh_token "find user by id" owner)
    revoked ← trying (revoke_by_hash env hash now)
    lift (
        translated Sentinel.refresh_token_not_found Sentinel.invalid_refresh_token
          "revoke refresh token" revoked)
    refresh_revoked u now

  -- `Refresh`
  unfoldable pub refresh : String → Proc World AuthResponse
  refresh text =
      let token = trim_space text in
      if str_eq token ""
      then raise (Err.sentinel Sentinel.invalid_refresh_token)
      else do now ← read_clock env; refresh_hash (env.sha256 token) now

module _ (env : Env) where
  -- `Logout`
  unfoldable pub logout : String → Proc World (Unit {0})
  logout text =
      let token = trim_space text in
      if str_eq token "" then raise (Err.sentinel Sentinel.invalid_refresh_token) else do
        now ← read_clock env
        revoked ← trying (revoke_by_hash env (env.sha256 token) now)
        lift (
            translated Sentinel.refresh_token_not_found Sentinel.invalid_refresh_token "logout"
              revoked)

  -- `Me`
  unfoldable pub me : ℕ → Proc World AuthUser
  me user_id = do
    r ← trying (find_by_id env user_id)
    u ← lift (translated Sentinel.user_not_found Sentinel.user_not_found "find current user" r)
    pure (auth_user u)
