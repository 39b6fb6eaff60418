-- ===== src/Auth/Repositories.antt =====
-- internal/module/user/repository.go and internal/module/auth/refresh_token_repository.go.
use contentflow.Prelude.{
  ltb, ◌==◌, if◌then◌else◌, is_some, Sentinel, Err, is_error, Proc, pure, raise, gets, wrapping,
  modify, ◌>>=◌, ◌>>◌, ok, err, first_where, count_where, update_where, ℕ, suc, String, Bool, true,
  false, ◌&&◌, not, Option, none, some, [], ◌∷◌, ◌++◌, str_eq,
}
use contentflow.Auth.Data.{Env, User, RefreshToken, World, next_tick, statement}

abbrev pub has_email : String → User → Bool
has_email email u = str_eq u.email email

abbrev pub has_user_id : ℕ → User → Bool
has_user_id id u = u.id == id

abbrev pub has_hash : String → RefreshToken → Bool
has_hash hash t = str_eq t.token_hash hash

abbrev pub is_revoked : RefreshToken → Bool
is_revoked t = is_some t.revoked_at

-- `token_hash = ? AND revoked_at IS NULL AND expires_at > ?`
abbrev pub is_valid_token : String → ℕ → RefreshToken → Bool
is_valid_token hash now t = has_hash hash t && not (is_revoked t) && ltb now t.expires_at

-- `token_hash = ? AND revoked_at IS NULL`
abbrev pub is_revocable : String → RefreshToken → Bool
is_revocable hash t = has_hash hash t && not (is_revoked t)

abbrev pub is_token_of : ℕ → RefreshToken → Bool
is_token_of user_id t = t.user_id == user_id

abbrev pub to_revoked : ℕ → RefreshToken → RefreshToken
to_revoked at t = record t { revoked_at = some at }

abbrev pub new_token : ℕ → String → ℕ → ℕ → ℕ → RefreshToken
new_token user_id hash expires_at now id = record {
  id = id;
  user_id = user_id;
  token_hash = hash;
  expires_at = expires_at;
  revoked_at = none;
  created_at = now;
}

abbrev pub new_user : String → String → String → ℕ → ℕ → User
new_user email hash name now id = record {
  id = id;
  email = email;
  password_hash = hash;
  display_name = name;
  created_at = now;
  updated_at = now;
}

module _ (env : Env) where
  -- the answer of a search for one row
  abbrev found : {A : Type 0} → Sentinel → String → Option A → Proc World A
  found missing text row w = elim (env.fault w.tick) [
    | some e ↦
        if is_error e Sentinel.record_not_found
        then (err (Err.sentinel missing), next_tick w)
        else (err (Err.wrap text e), next_tick w)
    | none ↦ elim row [
      | none ↦ (err (Err.sentinel missing), next_tick w)
      | some x ↦ (ok x, next_tick w)
    ]
  ]

  abbrev create_error : Err → Err
  create_error e =
      if is_error e Sentinel.duplicated_key
      then Err.sentinel Sentinel.email_already_exists
      else Err.wrap "create user" e

  -- `Create` of a user: `email` is unique; GORM sets the times
  unfoldable pub create_user : String → String → String → Proc World User
  create_user email hash name w = elim (env.fault w.tick) [
    | some e ↦ (err (create_error e), next_tick w)
    | none ↦ elim (first_where (has_email email) w.users) [
      | some _ ↦ (err (Err.sentinel Sentinel.email_already_exists), next_tick w)
      | none ↦
          let u = new_user email hash name (env.clock w.tick) w.serial in
          (ok u, record w { tick = suc w.tick; serial = suc w.serial; users = w.users ++ u ∷ [] })
    ]
  ]

  -- `FindByID` and `FindByEmail`
  unfoldable pub find_by_id : ℕ → Proc World User
  find_by_id id w =
      found Sentinel.user_not_found "find user by id" (first_where (has_user_id id) w.users) w

  unfoldable pub find_by_email : String → Proc World User
  find_by_email email w =
      found Sentinel.user_not_found "find user by email" (first_where (has_email email) w.users) w

  -- `Create` of a refresh token: `token_hash` is unique
  unfoldable pub create_token : ℕ → String → ℕ → Proc World (Unit {0})
  create_token user_id hash expires_at w = elim (env.fault w.tick) [
    | some e ↦ (err (Err.wrap "create refresh token" e), next_tick w)
    | none ↦ elim (first_where (has_hash hash) w.tokens) [
      | some _ ↦ (
        err (Err.wrap "create refresh token" (Err.sentinel Sentinel.duplicated_key)),
        next_tick w,
      )
      | none ↦
          let t = new_token user_id hash expires_at (env.clock w.tick) w.serial in
          (
            ok tt,
            record w { tick = suc w.tick; serial = suc w.serial; tokens = w.tokens ++ t ∷ [] },
          )
    ]
  ]

  unfoldable pub find_valid_by_hash : String → ℕ → Proc World RefreshToken
  find_valid_by_hash hash now w =
      found Sentinel.refresh_token_not_found "find valid refresh token by hash"
        (first_where (is_valid_token hash now) w.tokens) w

  unfoldable pub revoke_by_hash : String → ℕ → Proc World (Unit {0})
  revoke_by_hash hash revoked_at = do
    wrapping "revoke refresh token by hash" (statement env)
    affected ← gets (λ w. count_where (is_revocable hash) w.tokens)
    modify (λ w. record w {
      tokens = update_where (is_revocable hash) (to_revoked revoked_at) w.tokens;
    })
    elim (affected == 0) [
      | true ↦ raise (Err.sentinel Sentinel.refresh_token_not_found)
      | false ↦ pure tt
    ]

  unfoldable pub revoke_all_by_user_id : ℕ → ℕ → Proc World (Unit {0})
  revoke_all_by_user_id user_id revoked_at = do
    wrapping "revoke all refresh tokens by user id" (statement env)
    modify (λ w. record w {
      tokens = update_where (is_token_of user_id) (to_revoked revoked_at) w.tokens;
    })
