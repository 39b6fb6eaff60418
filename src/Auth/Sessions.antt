-- ===== src/Auth/Sessions.antt =====
-- The life of a refresh token: it serves once.
use contentflow.Prelude.{
  ◌==◌, is_some, Proc, is_ok, first_where, count_where, update_where, All, first_where-update_where,
  All-update_where, All-append, first_where-append, ℕ, String, ◌≡◌, refl, Bool, true, false, none,
  List, [], ◌∷◌, ◌++◌, arith, eq_iff,
}
use contentflow.Auth.Data.{Env, RefreshToken, RegisterRequest, LoginRequest, World, User}
use contentflow.Auth.Repositories.{
  create_user, is_revoked, is_revocable, is_token_of, to_revoked, new_token, find_by_email,
  create_token, revoke_by_hash, revoke_all_by_user_id, has_hash, is_valid_token, find_by_id,
  find_valid_by_hash,
}
use contentflow.Auth.Token.{JwtTokenManager, generate_access_token, generate_refresh_token}
use contentflow.Auth.Service.{
  register, hash_password, register_new, login, refresh, logout, store_token, login_found,
  refresh_revoked, refresh_hash,
}

-- A call of the service or of the repository of tokens, by any client at any time.
pub data Op : Type 0 where
  registers : RegisterRequest → Op
  logs_in : LoginRequest → Op
  refreshes : String → Op
  logs_out : String → Op
  revokes_all : ℕ → ℕ → Op

module _ (env : Env) (m : JwtTokenManager) where
  unfoldable pub step : Op → World → World
  step (registers req) w = (register env req w).1
  step (logs_in req) w = (login env m req w).1
  step (refreshes text) w = (refresh env m text w).1
  step (logs_out text) w = (logout env text w).1
  step (revokes_all user_id at) w = (revoke_all_by_user_id env user_id at w).1

  unfoldable pub run : List Op → World → World
  run [] w = w
  run (op ∷ ops) w = run ops (step op w)

-- A token with the hash was stored, and every such token is revoked.
pub record IsSpent (hash : String) (tokens : List RefreshToken) : Type 0 where
  pub known : is_some (first_where (has_hash hash) tokens) ≡ true
  pub revoked : All (λ t. has_hash hash t ≡ true → is_revoked t ≡ true) tokens

revoke-IsSpent :
    (hash : String) (p : RefreshToken → Bool) (at : ℕ) (tokens : List RefreshToken)
    → IsSpent hash tokens
    → IsSpent hash (update_where p (to_revoked at) tokens)
revoke-IsSpent hash p at tokens s = record {
  known = ground (
    arith,
    s.known,
    first_where-update_where (has_hash hash) p (to_revoked at) tokens (λ t. refl),
  );
  revoked = All-update_where _ p (to_revoked at) tokens (λ t old hit has. refl) s.revoked;
}

append-IsSpent :
    (hash : String) (tokens : List RefreshToken) (t : RefreshToken)
    → first_where (has_hash t.token_hash) tokens ≡ none
    → IsSpent hash tokens
    → IsSpent hash (tokens ++ t ∷ [])
append-IsSpent hash tokens t new s = record {
  known = ground (arith, s.known, first_where-append (has_hash hash) tokens (t ∷ []));
  revoked =
      All-append _ tokens (t ∷ []) s.revoked (
        (λ (same : has_hash hash t ≡ true). ground (arith, s.known, eq_iff t.token_hash hash), tt));
}

module _ (env : Env) (hash : String) where
  -- A procedure that leaves a spent token spent.
  abbrev pub KeepsSpent : {A : Type 0} → Proc World A → Type 0
  KeepsSpent m = (w : World) → IsSpent hash w.tokens → IsSpent hash (m w).1.tokens

  create_token-KeepsSpent :
      (user_id : ℕ) (other : String) (expires_at : ℕ)
      → KeepsSpent (create_token env user_id other expires_at)
  unfolding create_token
  create_token-KeepsSpent user_id other expires_at w s = ground (
    arith,
    append-IsSpent hash w.tokens (new_token user_id other expires_at (env.clock w.tick) w.serial),
  )

  revoke_by_hash-KeepsSpent : (other : String) (at : ℕ) → KeepsSpent (revoke_by_hash env other at)
  unfolding revoke_by_hash
  revoke_by_hash-KeepsSpent other at w s =
      ground (arith, revoke-IsSpent hash (is_revocable other) at w.tokens s)

  revoke_all-KeepsSpent : (user_id at : ℕ) → KeepsSpent (revoke_all_by_user_id env user_id at)
  unfolding revoke_all_by_user_id
  revoke_all-KeepsSpent user_id at w s =
      ground (arith, revoke-IsSpent hash (is_token_of user_id) at w.tokens s)

  register-KeepsSpent : (req : RegisterRequest) → KeepsSpent (register env req)
  unfolding register register_new hash_password create_user find_by_email
  register-KeepsSpent req w s = ground arith

  store_token-KeepsSpent :
      (m : JwtTokenManager) (u : User) (access : String) (pair : String × String) (now : ℕ)
      → KeepsSpent (store_token env m u access pair now)
  unfolding store_token
  store_token-KeepsSpent m u access pair now w s = grind (arith, create_token-KeepsSpent)

  login_found-KeepsSpent :
      (m : JwtTokenManager) (email : String) (req : LoginRequest) (u : User)
      → KeepsSpent (login_found env m email req u)
  unfolding login_found generate_access_token generate_refresh_token
  login_found-KeepsSpent m email req u w s = grind (arith, store_token-KeepsSpent)

  login-KeepsSpent : (m : JwtTokenManager) (req : LoginRequest) → KeepsSpent (login env m req)
  unfolding login find_by_email
  login-KeepsSpent m req w s = grind (arith, login_found-KeepsSpent)

  refresh_revoked-KeepsSpent :
      (m : JwtTokenManager) (u : User) (now : ℕ) → KeepsSpent (refresh_revoked env m u now)
  unfolding refresh_revoked generate_access_token generate_refresh_token
  refresh_revoked-KeepsSpent m u now w s = grind (arith, store_token-KeepsSpent)

  refresh_hash-KeepsSpent :
      (m : JwtTokenManager) (other : String) (now : ℕ) → KeepsSpent (refresh_hash env m other now)
  unfolding refresh_hash find_valid_by_hash find_by_id
  refresh_hash-KeepsSpent m other now w s =
      grind (arith, revoke_by_hash-KeepsSpent, refresh_revoked-KeepsSpent)

  refresh-KeepsSpent : (m : JwtTokenManager) (text : String) → KeepsSpent (refresh env m text)
  unfolding refresh
  refresh-KeepsSpent m text w s = grind (arith, refresh_hash-KeepsSpent)

  logout-KeepsSpent : (text : String) → KeepsSpent (logout env text)
  unfolding logout
  logout-KeepsSpent text w s = grind (arith, revoke_by_hash-KeepsSpent)

  pub run-IsSpent :
      (m : JwtTokenManager) (ops : List Op) (w : World)
      → IsSpent hash w.tokens
      → IsSpent hash (run env m ops w).tokens
  unfolding run step
  run-IsSpent m [] w s = s
  run-IsSpent m (registers req ∷ ops) w s =
      run-IsSpent m ops (register env req w).1 (register-KeepsSpent req w s)
  run-IsSpent m (logs_in req ∷ ops) w s =
      run-IsSpent m ops (login env m req w).1 (login-KeepsSpent m req w s)
  run-IsSpent m (refreshes text ∷ ops) w s =
      run-IsSpent m ops (refresh env m text w).1 (refresh-KeepsSpent m text w s)
  run-IsSpent m (logs_out text ∷ ops) w s =
      run-IsSpent m ops (logout env text w).1 (logout-KeepsSpent text w s)
  run-IsSpent m (revokes_all user_id at ∷ ops) w s =
      run-IsSpent m ops (revoke_all_by_user_id env user_id at w).1
        (revoke_all-KeepsSpent user_id at w s)

  -- revoking leaves the token spent, if there was one to revoke
  revoked-all :
      (at : ℕ) (tokens : List RefreshToken)
      → All
          (λ t. has_hash hash t ≡ true → is_revoked t ≡ true)
          (update_where (is_revocable hash) (to_revoked at) tokens)
  unfolding update_where
  revoked-all at [] = tt
  revoked-all at (t ∷ ts) = (ground arith, revoked-all at ts)

  revocable-known :
      (tokens : List RefreshToken)
      → (count_where (is_revocable hash) tokens == 0) ≡ false
      → is_some (first_where (has_hash hash) tokens) ≡ true
  unfolding count_where first_where
  revocable-known [] h = ground arith
  revocable-known (t ∷ ts) h = ground (arith, revocable-known ts)

  pub revoke_by_hash-IsSpent :
      (at : ℕ) (w : World)
      → is_ok (revoke_by_hash env hash at w).0 ≡ true
      → IsSpent hash (revoke_by_hash env hash at w).1.tokens
  unfolding revoke_by_hash
  revoke_by_hash-IsSpent at w done = record {
    known = ground (
      arith,
      revocable-known w.tokens,
      first_where-update_where (has_hash hash) (is_revocable hash) (to_revoked at) w.tokens
          (λ t. refl),
    );
    revoked = ground (arith, revoked-all at w.tokens);
  }

  pub refresh_hash-IsSpent :
      (m : JwtTokenManager) (now : ℕ) (w : World)
      → is_ok (refresh_hash env m hash now w).0 ≡ true
      → IsSpent hash (refresh_hash env m hash now w).1.tokens
  unfolding refresh_hash find_valid_by_hash find_by_id
  refresh_hash-IsSpent m now w done =
      grind (arith, revoke_by_hash-IsSpent, refresh_revoked-KeepsSpent)

  -- A spent token is refused.
  invalid-spent :
      (now : ℕ) (tokens : List RefreshToken)
      → All (λ t. has_hash hash t ≡ true → is_revoked t ≡ true) tokens
      → first_where (is_valid_token hash now) tokens ≡ none
  unfolding first_where
  invalid-spent now [] s = refl
  invalid-spent now (t ∷ ts) s = ground (arith, s.0, invalid-spent now ts s.1)

  pub refresh_hash-spent :
      (m : JwtTokenManager) (now : ℕ) (w : World)
      → IsSpent hash w.tokens
      → is_ok (refresh_hash env m hash now w).0 ≡ false
  unfolding refresh_hash find_valid_by_hash
  refresh_hash-spent m now w s = ground (arith, invalid-spent now w.tokens s.revoked)
