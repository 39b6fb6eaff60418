-- ===== src/Auth/Accounts.antt =====
-- What the calls of the service leave of the accounts.
use contentflow.Prelude.{Proc, ℕ, String, ◌≡◌, List, [], ◌∷◌, arith}
use contentflow.Auth.Data.{Env, User, RegisterRequest, World, LoginRequest}
use contentflow.Auth.Repositories.{
  find_by_email, find_by_id, create_token, find_valid_by_hash, revoke_by_hash,
  revoke_all_by_user_id,
}
use contentflow.Auth.Token.{JwtTokenManager, generate_access_token, generate_refresh_token}
use contentflow.Auth.Service.{
  register, store_token, login_found, login, refresh_revoked, refresh_hash, refresh, logout,
}
use contentflow.Auth.Sessions.{Op, step, run}

module _ (env : Env) where
  -- A procedure that changes no account.
  abbrev KeepsUsers : {A : Type 0} → Proc World A → Type 0
  KeepsUsers m = (w : World) → (m w).1.users ≡ w.users

  store_token-KeepsUsers :
      (m : JwtTokenManager) (u : User) (access : String) (pair : String × String) (now : ℕ)
      → KeepsUsers (store_token env m u access pair now)
  unfolding store_token create_token
  store_token-KeepsUsers m u access pair now w = ground arith

  login_found-KeepsUsers :
      (m : JwtTokenManager) (email : String) (req : LoginRequest) (u : User)
      → KeepsUsers (login_found env m email req u)
  unfolding login_found generate_access_token generate_refresh_token
  login_found-KeepsUsers m email req u w = grind (arith, store_token-KeepsUsers)

  login-KeepsUsers : (m : JwtTokenManager) (req : LoginRequest) → KeepsUsers (login env m req)
  unfolding login find_by_email
  login-KeepsUsers m req w = grind (arith, login_found-KeepsUsers)

  refresh_revoked-KeepsUsers :
      (m : JwtTokenManager) (u : User) (now : ℕ) → KeepsUsers (refresh_revoked env m u now)
  unfolding refresh_revoked generate_access_token generate_refresh_token
  refresh_revoked-KeepsUsers m u now w = grind (arith, store_token-KeepsUsers)

  refresh_hash-KeepsUsers :
      (m : JwtTokenManager) (hash : String) (now : ℕ) → KeepsUsers (refresh_hash env m hash now)
  unfolding refresh_hash find_valid_by_hash find_by_id revoke_by_hash
  refresh_hash-KeepsUsers m hash now w = grind (arith, refresh_revoked-KeepsUsers)

  refresh-KeepsUsers : (m : JwtTokenManager) (text : String) → KeepsUsers (refresh env m text)
  unfolding refresh
  refresh-KeepsUsers m text w = grind (arith, refresh_hash-KeepsUsers)

  logout-KeepsUsers : (text : String) → KeepsUsers (logout env text)
  unfolding logout revoke_by_hash
  logout-KeepsUsers text w = ground arith

  revoke_all-KeepsUsers : (user_id at : ℕ) → KeepsUsers (revoke_all_by_user_id env user_id at)
  unfolding revoke_all_by_user_id
  revoke_all-KeepsUsers user_id at w = ground arith

  -- Every call keeps what registration keeps and does not depend on the rest of the world.
  pub step_users :
      (m : JwtTokenManager) (P : List User → Type 0)
      → ((req : RegisterRequest) (w : World) → P w.users → P (register env req w).1.users)
      → (op : Op) (w : World) → P w.users
      → P (step env m op w).users
  unfolding step
  step_users m P keep (Op.registers req) w h = keep req w h
  step_users m P keep (Op.logs_in req) w h = rw (login-KeepsUsers m req w) h
  step_users m P keep (Op.refreshes text) w h = rw (refresh-KeepsUsers m text w) h
  step_users m P keep (Op.logs_out text) w h = rw (logout-KeepsUsers text w) h
  step_users m P keep (Op.revokes_all user_id at) w h = rw (revoke_all-KeepsUsers user_id at w) h

  pub run_users :
      (m : JwtTokenManager) (P : List User → Type 0)
      → ((req : RegisterRequest) (w : World) → P w.users → P (register env req w).1.users)
      → (ops : List Op) (w : World) → P w.users
      → P (run env m ops w).users
  unfolding run
  run_users m P keep [] w h = h
  run_users m P keep (op ∷ ops) w h =
      run_users m P keep ops (step env m op w) (step_users m P keep op w h)
