-- ===== src/Auth/Login.antt =====
-- From registration to login, and what login tells a stranger.
use contentflow.Prelude.{
  Option-cases, trim_space, Sentinel, Err, is_error, is_ok, Result-cases, ok, err, first_where,
  first_where-append, first_where_single, ℕ, suc, ◌≤◌, String, ◌≡◌, refl, sym, ◌∙◌, inl, inr, true,
  false, Option, none, some, List, [], ◌∷◌, arith, eq_iff,
}
use contentflow.Auth.Data.{
  Env, User, LoginRequest, AuthResponse, World, RegisterRequest, AuthUser, AccessTokenClaims,
  next_tick,
}
use contentflow.Auth.Repositories.{
  create_user, has_email, new_user, find_by_email, has_hash, create_token,
}
use contentflow.Auth.Token.{
  JwtTokenManager, claims_at, generate_access_token, generate_refresh_token,
}
use contentflow.Auth.Service.{
  normalize_email, login_found, login, auth_user, hash_password, register_new, register,
  store_token,
}
use contentflow.Auth.Sessions.{Op, run}
use contentflow.Auth.Accounts.{run_users}

-- what `Login` looks up
abbrev pub account : String → World → Option User
account email w = first_where (has_email email) w.users

-- A login by an address that is no address or has no account, and one by a wrong password, get the
-- same answer and write nothing, as long as the search for the account does not fail.
pub login-refused :
    (env : Env) (m : JwtTokenManager) (req : LoginRequest) (w : World)
    → ((n : ℕ) → env.fault n ≡ none)
    → ((email : String) (u : User)
        → normalize_email env req.email ≡ ok email
        → account email w ≡ some u
        → env.bcrypt_matches u.password_hash req.password ≡ false)
    → ((login env m req w).0 ≡ err (Err.sentinel Sentinel.invalid_credentials))
      × ((login env m req w).1.users ≡ w.users)
      × ((login env m req w).1.tokens ≡ w.tokens)
unfolding login login_found find_by_email is_error
login-refused env m req w quiet wrong = elim (Result-cases (normalize_email env req.email)) [
  | inr (e, bad) ↦ ground arith
  | inl (email, good) ↦ elim (Option-cases (account email w)) [
    | inl missing ↦ ground (arith, quiet w.tick)
    | inr (u, found) ↦ ground (arith, quiet w.tick, wrong email u good found)
  ]
]

registered-account :
    (env : Env) (email hash name : String) (w : World) (u : User)
    → (create_user env email hash name w).0 ≡ ok u
    → (account email (create_user env email hash name w).1 ≡ some u)
      × (u.email ≡ email)
      × (u.password_hash ≡ hash)
unfolding create_user
registered-account env email hash name w u done =
    let new = new_user email hash name (env.clock w.tick) w.serial in
    ground (
      arith,
      first_where-append (has_email email) w.users (new ∷ []),
      first_where_single (has_email email) new,
      (eq_iff email email).1 refl,
    )

-- the account that a registration makes, and what it stores of the password
register_new-account :
    (env : Env) (email : String) (req : RegisterRequest) (w : World) (shown : AuthUser)
    → (register_new env email req w).0 ≡ ok shown
    → (u : User) × (account email (register_new env email req w).1 ≡ some u)
      × (env.bcrypt w.tick req.password ≡ ok u.password_hash)
      × (shown ≡ auth_user u)
unfolding register_new hash_password
register_new-account env email req w shown done =
    elim (Result-cases (env.bcrypt w.tick req.password)) [
      | inr (e, bad) ↦ absurd (ground arith)
      | inl (hash, good) ↦
          elim (Result-cases
            (create_user env email hash (trim_space req.display_name) (next_tick w)).0) [
              | inr (e, bad) ↦ absurd (ground arith)
              | inl (u, made) ↦
                  let (found, same, stored) =
                    registered-account env email hash (trim_space req.display_name) (next_tick w) u
                      made in
                  (u, ground arith, ground arith, ground arith)
            ]
    ]

register-account :
    (env : Env) (req : RegisterRequest) (w : World) (shown : AuthUser)
    → (register env req w).0 ≡ ok shown
    → (email : String) × (u : User) × (n : ℕ) × (normalize_email env req.email ≡ ok email)
      × (account email (register env req w).1 ≡ some u)
      × (env.bcrypt n req.password ≡ ok u.password_hash)
      × (shown ≡ auth_user u)
unfolding register find_by_email is_error
register-account env req w shown done = elim (Result-cases (normalize_email env req.email)) [
  | inr (e, bad) ↦ absurd (ground arith)
  | inl (email, good) ↦
      let w' = next_tick w in
      elim (Result-cases (register_new env email req w').0) [
        | inr (e, bad) ↦ absurd (ground arith)
        | inl (shown', made) ↦
            let (u, found, stored, same) = register_new-account env email req w' shown' made in
            (email, u, suc w.tick, good, ground arith, stored, ground arith)
      ]
]

-- a login to a known account with the right password
login_found-ok :
    (env : Env) (m : JwtTokenManager) (email : String) (req : LoginRequest) (u : User) (w : World)
    → ((n : ℕ) → env.fault n ≡ none)
    → ((c : AccessTokenClaims) → is_ok (env.sign m.secret c) ≡ true)
    → ((n : ℕ) → is_ok (env.random_token n) ≡ true)
    → ((n : ℕ) (t : String)
        → w.tick ≤ n
        → env.random_token n ≡ ok t
        → first_where (has_hash (env.sha256 t)) w.tokens ≡ none)
    → env.bcrypt_matches u.password_hash req.password ≡ true
    → (resp : AuthResponse) × ((login_found env m email req u w).0 ≡ ok resp)
      × (resp.user ≡ auth_user u)
unfolding login_found generate_access_token generate_refresh_token store_token create_token
login_found-ok env m email req u w quiet signs draws fresh right =
    elim (Result-cases (env.sign m.secret (claims_at env m (env.clock w.tick) u.id email))) [
      | inr (e, bad) ↦
          absurd (ground (arith, signs (claims_at env m (env.clock w.tick) u.id email)))
      | inl (access, signed) ↦ elim (Result-cases (env.random_token (suc w.tick))) [
        | inr (e, bad) ↦ absurd (ground (arith, draws (suc w.tick)))
        | inl (token, drawn) ↦ (
          record { user = auth_user u; access_token = access; refresh_token = token },
          ground
              (arith, quiet (suc (suc (suc w.tick))), fresh (suc w.tick) token (omega arith) drawn),
          refl,
        )
      ]
    ]

-- the account of an address stays what it is
account-create_user :
    (env : Env) (email : String) (u : User) (other hash name : String) (w : World)
    → account email w ≡ some u
    → account email (create_user env other hash name w).1 ≡ some u
unfolding create_user
account-create_user env email u other hash name w h = ground (
  arith,
  first_where-append (has_email email) w.users
      (new_user other hash name (env.clock w.tick) w.serial ∷ []),
)

account-register_new :
    (env : Env) (email : String) (u : User) (other : String) (req : RegisterRequest) (w : World)
    → account email w ≡ some u
    → account email (register_new env other req w).1 ≡ some u
unfolding register_new hash_password
account-register_new env email u other req w h = grind (arith, account-create_user env email u)

account-register :
    (env : Env) (email : String) (u : User) (req : RegisterRequest) (w : World)
    → account email w ≡ some u
    → account email (register env req w).1 ≡ some u
unfolding register find_by_email
account-register env email u req w h = grind (arith, account-register_new env email u)

login-known :
    (env : Env) (m : JwtTokenManager) (email : String) (req : LoginRequest) (u : User) (w : World)
    → env.fault w.tick ≡ none
    → normalize_email env req.email ≡ ok email
    → account email w ≡ some u
    → login env m req w ≡ login_found env m email req u (next_tick w)
unfolding login find_by_email
login-known env m email req u w quiet good found = ground arith

-- After a registration that succeeded, and any calls of any clients after it, a login by the same
-- address and password succeeds and answers with the registered account. It is assumed that no call
-- fails, that bcrypt accepts the password that it hashed, that tokens can be signed and drawn, and
-- that the refresh tokens drawn from then on have other hashes than those stored before.
pub register-login :
    (env : Env) (m : JwtTokenManager) (req : RegisterRequest) (shown : AuthUser) (ops : List Op)
    (w : World)
    → ((n : ℕ) → env.fault n ≡ none)
    → ((n : ℕ) (password hash : String)
        → env.bcrypt n password ≡ ok hash
        → env.bcrypt_matches hash password ≡ true)
    → ((c : AccessTokenClaims) → is_ok (env.sign m.secret c) ≡ true)
    → ((n : ℕ) → is_ok (env.random_token n) ≡ true)
    → (register env req w).0 ≡ ok shown
    → ((n : ℕ) (t : String)
        → (run env m ops (register env req w).1).tick ≤ n
        → env.random_token n ≡ ok t
        → first_where (has_hash (env.sha256 t)) (run env m ops (register env req w).1).tokens
          ≡ none)
    → (resp : AuthResponse) × ((login env m
          (record { email = req.email; password = req.password })
          (run env m ops (register env req w).1)).0
        ≡ ok resp)
      × (resp.user ≡ shown)
register-login env m req shown ops w quiet law signs draws done fresh =
    let again : LoginRequest = record { email = req.email; password = req.password } in
    let w' = run env m ops (register env req w).1 in
    let (email, u, n, good, found, stored, same) = register-account env req w shown done in
    let kept =
      run_users env m (λ us. first_where (has_email email) us ≡ some u)
        (account-register env email u) ops (register env req w).1 found in
    let (resp, logged, who) =
      login_found-ok env m email again u (next_tick w') quiet signs draws
        (λ n t late drawn. fresh n t (omega (arith, late)) drawn)
        (law n req.password u.password_hash stored) in
    (resp, rw (login-known env m email again u w' (quiet w'.tick) good kept) logged, who ∙ sym same)
