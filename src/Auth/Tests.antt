-- ===== src/Auth/Tests.antt =====
-- A small world of accounts, and the theorems about the accounts at work in it.
use contentflow.Prelude.{
  ltb, if◌then◌else◌, pos, trim_space, byte_length, Sentinel, Err, is_error, is_ok, ok, err,
  first_where, count_where, update_where, All-first_where, ◌+◌, ◌≡◌, refl, true, false, none, List,
  [], ◌∷◌, arith, str_eq, eq_iff,
}
use contentflow.Auth.Repositories.{
  find_by_id, create_user, find_by_email, create_token, find_valid_by_hash, revoke_by_hash,
  has_email,
}
use contentflow.CollectionJob.Backoff.{add_duration}
use contentflow.Auth.Data.{
  Env, User, RefreshToken, RegisterRequest, LoginRequest, AuthResponse, World,
}
use contentflow.Auth.Token.{JwtTokenManager, generate_access_token, generate_refresh_token}
use contentflow.Auth.Service.{
  refresh, register, login, validate_password, normalize_email, hash_password, register_new,
  store_token, refresh_revoked, refresh_hash, login_found, logout,
}
use contentflow.Auth.Sessions.{Op, step, run}
use contentflow.Auth.Once.{refresh_once, Ending, ended}
use contentflow.Auth.Login.{login-refused, register-login}

abbrev calm : Env
calm = record {
  fault = λ n. none;
  clock = λ n. 1000 + n;
  to_lower = λ s. s;
  is_address = λ s. true;
  bcrypt = λ n s. ok s;
  bcrypt_matches = str_eq;
  random_token = λ n. ok (if ltb n 8 then "early" else "late");
  sha256 = λ s. s;
  sign = λ secret c. ok c.email;
  read = λ secret issuer now s. err (Err.other "token is malformed");
}

abbrev manager : JwtTokenManager
manager = record {
  secret = "secret";
  issuer = "contentflow";
  access_token_ttl = pos 900;
  refresh_token_ttl = pos 604800;
}

abbrev ada : User
ada = record {
  id = 1;
  email = "ada@example.org";
  password_hash = "analytical";
  display_name = "Ada";
  created_at = 10;
  updated_at = 10;
}

abbrev session : RefreshToken
session = record {
  id = 2;
  user_id = 1;
  token_hash = "first";
  expires_at = 5000;
  revoked_at = none;
  created_at = 10;
}

abbrev opened : World
opened = record { tick = 0; serial = 3; users = ada ∷ []; tokens = session ∷ [] }

abbrev empty : World
empty = record { tick = 0; serial = 1; users = []; tokens = [] }

abbrev form : RegisterRequest
form = record { email = " ada@example.org"; password = "analytical"; display_name = "Ada " }

abbrev mistyped : LoginRequest
mistyped = record { email = "ada@example.org"; password = "analytic" }

abbrev later : List Op
later = Op.logs_out "first" ∷ Op.registers form ∷ []

refresh_once_example :
    is_ok
      (refresh calm manager "first"
        (run calm manager later (ended calm manager "first" Ending.refreshed opened).1)).0
    ≡ false
unfolding ended refresh refresh_hash find_valid_by_hash find_by_id revoke_by_hash refresh_revoked
    generate_access_token generate_refresh_token store_token create_token trim_space first_where
    count_where update_where is_error byte_length add_duration
refresh_once_example = refresh_once calm manager "first" Ending.refreshed later opened refl

login-refused_example :
    ((login calm manager mistyped opened).0 ≡ err (Err.sentinel Sentinel.invalid_credentials))
    × ((login calm manager mistyped opened).1.users ≡ opened.users)
    × ((login calm manager mistyped opened).1.tokens ≡ opened.tokens)
unfolding normalize_email trim_space first_where
login-refused_example =
    login-refused calm manager mistyped opened (λ n. refl)
      (λ email u good found.
        All-first_where (λ x. calm.bcrypt_matches x.password_hash mistyped.password ≡ false)
          (has_email email) opened.users u (refl, tt) found)

abbrev entry : LoginRequest
entry = record { email = "ada@example.org"; password = "analytical" }

-- another login, a failed one and a logout in between
abbrev between : List Op
between = Op.logs_in entry ∷ Op.logs_in mistyped ∷ Op.logs_out "later" ∷ []

register-login_example :
    (resp : AuthResponse) × ((login calm manager
        (record { email = form.email; password = form.password })
        (run calm manager between (register calm form empty).1)).0
      ≡ ok resp)
    × (resp.user ≡ record { id = 1; email = "ada@example.org"; display_name = "Ada" })
unfolding register normalize_email trim_space validate_password byte_length find_by_email
    first_where is_error register_new hash_password create_user run step login login_found
    generate_access_token generate_refresh_token store_token create_token add_duration logout
    revoke_by_hash count_where update_where
register-login_example =
    register-login calm manager form
      (record { id = 1; email = "ada@example.org"; display_name = "Ada" }) between empty (λ n. refl)
      (λ n password hash made. ground (arith, (eq_iff hash password).1)) (λ c. refl) (λ n. refl)
      refl
      (λ n t late drawn.
        let drawn_late : t ≡ "late" = ground (arith, drawn, late) in rw drawn_late refl)
