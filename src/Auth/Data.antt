-- ===== src/Auth/Data.antt =====
-- internal/module/auth/model.go, dto.go and internal/module/user/model.go: the rows, the requests and
-- the world of the accounts. As for the jobs, what stands outside answers by the number of the call.
use contentflow.Prelude.{ℤ, Err, Result, Proc, calling, ok, ℕ, suc, String, Bool, Option, List}

pub record User : Type 0 where
  pub id : ℕ
  pub email : String
  pub password_hash : String
  pub display_name : String
  pub created_at : ℕ
  pub updated_at : ℕ

pub record RefreshToken : Type 0 where
  pub id : ℕ
  pub user_id : ℕ
  pub token_hash : String
  pub expires_at : ℕ
  pub revoked_at : Option ℕ
  pub created_at : ℕ

pub record RegisterRequest : Type 0 where
  pub email : String
  pub password : String
  pub display_name : String

pub record LoginRequest : Type 0 where
  pub email : String
  pub password : String

pub record AuthUser : Type 0 where
  pub id : ℕ
  pub email : String
  pub display_name : String

-- `LoginResponse` and `RefreshResponse`, less the constant "Bearer" and the seconds until the end
pub record AuthResponse : Type 0 where
  pub user : AuthUser
  pub access_token : String
  pub refresh_token : String

pub record AccessTokenClaims : Type 0 where
  pub user_id : ℤ
  pub email : String
  pub issuer : String
  pub expires_at : ℕ
  pub issued_at : ℕ

pub record Env : Type 0 where
  pub fault : ℕ → Option Err
  pub clock : ℕ → ℕ
  -- `strings.ToLower`
  pub to_lower : String → String
  -- whether `mail.ParseAddress` accepts the text
  pub is_address : String → Bool
  -- `bcrypt.GenerateFromPassword`, which salts, and `bcrypt.CompareHashAndPassword`
  pub bcrypt : ℕ → String → Result String
  pub bcrypt_matches : String → String → Bool
  -- the text of 32 random bytes
  pub random_token : ℕ → Result String
  -- SHA-256 in hexadecimal digits
  pub sha256 : String → String
  -- `SignedString` and `ParseWithClaims` for a secret; the second is given the issuer and the time
  pub sign : String → AccessTokenClaims → Result String
  pub read : String → String → ℕ → String → Result AccessTokenClaims

pub record World : Type 0 where
  pub tick : ℕ
  pub serial : ℕ
  pub users : List User
  pub tokens : List RefreshToken

abbrev pub next_tick : World → World
next_tick w = record w { tick = suc w.tick }

module _ (env : Env) where
  -- One database statement
  abbrev pub statement : Proc World (Unit {0})
  statement = calling (λ (w : World). w.tick) next_tick env.fault

  abbrev pub read_clock : Proc World ℕ
  read_clock w = (ok (env.clock w.tick), next_tick w)
