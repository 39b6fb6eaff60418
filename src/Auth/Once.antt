-- ===== src/Auth/Once.antt =====
-- A refresh token serves once, and not after a logout.
use contentflow.Prelude.{trim_space, is_ok, String, ◌≡◌, Bool, true, false, List, arith}
use contentflow.Auth.Data.{Env, World, next_tick}
use contentflow.Auth.Token.{JwtTokenManager}
use contentflow.Auth.Service.{refresh, logout}
use contentflow.Auth.Sessions.{
  Op, run, IsSpent, run-IsSpent, revoke_by_hash-IsSpent, refresh_hash-IsSpent, refresh_hash-spent,
}

-- the hash under which the service looks for a token
abbrev hash_of : Env → String → String
hash_of env text = env.sha256 (trim_space text)

module _ (env : Env) (m : JwtTokenManager) (text : String) where
  refresh-IsSpent :
      (w : World)
      → is_ok (refresh env m text w).0 ≡ true
      → IsSpent (hash_of env text) (refresh env m text w).1.tokens
  unfolding refresh
  refresh-IsSpent w done =
      ground (arith, refresh_hash-IsSpent env (hash_of env text) m (env.clock w.tick) (next_tick w))

  logout-IsSpent :
      (w : World)
      → is_ok (logout env text w).0 ≡ true
      → IsSpent (hash_of env text) (logout env text w).1.tokens
  unfolding logout
  logout-IsSpent w done =
      ground (arith, revoke_by_hash-IsSpent env (hash_of env text) (env.clock w.tick) (next_tick w))

  refresh-spent :
      (w : World) → IsSpent (hash_of env text) w.tokens → is_ok (refresh env m text w).0 ≡ false
  unfolding refresh
  refresh-spent w s = ground (
    arith,
    refresh_hash-spent env (hash_of env text) m (env.clock w.tick) (next_tick w)
        (record { known = s.known; revoked = s.revoked }),
  )

-- The two ways to end a token: whether the call succeeds, and the world after it.
pub data Ending : Type 0 where
  refreshed logged_out : Ending

unfoldable pub ended : Env → JwtTokenManager → String → Ending → World → Bool × World
ended env m text Ending.refreshed w = let (r, w') = refresh env m text w in (is_ok r, w')
ended env m text Ending.logged_out w = let (r, w') = logout env text w in (is_ok r, w')

ended-IsSpent :
    (env : Env) (m : JwtTokenManager) (text : String) (ending : Ending) (w : World)
    → (ended env m text ending w).0 ≡ true
    → IsSpent (hash_of env text) (ended env m text ending w).1.tokens
unfolding ended
ended-IsSpent env m text Ending.refreshed w done = refresh-IsSpent env m text w done
ended-IsSpent env m text Ending.logged_out w done = logout-IsSpent env m text w done

-- After a refresh or a logout that succeeded, no later refresh by the same token succeeds, whatever
-- calls any clients make in between and whatever the database does.
pub refresh_once :
    (env : Env) (m : JwtTokenManager) (text : String) (ending : Ending) (ops : List Op) (w : World)
    → (ended env m text ending w).0 ≡ true
    → is_ok (refresh env m text (run env m ops (ended env m text ending w).1)).0 ≡ false
refresh_once env m text ending ops w done =
    let w' = (ended env m text ending w).1 in
    refresh-spent env m text (run env m ops w')
      (run-IsSpent env (hash_of env text) m ops w' (ended-IsSpent env m text ending w done))
