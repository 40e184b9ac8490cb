-- ===== src/Auth/Requests.antt =====
-- The auth service as a state machine: each request runs one method on the tables.
use aizorix_freelancer.Base.{ℕ, String, Bool, Option, List, [], ◌∷◌, refl}
use aizorix_freelancer.Base.Tx.{transact, transact-keeps}
use aizorix_freelancer.Auth.Tables.{Claims, Config, Draw, Db}
use aizorix_freelancer.Auth.Service.{register, login, refresh, logout, revoke_own_session}
use aizorix_freelancer.Auth.Changes.{Change, untouched}
use aizorix_freelancer.Auth.Issue.{register-Change, login-Change}
use aizorix_freelancer.Auth.Refresh.{refresh-Change}
use aizorix_freelancer.Auth.Logout.{logout-Change, revoke_own_session-Change}

-- A call of a method, with the time and what is drawn. The request `signup` is of the method
-- `Register`, with the hash of the password.
pub data Request : Type 0 where
  signup :
      ℕ
      → Draw
      → String
      → String
      → Option String
      → String
      → String
      → String
      → String
      → String
      → Request
  signin : ℕ → Draw → String → String → String → String → Request
  rotate : ℕ → Draw → String → Request
  signout : ℕ → String → Bool → Request
  revoke : ℕ → String → String → Request

module _ (cfg : Config) (sha : String → String) (sign : Claims → Option String)
    (fold : String → String) (verify : String → String → Bool) where
  -- The tables after a request, whether it succeeds or not.
  unfoldable pub handle : Request → Db → Db
  handle (signup now draw new_id email hashed account_type residency locale ip ua) db =
      (transact
        (register cfg sha sign fold now draw new_id email hashed account_type residency locale ip
          ua)
        db).1
  handle (signin now draw email password ip ua) db =
      (login cfg sha sign fold verify now draw email password ip ua db).1
  handle (rotate now draw raw) db = (refresh cfg sha sign now draw raw db).1
  handle (signout now raw all_sessions) db =
      (transact (logout cfg sha sign now raw all_sessions) db).1
  handle (revoke now user_id session_id) db =
      (transact (revoke_own_session now user_id session_id) db).1

  unfoldable pub serve : List Request → Db → Db
  unfolding handle
  serve [] db = db
  serve (r ∷ rs) db = serve rs (handle r db)

  pub handle-Change : (r : Request) (db : Db) → Change db (handle r db)
  unfolding handle
  handle-Change (signup now draw new_id email hashed account_type residency locale ip ua) db =
      transact-keeps (Change db)
        (register cfg sha sign fold now draw new_id email hashed account_type residency locale ip
          ua)
        db (untouched refl refl)
        (λ r db' h.
          register-Change cfg sha sign fold now draw new_id email hashed account_type residency
            locale ip ua db db' r h)
  handle-Change (signin now draw email password ip ua) db =
      login-Change cfg sha sign fold verify now draw email password ip ua db
  handle-Change (rotate now draw raw) db = refresh-Change cfg sha sign now draw raw db
  handle-Change (signout now raw all_sessions) db =
      transact-keeps (Change db) (logout cfg sha sign now raw all_sessions) db (untouched refl refl)
        (λ r db' h. logout-Change cfg sha sign now raw all_sessions db db' r h)
  handle-Change (revoke now user_id session_id) db =
      transact-keeps (Change db) (revoke_own_session now user_id session_id) db
        (untouched refl refl)
        (λ r db' h. revoke_own_session-Change now user_id session_id db db' r h)

  -- What each step keeps, the requests keep.
  pub serve-keeps :
      (P : Db → Type 0)
      → ((db db' : Db) → Change db db' → P db → P db')
      → (rs : List Request) (db : Db) → P db
      → P (serve rs db)
  unfolding serve
  serve-keeps P keep [] db p = p
  serve-keeps P keep (r ∷ rs) db p =
      serve-keeps P keep rs (handle r db) (keep db (handle r db) (handle-Change r db) p)
