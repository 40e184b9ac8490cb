-- ===== src/Auth/Tests.antt =====
-- The auth service on concrete requests.
use aizorix_freelancer.Base.{
  ℕ, ◌≤◌, String, false, Option, some, List, [], ◌∷◌, ◌≡◌, ◌⊎◌, refl, ◌==◌, arith,
}
use aizorix_freelancer.Base.Table.{find}
use aizorix_freelancer.Base.Tx.{ok, err}
use aizorix_freelancer.Auth.Tables.{
  Session, Token, Role, Claims, Config, Draw, Db, token_reuse, token_expired, account_locked,
}
use aizorix_freelancer.Auth.Store.Sessions.{has_session_id, has_hash}
use aizorix_freelancer.Auth.Service.{refresh, logout, register}
use aizorix_freelancer.Auth.Requests.{Request, signup, rotate, serve}
use aizorix_freelancer.Auth.Chains.{unused_tokens, start}
use aizorix_freelancer.Auth.Promises.{
  HasEnded, serve-single_token, refresh_once, refresh_reuse_ends, logout_ends,
}
use aizorix_freelancer.Auth.Lockout.{Attempt, attempt_login, attempt_all, login_lockout}

abbrev cfg : Config
cfg = record { access_ttl = 900; refresh_ttl = 86400 }

abbrev same : String → String
same t = t

abbrev sign : Claims → Option String
sign c = some "signed"

abbrev draw_1 : Draw
draw_1 = record { session_id = "s1"; family_id = "f1"; token_id = "t1"; raw_token = "raw1" }

abbrev draw_2 : Draw
draw_2 = record { session_id = "s2"; family_id = "f2"; token_id = "t2"; raw_token = "raw2" }

abbrev draw_3 : Draw
draw_3 = record { session_id = "s3"; family_id = "f3"; token_id = "t3"; raw_token = "raw3" }

abbrev roles : List Role
roles = record { id = "r1"; name = "client" } ∷ []

abbrev joined : List Request
joined =
    signup 0 draw_1 "u1" "ada@example.org" (some "secret") "client" "GB" "en" "127.0.0.1" "test"
    ∷ []

abbrev rotated : List Request
rotated = rotate 10 draw_2 "raw1" ∷ []

abbrev run : List Request → Db → Db
run = serve cfg same sign same (λ p h. p == h)

abbrev db_joined : Db
db_joined = run joined (start roles [])

abbrev db_rotated : Db
db_rotated = run rotated db_joined

abbrev joined_rotated : List Request
joined_rotated =
    signup 0 draw_1 "u1" "ada@example.org" (some "secret") "client" "GB" "en" "127.0.0.1" "test"
    ∷ rotated

serve-single_token_example : unused_tokens "s1" (run joined_rotated (start roles [])) ≤ 1
serve-single_token_example =
    serve-single_token cfg same sign same (λ p h. p == h) joined_rotated roles [] "s1"

refresh_once_example :
    let again =
      refresh cfg same sign 20 draw_3 "raw1"
        (run [] (refresh cfg same sign 10 draw_2 "raw1" db_joined).1) in
    (again.0 ≡ err token_reuse) ⊎ (again.0 ≡ err token_expired)
unfolding refresh serve register
refresh_once_example =
    refresh_once cfg same sign same (λ p h. p == h) joined [] roles [] 10 20 draw_2 draw_3 "raw1" _
      _ refl

refresh_reuse_ends_example :
    (t : Token) × (x : Session) × (find (has_hash "raw1") db_rotated.refresh_tokens ≡ some t)
    × (find (has_session_id t.session_id) db_rotated.sessions ≡ some x)
    × ((id : String) (y : Session)
        → find (has_session_id id) db_rotated.sessions ≡ some y
        → y.family_id ≡ x.family_id
        → HasEnded cfg same sign same
            (λ p h. p == h)
            id
            (refresh cfg same sign 20 draw_3 "raw1" db_rotated).1)
unfolding refresh serve register
refresh_reuse_ends_example =
    refresh_reuse_ends cfg same sign same (λ p h. p == h) 20 draw_3 "raw1" db_rotated _ refl

logout_ends_example :
    (db : Db) × (logout cfg same sign 20 "raw2" false db_rotated ≡ ok (tt, db))
    × HasEnded cfg same sign same (λ p h. p == h) "s1" db
unfolding refresh serve register
logout_ends_example =
    logout_ends cfg same sign same (λ p h. p == h) 20 "raw2" false _ _ db_rotated refl refl refl

abbrev guess : ℕ → Attempt
guess now = record { now = now; draw = draw_3; password = "guess"; ip = ""; user_agent = "" }

abbrev guesses : List Attempt
guesses = guess 100 ∷ guess 101 ∷ guess 102 ∷ guess 103 ∷ []

login_lockout_example :
    let after =
      (attempt_login cfg same sign same
        (λ p h. p == h)
        "ada@example.org"
        (guess 104)
        (attempt_all cfg same sign same (λ p h. p == h) "ada@example.org" guesses db_joined)).1 in
    attempt_login cfg same sign same
      (λ p h. p == h)
      "ada@example.org"
      (record (guess 1000) { password = "secret" })
      after
    ≡ (err account_locked, after)
unfolding refresh serve register
login_lockout_example =
    login_lockout cfg same sign same (λ p h. p == h) "ada@example.org" guesses (guess 104)
      (record (guess 1000) { password = "secret" }) _ db_joined refl (refl, tt) refl refl refl
      (refl, (refl, (refl, (refl, tt)))) refl (omega arith)
