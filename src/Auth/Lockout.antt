-- ===== src/Auth/Lockout.antt =====
-- The lockout of `Login` of services/auth/internal/service/service.go.
use aizorix_freelancer.Base.{
  ℕ, ◌+◌, ◌≤◌, ◌<◌, String, Bool, true, false, Option, none, some, List, [], ◌∷◌, ◌≡◌, refl, leb,
  arith, inl, inr, ap, sym, ◌∙◌, Bool-cases,
}
use mathlib.Core.Path.{subst}
use aizorix_freelancer.Base.Table.{find, update, UniqueBy, UniqueBy-update, find-update_found}
use aizorix_freelancer.Base.Rows.{All, sum_ℕ}
use aizorix_freelancer.Base.Tx.{Result, err}
use aizorix_freelancer.Auth.Tables.{
  User, Claims, Config, Tokens, Draw, Db, Error, invalid_credentials, account_locked,
}
use aizorix_freelancer.Auth.Store.Accounts.{
  has_email, has_user_id, set_login_failure, record_login_failure,
}
use aizorix_freelancer.Auth.Service.{is_locked, login}

-- A login with a password, at a time.
pub record Attempt : Type 0 where
  pub now : ℕ
  pub draw : Draw
  pub password : String
  pub ip : String
  pub user_agent : String

abbrev pub user_key : User → String
user_key u = u.id

abbrev pub failed : ℕ → User → User
failed now u = set_login_failure 5 900 now u

has_email-failed :
    (fold : String → String) (email : String) (now : ℕ) (u : User)
    → has_email fold email (failed now u) ≡ has_email fold email u
has_email-failed fold email now u = elim (Bool-cases (leb (u.failed_logins + 1) 2147483647)) [
  | inl e ↦ rw e refl
  | inr e ↦ rw e refl
]

is_locked_never : (now : ℕ) (u : User) → u.locked_until ≡ none → is_locked now u ≡ false
is_locked_never now u h = ground arith

failed_few :
    (now : ℕ) (u : User)
    → u.failed_logins + 1 ≤ 4
    → failed now u ≡ record u { failed_logins = u.failed_logins + 1 }
failed_few now u n =
    let fits : leb (u.failed_logins + 1) 2147483647 ≡ true = ground arith in
    let few : leb 5 (u.failed_logins + 1) ≡ false = ground arith in rw (fits, few) refl

failed_fifth :
    (now later : ℕ) (u : User)
    → u.failed_logins ≡ 4
    → later < now + 900
    → is_locked later (failed now u) ≡ true
failed_fifth now later u n t =
    let fits : leb (u.failed_logins + 1) 2147483647 ≡ true = ground arith in
    let enough : leb 5 (u.failed_logins + 1) ≡ true = ground arith in
    rw (fits, enough) (ground arith)

user_key-failed : (now : ℕ) (u : User) → user_key (failed now u) ≡ user_key u
user_key-failed now u = elim (Bool-cases (leb (u.failed_logins + 1) 2147483647)) [
  | inl e ↦ rw e refl
  | inr e ↦ rw e refl
]

module _ (cfg : Config) (sha : String → String) (sign : Claims → Option String)
    (fold : String → String) (verify : String → String → Bool) where
  abbrev pub attempt_login : String → Attempt → Db → Result Error Tokens × Db
  attempt_login email a db =
      login cfg sha sign fold verify a.now a.draw email a.password a.ip a.user_agent db

  -- The tables after some logins, in order.
  abbrev pub attempt_all : String → List Attempt → Db → Db
  attempt_all email [] db = db
  attempt_all email (a ∷ rest) db = attempt_all email rest (attempt_login email a db).1

  abbrev pub IsWrong : String → Attempt → Type 0
  IsWrong hash a = verify a.password hash ≡ false

  login_wrong :
      (email : String) (a : Attempt) (u : User) (db : Db)
      → find (has_email fold email) db.users ≡ some u
      → is_locked a.now u ≡ false
      → IsWrong u.password_hash a
      → attempt_login email a db ≡ (
        err invalid_credentials,
        record db { users = update (has_user_id u.id) (failed a.now) db.users },
      )
  unfolding login record_login_failure
  login_wrong email a u db s l w = ground arith

  login_locked :
      (email : String) (a : Attempt) (u : User) (db : Db)
      → find (has_email fold email) db.users ≡ some u
      → is_locked a.now u ≡ true
      → attempt_login email a db ≡ (err account_locked, db)
  unfolding login
  login_locked email a u db s l = ground arith

  -- The row of the user after a wrong password.
  failed_row :
      (email : String) (a : Attempt) (u : User) (db : Db)
      → find (has_email fold email) db.users ≡ some u
      → UniqueBy user_key db.users
      → is_locked a.now u ≡ false
      → IsWrong u.password_hash a
      → let after = (attempt_login email a db).1 in
        (find (has_email fold email) after.users ≡ some (failed a.now u))
        × UniqueBy user_key after.users
  failed_row email a u db s unique l w =
      let same : (attempt_login email a db).1.users
          ≡ update (has_user_id u.id) (failed a.now) db.users =
        ap (λ q. q.1.users) (login_wrong email a u db s l w) in
      (
        ap (find (has_email fold email)) same
            ∙ find-update_found user_key (has_email fold email) (failed a.now) u db.users
                (λ x. has_email-failed fold email a.now x) unique s,
        subst (UniqueBy user_key) (sym same) (
            UniqueBy-update user_key (has_user_id u.id) (failed a.now) db.users
              (λ x. user_key-failed a.now x) unique),
      )

  -- Few wrong passwords only count.
  counted :
      (email : String) (attempts : List Attempt) (u : User) (db : Db)
      → find (has_email fold email) db.users ≡ some u
      → UniqueBy user_key db.users
      → u.locked_until ≡ none
      → All (IsWrong u.password_hash) attempts
      → u.failed_logins + sum_ℕ (λ _. 1) attempts ≤ 4
      → (v : User) × (find (has_email fold email) (attempt_all email attempts db).users ≡ some v)
        × UniqueBy user_key (attempt_all email attempts db).users
        × (v.locked_until ≡ none)
        × (v.password_hash ≡ u.password_hash)
        × (v.failed_logins ≡ u.failed_logins + sum_ℕ (λ _. 1) attempts)
  counted email [] u db s unique l w n = (u, s, unique, l, refl, omega arith)
  counted email (a ∷ rest) u db s unique l w n =
      let few = failed_few a.now u (omega (arith, n)) in
      let (row, kept) = failed_row email a u db s unique (is_locked_never a.now u l) w.0 in
      let next : User = record u { failed_logins = u.failed_logins + 1 } in
      let (v, s', unique', l', same, count) =
        counted email rest next (attempt_login email a db).1 (row ∙ ap some few) kept l w.1
          (omega (arith, n)) in
      (v, s', unique', l', same, omega (arith, count))

  -- From a user without failed logins: after four logins with wrong passwords and a fifth one, each
  -- login with the email before 15 minutes have passed since the fifth, with whatever password, is
  -- refused as locked and changes nothing.
  pub login_lockout :
      (email : String) (attempts : List Attempt) (fifth next : Attempt) (u : User) (db : Db)
      → find (has_email fold email) db.users ≡ some u
      → UniqueBy user_key db.users
      → u.failed_logins ≡ 0
      → u.locked_until ≡ none
      → sum_ℕ (λ _. 1) attempts ≡ 4
      → All (IsWrong u.password_hash) attempts
      → IsWrong u.password_hash fifth
      → next.now < fifth.now + 900
      → let after = (attempt_login email fifth (attempt_all email attempts db)).1 in
        attempt_login email next after ≡ (err account_locked, after)
  login_lockout email attempts fifth next u db s unique z l n w w' t =
      let (v, s', unique', l', same, count) =
        counted email attempts u db s unique l w (omega (arith, z, n)) in
      let (row, _) =
        failed_row email fifth v (attempt_all email attempts db) s' unique'
          (is_locked_never fifth.now v l') (ap (λ h. verify fifth.password h) same ∙ w') in
      login_locked email next (failed fifth.now v)
        (attempt_login email fifth (attempt_all email attempts db)).1 row
        (failed_fifth fifth.now next.now v (omega (arith, count, z, n)) t)
