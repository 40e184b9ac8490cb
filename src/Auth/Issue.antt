-- ===== src/Auth/Issue.antt =====
-- The steps of `Register` and `Login` of services/auth/internal/service/service.go, which issue a
-- session.
use aizorix_freelancer.Base.{
  ℕ, ◌+◌, String, Bool, Option, [], ◌∷◌, ◌++◌, ◌≡◌, refl, arith, inl, inr, ap, sym, ◌∙◌,
  Option-cases, Bool-cases,
}
use mathlib.Core.Path.{subst}
use aizorix_freelancer.Base.Table.{find, rows_by}
use aizorix_freelancer.Base.Tx.{ok, err, transact, transact-keeps, Result-cases}
use aizorix_freelancer.Auth.Tables.{
  User, Claims, Config, Tokens, Draw, Db, invalid_credentials, account_locked,
}
use aizorix_freelancer.Auth.Store.Accounts.{
  has_email, has_name, assign, create_user, assign_role, record_login_success, record_login_failure,
}
use aizorix_freelancer.Auth.Store.Sessions.{
  has_token_id, has_hash, new_session, new_token, create_session, insert_refresh_token, enqueue,
}
use aizorix_freelancer.Auth.Service.{
  lockout_threshold, lockout_duration, is_locked, issue_session, register, login_tx, login,
}
use aizorix_freelancer.Auth.Changes.{
  Change, Change-after, Change-before, create_user-left, create_session-eq-ok,
  insert_refresh_token-eq-ok, claims_in, untouched, issued,
}

module _ (cfg : Config) (sha : String → String) (sign : Claims → Option String) where
  issue_session-Change :
      (committed : Db) (now : ℕ) (draw : Draw) (user_id account_type residency ip ua : String)
      (db db' : Db) (r : Tokens)
      → issue_session cfg sha sign committed now draw user_id account_type residency ip ua db
        ≡ ok (r, db')
      → Change db db'
  unfolding issue_session
  issue_session-Change committed now draw user_id account_type residency ip ua db db' r h =
      elim (Result-cases
        (create_session now draw.session_id draw.family_id user_id ip ua cfg.refresh_ttl db)) [
          | inl (e, f) ↦ ground arith
          | inr ((id, db1), f) ↦
              elim (Result-cases (
                insert_refresh_token now draw.token_id id user_id (sha draw.raw_token)
                  cfg.refresh_ttl db1)) [
                    | inl (e, g) ↦ ground arith
                    | inr ((t, db2), g) ↦
                        let (n, same_id, same1) =
                          create_session-eq-ok now draw.session_id draw.family_id user_id ip ua
                            cfg.refresh_ttl db db1 id f in
                        let (k, l, same_t, same2) =
                          insert_refresh_token-eq-ok now draw.token_id id user_id
                            (sha draw.raw_token) cfg.refresh_ttl db1 db2 t g in
                        let last : db' ≡ db2 =
                          elim (Option-cases
                            (sign (claims_in committed user_id id residency account_type))) [
                              | inl z ↦ ground arith
                              | inr (a, z) ↦ ground arith
                            ] in
                        let tokens : db1.refresh_tokens ≡ db.refresh_tokens =
                          ap (λ d. d.refresh_tokens) same1 in
                        issued
                          (new_session draw.session_id draw.family_id user_id ip ua
                            (now + cfg.refresh_ttl))
                          (new_token draw.token_id id user_id (sha draw.raw_token)
                            (now + cfg.refresh_ttl))
                          n (ap (find (has_token_id draw.token_id)) (sym tokens) ∙ k)
                          (ap (find (has_hash (sha draw.raw_token))) (sym tokens) ∙ l) same_id
                          (ap (λ d. d.sessions) last
                            ∙ (ap (λ d. d.sessions) same2 ∙ ap (λ d. d.sessions) same1))
                          (ap (λ d. d.refresh_tokens) last
                            ∙ (ap (λ d. d.refresh_tokens) same2
                                ∙ ap
                                    (λ ts.
                                      ts
                                      ++ new_token draw.token_id id user_id (sha draw.raw_token)
                                          (now + cfg.refresh_ttl)
                                        ∷ [])
                                    tokens))
                  ]
        ]

  login_tx-Change :
      (now : ℕ) (draw : Draw) (u : User) (ip ua : String) (db db' : Db) (r : Tokens)
      → login_tx cfg sha sign now draw u ip ua db ≡ ok (r, db')
      → Change db db'
  unfolding login_tx enqueue
  login_tx-Change now draw u ip ua db db' r h =
      elim (Result-cases
        (issue_session cfg sha sign db now draw u.id u.primary_type u.residency ip ua db)) [
          | inl (e, f) ↦ ground arith
          | inr ((t, db1), f) ↦
              Change-after db1
                (issue_session-Change db now draw u.id u.primary_type u.residency ip ua db db1 t f)
                (ground arith) (ground arith)
        ]

  pub register-Change :
      (fold : String → String) (now : ℕ) (draw : Draw) (new_id email : String)
      (hashed : Option String) (account_type residency locale ip ua : String) (db db' : Db)
      (r : Tokens)
      → register cfg sha sign fold now draw new_id email hashed account_type residency locale ip ua
          db
        ≡ ok (r, db')
      → Change db db'
  unfolding register enqueue assign_role
  register-Change fold now draw new_id email hashed account_type residency locale ip ua db db' r h =
      elim (Option-cases hashed) [
        | inl e ↦ ground arith
        | inr (hash, e) ↦
            elim (Result-cases
              (create_user fold new_id email hash account_type residency locale db)) [
                | inl (e, f) ↦ ground arith
                | inr ((id, db1), f) ↦
                    let db2 : Db = record db1 {
                      user_roles =
                          assign id (rows_by (has_name account_type) db1.roles) db1.user_roles;
                    } in
                    let (a, b) =
                      create_user-left fold new_id email hash account_type residency locale db db1
                        id f in
                    elim (Result-cases (
                      issue_session cfg sha sign db now draw id account_type residency ip ua db2)) [
                        | inl (e, g) ↦ ground arith
                        | inr ((t, db3), g) ↦
                            Change-before db1
                              (Change-after db3
                                (Change-before db2
                                  (issue_session-Change db now draw id account_type residency ip ua
                                    db2 db3 t g)
                                  refl refl)
                                (ground arith) (ground arith))
                              a b
                      ]
              ]
      ]

  pub login-Change :
      (fold : String → String) (verify : String → String → Bool) (now : ℕ) (draw : Draw)
      (email password ip ua : String) (db : Db)
      → Change db (login cfg sha sign fold verify now draw email password ip ua db).1
  unfolding login record_login_failure record_login_success
  login-Change fold verify now draw email password ip ua db =
      elim (Option-cases (find (has_email fold email) db.users)) [
        | inl n ↦
            let e : login cfg sha sign fold verify now draw email password ip ua db
                ≡ (err invalid_credentials, db) =
              ground arith in
            subst (λ q. Change db q.1) (sym e) (untouched refl refl)
        | inr (u, s) ↦ elim (Bool-cases (is_locked now u)) [
          | inl l ↦
              let e : login cfg sha sign fold verify now draw email password ip ua db
                  ≡ (err account_locked, db) =
                ground arith in
              subst (λ q. Change db q.1) (sym e) (untouched refl refl)
          | inr l ↦ elim (Bool-cases (verify password u.password_hash)) [
            | inr v ↦
                let e : login cfg sha sign fold verify now draw email password ip ua db ≡ (
                  err invalid_credentials,
                  record_login_failure lockout_threshold lockout_duration now u.id db,
                ) =
                  ground arith in
                subst (λ q. Change db q.1) (sym e) (untouched refl refl)
            | inl v ↦
                let e : login cfg sha sign fold verify now draw email password ip ua db
                    ≡ transact (login_tx cfg sha sign now draw u ip ua)
                        (record_login_success now u.id db) =
                  ground arith in
                subst (λ q. Change db q.1) (sym e)
                  (Change-before (record_login_success now u.id db)
                    (transact-keeps (Change (record_login_success now u.id db))
                      (login_tx cfg sha sign now draw u ip ua) (record_login_success now u.id db)
                      (untouched refl refl)
                      (λ r db' h.
                        login_tx-Change now draw u ip ua (record_login_success now u.id db) db' r
                          h))
                    refl refl)
          ]
        ]
      ]
