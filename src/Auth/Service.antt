-- ===== src/Auth/Service.antt =====
-- The methods of services/auth/internal/service/service.go. The hash of a refresh token, the
-- password hashing and verification, the signing of access tokens, and what is drawn at random are
-- arguments.
use aizorix_freelancer.Base.{
  ℕ, String, Bool, true, false, Option, none, some, [], ◌∷◌, ◌==◌, ltb, if◌then◌else◌, is_some,
}
use aizorix_freelancer.Base.Outbox.{Event, text}
use aizorix_freelancer.Base.Tx.{
  get_db, Result, ok, err, Tx, pure, fail, fail_if, or_fail, attempt, transact, ◌>>=◌, ◌>>◌,
}
use aizorix_freelancer.Auth.Tables.{
  User, RefreshToken, Claims, Config, Tokens, Identity, Draw, Db, Error, invalid_credentials,
  account_locked, token_reuse, token_expired, not_found, signing_failed, hashing_failed,
}
use aizorix_freelancer.Auth.Store.Accounts.{
  create_user, get_user_by_email, get_user_by_id, record_login_success, record_login_failure,
  roles_in, roles_and_permissions, assign_role,
}
use aizorix_freelancer.Auth.Store.Sessions.{
  create_session, insert_refresh_token, lookup_refresh_token, mark_token_used, revoke_family,
  revoke_session_by_id, session_revoked_for_update, revoke_session, enqueue,
}

abbrev pub lockout_threshold : ℕ
lockout_threshold = 5

abbrev pub lockout_duration : ℕ
lockout_duration = 900

-- `LockedUntil != nil && LockedUntil.After(now)`
abbrev pub is_locked : ℕ → User → Bool
is_locked now u = elim u.locked_until [ none ↦ false | some t ↦ ltb now t ]

abbrev pub registered_event : String → String → String → Event
registered_event user_id account_type residency = record {
  aggregate_type = "user";
  aggregate_id = user_id;
  event_type = "user.registered";
  topic = "user.events";
  partition_key = user_id;
  payload =
      ("user_id", text user_id)
      ∷ ("account_type", text account_type)
      ∷ ("residency_country", text residency)
      ∷ [];
}

abbrev pub session_event : String → String → Event
session_event user_id ip = record {
  aggregate_type = "session";
  aggregate_id = user_id;
  event_type = "session.created";
  topic = "user.events";
  partition_key = user_id;
  payload = ("user_id", text user_id) ∷ ("ip", text ip) ∷ [];
}

-- No token of that hash counts as expired.
abbrev pub expired_if_none : Result Error RefreshToken → Tx Db Error RefreshToken
expired_if_none (ok rt) = pure rt
expired_if_none (err e) = elim e [ not_found ↦ fail token_expired | other ↦ fail other ]

abbrev pub answer : Result Error (Result Error Tokens) × Db → Result Error Tokens × Db
answer (ok r, db) = (r, db)
answer (err e, db) = (err e, db)

-- From the token that was looked up.
abbrev pub log_out : ℕ → Bool → Result Error RefreshToken → Tx Db Error (Unit {0})
log_out now all_sessions (ok rt) =
    if all_sessions
    then revoke_family now rt.family_id "user_logout_all"
    else revoke_session_by_id now rt.session_id "user_logout"
log_out now all_sessions (err e) = elim e [ not_found ↦ pure tt | other ↦ fail other ]

module _ (cfg : Config) (sha : String → String) (sign : Claims → Option String) where
  -- `committed` are the tables before the transaction, which the query of the roles reads.
  unfoldable pub issue_session :
      Db → ℕ → Draw → String → String → String → String → String → Tx Db Error Tokens
  unfolding create_session insert_refresh_token
  issue_session committed now draw user_id account_type residency ip ua = do
    session_id ← create_session now draw.session_id draw.family_id user_id ip ua cfg.refresh_ttl
    insert_refresh_token now draw.token_id session_id user_id (sha draw.raw_token) cfg.refresh_ttl
    let (roles, permissions) = roles_in user_id committed
    access ←
        or_fail
          (sign (record {
            user_id = user_id;
            session_id = session_id;
            roles = roles;
            permissions = permissions;
            residency_country = residency;
            account_type = account_type;
          }))
          signing_failed
    pure (record {
      access_token = access;
      refresh_token = draw.raw_token;
      access_expires_in = cfg.access_ttl;
      user_id = user_id;
    })

  -- `hashed` is what the password's hashing returns.
  unfoldable pub register :
      (String → String)
      → ℕ
      → Draw
      → String
      → String
      → Option String
      → String
      → String
      → String
      → String
      → String
      → Tx Db Error Tokens
  unfolding create_user assign_role issue_session enqueue
  register fold now draw new_id email hashed account_type residency locale ip ua = do
    committed ← get_db
    hash ← or_fail hashed hashing_failed
    user_id ← create_user fold new_id email hash account_type residency locale
    assign_role user_id account_type
    tokens ← issue_session committed now draw user_id account_type residency ip ua
    enqueue (registered_event user_id account_type residency)
    pure tokens

  unfoldable pub login_tx : ℕ → Draw → User → String → String → Tx Db Error Tokens
  unfolding issue_session enqueue
  login_tx now draw u ip ua = do
    committed ← get_db
    tokens ← issue_session committed now draw u.id u.primary_type u.residency ip ua
    enqueue (session_event tokens.user_id ip)
    pure tokens

  -- The counters are written outside the transaction.
  unfoldable pub login :
      (String → String)
      → (String → String → Bool)
      → ℕ
      → Draw
      → String
      → String
      → String
      → String
      → Db
      → Result Error Tokens × Db
  unfolding record_login_failure record_login_success
  login fold verify now draw email password ip ua db = elim (get_user_by_email fold email db) [
    | none ↦ (err invalid_credentials, db)
    | some u ↦
        if is_locked now u
        then (err account_locked, db)
        else (if verify password u.password_hash
            then transact (login_tx now draw u ip ua) (record_login_success now u.id db)
            else (
              err invalid_credentials,
              record_login_failure lockout_threshold lockout_duration now u.id db,
            ))
  ]

  -- From the token that was looked up; a reuse is answered after the commit.
  unfoldable pub rotate : ℕ → Draw → RefreshToken → Tx Db Error (Result Error Tokens)
  unfolding session_revoked_for_update roles_and_permissions insert_refresh_token mark_token_used
      revoke_family
  rotate now draw rt =
      if is_some rt.used_at
      then (do revoke_family now rt.family_id "refresh_token_reuse"; pure (err token_reuse))
      else (do
        revoked ← session_revoked_for_update rt.session_id
        fail_if revoked token_expired
        (roles, permissions) ← roles_and_permissions rt.user_id
        new_id ←
            insert_refresh_token now draw.token_id rt.session_id rt.user_id (sha draw.raw_token)
              cfg.refresh_ttl
        mark_token_used now rt.id new_id
        access ←
            or_fail
              (sign (record {
                user_id = rt.user_id;
                session_id = rt.session_id;
                roles = roles;
                permissions = permissions;
                residency_country = "";
                account_type = "";
              }))
              signing_failed
        pure (
            ok (record {
              access_token = access;
              refresh_token = draw.raw_token;
              access_expires_in = cfg.access_ttl;
              user_id = rt.user_id;
            })))

  unfoldable pub refresh_tx : ℕ → Draw → String → Tx Db Error (Result Error Tokens)
  unfolding lookup_refresh_token rotate
  refresh_tx now draw raw = do
    found ← attempt (lookup_refresh_token (sha raw))
    rt ← expired_if_none found
    fail_if (if is_some rt.revoked_at then true else ltb rt.expires_at now) token_expired
    rotate now draw rt

  unfoldable pub refresh : ℕ → Draw → String → Db → Result Error Tokens × Db
  unfolding refresh_tx
  refresh now draw raw db = answer (transact (refresh_tx now draw raw) db)

  unfoldable pub logout : ℕ → String → Bool → Tx Db Error (Unit {0})
  unfolding lookup_refresh_token revoke_family revoke_session_by_id
  logout now raw all_sessions =
      if raw == ""
      then pure tt
      else (do found ← attempt (lookup_refresh_token (sha raw)); log_out now all_sessions found)

abbrev pub revoke_own_session : ℕ → String → String → Tx Db Error (Unit {0})
revoke_own_session now user_id session_id = revoke_session now user_id session_id "user_revoked"

abbrev pub me : String → Tx Db Error Identity
me id = do
  u ← get_user_by_id id
  (roles, permissions) ← roles_and_permissions id
  pure (record {
    user_id = u.id;
    email = u.email;
    account_type = u.primary_type;
    roles = roles;
    email_verified = u.email_verified;
    mfa_enabled = u.mfa_enabled;
  })
