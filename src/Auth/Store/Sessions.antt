-- ===== src/Auth/Store/Sessions.antt =====
-- The queries of services/auth/internal/store/store.go on sessions and refresh tokens, one
-- transaction step each.
use aizorix_freelancer.Base.{
  ℕ, ◌+◌, String, Bool, true, Option, none, some, List, [], ◌∷◌, ◌++◌, ◌&&◌, not, ◌==◌, is_some,
}
use aizorix_freelancer.Base.Outbox.{Event}
use aizorix_freelancer.Base.Table.{find, update, update_all, rows_by}
use aizorix_freelancer.Base.Tx.{Tx, pure, get_db, modify, fail_if, or_fail, ◌>>=◌, ◌>>◌}
use aizorix_freelancer.Auth.Tables.{
  Session, Token, RefreshToken, Db, Error, not_found, constraint_violation,
}

abbrev pub has_session_id : String → Session → Bool
has_session_id id x = x.id == id

abbrev pub has_token_id : String → Token → Bool
has_token_id id t = t.id == id

abbrev pub has_hash : String → Token → Bool
has_hash hash t = t.token_hash == hash

abbrev pub new_session : String → String → String → String → String → ℕ → Session
new_session new_id family_id user_id ip ua expires = record {
  id = new_id;
  user_id = user_id;
  ip = ip;
  user_agent = ua;
  family_id = family_id;
  expires_at = expires;
  revoked_at = none;
  revoked_reason = none;
}

unfoldable pub create_session :
    ℕ → String → String → String → String → String → ℕ → Tx Db Error String
create_session now new_id family_id user_id ip ua ttl = do
  db ← get_db
  fail_if (is_some (find (has_session_id new_id) db.sessions)) constraint_violation
  modify (λ d. record d {
    sessions = d.sessions ++ new_session new_id family_id user_id ip ua (now + ttl) ∷ [];
  })
  pure new_id

abbrev pub new_token : String → String → String → String → ℕ → Token
new_token new_id session_id user_id hash expires = record {
  id = new_id;
  session_id = session_id;
  user_id = user_id;
  token_hash = hash;
  replaced_by = none;
  expires_at = expires;
  used_at = none;
  revoked_at = none;
}

unfoldable pub insert_refresh_token : ℕ → String → String → String → String → ℕ → Tx Db Error String
insert_refresh_token now new_id session_id user_id hash ttl = do
  db ← get_db
  fail_if (not (is_some (find (has_session_id session_id) db.sessions))) constraint_violation
  fail_if (is_some (find (has_token_id new_id) db.refresh_tokens)) constraint_violation
  fail_if (is_some (find (has_hash hash) db.refresh_tokens)) constraint_violation
  modify (λ d. record d {
    refresh_tokens = d.refresh_tokens ++ new_token new_id session_id user_id hash (now + ttl) ∷ [];
  })
  pure new_id

abbrev pub with_family : Token → Session → RefreshToken
with_family t x = record {
  id = t.id;
  session_id = t.session_id;
  user_id = t.user_id;
  family_id = x.family_id;
  used_at = t.used_at;
  revoked_at = t.revoked_at;
  expires_at = t.expires_at;
}

unfoldable pub lookup_refresh_token : String → Tx Db Error RefreshToken
lookup_refresh_token hash = do
  db ← get_db
  t ← or_fail (find (has_hash hash) db.refresh_tokens) not_found
  x ← or_fail (find (has_session_id t.session_id) db.sessions) not_found
  pure (with_family t x)

abbrev pub set_used : ℕ → String → Token → Token
set_used now replaced_by t = record t { used_at = some now; replaced_by = some replaced_by }

unfoldable pub mark_token_used : ℕ → String → String → Tx Db Error (Unit {0})
mark_token_used now id replaced_by = modify (λ d. record d {
  refresh_tokens = update (has_token_id id) (set_used now replaced_by) d.refresh_tokens;
})

abbrev pub revoke_session_row : ℕ → String → Session → Session
revoke_session_row now reason x = record x { revoked_at = some now; revoked_reason = some reason }

abbrev pub revoke_token_row : ℕ → Token → Token
revoke_token_row now t = record t { revoked_at = some now }

abbrev pub is_live_of_family : String → Session → Bool
is_live_of_family family x = x.family_id == family && not (is_some x.revoked_at)

abbrev pub of_family : String → Session → Bool
of_family family x = x.family_id == family

-- `session_id IN (SELECT id FROM sessions WHERE family_id = $1) AND revoked_at IS NULL`
abbrev pub is_live_in : List Session → Token → Bool
is_live_in family t =
    is_some (find (has_session_id t.session_id) family) && not (is_some t.revoked_at)

unfoldable pub revoke_family : ℕ → String → String → Tx Db Error (Unit {0})
revoke_family now family reason = do
  modify (λ d. record d {
    sessions = update_all (is_live_of_family family) (revoke_session_row now reason) d.sessions;
  })
  modify (λ d. record d {
    refresh_tokens =
        update_all (is_live_in (rows_by (of_family family) d.sessions)) (revoke_token_row now)
          d.refresh_tokens;
  })

abbrev pub is_live_session : String → Session → Bool
is_live_session id x = x.id == id && not (is_some x.revoked_at)

abbrev pub is_live_of_session : String → Token → Bool
is_live_of_session id t = t.session_id == id && not (is_some t.revoked_at)

unfoldable pub revoke_session_by_id : ℕ → String → String → Tx Db Error (Unit {0})
revoke_session_by_id now id reason = do
  modify (λ d. record d {
    sessions = update_all (is_live_session id) (revoke_session_row now reason) d.sessions;
  })
  modify (λ d. record d {
    refresh_tokens = update_all (is_live_of_session id) (revoke_token_row now) d.refresh_tokens;
  })

-- No row counts as revoked.
abbrev pub is_revoked : Option Session → Bool
is_revoked none = true
is_revoked (some x) = is_some x.revoked_at

unfoldable pub session_revoked_for_update : String → Tx Db Error Bool
session_revoked_for_update id = do
  db ← get_db
  pure (is_revoked (find (has_session_id id) db.sessions))

abbrev pub is_live_session_of : String → String → Session → Bool
is_live_session_of id user_id x = x.id == id && (x.user_id == user_id && not (is_some x.revoked_at))

unfoldable pub revoke_session : ℕ → String → String → String → Tx Db Error (Unit {0})
revoke_session now user_id id reason = do
  db ← get_db
  fail_if (not (is_some (find (is_live_session_of id user_id) db.sessions))) not_found
  modify (λ d. record d {
    sessions =
        update_all (is_live_session_of id user_id) (revoke_session_row now reason) d.sessions;
  })

unfoldable pub enqueue : Event → Tx Db Error (Unit {0})
enqueue ev = modify (λ d. record d { outbox = d.outbox ++ ev ∷ [] })
