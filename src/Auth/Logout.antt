-- ===== src/Auth/Logout.antt =====
-- `Logout` and `RevokeSession` of services/auth/internal/service/service.go.
use aizorix_freelancer.Base.{
  ℕ, String, Bool, false, Option, some, ◌≡◌, refl, ◌==◌, arith, inl, inr, sym, ◌∙◌, if◌then◌else◌,
  Option-cases, Bool-cases,
}
use mathlib.Core.Path.{subst}
use aizorix_freelancer.Base.Table.{find, update_all_nowhere}
use aizorix_freelancer.Base.Tx.{ok}
use aizorix_freelancer.Auth.Tables.{Session, Token, Claims, Config, Db}
use aizorix_freelancer.Auth.Store.Sessions.{
  has_session_id, has_hash, revoke_token_row, is_live_session, is_live_of_session,
  is_live_session_of, revoke_family, revoke_session_by_id, revoke_session, lookup_refresh_token,
}
use aizorix_freelancer.Auth.Service.{logout, revoke_own_session}
use aizorix_freelancer.Auth.Changes.{
  Change, session_revoked, family_revoked, family_revoked-Change, untouched, revoked,
}

module _ (cfg : Config) (sha : String → String) (sign : Claims → Option String) where
  pub logout_found :
      (now : ℕ) (raw : String) (all_sessions : Bool) (t : Token) (x : Session) (db : Db)
      → (raw == "") ≡ false
      → find (has_hash (sha raw)) db.refresh_tokens ≡ some t
      → find (has_session_id t.session_id) db.sessions ≡ some x
      → logout cfg sha sign now raw all_sessions db
        ≡ ok (
          tt,
          (if all_sessions
              then family_revoked now x.family_id "user_logout_all" db
              else session_revoked now t.session_id "user_logout" db),
        )
  unfolding logout lookup_refresh_token revoke_family revoke_session_by_id
  logout_found now raw all_sessions t x db e s k = elim (Bool-cases all_sessions) [
    | inl a ↦ ground arith
    | inr a ↦ ground arith
  ]

  pub logout-Change :
      (now : ℕ) (raw : String) (all_sessions : Bool) (db db' : Db) (r : Unit {0})
      → logout cfg sha sign now raw all_sessions db ≡ ok (r, db')
      → Change db db'
  unfolding logout lookup_refresh_token
  logout-Change now raw all_sessions db db' r h = elim (Bool-cases (raw == "")) [
    | inl e ↦ untouched (ground arith) (ground arith)
    | inr e ↦ elim (Option-cases (find (has_hash (sha raw)) db.refresh_tokens)) [
      | inl n ↦ untouched (ground arith) (ground arith)
      | inr (t, s) ↦ elim (Option-cases (find (has_session_id t.session_id) db.sessions)) [
        | inl n ↦ untouched (ground arith) (ground arith)
        | inr (x, k) ↦
            let run = logout_found now raw all_sessions t x db e s k in
            elim (Bool-cases all_sessions) [
              | inl a ↦
                  let same : db' ≡ family_revoked now x.family_id "user_logout_all" db =
                    ground arith in
                  subst (Change db) (sym same)
                    (family_revoked-Change now x.family_id "user_logout_all" db)
              | inr a ↦
                  let same : db' ≡ session_revoked now t.session_id "user_logout" db =
                    ground arith in
                  subst (Change db) (sym same) (
                    revoked now "user_logout" (is_live_session t.session_id)
                      (is_live_of_session t.session_id) refl refl)
            ]
      ]
    ]
  ]

pub revoke_own_session-Change :
    (now : ℕ) (user_id id : String) (db db' : Db) (r : Unit {0})
    → revoke_own_session now user_id id db ≡ ok (r, db')
    → Change db db'
unfolding revoke_session
revoke_own_session-Change now user_id id db db' r h =
    elim (Option-cases (find (is_live_session_of id user_id) db.sessions)) [
      | inl n ↦ ground arith
      | inr (x, s) ↦
          revoked now "user_revoked" (is_live_session_of id user_id) (λ _. false) (ground arith)
            ((ground arith) ∙ sym (update_all_nowhere (revoke_token_row now) db.refresh_tokens))
    ]
