-- ===== src/Auth/Refresh.antt =====
-- `Refresh` of services/auth/internal/service/service.go, by what it looks up.
use aizorix_freelancer.Base.{
  ℕ, String, Bool, true, false, Option, none, some, ◌≡◌, refl, arith, inl, inr, sym, ltb,
  if◌then◌else◌, is_some, Option-cases, Bool-cases,
}
use mathlib.Core.Path.{subst}
use aizorix_freelancer.Base.Table.{find}
use aizorix_freelancer.Base.Tx.{err, transact, transact-keeps}
use aizorix_freelancer.Auth.Tables.{Session, Token, Claims, Config, Draw, Db, token_expired}
use aizorix_freelancer.Auth.Store.Sessions.{
  has_session_id, has_hash, with_family, lookup_refresh_token,
}
use aizorix_freelancer.Auth.Service.{rotate, refresh_tx, refresh, answer}
use aizorix_freelancer.Auth.Changes.{Change, answer_left, untouched}
use aizorix_freelancer.Auth.Rotate.{rotate-Change}

module _ (cfg : Config) (sha : String → String) (sign : Claims → Option String) where
  abbrev pub is_dead : ℕ → Token → Bool
  is_dead now t = if is_some t.revoked_at then true else ltb t.expires_at now

  pub refresh_dead :
      (now : ℕ) (draw : Draw) (raw : String) (t : Token) (db : Db)
      → find (has_hash (sha raw)) db.refresh_tokens ≡ some t
      → is_dead now t ≡ true
      → refresh cfg sha sign now draw raw db ≡ (err token_expired, db)
  unfolding refresh refresh_tx lookup_refresh_token
  refresh_dead now draw raw t db s d =
      elim (Option-cases (find (has_session_id t.session_id) db.sessions)) [
        | inl n ↦ ground arith
        | inr (x, k) ↦ ground arith
      ]

  -- Where no token is found, or no session of it.
  pub refresh_unknown :
      (now : ℕ) (draw : Draw) (raw : String) (db : Db)
      → find (has_hash (sha raw)) db.refresh_tokens ≡ none
      → refresh cfg sha sign now draw raw db ≡ (err token_expired, db)
  unfolding refresh refresh_tx lookup_refresh_token
  refresh_unknown now draw raw db n = ground arith

  pub refresh_orphan :
      (now : ℕ) (draw : Draw) (raw : String) (t : Token) (db : Db)
      → find (has_hash (sha raw)) db.refresh_tokens ≡ some t
      → find (has_session_id t.session_id) db.sessions ≡ none
      → refresh cfg sha sign now draw raw db ≡ (err token_expired, db)
  unfolding refresh refresh_tx lookup_refresh_token
  refresh_orphan now draw raw t db s n = ground arith

  pub refresh_alive :
      (now : ℕ) (draw : Draw) (raw : String) (t : Token) (x : Session) (db : Db)
      → find (has_hash (sha raw)) db.refresh_tokens ≡ some t
      → find (has_session_id t.session_id) db.sessions ≡ some x
      → is_dead now t ≡ false
      → refresh cfg sha sign now draw raw db
        ≡ answer (transact (rotate cfg sha sign now draw (with_family t x)) db)
  unfolding refresh refresh_tx lookup_refresh_token
  refresh_alive now draw raw t x db s k d = ground arith

  pub refresh-Change :
      (now : ℕ) (draw : Draw) (raw : String) (db : Db)
      → Change db (refresh cfg sha sign now draw raw db).1
  refresh-Change now draw raw db =
      elim (Option-cases (find (has_hash (sha raw)) db.refresh_tokens)) [
        | inl n ↦
            subst (λ q. Change db q.1) (sym (refresh_unknown now draw raw db n))
              (untouched refl refl)
        | inr (t, s) ↦ elim (Option-cases (find (has_session_id t.session_id) db.sessions)) [
          | inl n ↦
              subst (λ q. Change db q.1) (sym (refresh_orphan now draw raw t db s n))
                (untouched refl refl)
          | inr (x, k) ↦ elim (Bool-cases (is_dead now t)) [
            | inl d ↦
                subst (λ q. Change db q.1) (sym (refresh_dead now draw raw t db s d))
                  (untouched refl refl)
            | inr d ↦
                subst (λ q. Change db q.1) (sym (refresh_alive now draw raw t x db s k d))
                  (subst (Change db)
                    (sym
                      (answer_left (transact (rotate cfg sha sign now draw (with_family t x)) db)))
                    (transact-keeps (Change db) (rotate cfg sha sign now draw (with_family t x)) db
                      (untouched refl refl)
                      (λ r db' h.
                        rotate-Change cfg sha sign now draw (sha raw) t x db db' r s k h)))
          ]
        ]
      ]
