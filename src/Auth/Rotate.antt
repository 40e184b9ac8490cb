-- ===== src/Auth/Rotate.antt =====
-- `Refresh` of services/auth/internal/service/service.go, from the token that it has looked up.
use aizorix_freelancer.Base.{
  ℕ, ◌+◌, String, true, false, Option, none, some, [], ◌∷◌, ◌++◌, ◌≡◌, ◌⊎◌, refl, arith, inl, inr,
  ap, sym, ◌∙◌, is_some, Option-cases, Bool-cases,
}
use mathlib.Core.Path.{subst}
use aizorix_freelancer.Base.Table.{find, update}
use aizorix_freelancer.Base.Tx.{Result, ok, err, Result-cases}
use aizorix_freelancer.Auth.Tables.{
  Session, Token, Claims, Config, Tokens, Draw, Db, Error, token_expired, token_reuse,
  constraint_violation, signing_failed,
}
use aizorix_freelancer.Auth.Store.Accounts.{roles_and_permissions}
use aizorix_freelancer.Auth.Store.Sessions.{
  has_session_id, has_token_id, has_hash, new_token, with_family, set_used, insert_refresh_token,
  session_revoked_for_update, mark_token_used, revoke_family,
}
use aizorix_freelancer.Auth.Service.{rotate}
use aizorix_freelancer.Auth.Changes.{
  Change, is_none_of, insert_refresh_token-eq-ok, claims_in, insert_refresh_token-eq-err,
  family_revoked, family_revoked-Change, rotated,
}

module _ (cfg : Config) (sha : String → String) (sign : Claims → Option String) where
  abbrev pub rotated_token : ℕ → Draw → Token → Token
  rotated_token now draw t =
      new_token draw.token_id t.session_id t.user_id (sha draw.raw_token) (now + cfg.refresh_ttl)

  pub rotate_used :
      (now : ℕ) (draw : Draw) (t : Token) (x : Session) (db : Db)
      → is_some t.used_at ≡ true
      → rotate cfg sha sign now draw (with_family t x) db
        ≡ ok (err token_reuse, family_revoked now x.family_id "refresh_token_reuse" db)
  unfolding rotate revoke_family
  rotate_used now draw t x db h = ground arith

  pub rotate_unused :
      (now : ℕ) (draw : Draw) (t : Token) (x : Session) (db db' : Db) (r : Result Error Tokens)
      → is_some t.used_at ≡ false
      → find (has_session_id t.session_id) db.sessions ≡ some x
      → rotate cfg sha sign now draw (with_family t x) db ≡ ok (r, db')
      → let new = rotated_token now draw t in
        (is_some x.revoked_at ≡ false)
        × ((tokens : Tokens) × (r ≡ ok tokens))
        × (find (has_token_id new.id) db.refresh_tokens ≡ none)
        × (find (has_hash new.token_hash) db.refresh_tokens ≡ none)
        × (db'.sessions ≡ db.sessions)
        × (db'.refresh_tokens
            ≡ update (has_token_id t.id) (set_used now new.id) (db.refresh_tokens ++ new ∷ []))
  unfolding rotate session_revoked_for_update roles_and_permissions mark_token_used
  rotate_unused now draw t x db db' r unused k h = elim (Bool-cases (is_some x.revoked_at)) [
    | inl v ↦ ground arith
    | inr v ↦
        elim (Result-cases (
          insert_refresh_token now draw.token_id t.session_id t.user_id (sha draw.raw_token)
            cfg.refresh_ttl db)) [
              | inl (e, g) ↦ ground arith
              | inr ((id, db1), g) ↦
                  let (k', l, same_id, same1) =
                    insert_refresh_token-eq-ok now draw.token_id t.session_id t.user_id
                      (sha draw.raw_token) cfg.refresh_ttl db db1 id g in
                  let claims = claims_in db t.user_id t.session_id "" "" in
                  elim (Option-cases (sign claims)) [
                    | inl z ↦ ground arith
                    | inr (a, z) ↦
                        let used : Db = record db1 {
                          refresh_tokens =
                              update (has_token_id t.id) (set_used now id) db1.refresh_tokens;
                        } in
                        let last : db' ≡ used = ground arith in
                        (
                          v,
                          (
                            record {
                              access_token = a;
                              refresh_token = draw.raw_token;
                              access_expires_in = cfg.access_ttl;
                              user_id = t.user_id;
                            },
                            ground arith,
                          ),
                          k',
                          l,
                          ap (λ d. d.sessions) last ∙ ap (λ d. d.sessions) same1,
                          ap (λ d. d.refresh_tokens) last ∙ λ i.
                              update (has_token_id t.id) (set_used now (same_id i))
                                (same1 i).refresh_tokens,
                        )
                  ]
            ]
  ]

  -- No other failure looks like a reuse.
  pub rotate_unused_failed :
      (now : ℕ) (draw : Draw) (t : Token) (x : Session) (db : Db) (e : Error)
      → is_some t.used_at ≡ false
      → find (has_session_id t.session_id) db.sessions ≡ some x
      → rotate cfg sha sign now draw (with_family t x) db ≡ err e
      → (e ≡ token_expired) ⊎ ((e ≡ constraint_violation) ⊎ (e ≡ signing_failed))
  unfolding rotate session_revoked_for_update roles_and_permissions mark_token_used
  rotate_unused_failed now draw t x db e unused k h = elim (Bool-cases (is_some x.revoked_at)) [
    | inl v ↦ inl (ground arith)
    | inr v ↦
        elim (Result-cases (
          insert_refresh_token now draw.token_id t.session_id t.user_id (sha draw.raw_token)
            cfg.refresh_ttl db)) [
              | inl (f, g) ↦
                  let same =
                    insert_refresh_token-eq-err now draw.token_id t.session_id t.user_id
                      (sha draw.raw_token) cfg.refresh_ttl db f g in
                  inr (inl (ground arith))
              | inr ((id, db1), g) ↦
                  let (_, _, _, same1) =
                    insert_refresh_token-eq-ok now draw.token_id t.session_id t.user_id
                      (sha draw.raw_token) cfg.refresh_ttl db db1 id g in
                  elim (Option-cases (sign (claims_in db t.user_id t.session_id "" ""))) [
                    | inl z ↦ inr (inr (ground arith))
                    | inr (a, z) ↦ ground arith
                  ]
            ]
  ]

  pub rotate-Change :
      (now : ℕ) (draw : Draw) (hash : String) (t : Token) (x : Session) (db db' : Db)
      (r : Result Error Tokens)
      → find (has_hash hash) db.refresh_tokens ≡ some t
      → find (has_session_id t.session_id) db.sessions ≡ some x
      → rotate cfg sha sign now draw (with_family t x) db ≡ ok (r, db')
      → Change db db'
  rotate-Change now draw hash t x db db' r s k h = elim (Bool-cases (is_some t.used_at)) [
    | inl used ↦
        let burnt = rotate_used now draw t x db used in
        let same : db' ≡ family_revoked now x.family_id "refresh_token_reuse" db = ground arith in
        subst (Change db) (sym same)
          (family_revoked-Change now x.family_id "refresh_token_reuse" db)
    | inr unused ↦
        let (v, _, a, b, c, d) = rotate_unused now draw t x db db' r unused k h in
        rotated now hash t (rotated_token now draw t) x s (is_none_of t.used_at unused) k
          (is_none_of x.revoked_at v) a b refl c d
  ]
