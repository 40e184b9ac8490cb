-- ===== src/Auth/Rotation.antt =====
-- Rotation of refresh tokens with reuse detection (`Refresh` of
-- services/auth/internal/service/service.go).
use aizorix_freelancer.Base.{
  ℕ, String, true, false, Option, some, [], ◌∷◌, ◌++◌, ◌≡◌, ◌⊎◌, refl, ◌==◌, arith, inl, inr, ap,
  sym, ◌∙◌, if◌then◌else◌, is_some, Option-cases, Bool-cases, eq_iff,
}
use mathlib.Core.Path.{subst}
use aizorix_freelancer.Base.Table.{
  find, find-append_some, find-update_either, find-update_all, UniqueBy, UniqueBy-append,
  find-update_found,
}
use aizorix_freelancer.Base.Rows.{All, All-append, All-update, All-update_all}
use aizorix_freelancer.Base.Tx.{ok, err, commit_or_rollback, Result-cases}
use aizorix_freelancer.Auth.Tables.{
  Session, Token, Claims, Config, Tokens, Draw, Db, token_reuse, token_expired,
}
use aizorix_freelancer.Auth.Store.Sessions.{
  has_session_id, has_token_id, has_hash, with_family, set_used, revoke_session_row,
  revoke_token_row,
}
use aizorix_freelancer.Auth.Service.{answer, refresh, rotate}
use aizorix_freelancer.Auth.Changes.{Change, untouched, issued, rotated, revoked}
use aizorix_freelancer.Auth.Refresh.{
  is_dead, refresh_dead, refresh_unknown, refresh_orphan, refresh_alive,
}
use aizorix_freelancer.Auth.Rotate.{rotate_used, rotate_unused, rotated_token}

-- The token of a hash has been rotated.
abbrev pub Spent : String → Db → Type 0
Spent hash db =
    (t : Token) × (find (has_hash hash) db.refresh_tokens ≡ some t) × (is_some t.used_at ≡ true)

pub Change-Spent : (hash : String) (db db' : Db) → Change db db' → Spent hash db → Spent hash db'
Change-Spent hash db db' (untouched a b) (t, s, u) = (t, ap (find (has_hash hash)) b ∙ s, u)
Change-Spent hash db db' (issued x new a b c d e f) (t, s, u) =
    (t, ap (find (has_hash hash)) f ∙ find-append_some (has_hash hash) new t db.refresh_tokens s, u)
Change-Spent hash db db' (rotated now h old new x a b c d e f g k l) (t, s, u) =
    elim (find-update_either (has_hash hash) (has_token_id old.id) (set_used now new.id) t
      (db.refresh_tokens ++ new ∷ []) (λ _. refl)
      (find-append_some (has_hash hash) new t db.refresh_tokens s)) [
        | inl same ↦ (t, ap (find (has_hash hash)) l ∙ same, u)
        | inr same ↦ (set_used now new.id t, ap (find (has_hash hash)) l ∙ same, refl)
      ]
Change-Spent hash db db' (revoked now reason p q a b) (t, s, u) =
    let found =
      find-update_all (has_hash hash) q (revoke_token_row now) t db.refresh_tokens (λ _. refl) s in
    (
      if q t then revoke_token_row now t else t,
      ap (find (has_hash hash)) b ∙ found,
      elim (Bool-cases (q t)) [ inl e ↦ rw e u | inr e ↦ rw e u ],
    )

abbrev pub RevokedIn : String → Token → Type 0
RevokedIn id t = (t.session_id == id) ≡ true → is_some t.revoked_at ≡ true

abbrev pub RevokedSession : String → Db → Type 0
RevokedSession id db =
    (x : Session) × (find (has_session_id id) db.sessions ≡ some x) × (is_some x.revoked_at ≡ true)

-- A session is revoked, and so is each of its tokens.
abbrev pub Burned : String → Db → Type 0
Burned id db = RevokedSession id db × All (RevokedIn id) db.refresh_tokens

-- A revoked session stays revoked.
Change-RevokedSession :
    (id : String) (db db' : Db) → Change db db' → RevokedSession id db → RevokedSession id db'
Change-RevokedSession id db db' (untouched a b) (x, s, r) =
    (x, ap (find (has_session_id id)) a ∙ s, r)
Change-RevokedSession id db db' (issued y new a b c d e f) (x, s, r) =
    (x, ap (find (has_session_id id)) e ∙ find-append_some (has_session_id id) y x db.sessions s, r)
Change-RevokedSession id db db' (rotated now h old new y a b c d e f g p q) (x, s, r) =
    (x, ap (find (has_session_id id)) p ∙ s, r)
Change-RevokedSession id db db' (revoked now reason p q a b) (x, s, r) =
    let found =
      find-update_all (has_session_id id) p (revoke_session_row now reason) x db.sessions
        (λ _. refl) s in
    (
      if p x then revoke_session_row now reason x else x,
      ap (find (has_session_id id)) a ∙ found,
      elim (Bool-cases (p x)) [ inl e ↦ rw e refl | inr e ↦ rw e r ],
    )

-- No token is issued for it.
pub Change-Burned : (id : String) (db db' : Db) → Change db db' → Burned id db → Burned id db'
Change-Burned id db db' change (revoked_session, k) =
    (Change-RevokedSession id db db' change revoked_session, tokens change)
  where
    tokens : Change db db' → All (RevokedIn id) db'.refresh_tokens
    tokens (untouched a b) = subst (All (RevokedIn id)) (sym b) k
    tokens (issued y new a b c d e f) =
        let (x, s, r) = revoked_session in
        let other : RevokedIn id new = λ h.
          let same : y.id ≡ id = sym d ∙ (eq_iff new.session_id id).0 h in
          ground (arith, sym (ap (λ j. find (has_session_id j) db.sessions) same) ∙ a, s) in
        subst (All (RevokedIn id)) (sym f) (All-append (RevokedIn id) new db.refresh_tokens k other)
    tokens (rotated now h old new y a b c d e f g p q) =
        let (x, s, r) = revoked_session in
        let other : RevokedIn id new = λ h.
          let same : old.session_id ≡ id = sym g ∙ (eq_iff new.session_id id).0 h in
          ground (arith, sym (ap (λ j. find (has_session_id j) db.sessions) same) ∙ c, s, r, d) in
        subst (All (RevokedIn id)) (sym q) (
          All-update (RevokedIn id) (has_token_id old.id) (set_used now new.id)
            (db.refresh_tokens ++ new ∷ []) (λ _ m. m)
            (All-append (RevokedIn id) new db.refresh_tokens k other))
    tokens (revoked now reason p q a b) = subst (All (RevokedIn id)) (sym b) (
        All-update_all (RevokedIn id) q (revoke_token_row now) db.refresh_tokens (λ _ _ _ _. refl)
          k)

abbrev pub token_key : Token → String
token_key t = t.id

module _ (cfg : Config) (sha : String → String) (sign : Claims → Option String) where
  -- What a refresh that succeeds has found, and what it leaves.
  pub refresh-eq-ok :
      (now : ℕ) (draw : Draw) (raw : String) (db db' : Db) (r : Tokens)
      → refresh cfg sha sign now draw raw db ≡ (ok r, db')
      → (t : Token) × (x : Session) × (find (has_hash (sha raw)) db.refresh_tokens ≡ some t)
        × (is_some t.used_at ≡ false)
        × (find (has_session_id t.session_id) db.sessions ≡ some x)
        × (rotate cfg sha sign now draw (with_family t x) db ≡ ok (ok r, db'))
  refresh-eq-ok now draw raw db db' r h =
      elim (Option-cases (find (has_hash (sha raw)) db.refresh_tokens)) [
        | inl n ↦ let e = refresh_unknown cfg sha sign now draw raw db n in ground arith
        | inr (t, s) ↦ elim (Option-cases (find (has_session_id t.session_id) db.sessions)) [
          | inl n ↦ let e = refresh_orphan cfg sha sign now draw raw t db s n in ground arith
          | inr (x, k) ↦ elim (Bool-cases (is_dead cfg sha sign now t)) [
            | inl d ↦ let e = refresh_dead cfg sha sign now draw raw t db s d in ground arith
            | inr d ↦
                let e = refresh_alive cfg sha sign now draw raw t x db s k d in
                elim (Result-cases (rotate cfg sha sign now draw (with_family t x) db)) [
                  | inl (f, q) ↦ ground arith
                  | inr ((f, db1), q) ↦ elim (Bool-cases (is_some t.used_at)) [
                    | inl used ↦
                        let burnt = rotate_used cfg sha sign now draw t x db used in ground arith
                    | inr unused ↦ elim (Result-cases f) [
                      | inl (g, z) ↦ ground arith
                      | inr (g, z) ↦ (t, x, s, unused, k, ground arith)
                    ]
                  ]
                ]
          ]
        ]
      ]

  pub refresh-Spent :
      (now : ℕ) (draw : Draw) (raw : String) (db db' : Db) (r : Tokens)
      → UniqueBy token_key db.refresh_tokens
      → refresh cfg sha sign now draw raw db ≡ (ok r, db')
      → Spent (sha raw) db'
  refresh-Spent now draw raw db db' r u h =
      let (t, x, s, unused, k, run) = refresh-eq-ok now draw raw db db' r h in
      let (v, _, a, b, c, d) = rotate_unused cfg sha sign now draw t x db db' (ok r) unused k run in
      let new = rotated_token cfg sha sign now draw t in
      (
        set_used now new.id t,
        ap (find (has_hash (sha raw))) d
            ∙ find-update_found token_key (has_hash (sha raw)) (set_used now new.id) t
                (db.refresh_tokens ++ new ∷ []) (λ _. refl)
                (UniqueBy-append token_key new db.refresh_tokens u a)
                (find-append_some (has_hash (sha raw)) new t db.refresh_tokens s),
        refl,
      )

  pub used_token_refused :
      (now : ℕ) (draw : Draw) (raw : String) (db : Db)
      → Spent (sha raw) db
      → let r = refresh cfg sha sign now draw raw db in
        (r.0 ≡ err token_reuse) ⊎ (r.0 ≡ err token_expired)
  used_token_refused now draw raw db (t, s, used) =
      elim (Option-cases (find (has_session_id t.session_id) db.sessions)) [
        | inl n ↦ inr (ap (λ q. q.0) (refresh_orphan cfg sha sign now draw raw t db s n))
        | inr (x, k) ↦ elim (Bool-cases (is_dead cfg sha sign now t)) [
          | inl d ↦ inr (ap (λ q. q.0) (refresh_dead cfg sha sign now draw raw t db s d))
          | inr d ↦ inl (
              ap (λ q. q.0) (refresh_alive cfg sha sign now draw raw t x db s k d)
              ∙ ap (λ q. (answer (commit_or_rollback q db)).0)
                  (rotate_used cfg sha sign now draw t x db used))
        ]
      ]
