-- ===== src/Auth/Promises.antt =====
-- What the auth service promises of refresh tokens and sessions, for every run of requests.
use aizorix_freelancer.Base.{
  ℕ, ◌≤◌, String, Bool, true, false, Option, some, List, ◌≡◌, ◌⊎◌, refl, ◌==◌, arith, inl, inr, ap,
  sym, ◌∙◌, if◌then◌else◌, is_some, Option-cases, Bool-cases, eq_iff,
}
use mathlib.Core.Path.{subst}
use aizorix_freelancer.Base.Table.{find, rows_by, update_all, find-update_all, test-find}
use aizorix_freelancer.Base.Rows.{All-find, All-update_all_intro, find-rows_by}
use aizorix_freelancer.Base.Tx.{ok, err, Result-cases}
use aizorix_freelancer.Auth.Tables.{
  Session, Token, Role, RolePermission, Claims, Config, Tokens, Draw, Db, token_reuse,
  token_expired,
}
use aizorix_freelancer.Auth.Store.Sessions.{
  has_session_id, has_hash, with_family, is_live_of_family, of_family, is_live_in, is_live_session,
  is_live_of_session, revoke_session_row, revoke_token_row,
}
use aizorix_freelancer.Auth.Service.{refresh, rotate, logout}
use aizorix_freelancer.Auth.Refresh.{
  is_dead, refresh_dead, refresh_unknown, refresh_orphan, refresh_alive,
}
use aizorix_freelancer.Auth.Rotate.{rotate_used, rotate_unused, rotate_unused_failed}
use aizorix_freelancer.Auth.Changes.{family_revoked, session_revoked}
use aizorix_freelancer.Auth.Logout.{logout_found}
use aizorix_freelancer.Auth.Requests.{Request, serve, serve-keeps}
use aizorix_freelancer.Auth.Rotation.{
  Spent, Change-Spent, RevokedIn, Burned, Change-Burned, refresh-Spent, used_token_refused,
}
use aizorix_freelancer.Auth.Chains.{unused_tokens, start, start-IsChained, serve-IsChained}

revoked_row :
    (now : ℕ) (reason id : String) (p : Session → Bool) (x : Session) (xs : List Session)
    → find (has_session_id id) xs ≡ some x
    → ((is_some x.revoked_at ≡ false) → p x ≡ true)
    → (y : Session) × (find (has_session_id id) (update_all p (revoke_session_row now reason) xs)
        ≡ some y)
      × (is_some y.revoked_at ≡ true)
      × (y.family_id ≡ x.family_id)
revoked_row now reason id p x xs s k =
    let found =
      find-update_all (has_session_id id) p (revoke_session_row now reason) x xs (λ _. refl) s in
    elim (Bool-cases (p x)) [
      | inl e ↦ (revoke_session_row now reason x, found ∙ rw e refl, refl, refl)
      | inr e ↦ elim (Bool-cases (is_some x.revoked_at)) [
        | inl r ↦ (x, found ∙ rw e refl, r, refl)
        | inr r ↦ ground (arith, k r)
      ]
    ]

revoked_token :
    (now : ℕ) (id : String) (q : Token → Bool) (t : Token)
    → ((t.session_id == id) ≡ true → is_some t.revoked_at ≡ false → q t ≡ true)
    → RevokedIn id (if q t then revoke_token_row now t else t)
revoked_token now id q t k = elim (Bool-cases (q t)) [
  | inl e ↦ rw e (λ _. refl)
  | inr e ↦ rw e (λ h. elim (Bool-cases (is_some t.revoked_at)) [
    | inl r ↦ r
    | inr r ↦ ground (arith, k h r, e)
  ])
]

-- Each session of a family that is revoked is, with its tokens.
family_revoked-Burned :
    (now : ℕ) (family reason id : String) (x : Session) (db : Db)
    → find (has_session_id id) db.sessions ≡ some x
    → x.family_id ≡ family
    → Burned id (family_revoked now family reason db)
family_revoked-Burned now family reason id x db s same =
    let in_family : (x.family_id == family) ≡ true = (eq_iff x.family_id family).1 same in
    let (y, found, r, kept) =
      revoked_row now reason id (is_live_of_family family) x db.sessions s
        (λ h. rw (in_family, h) refl) in
    let member =
      find-rows_by (has_session_id id) (of_family family) y
        (update_all (is_live_of_family family) (revoke_session_row now reason) db.sessions) found
        ((eq_iff y.family_id family).1 (kept ∙ same)) in
    let sessions = (family_revoked now family reason db).sessions in
    let live = is_live_in (rows_by (of_family family) sessions) in
    (
      (y, found, r),
      All-update_all_intro (RevokedIn id) live (revoke_token_row now) db.refresh_tokens (λ t.
          revoked_token now id live t (λ h free.
            let there =
              ap (λ j. is_some (find (has_session_id j) (rows_by (of_family family) sessions)))
                ((eq_iff t.session_id id).0 h)
              ∙ member in
            rw (there, free) refl)),
    )

session_revoked-Burned :
    (now : ℕ) (reason id : String) (x : Session) (db : Db)
    → find (has_session_id id) db.sessions ≡ some x
    → Burned id (session_revoked now id reason db)
session_revoked-Burned now reason id x db s =
    let own : (x.id == id) ≡ true = test-find (has_session_id id) x db.sessions s in
    let (y, found, r, kept) =
      revoked_row now reason id (is_live_session id) x db.sessions s (λ h. rw (own, h) refl) in
    (
      (y, found, r),
      All-update_all_intro (RevokedIn id) (is_live_of_session id) (revoke_token_row now)
          db.refresh_tokens
          (λ t. revoked_token now id (is_live_of_session id) t (λ h free. rw (h, free) refl)),
    )

module _ (cfg : Config) (sha : String → String) (sign : Claims → Option String)
    (fold : String → String) (verify : String → String → Bool) where
  -- Every later refresh of a token of the session is refused as expired, and changes nothing.
  abbrev pub HasEnded : String → Db → Type 0
  HasEnded id db =
      (later : List Request) (now : ℕ) (draw : Draw) (raw : String) (t : Token)
      → let after = serve cfg sha sign fold verify later db in
        find (has_hash (sha raw)) after.refresh_tokens ≡ some t
        → t.session_id ≡ id
        → refresh cfg sha sign now draw raw after ≡ (err token_expired, after)

  Burned-HasEnded : (id : String) (db : Db) → Burned id db → HasEnded id db
  Burned-HasEnded id db b later now draw raw t s same =
      let after = serve cfg sha sign fold verify later db in
      let (_, all) =
        serve-keeps cfg sha sign fold verify (Burned id) (Change-Burned id) later db b in
      let dead : is_some t.revoked_at ≡ true =
        All-find (RevokedIn id) (has_hash (sha raw)) t after.refresh_tokens all s
          ((eq_iff t.session_id id).1 same) in
      refresh_dead cfg sha sign now draw raw t after s (rw dead refl)

  -- Whatever requests are served, from tables with roles only, each session has at most one refresh
  -- token that is not used.
  pub serve-single_token :
      (rs : List Request) (roles : List Role) (ps : List RolePermission) (id : String)
      → unused_tokens id (serve cfg sha sign fold verify rs (start roles ps)) ≤ 1
  serve-single_token rs roles ps id =
      (serve-IsChained cfg sha sign fold verify rs (start roles ps)
          (start-IsChained roles ps)).single
        id

  -- A refresh token works once: after a refresh with it has succeeded, in tables that requests have
  -- made from roles only, and whatever requests were served since, a refresh with it is refused, as
  -- a reuse or as expired.
  pub refresh_once :
      (earlier later : List Request) (roles : List Role) (ps : List RolePermission) (now now' : ℕ)
      (draw draw' : Draw) (raw : String) (db : Db) (r : Tokens)
      → refresh cfg sha sign now draw raw (serve cfg sha sign fold verify earlier (start roles ps))
        ≡ (ok r, db)
      → let again = refresh cfg sha sign now' draw' raw (serve cfg sha sign fold verify later db) in
        (again.0 ≡ err token_reuse) ⊎ (again.0 ≡ err token_expired)
  refresh_once earlier later roles ps now now' draw draw' raw db r h =
      let before = serve cfg sha sign fold verify earlier (start roles ps) in
      let chained =
        serve-IsChained cfg sha sign fold verify earlier (start roles ps)
          (start-IsChained roles ps) in
      used_token_refused cfg sha sign now' draw' raw (serve cfg sha sign fold verify later db) (
        serve-keeps cfg sha sign fold verify (Spent (sha raw)) (Change-Spent (sha raw)) later db
          (refresh-Spent cfg sha sign now draw raw before db r chained.unique h))

  refresh-eq-reuse :
      (now : ℕ) (draw : Draw) (raw : String) (db db' : Db)
      → refresh cfg sha sign now draw raw db ≡ (err token_reuse, db')
      → (t : Token) × (x : Session) × (find (has_hash (sha raw)) db.refresh_tokens ≡ some t)
        × (find (has_session_id t.session_id) db.sessions ≡ some x)
        × (db' ≡ family_revoked now x.family_id "refresh_token_reuse" db)
  refresh-eq-reuse now draw raw db db' h =
      elim (Option-cases (find (has_hash (sha raw)) db.refresh_tokens)) [
        | inl n ↦ let e = refresh_unknown cfg sha sign now draw raw db n in ground arith
        | inr (t, s) ↦ elim (Option-cases (find (has_session_id t.session_id) db.sessions)) [
          | inl n ↦ let e = refresh_orphan cfg sha sign now draw raw t db s n in ground arith
          | inr (x, k) ↦ elim (Bool-cases (is_dead cfg sha sign now t)) [
            | inl d ↦ let e = refresh_dead cfg sha sign now draw raw t db s d in ground arith
            | inr d ↦
                let e = refresh_alive cfg sha sign now draw raw t x db s k d in
                elim (Bool-cases (is_some t.used_at)) [
                  | inl used ↦
                      let burnt = rotate_used cfg sha sign now draw t x db used in
                      (t, x, s, k, ground arith)
                  | inr unused ↦
                      elim (Result-cases (rotate cfg sha sign now draw (with_family t x) db)) [
                        | inl (f, q) ↦
                            elim (rotate_unused_failed cfg sha sign now draw t x db f unused k q) [
                              | inl z ↦ ground arith
                              | inr (inl z) ↦ ground arith
                              | inr (inr z) ↦ ground arith
                            ]
                        | inr ((f, db1), q) ↦
                            let (_, (tokens, z), _, _, _, _) =
                              rotate_unused cfg sha sign now draw t x db db1 f unused k q in
                            ground arith
                      ]
                ]
          ]
        ]
      ]

  -- When a refresh is refused as a reuse, all sessions of the family of the token's session have
  -- ended: whatever requests are served later, a refresh with a token of one of them is refused as
  -- expired and changes nothing.
  pub refresh_reuse_ends :
      (now : ℕ) (draw : Draw) (raw : String) (db db' : Db)
      → refresh cfg sha sign now draw raw db ≡ (err token_reuse, db')
      → (t : Token) × (x : Session) × (find (has_hash (sha raw)) db.refresh_tokens ≡ some t)
        × (find (has_session_id t.session_id) db.sessions ≡ some x)
        × ((id : String) (y : Session)
            → find (has_session_id id) db.sessions ≡ some y
            → y.family_id ≡ x.family_id
            → HasEnded id db')
  refresh_reuse_ends now draw raw db db' h =
      let (t, x, s, k, same) = refresh-eq-reuse now draw raw db db' h in
      (
        t,
        x,
        s,
        k,
        λ id y f g. Burned-HasEnded id db' (
            subst (Burned id) (sym same)
              (family_revoked-Burned now x.family_id "refresh_token_reuse" id y db f g)),
      )

  -- A logout with a refresh token that is known succeeds, and the session of the token has ended:
  -- whatever requests are served later, a refresh with a token of it is refused as expired and
  -- changes nothing.
  pub logout_ends :
      (now : ℕ) (raw : String) (all_sessions : Bool) (t : Token) (x : Session) (db : Db)
      → (raw == "") ≡ false
      → find (has_hash (sha raw)) db.refresh_tokens ≡ some t
      → find (has_session_id t.session_id) db.sessions ≡ some x
      → (db' : Db) × (logout cfg sha sign now raw all_sessions db ≡ ok (tt, db'))
        × HasEnded t.session_id db'
  logout_ends now raw all_sessions t x db e s k =
      let run = logout_found cfg sha sign now raw all_sessions t x db e s k in
      elim (Bool-cases all_sessions) [
        | inl a ↦ (
          family_revoked now x.family_id "user_logout_all" db,
          run ∙ rw a refl,
          Burned-HasEnded t.session_id (family_revoked now x.family_id "user_logout_all" db)
              (family_revoked-Burned now x.family_id "user_logout_all" t.session_id x db k refl),
        )
        | inr a ↦ (
          session_revoked now t.session_id "user_logout" db,
          run ∙ rw a refl,
          Burned-HasEnded t.session_id (session_revoked now t.session_id "user_logout" db)
              (session_revoked-Burned now "user_logout" t.session_id x db k),
        )
      ]
