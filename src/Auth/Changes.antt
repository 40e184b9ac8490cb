-- ===== src/Auth/Changes.antt =====
-- What the methods of services/auth/internal/service/service.go do to the sessions and the refresh
-- tokens, as a step relation.
use aizorix_freelancer.Base.{
  ℕ, ◌+◌, String, Bool, false, Option, none, some, [], ◌∷◌, ◌++◌, ◌≡◌, refl, arith, inl, inr, ap,
  sym, ◌∙◌, is_some, Option-cases, Bool-cases,
}
use aizorix_freelancer.Base.Table.{find, update, update_all, rows_by}
use aizorix_freelancer.Base.Tx.{Result, ok, err}
use aizorix_freelancer.Auth.Tables.{Session, Token, Claims, Tokens, Db, Error, constraint_violation}
use aizorix_freelancer.Auth.Store.Accounts.{
  has_user_id, has_email, is_account_type, role_names, of_user, distinct, permission_codes,
  create_user,
}
use aizorix_freelancer.Auth.Store.Sessions.{
  has_session_id, has_token_id, has_hash, new_session, new_token, set_used, revoke_session_row,
  revoke_token_row, is_live_of_family, of_family, is_live_in, is_live_session, is_live_of_session,
  create_session, insert_refresh_token,
}
use aizorix_freelancer.Auth.Service.{answer}

pub data Change : Db → Db → Type 0 where
  untouched :
      {db db' : Db}
      → db'.sessions ≡ db.sessions
      → db'.refresh_tokens ≡ db.refresh_tokens
      → Change db db'
  issued :
      {db db' : Db} (x : Session) (t : Token)
      → find (has_session_id x.id) db.sessions ≡ none
      → find (has_token_id t.id) db.refresh_tokens ≡ none
      → find (has_hash t.token_hash) db.refresh_tokens ≡ none
      → t.session_id ≡ x.id
      → db'.sessions ≡ db.sessions ++ x ∷ []
      → db'.refresh_tokens ≡ db.refresh_tokens ++ t ∷ []
      → Change db db'
  rotated :
      {db db' : Db} (now : ℕ) (hash : String) (t new : Token) (x : Session)
      → find (has_hash hash) db.refresh_tokens ≡ some t
      → t.used_at ≡ none
      → find (has_session_id t.session_id) db.sessions ≡ some x
      → x.revoked_at ≡ none
      → find (has_token_id new.id) db.refresh_tokens ≡ none
      → find (has_hash new.token_hash) db.refresh_tokens ≡ none
      → new.session_id ≡ t.session_id
      → db'.sessions ≡ db.sessions
      → db'.refresh_tokens
        ≡ update (has_token_id t.id) (set_used now new.id) (db.refresh_tokens ++ new ∷ [])
      → Change db db'
  revoked :
      {db db' : Db} (now : ℕ) (reason : String) (p : Session → Bool) (q : Token → Bool)
      → db'.sessions ≡ update_all p (revoke_session_row now reason) db.sessions
      → db'.refresh_tokens ≡ update_all q (revoke_token_row now) db.refresh_tokens
      → Change db db'

-- A step after which only other tables change.
pub Change-after :
    {db db' : Db} (db1 : Db)
    → Change db db1
    → db'.sessions ≡ db1.sessions
    → db'.refresh_tokens ≡ db1.refresh_tokens
    → Change db db'
Change-after db1 (untouched a b) p q = untouched (p ∙ a) (q ∙ b)
Change-after db1 (issued x t a b c d e f) p q = issued x t a b c d (p ∙ e) (q ∙ f)
Change-after db1 (rotated now hash t new x a b c d e f g k l) p q =
    rotated now hash t new x a b c d e f g (p ∙ k) (q ∙ l)
Change-after db1 (revoked now reason f g a b) p q = revoked now reason f g (p ∙ a) (q ∙ b)

-- A step before which only other tables change.
pub Change-before :
    {db db' : Db} (db1 : Db)
    → Change db1 db'
    → db1.sessions ≡ db.sessions
    → db1.refresh_tokens ≡ db.refresh_tokens
    → Change db db'
Change-before {db} db1 (untouched a b) p q = untouched (a ∙ p) (b ∙ q)
Change-before {db} db1 (issued x t a b c d e f) p q =
    issued x t (ap (find (has_session_id x.id)) (sym p) ∙ a)
      (ap (find (has_token_id t.id)) (sym q) ∙ b) (ap (find (has_hash t.token_hash)) (sym q) ∙ c) d
      (e ∙ ap (λ r. r ++ x ∷ []) p) (f ∙ ap (λ r. r ++ t ∷ []) q)
Change-before {db} db1 (rotated now hash t new x a b c d e f g k l) p q =
    rotated now hash t new x (ap (find (has_hash hash)) (sym q) ∙ a) b
      (ap (find (has_session_id t.session_id)) (sym p) ∙ c) d
      (ap (find (has_token_id new.id)) (sym q) ∙ e)
      (ap (find (has_hash new.token_hash)) (sym q) ∙ f) g (k ∙ p)
      (l ∙ ap (λ r. update (has_token_id t.id) (set_used now new.id) (r ++ new ∷ [])) q)
Change-before {db} db1 (revoked now reason f g a b) p q =
    revoked now reason f g (a ∙ ap (update_all f (revoke_session_row now reason)) p)
      (b ∙ ap (update_all g (revoke_token_row now)) q)

pub is_none_of : {A : Type 0} (o : Option A) → is_some o ≡ false → o ≡ none
is_none_of none h = refl
is_none_of (some a) h = ground arith

pub create_user-left :
    (fold : String → String) (new_id email hash account_type residency locale : String)
    (db db' : Db) (r : String)
    → create_user fold new_id email hash account_type residency locale db ≡ ok (r, db')
    → (db'.sessions ≡ db.sessions) × (db'.refresh_tokens ≡ db.refresh_tokens)
unfolding create_user
create_user-left fold new_id email hash account_type residency locale db db' r h =
    elim (Bool-cases (is_account_type account_type)) [
      | inr a ↦ ground arith
      | inl a ↦ elim (Option-cases (find (has_user_id new_id) db.users)) [
        | inr (u, s) ↦ ground arith
        | inl n ↦ elim (Option-cases (find (has_email fold email) db.users)) [
          | inr (u, s) ↦ ground arith
          | inl k ↦ (ground arith, ground arith)
        ]
      ]
    ]

pub create_session-eq-ok :
    (now : ℕ) (new_id family_id user_id ip ua : String) (ttl : ℕ) (db db' : Db) (r : String)
    → create_session now new_id family_id user_id ip ua ttl db ≡ ok (r, db')
    → (find (has_session_id new_id) db.sessions ≡ none)
      × (r ≡ new_id)
      × (db' ≡ record db {
        sessions = db.sessions ++ new_session new_id family_id user_id ip ua (now + ttl) ∷ [];
      })
unfolding create_session
create_session-eq-ok now new_id family_id user_id ip ua ttl db db' r h =
    elim (Option-cases (find (has_session_id new_id) db.sessions)) [
      | inr (x, s) ↦ ground arith
      | inl n ↦ (n, ground arith, ground arith)
    ]

pub insert_refresh_token-eq-ok :
    (now : ℕ) (new_id session_id user_id hash : String) (ttl : ℕ) (db db' : Db) (r : String)
    → insert_refresh_token now new_id session_id user_id hash ttl db ≡ ok (r, db')
    → (find (has_token_id new_id) db.refresh_tokens ≡ none)
      × (find (has_hash hash) db.refresh_tokens ≡ none)
      × (r ≡ new_id)
      × (db' ≡ record db {
        refresh_tokens =
            db.refresh_tokens ++ new_token new_id session_id user_id hash (now + ttl) ∷ [];
      })
unfolding insert_refresh_token
insert_refresh_token-eq-ok now new_id session_id user_id hash ttl db db' r h =
    elim (Option-cases (find (has_session_id session_id) db.sessions)) [
      | inl n ↦ ground arith
      | inr (x, s) ↦ elim (Option-cases (find (has_token_id new_id) db.refresh_tokens)) [
        | inr (t, k) ↦ ground arith
        | inl k ↦ elim (Option-cases (find (has_hash hash) db.refresh_tokens)) [
          | inr (t, l) ↦ ground arith
          | inl l ↦ (k, l, ground arith, ground arith)
        ]
      ]
    ]

pub answer_left : (p : Result Error (Result Error Tokens) × Db) → (answer p).1 ≡ p.1
answer_left (ok r, db) = refl
answer_left (err e, db) = refl

-- The tables after `revoke_session_by_id`.
abbrev pub session_revoked : ℕ → String → String → Db → Db
session_revoked now id reason db = record db {
  sessions = update_all (is_live_session id) (revoke_session_row now reason) db.sessions;
  refresh_tokens = update_all (is_live_of_session id) (revoke_token_row now) db.refresh_tokens;
}

-- The claims that the tables give.
abbrev pub claims_in : Db → String → String → String → String → Claims
claims_in db user_id session_id residency account_type = record {
  user_id = user_id;
  session_id = session_id;
  roles = role_names db.roles (rows_by (of_user user_id) db.user_roles);
  permissions =
      distinct (permission_codes db.role_permissions (rows_by (of_user user_id) db.user_roles));
  residency_country = residency;
  account_type = account_type;
}

pub insert_refresh_token-eq-err :
    (now : ℕ) (new_id session_id user_id hash : String) (ttl : ℕ) (db : Db) (e : Error)
    → insert_refresh_token now new_id session_id user_id hash ttl db ≡ err e
    → e ≡ constraint_violation
unfolding insert_refresh_token
insert_refresh_token-eq-err now new_id session_id user_id hash ttl db e h =
    elim (Option-cases (find (has_session_id session_id) db.sessions)) [
      | inl n ↦ ground arith
      | inr (x, s) ↦ elim (Option-cases (find (has_token_id new_id) db.refresh_tokens)) [
        | inr (t, k) ↦ ground arith
        | inl k ↦ elim (Option-cases (find (has_hash hash) db.refresh_tokens)) [
          | inr (t, l) ↦ ground arith
          | inl l ↦ ground arith
        ]
      ]
    ]

-- The tables after `revoke_family`.
abbrev pub family_revoked : ℕ → String → String → Db → Db
family_revoked now family reason db =
    let sessions =
      update_all (is_live_of_family family) (revoke_session_row now reason) db.sessions in
    record db {
      sessions = sessions;
      refresh_tokens =
          update_all (is_live_in (rows_by (of_family family) sessions)) (revoke_token_row now)
            db.refresh_tokens;
    }

pub family_revoked-Change :
    (now : ℕ) (family reason : String) (db : Db) → Change db (family_revoked now family reason db)
family_revoked-Change now family reason db =
    revoked now reason (is_live_of_family family)
      (is_live_in (rows_by (of_family family) (family_revoked now family reason db).sessions)) refl
      refl
