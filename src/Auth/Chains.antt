-- ===== src/Auth/Chains.antt =====
-- The chain of refresh tokens of a session: each rotation leaves one token that is not used.
use aizorix_freelancer.Base.{
  ℕ, ◌≤◌, String, Bool, true, Option, none, some, List, [], ◌∷◌, ◌++◌, ◌≡◌, refl, ◌==◌, ◌&&◌, not,
  arith, inl, inr, ap, sym, ◌∙◌, if◌then◌else◌, is_some, Option-cases, Bool-cases, eq_iff, eq_refl,
}
use mathlib.Core.Path.{subst}
use aizorix_freelancer.Base.Table.{
  find, update, update_all, find-append, find-append_some, find-update_all, UniqueBy,
  UniqueBy-append, UniqueBy-update, find_by_key,
}
use aizorix_freelancer.Base.Rows.{
  All, All-append, All-update, All-update_all, All-map, sum_ℕ, sum_ℕ-append, sum_ℕ-update,
  sum_ℕ-update_all, sum_ℕ-zero, UniqueBy-update_all,
}
use aizorix_freelancer.Auth.Tables.{Session, Token, Role, RolePermission, Claims, Config, Db}
use aizorix_freelancer.Auth.Store.Sessions.{
  has_session_id, has_token_id, has_hash, set_used, revoke_session_row, revoke_token_row,
}
use aizorix_freelancer.Auth.Changes.{Change, untouched, issued, rotated, revoked}
use aizorix_freelancer.Auth.Requests.{Request, serve, serve-keeps}
use aizorix_freelancer.Auth.Rotation.{token_key}

-- 1 for a token of the session that is not used, else 0.
abbrev pub unused_in : String → Token → ℕ
unused_in id t = if t.session_id == id && not (is_some t.used_at) then 1 else 0

-- How many tokens of a session are not used.
abbrev pub unused_tokens : String → Db → ℕ
unused_tokens id db = sum_ℕ (unused_in id) db.refresh_tokens

abbrev pub HasSession : List Session → Token → Type 0
HasSession xs t = is_some (find (has_session_id t.session_id) xs) ≡ true

pub record IsChained (db : Db) : Type 0 where
  pub unique : UniqueBy token_key db.refresh_tokens
  pub owned : All (HasSession db.sessions) db.refresh_tokens
  pub single : (id : String) → unused_tokens id db ≤ 1

find-append-is_some :
    (id : String) (x : Session) (xs : List Session)
    → is_some (find (has_session_id id) xs) ≡ true
    → is_some (find (has_session_id id) (xs ++ x ∷ [])) ≡ true
find-append-is_some id x xs h = elim (Option-cases (find (has_session_id id) xs)) [
  | inl n ↦ ground arith
  | inr (y, s) ↦ rw (find-append_some (has_session_id id) x y xs s) refl
]

find-update_all-is_some :
    (now : ℕ) (reason id : String) (p : Session → Bool) (xs : List Session)
    → is_some (find (has_session_id id) xs) ≡ true
    → is_some (find (has_session_id id) (update_all p (revoke_session_row now reason) xs)) ≡ true
find-update_all-is_some now reason id p xs h = elim (Option-cases (find (has_session_id id) xs)) [
  | inl n ↦ ground arith
  | inr (y, s) ↦
      rw (find-update_all (has_session_id id) p (revoke_session_row now reason) y xs (λ _. refl) s)
        refl
]

-- No token belongs to a session that is not there.
unused_tokens_fresh :
    (id : String) (db : Db)
    → All (HasSession db.sessions) db.refresh_tokens
    → find (has_session_id id) db.sessions ≡ none
    → unused_tokens id db ≡ 0
unused_tokens_fresh id db owned n = sum_ℕ-zero (unused_in id) db.refresh_tokens (
    All-map (HasSession db.sessions) (λ t. unused_in id t ≡ 0) db.refresh_tokens
      (λ t h. elim (Bool-cases (t.session_id == id)) [
        | inl e ↦ ground (
          arith,
          ap (λ j. find (has_session_id j) db.sessions) ((eq_iff t.session_id id).0 e),
          h,
          n,
        )
        | inr e ↦ rw e refl
      ])
      owned)

single_issued :
    (id : String) (x : Session) (new : Token) (db : Db)
    → IsChained db
    → find (has_session_id x.id) db.sessions ≡ none
    → new.session_id ≡ x.id
    → sum_ℕ (unused_in id) (db.refresh_tokens ++ new ∷ []) ≤ 1
single_issued id x new db c n d =
    rw (sum_ℕ-append (unused_in id) new db.refresh_tokens)
      (elim (Bool-cases (new.session_id == id)) [
        | inl e ↦
            let zero = unused_tokens_fresh x.id db c.owned n in
            let same : x.id ≡ id = sym d ∙ (eq_iff new.session_id id).0 e in
            let none_yet : unused_tokens id db ≡ 0 =
              subst (λ j. unused_tokens j db ≡ 0) same zero in
            elim (Bool-cases (is_some new.used_at)) [
              | inl u ↦ ground (arith, none_yet)
              | inr u ↦ ground (arith, none_yet)
            ]
        | inr e ↦ rw e (ground (arith, c.single id))
      ])

unused_in_used :
    (id : String) (now : ℕ) (by : String) (t : Token) → unused_in id (set_used now by t) ≡ 0
unused_in_used id now by t = elim (Bool-cases (t.session_id == id)) [
  | inl e ↦ rw e refl
  | inr e ↦ rw e refl
]

unused_in_same :
    (id : String) (old new : Token)
    → old.used_at ≡ none
    → new.session_id ≡ old.session_id
    → unused_in id new ≤ unused_in id old
unused_in_same id old new unused same = elim (Bool-cases (old.session_id == id)) [
  | inl e ↦
      rw (same, unused, e)
        (elim (Bool-cases (is_some new.used_at)) [
          | inl u ↦ rw u (omega arith)
          | inr u ↦ rw u (omega arith)
        ])
  | inr e ↦ rw (same, e) (omega arith)
]

single_rotated :
    (id : String) (now : ℕ) (hash : String) (old new : Token) (db : Db)
    → IsChained db
    → find (has_hash hash) db.refresh_tokens ≡ some old
    → old.used_at ≡ none
    → find (has_token_id new.id) db.refresh_tokens ≡ none
    → new.session_id ≡ old.session_id
    → sum_ℕ
        (unused_in id)
        (update (has_token_id old.id) (set_used now new.id) (db.refresh_tokens ++ new ∷ []))
      ≤ 1
single_rotated id now hash old new db c s unused fresh same =
    let ts = db.refresh_tokens ++ new ∷ [] in
    let u = UniqueBy-append token_key new db.refresh_tokens c.unique fresh in
    let row : find (has_token_id old.id) ts ≡ some old =
      find_by_key token_key (has_hash hash) old ts u
        (find-append_some (has_hash hash) new old db.refresh_tokens s) in
    let moved =
      sum_ℕ-update (unused_in id) (has_token_id old.id) (set_used now new.id) old ts row in
    let grown = sum_ℕ-append (unused_in id) new db.refresh_tokens in
    let none_left = unused_in_used id now new.id old in
    let at_most = unused_in_same id old new unused same in
    omega (arith, moved, grown, none_left, at_most, c.single id)

owned_after :
    (x : Session) (xs : List Session) (ts : List Token)
    → All (HasSession xs) ts
    → All (HasSession (xs ++ x ∷ [])) ts
owned_after x xs ts a =
    All-map (HasSession xs) (HasSession (xs ++ x ∷ [])) ts
      (λ t h. find-append-is_some t.session_id x xs h) a

issued_session :
    (x : Session) (xs : List Session)
    → find (has_session_id x.id) xs ≡ none
    → is_some (find (has_session_id x.id) (xs ++ x ∷ [])) ≡ true
issued_session x xs n = rw (find-append (has_session_id x.id) x xs n) (rw (eq_refl x.id) refl)

Change-IsChained : (db db' : Db) → Change db db' → IsChained db → IsChained db'
Change-IsChained db db' (untouched a b) c = record {
  unique = subst (UniqueBy token_key) (sym b) c.unique;
  owned =
      subst (λ xs. All (HasSession xs) db'.refresh_tokens) (sym a)
        (subst (All (HasSession db.sessions)) (sym b) c.owned);
  single = λ id. subst (λ ts. sum_ℕ (unused_in id) ts ≤ 1) (sym b) (c.single id);
}
Change-IsChained db db' (issued x new a b d e f g) c = record {
  unique =
      subst (UniqueBy token_key) (sym g)
        (UniqueBy-append token_key new db.refresh_tokens c.unique b);
  owned =
      subst (λ xs. All (HasSession xs) db'.refresh_tokens) (sym f)
        (subst (All (HasSession (db.sessions ++ x ∷ []))) (sym g) (
          All-append (HasSession (db.sessions ++ x ∷ [])) new db.refresh_tokens
            (owned_after x db.sessions db.refresh_tokens c.owned)
            (ap (λ j. is_some (find (has_session_id j) (db.sessions ++ x ∷ []))) e
              ∙ issued_session x db.sessions a)));
  single =
      λ id. subst (λ ts. sum_ℕ (unused_in id) ts ≤ 1) (sym g) (single_issued id x new db c a e);
}
Change-IsChained db db' (rotated now h old new x a b d e f g k p q) c =
    let ts = db.refresh_tokens ++ new ∷ [] in
    record {
      unique = subst (UniqueBy token_key) (sym q) (
          UniqueBy-update token_key (has_token_id old.id) (set_used now new.id) ts (λ _. refl)
            (UniqueBy-append token_key new db.refresh_tokens c.unique f));
      owned =
          subst (λ xs. All (HasSession xs) db'.refresh_tokens) (sym p)
            (subst (All (HasSession db.sessions)) (sym q) (
              All-update (HasSession db.sessions) (has_token_id old.id) (set_used now new.id) ts
                (λ _ m. m)
                (All-append (HasSession db.sessions) new db.refresh_tokens c.owned
                  (ap (λ j. is_some (find (has_session_id j) db.sessions)) k ∙ ap is_some d))));
      single = λ id.
          subst (λ rs. sum_ℕ (unused_in id) rs ≤ 1) (sym q)
            (single_rotated id now h old new db c a b f k);
    }
Change-IsChained db db' (revoked now reason p q a b) c = record {
  unique = subst (UniqueBy token_key) (sym b) (
      UniqueBy-update_all token_key q (revoke_token_row now) db.refresh_tokens (λ _. refl)
        c.unique);
  owned =
      subst (λ xs. All (HasSession xs) db'.refresh_tokens) (sym a)
        (subst (All (HasSession (update_all p (revoke_session_row now reason) db.sessions))) (sym b)
          (All-update_all (HasSession (update_all p (revoke_session_row now reason) db.sessions)) q
            (revoke_token_row now) db.refresh_tokens (λ _ _ m. m)
            (All-map (HasSession db.sessions)
              (HasSession (update_all p (revoke_session_row now reason) db.sessions))
              db.refresh_tokens
              (λ t h. find-update_all-is_some now reason t.session_id p db.sessions h) c.owned)));
  single = λ id.
      subst (λ ts. sum_ℕ (unused_in id) ts ≤ 1) (sym (b))
        (subst (λ n. n ≤ 1)
          (sym (
            sum_ℕ-update_all (unused_in id) q (revoke_token_row now) db.refresh_tokens (λ _. refl)))
          (c.single id));
}

abbrev pub start : List Role → List RolePermission → Db
start roles permissions = record {
  users = [];
  sessions = [];
  refresh_tokens = [];
  roles = roles;
  user_roles = [];
  role_permissions = permissions;
  outbox = [];
}

pub start-IsChained : (rs : List Role) (ps : List RolePermission) → IsChained (start rs ps)
start-IsChained rs ps = record { unique = tt; owned = tt; single = λ id. omega arith }

module _ (cfg : Config) (sha : String → String) (sign : Claims → Option String)
    (fold : String → String) (verify : String → String → Bool) where
  pub serve-IsChained :
      (rs : List Request) (db : Db)
      → IsChained db
      → IsChained (serve cfg sha sign fold verify rs db)
  serve-IsChained rs db c = serve-keeps cfg sha sign fold verify IsChained Change-IsChained rs db c
