-- ===== src/Auth/Store/Accounts.antt =====
-- The queries of services/auth/internal/store/store.go on users and roles. Those on the pool
-- alone are functions of the tables, those in a transaction its steps. Ids that the database draws,
-- and its clock, are arguments. Emails are compared under the case folding of the column's type
-- CITEXT.
use aizorix_freelancer.Base.{
  ℕ, ◌+◌, String, Bool, false, Option, none, some, List, [], ◌∷◌, ◌++◌, ◌&&◌, ◌||◌, not, ◌==◌, leb,
  if◌then◌else◌, is_some, map,
}
use aizorix_freelancer.Base.Table.{find, update, rows_by}
use aizorix_freelancer.Base.Tx.{Tx, pure, get_db, modify, fail_if, or_fail, ◌>>=◌, ◌>>◌}
use aizorix_freelancer.Auth.Tables.{
  User, Role, UserRole, RolePermission, Db, Error, email_taken, not_found, constraint_violation,
}

abbrev pub has_user_id : String → User → Bool
has_user_id id u = u.id == id

-- `deleted_at IS NULL`, and the email or the id.
abbrev pub has_email : (String → String) → String → User → Bool
has_email fold email u = fold u.email == fold email && not (is_some u.deleted_at)

abbrev pub has_live_id : String → User → Bool
has_live_id id u = u.id == id && not (is_some u.deleted_at)

-- The values of the type `account_type`.
abbrev pub is_account_type : String → Bool
is_account_type t = t == "client" || (t == "freelancer" || (t == "admin" || t == "support"))

abbrev pub new_user : String → String → String → String → String → String → User
new_user new_id email hash account_type residency locale = record {
  id = new_id;
  email = email;
  password_hash = hash;
  status = "pending";
  primary_type = account_type;
  email_verified = false;
  mfa_enabled = false;
  residency = residency;
  locale = locale;
  failed_logins = 0;
  locked_until = none;
  last_login_at = none;
  deleted_at = none;
}

-- Each unique violation is taken for a taken email.
unfoldable pub create_user :
    (String → String) → String → String → String → String → String → String → Tx Db Error String
create_user fold new_id email hash account_type residency locale = do
  db ← get_db
  fail_if (not (is_account_type account_type)) constraint_violation
  fail_if (is_some (find (has_user_id new_id) db.users)) email_taken
  fail_if (is_some (find (has_email fold email) db.users)) email_taken
  modify (λ d. record d {
    users = d.users ++ new_user new_id email hash account_type residency locale ∷ [];
  })
  pure new_id

abbrev pub get_user_by_email : (String → String) → String → Db → Option User
get_user_by_email fold email db = find (has_email fold email) db.users

abbrev pub get_user_by_id : String → Tx Db Error User
get_user_by_id id = do db ← get_db; or_fail (find (has_live_id id) db.users) not_found

abbrev pub set_login_success : ℕ → User → User
set_login_success now u = record u {
  last_login_at = some now;
  failed_logins = 0;
  locked_until = none;
}

unfoldable pub record_login_success : ℕ → String → Db → Db
record_login_success now id db = record db {
  users = update (has_user_id id) (set_login_success now) db.users;
}

-- Beyond an INT the statement fails, and the row stays.
abbrev pub set_login_failure : ℕ → ℕ → ℕ → User → User
set_login_failure threshold lock_for now u =
    if leb (u.failed_logins + 1) 2147483647
    then record u {
      failed_logins = u.failed_logins + 1;
      locked_until =
          if leb threshold (u.failed_logins + 1) then some (now + lock_for) else u.locked_until;
    }
    else u

unfoldable pub record_login_failure : ℕ → ℕ → ℕ → String → Db → Db
record_login_failure threshold lock_for now id db = record db {
  users = update (has_user_id id) (set_login_failure threshold lock_for now) db.users;
}

abbrev pub of_user : String → UserRole → Bool
of_user id r = r.user_id == id

abbrev pub of_role : String → RolePermission → Bool
of_role id p = p.role_id == id

abbrev pub has_role_id : String → Role → Bool
has_role_id id r = r.id == id

abbrev pub has_name : String → Role → Bool
has_name name r = r.name == name

-- `user_roles JOIN roles`
abbrev pub role_names : List Role → List UserRole → List String
role_names roles [] = []
role_names roles (r ∷ rs) =
    map (λ x. x.name) (rows_by (has_role_id r.role_id) roles) ++ role_names roles rs

abbrev pub insert_distinct : String → List String → List String
insert_distinct x [] = x ∷ []
insert_distinct x (y ∷ ys) = let rest = insert_distinct x ys in if y == x then y ∷ ys else y ∷ rest

-- `SELECT DISTINCT`
abbrev pub distinct : List String → List String
distinct [] = []
distinct (x ∷ xs) = insert_distinct x (distinct xs)

-- `user_roles JOIN role_permissions JOIN permissions`
abbrev pub permission_codes : List RolePermission → List UserRole → List String
permission_codes ps [] = []
permission_codes ps (r ∷ rs) =
    map (λ x. x.code) (rows_by (of_role r.role_id) ps) ++ permission_codes ps rs

abbrev pub roles_in : String → Db → List String × List String
roles_in id db =
    let own = rows_by (of_user id) db.user_roles in
    (role_names db.roles own, distinct (permission_codes db.role_permissions own))

-- The query runs outside any transaction: in one that has changed the roles, it is `roles_in` of the
-- tables before it.
unfoldable pub roles_and_permissions : String → Tx Db Error (List String × List String)
roles_and_permissions id = do db ← get_db; pure (roles_in id db)

abbrev pub same_role : String → String → UserRole → Bool
same_role user_id role_id r = r.user_id == user_id && (r.role_id == role_id && r.scope == "")

-- `INSERT ... SELECT`: the roles of that name, a conflict left out.
abbrev pub assign : String → List Role → List UserRole → List UserRole
assign user_id [] rs = rs
assign user_id (r ∷ roles) rs = assign user_id roles (
    if is_some (find (same_role user_id r.id) rs)
    then rs
    else rs ++ record { user_id = user_id; role_id = r.id; scope = "" } ∷ [])

unfoldable pub assign_role : String → String → Tx Db Error (Unit {0})
assign_role user_id name =
    modify
      (λ d. record d { user_roles = assign user_id (rows_by (has_name name) d.roles) d.user_roles })
