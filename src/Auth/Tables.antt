-- ===== src/Auth/Tables.antt =====
-- The rows of services/auth/internal/store/store.go, and the results and errors of the service.
-- Times are seconds.
use aizorix_freelancer.Base.{ℕ, String, Bool, Option, List}
use aizorix_freelancer.Base.Outbox.{Event}

pub record User : Type 0 where
  pub id : String
  pub email : String
  pub password_hash : String
  pub status : String
  pub primary_type : String
  pub email_verified : Bool
  pub mfa_enabled : Bool
  pub residency : String
  pub locale : String
  pub failed_logins : ℕ
  pub locked_until : Option ℕ
  pub last_login_at : Option ℕ
  pub deleted_at : Option ℕ

pub record Session : Type 0 where
  pub id : String
  pub user_id : String
  pub ip : String
  pub user_agent : String
  pub family_id : String
  pub expires_at : ℕ
  pub revoked_at : Option ℕ
  pub revoked_reason : Option String

-- The row of `refresh_tokens`.
pub record Token : Type 0 where
  pub id : String
  pub session_id : String
  pub user_id : String
  pub token_hash : String
  pub replaced_by : Option String
  pub expires_at : ℕ
  pub used_at : Option ℕ
  pub revoked_at : Option ℕ

pub record Role : Type 0 where
  pub id : String
  pub name : String

pub record UserRole : Type 0 where
  pub user_id : String
  pub role_id : String
  pub scope : String

pub record RolePermission : Type 0 where
  pub role_id : String
  pub code : String

pub record Db : Type 0 where
  pub users : List User
  pub sessions : List Session
  pub refresh_tokens : List Token
  pub roles : List Role
  pub user_roles : List UserRole
  pub role_permissions : List RolePermission
  pub outbox : List Event

-- A token with the family of its session.
pub record RefreshToken : Type 0 where
  pub id : String
  pub session_id : String
  pub user_id : String
  pub family_id : String
  pub used_at : Option ℕ
  pub revoked_at : Option ℕ
  pub expires_at : ℕ

pub record Claims : Type 0 where
  pub user_id : String
  pub session_id : String
  pub roles : List String
  pub permissions : List String
  pub residency_country : String
  pub account_type : String

pub record Config : Type 0 where
  pub access_ttl : ℕ
  pub refresh_ttl : ℕ

pub record Tokens : Type 0 where
  pub access_token : String
  pub refresh_token : String
  pub access_expires_in : ℕ
  pub user_id : String

pub record Identity : Type 0 where
  pub user_id : String
  pub email : String
  pub account_type : String
  pub roles : List String
  pub email_verified : Bool
  pub mfa_enabled : Bool

-- What the database and the random source draw for a new session.
pub record Draw : Type 0 where
  pub session_id : String
  pub family_id : String
  pub token_id : String
  pub raw_token : String

-- `signing_failed`, `hashing_failed` and `constraint_violation` are errors that are passed up as
-- they are.
pub data Error : Type 0 where
  invalid_credentials account_locked email_taken token_reuse token_expired not_found : Error
  signing_failed hashing_failed constraint_violation : Error
