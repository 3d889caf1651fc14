-- ===== src/Db.antt =====
-- internal/platform/store: the tables of the migrations, as lists of rows in order of insertion.
-- A nullable column is an option, a TIMESTAMPTZ the nanoseconds since the Unix epoch. The columns
-- users.last_login_at and those of app_settings but the name, which nothing reads, are left out.
pub mod Users
pub mod Organizations
pub mod Tokens
pub mod TwoFactors
pub mod Sessions
pub mod AuditLogs
use dinchy.Prelude.{ℕ, String, Bool, Option, List}

pub record UserRow : Type 0 where
  pub id : String
  pub email : String
  pub display_name : String
  pub email_verified_at : Option ℕ
  pub disabled_at : Option ℕ
  pub created_at : ℕ
  pub updated_at : ℕ

pub record AccountRow : Type 0 where
  pub id : String
  pub user_id : String
  pub provider : String
  pub provider_account_id : String
  pub password_hash : Option String
  pub created_at : ℕ
  pub updated_at : ℕ

pub record OrganizationRow : Type 0 where
  pub id : String
  pub name : String
  pub slug : String
  pub logo : Option String
  pub created_at : ℕ
  pub updated_at : ℕ

pub record OrganizationRoleRow : Type 0 where
  pub id : String
  pub organization_id : String
  pub role_key : String
  pub created_at : ℕ
  pub updated_at : ℕ

pub record RolePermissionRow : Type 0 where
  pub role_id : String
  pub permission : String

pub record MemberRow : Type 0 where
  pub id : String
  pub organization_id : String
  pub user_id : String
  pub role : String
  pub created_at : ℕ
  pub updated_at : ℕ

pub record InvitationRow : Type 0 where
  pub id : String
  pub organization_id : String
  pub email : String
  pub role : String
  pub status : String
  pub token_hash : String
  pub expires_at : ℕ
  pub invited_by_user_id : String
  pub accepted_at : Option ℕ
  pub created_at : ℕ
  pub updated_at : ℕ

pub record SessionRow : Type 0 where
  pub id : String
  pub user_id : String
  pub active_organization_id : String
  pub token_hash : String
  pub ip_address : String
  pub user_agent : String
  pub last_seen_at : Option ℕ
  pub idle_expires_at : ℕ
  pub expires_at : ℕ
  pub revoked_at : Option ℕ
  pub created_at : ℕ
  pub updated_at : ℕ

pub record VerificationTokenRow : Type 0 where
  pub id : String
  pub user_id : Option String
  pub email : String
  pub purpose : String
  pub token_hash : String
  pub expires_at : ℕ
  pub consumed_at : Option ℕ
  pub created_at : ℕ
  pub updated_at : ℕ

pub record TwoFactorRow : Type 0 where
  pub id : String
  pub user_id : String
  pub secret : String
  pub verified : Bool
  pub last_used_step : Option ℕ
  pub failed_verification_count : ℕ
  pub locked_until : Option ℕ
  pub created_at : ℕ
  pub updated_at : ℕ

-- AppAuditLog; app_audit_logs.created_at keeps microseconds, which is not modelled
pub record AuditLogRow : Type 0 where
  pub id : String
  pub category : String
  pub subcategory : String
  pub event_type : String
  pub action : String
  pub outcome : String
  pub actor_user_id : Option String
  pub actor_organization_id : Option String
  pub target_type : String
  pub target_id : String
  pub target_display : String
  pub request_id : Option String
  pub trace_id : Option String
  pub span_id : Option String
  pub ip_address : String
  pub user_agent : String
  pub metadata_json : String
  pub changes_json : String
  pub created_at : ℕ

pub record Db : Type 0 where
  pub users : List UserRow
  pub accounts : List AccountRow
  pub organizations : List OrganizationRow
  pub organization_roles : List OrganizationRoleRow
  pub role_permissions : List RolePermissionRow
  pub members : List MemberRow
  pub invitations : List InvitationRow
  pub sessions : List SessionRow
  pub verification_tokens : List VerificationTokenRow
  pub two_factors : List TwoFactorRow
  pub audit_logs : List AuditLogRow
  pub instance_name : Option String
