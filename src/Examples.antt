-- ===== src/Examples.antt =====
-- Concrete states and a concrete environment, on which the theorems are applied: the environment's
-- functions are small ones of the model's own, and nothing fails.
pub mod Sessions
pub mod SignIn
pub mod Accounts
pub mod SingleSignOn
pub mod Passwords
pub mod AuditLog
pub mod Requests
pub mod Catalogs
pub mod Settings
pub mod Languages
pub mod Transport
use dinchy.Prelude.{
  ℕ, zero, suc, String, Bool, true, false, ◌≡◌, refl, Option, none, some, List, [], ◌∷◌, is_some,
  ◌==◌, eq_refl,
}
use dinchy.Db.{
  Db, UserRow, AccountRow, OrganizationRow, MemberRow, InvitationRow, SessionRow,
  VerificationTokenRow, TwoFactorRow,
}
use dinchy.World.{Env, World, CacheItem, PasswordHasher}

abbrev nth : List String → ℕ → String
nth [] n = "id"
nth (x ∷ xs) zero = x
nth (x ∷ xs) (suc n) = nth xs n

abbrev label : ℕ → String
label n = nth ("id-0" ∷ "id-1" ∷ "id-2" ∷ "id-3" ∷ "id-4" ∷ "id-5" ∷ "id-6" ∷ "id-7" ∷ []) n

-- A stand-in for argon2id, of which only `verify-hash` is used.
abbrev hasher : PasswordHasher
hasher = record {
  hash = λ salt password. password;
  verify = λ password stored. password == stored;
  verify-hash = λ salt password. eq_refl password;
}

abbrev pub env : Env
env = record {
  fault = λ n. false;
  drift = λ n. 0;
  new_id = label;
  random = λ n. "fresh";
  sha256 = λ s. s;
  base64_url = λ s. s;
  totp_secret = λ n. "secret";
  totp_url = λ issuer account secret. secret;
  totp_valid = λ now code secret. code == secret;
  trim_space = λ s. s;
  url_with_token = λ base path token. token;
  copy = λ code params. "text";
  before = λ a b. false;
  passwords = hasher;
  request = record {
    request_id = "";
    trace_id = "";
    span_id = "";
    remote_ip = "";
    user_agent = "";
  };
  session_config = record { session_idle_timeout = 50; session_max_lifetime = 90 };
  cache_config = record { enabled = true; session_ttl_cap = 10 };
  auth_config = record {
    password_reset_lifetime = 30;
    invite_lifetime = 40;
    totp_issuer = "Dinchy";
    default_organization_name = "Default";
    default_organization_slug = "default";
  };
  links = record { base_url = ""; accept_invitation_path = ""; reset_password_path = "" };
  mailer_configured = true;
  has_publisher = true;
  has_database = true;
}

abbrev pub no_db : Db
no_db = record {
  users = [];
  accounts = [];
  organizations = [];
  organization_roles = [];
  role_permissions = [];
  members = [];
  invitations = [];
  sessions = [];
  verification_tokens = [];
  two_factors = [];
  audit_logs = [];
  instance_name = some "Dinchy";
}

abbrev pub ada : UserRow
ada = record {
  id = "ada";
  email = "ada@example.com";
  display_name = "Ada";
  email_verified_at = some 1;
  disabled_at = none;
  created_at = 1;
  updated_at = 1;
}

abbrev pub account : AccountRow
account = record {
  id = "account";
  user_id = "ada";
  provider = "password";
  provider_account_id = "ada@example.com";
  password_hash = some "old password";
  created_at = 1;
  updated_at = 1;
}

abbrev pub organization : OrganizationRow
organization = record {
  id = "org";
  name = "Default";
  slug = "default";
  logo = none;
  created_at = 1;
  updated_at = 1;
}

abbrev pub membership : MemberRow
membership = record {
  id = "membership";
  organization_id = "org";
  user_id = "ada";
  role = "admin";
  created_at = 1;
  updated_at = 1;
}

abbrev pub two_factor : TwoFactorRow
two_factor = record {
  id = "two-factor";
  user_id = "ada";
  secret = "secret";
  verified = true;
  last_used_step = none;
  failed_verification_count = 0;
  locked_until = none;
  created_at = 1;
  updated_at = 1;
}

abbrev pub open_session : SessionRow
open_session = record {
  id = "token";
  user_id = "ada";
  active_organization_id = "org";
  token_hash = "token";
  ip_address = "";
  user_agent = "";
  last_seen_at = some 1;
  idle_expires_at = 150;
  expires_at = 190;
  revoked_at = none;
  created_at = 1;
  updated_at = 1;
}

abbrev pub reset_token : VerificationTokenRow
reset_token = record {
  id = "reset";
  user_id = some "ada";
  email = "ada@example.com";
  purpose = "password_reset";
  token_hash = "reset token";
  expires_at = 120;
  consumed_at = none;
  created_at = 1;
  updated_at = 1;
}

abbrev pub invitation : InvitationRow
invitation = record {
  id = "invitation";
  organization_id = "org";
  email = "bob@example.com";
  role = "member";
  status = "pending";
  token_hash = "invitation token";
  expires_at = 130;
  invited_by_user_id = "ada";
  accepted_at = none;
  created_at = 1;
  updated_at = 1;
}

abbrev pub db : Db
db = record no_db {
  users = ada ∷ [];
  accounts = account ∷ [];
  organizations = organization ∷ [];
  members = membership ∷ [];
  invitations = invitation ∷ [];
  sessions = open_session ∷ [];
  verification_tokens = reset_token ∷ [];
  two_factors = two_factor ∷ [];
}

abbrev pub world : World
world = record {
  db = db;
  cache = [];
  sso_states = [];
  mails = [];
  events = [];
  now = 100;
  step = 0;
}

-- the state before the setup
abbrev pub empty_world : World
empty_world = record world { db = no_db }
