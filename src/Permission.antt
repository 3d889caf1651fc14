-- ===== src/Permission.antt =====
-- internal/foundation/permission: the generated permissions and built-in roles.
use dinchy.Prelude.{String, List, [], ◌∷◌}

pub data Role : Type 0 where
  admin member : Role

abbrev pub role_key : Role → String
role_key admin = "admin"
role_key member = "member"

abbrev pub audit_logs_read : String
audit_logs_read = "audit.logs.read"

abbrev pub auth_invitations_create : String
auth_invitations_create = "auth.invitations.create"

abbrev pub auth_roles_manage : String
auth_roles_manage = "auth.roles.manage"

abbrev pub built_in_roles : List Role
built_in_roles = admin ∷ member ∷ []

abbrev pub default_role_permissions : Role → List String
default_role_permissions admin = audit_logs_read ∷ auth_invitations_create ∷ auth_roles_manage ∷ []
default_role_permissions member = []
