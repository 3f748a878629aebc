-- ===== src/Access/Tenancy.antt =====
-- Principals, roles and permissions: backend/internal/biz/tenancy/context.go. The principal on a
-- request context is an option.
pub mod Grants
use siem_v.Prelude.{
  ℕ, ◌==◌, Bool, true, false, not, ◌&&◌, ◌||◌, Option, none, some, List, [], ◌∷◌, any,
  if◌then◌else◌,
}
use siem_v.Prelude.Text.{Str, str_eq, to_lower}
use siem_v.Prelude.Results.{Result, ok, err}

pub data Permission : Type 0 where
  view_flows view_raw view_sensitive export run_evaluation manage_detections manage_retention
        manage_sources view_audit manage_users :
      Permission

abbrev pub all_permissions : List Permission
all_permissions =
    view_flows ∷ view_raw ∷ view_sensitive ∷ export ∷ run_evaluation ∷ manage_detections
    ∷ manage_retention ∷ manage_sources ∷ view_audit ∷ manage_users ∷ []

unfoldable pub permission_index : Permission → ℕ
permission_index view_flows = 0
permission_index view_raw = 1
permission_index view_sensitive = 2
permission_index export = 3
permission_index run_evaluation = 4
permission_index manage_detections = 5
permission_index manage_retention = 6
permission_index manage_sources = 7
permission_index view_audit = 8
permission_index manage_users = 9

-- granted == perm
unfoldable pub permission_eq : Permission → Permission → Bool
permission_eq p q = permission_index p == permission_index q

pub data Role : Type 0 where
  analyst engineer admin : Role
  other_role : Str → Role

-- A role that the table does not have has no permissions.
unfoldable pub role_permissions : Role → List Permission
role_permissions analyst = view_flows ∷ run_evaluation ∷ []
role_permissions engineer = view_flows ∷ view_raw ∷ run_evaluation ∷ export ∷ manage_detections ∷ []
role_permissions admin = all_permissions
role_permissions (other_role s) = []

pub record Principal : Type 0 where
  pub id : Str
  pub tenant_id : Str
  pub identity : Str
  pub role : Role
  pub property_scope : List Str
  pub extra : List Permission
  pub is_active : Bool

unfoldable pub can_active : Principal → Permission → Bool
can_active p perm =
    any (λ granted. permission_eq granted perm) (role_permissions p.role)
    || any (λ granted. permission_eq granted perm) p.extra

-- `Can`: a missing principal can do nothing.
unfoldable pub can : Option Principal → Permission → Bool
can none perm = false
can (some p) perm = if not p.is_active then false else can_active p perm

unfoldable pub in_scope : List Str → Str → Bool
in_scope [] host = true
in_scope (s ∷ scope) host = any (λ allowed. str_eq (to_lower allowed) (to_lower host)) (s ∷ scope)

unfoldable pub allows_property : Option Principal → Str → Bool
allows_property none host = false
allows_property (some p) host = if not p.is_active then false else in_scope p.property_scope host

pub data ContextError : Type 0 where
  no_principal : ContextError
  not_active no_tenant : Str → ContextError
  lacks : Str → Role → Permission → ContextError

unfoldable pub from_context : Option Principal → Result ContextError Principal
from_context none = err no_principal
from_context (some p) =
    if not p.is_active
    then err (not_active p.id)
    else if str_eq p.tenant_id []
    then err (no_tenant p.id)
    else ok p

unfoldable pub tenant_of_result : Result ContextError Principal → Result ContextError Str
tenant_of_result (err e) = err e
tenant_of_result (ok p) = ok p.tenant_id

unfoldable pub tenant_of : Option Principal → Result ContextError Str
tenant_of ctx = tenant_of_result (from_context ctx)

unfoldable pub require_of :
    Permission → Result ContextError Principal → Result ContextError Principal
require_of perm (err e) = err e
require_of perm (ok p) = if can (some p) perm then ok p else err (lacks p.id p.role perm)

-- `Require`
unfoldable pub require : Option Principal → Permission → Result ContextError Principal
require ctx perm = require_of perm (from_context ctx)
