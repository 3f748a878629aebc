-- ===== src/Access/Tenancy/Grants.antt =====
-- What a permission check lets through.
use siem_v.Prelude.{
  ◌≡◌, ◌↔◌, ◌⊎◌, ap, subst, inl, inr, true, false, ◌||◌, Option, none, some, [], any, Bool-cases,
  arith,
}
use siem_v.Prelude.Text.{str_eq}
use siem_v.Prelude.Results.{ok}
use siem_v.Access.Tenancy.{
  Permission, Principal, permission_eq, role_permissions, can_active, can, from_context, require_of,
  require,
}

-- What the role and the principal's own grants give.
abbrev pub IsGranted : Principal → Permission → Type 0
IsGranted p perm =
    (any (λ g. permission_eq g perm) (role_permissions p.role) ≡ true)
    ⊎ (any (λ g. permission_eq g perm) p.extra ≡ true)

-- A request passes a permission check exactly with the principal on its context, who is active, has
-- a tenant, and holds the permission through the role or a grant of its own.
pub require_iff :
    (ctx : Option Principal) (perm : Permission) (p : Principal)
    → (require ctx perm ≡ ok p)
      ↔ ((ctx ≡ some p) × (p.is_active ≡ true) × (str_eq p.tenant_id [] ≡ false) × IsGranted p perm)
unfolding require require_of from_context can can_active
require_iff none perm p = (λ h. cc, λ h. cc)
require_iff (some q) perm p = (
  λ h.
      let same : q ≡ p = ground arith in
      let active : q.is_active ≡ true = ground arith in
      let tenant : str_eq q.tenant_id [] ≡ false = ground arith in
      let granted : (any (λ g. permission_eq g perm) (role_permissions q.role)
            || any (λ g. permission_eq g perm) q.extra)
          ≡ true =
        ground arith in
      let held =
        subst (λ r. (r.is_active ≡ true) × (str_eq r.tenant_id [] ≡ false) × IsGranted r perm) same
          (
            active,
            tenant,
            elim (Bool-cases (any (λ g. permission_eq g perm) (role_permissions q.role))) [
              | inl role ↦ inl role
              | inr other ↦ inr (ground arith)
            ],
          ) in
      (ap some same, held.0, held.1, held.2),
  λ h. ground arith,
)
