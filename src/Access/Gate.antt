-- ===== src/Access/Gate.antt =====
-- What stands in front of every protected route: resolvePrincipal of backend/cmd/apiserver/main.go, and
-- the middleware of backend/internal/server/authz_middleware.go. The audit entry of an answer is
-- recorded where there is an auditor.
pub mod Served
use siem_v.Prelude.{
  ℕ, zero, suc, ◌+◌, Bool, true, false, not, ◌&&◌, Option, none, some, List, [], ◌∷◌, ◌++◌, length,
  ltb, ◌==◌, if◌then◌else◌,
}
use siem_v.Prelude.Text.{Str, str, str_eq, trim_space, has_prefix, contains}
use siem_v.Prelude.Time.{Time}
use siem_v.Prelude.Results.{Result, ok, err}
use siem_v.Access.{Kind, unauthorized, forbidden}
use siem_v.Access.Tenancy.{
  Permission, view_flows, view_raw, view_sensitive, export, run_evaluation, manage_detections,
  manage_retention, manage_sources, view_audit, manage_users, Principal, ContextError, from_context,
  require,
}
use siem_v.Access.Tokens.{Jwt, Valkey}
use siem_v.Access.Sessions.{Backend, AuthService, AuditEntry, take}
use siem_v.Access.Sessions.Handlers.{resolve_access}
use siem_v.Access.Feeds.{drop}

unfoldable pub permission_text : Permission → Str
permission_text view_flows = str "view_flows"
permission_text view_raw = str "view_raw"
permission_text view_sensitive = str "view_sensitive"
permission_text export = str "export"
permission_text run_evaluation = str "run_evaluation"
permission_text manage_detections = str "manage_detections"
permission_text manage_retention = str "manage_retention"
permission_text manage_sources = str "manage_sources"
permission_text view_audit = str "view_audit"
permission_text manage_users = str "manage_users"

-- strings.TrimPrefix
unfoldable pub trim_prefix : Str → Str → Str
trim_prefix s prefix = if has_prefix s prefix then drop (length prefix) s else s

unfoldable pub bearer_of : Str → Str
bearer_of authorization = trim_space (trim_prefix authorization (str "Bearer "))

-- The position of the first space.
unfoldable pub space_at : ℕ → Str → Option ℕ
space_at n [] = none
space_at n (c ∷ s) = let rest = space_at (suc n) s in if c == b' ' then some n else rest

unfoldable pub hint_at : Str → Option ℕ → Str
hint_at h none = str "presented:unknown"
hint_at h (some i) =
    if ltb 0 i && ltb (i + 9) (length h)
    then str "presented:" ++ take 8 (drop (suc i) h) ++ str "..."
    else str "presented:unknown"

unfoldable pub identity_hint : Str → Str
identity_hint authorization = hint_at authorization (space_at 0 authorization)

-- The route's own handler runs, for the principal, or the request is refused.
pub data Answer : Type 0 where
  served : Principal → Answer
  turned_away : Kind → Answer

unfoldable pub known_tenant : Result ContextError Principal → Str × Str
known_tenant (err e) = ([], [])
known_tenant (ok p) = (p.tenant_id, p.id)

-- `RequirePermission`, with the audit entry it writes, but for the text of the error.
unfoldable pub permission_answer :
    Permission → Str → Option Principal → Result ContextError Principal → Answer × AuditEntry
permission_answer perm path ctx (err e) =
    let known = known_tenant (from_context ctx) in
    (
      turned_away forbidden,
      record {
        tenant_id = known.0;
        principal_id = known.1;
        action = permission_text perm;
        scope = [];
        target = path;
        outcome = str "denied";
        detail = [];
      },
    )
permission_answer perm path ctx (ok p) = (
  served p,
  record {
    tenant_id = p.tenant_id;
    principal_id = p.id;
    action = permission_text perm;
    scope = str "tenant:" ++ p.tenant_id;
    target = path;
    outcome = str "allowed";
    detail = [];
  },
)

unfoldable pub require_permission : Permission → Str → Option Principal → Answer × AuditEntry
require_permission perm path ctx = permission_answer perm path ctx (require ctx perm)

module _ {S R L : Type 0} (j : Jwt) (v : Valkey S) (b : Backend R L) (s : AuthService)
    (dev_identities : Bool) (by_identity : R → Str → Option Principal) (now : Time) where
  unfoldable pub resolved_or : R → Str → Option Principal → Option Principal
  resolved_or users bearer (some p) = some p
  resolved_or users bearer none =
      if dev_identities && contains bearer (str "@") then by_identity users bearer else none

  unfoldable pub resolve_principal : R → Str → Option Principal
  resolve_principal users authorization =
      let bearer = bearer_of authorization in
      if str_eq bearer []
      then none
      else resolved_or users bearer (resolve_access j v b s now users bearer)

  unfoldable pub authenticated : Permission → Str → Str → Option Principal → Answer × AuditEntry
  authenticated perm authorization path none = (
    turned_away unauthorized,
    record {
      tenant_id = [];
      principal_id = identity_hint authorization;
      action = str "auth.failed";
      scope = [];
      target = path;
      outcome = str "denied";
      detail = str "unresolved credential";
    },
  )
  authenticated perm authorization path (some p) = require_permission perm path (some p)

  -- A route behind `Middleware` and `RequirePermission`.
  unfoldable pub guard : Permission → Str → Str → R → Answer × AuditEntry
  guard perm authorization path users =
      authenticated perm authorization path (resolve_principal users authorization)
