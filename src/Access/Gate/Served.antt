-- ===== src/Access/Gate/Served.antt =====
-- Whom a protected route serves.
use siem_v.Prelude.{
  ◌≡◌, ◌↔◌, refl, sym, ap, subst, ◌∙◌, true, false, Option, none, some, [], Bool-cases, inl, inr,
  arith,
}
use siem_v.Prelude.Text.{Str, str_eq}
use siem_v.Prelude.Time.{Time}
use siem_v.Prelude.Results.{Result, ok, err}
use siem_v.Access.Tenancy.{Permission, Principal, ContextError, require}
use siem_v.Access.Tenancy.Grants.{IsGranted, require_iff}
use siem_v.Access.Tokens.{Claims, TokenError, Jwt, Valkey, access, parse_token}
use siem_v.Access.Sessions.{AuthRecord, Backend, AuthService, principal_of, active}
use siem_v.Access.Sessions.Handlers.{principal_if, resolve_claims, resolve_access}
use siem_v.Access.Gate.{
  bearer_of, served, permission_answer, require_permission, resolved_or, resolve_principal,
  authenticated, guard,
}

require_permission_iff :
    (perm : Permission) (path : Str) (ctx : Option Principal) (p : Principal)
    → ((require_permission perm path ctx).0 ≡ served p) ↔ (require ctx perm ≡ ok p)
unfolding require_permission
require_permission_iff perm path ctx p = go (require ctx perm)
  where
    go :
        (o : Result ContextError Principal)
        → ((permission_answer perm path ctx o).0 ≡ served p) ↔ (o ≡ ok p)
    go (err e) = unfold permission_answer in (λ h. cc, λ h. cc)
    go (ok q) = unfold permission_answer in (λ h. ground arith, λ h. ground arith)

module _ {S R L : Type 0} (j : Jwt) (v : Valkey S) (b : Backend R L) (s : AuthService)
    (by_identity : R → Str → Option Principal) (now : Time) where
  -- The account behind the bearer token, and the principal it makes.
  abbrev pub IsBearer : R → Str → Principal → Type 0
  IsBearer users bearer p =
      (c : Claims) × (r : AuthRecord) × (parse_token j s.tokens access now bearer ≡ ok c)
      × (active (b.by_id users c.subject) ≡ some r)
      × (p ≡ principal_of r)

  principal_if_iff :
      (o : Option AuthRecord) (p : Principal)
      → (principal_if j v b s now o ≡ some p)
        ↔ ((r : AuthRecord) × (o ≡ some r) × (p ≡ principal_of r))
  unfolding principal_if
  principal_if_iff none p = (λ h. cc, λ h. cc)
  principal_if_iff (some r) p = (
    λ h. (r, refl, ground arith),
    λ h.
        let same : r ≡ h.0 = ground (arith, h.1) in
        ap (λ q. some (principal_of q)) same ∙ ap some (sym h.2),
  )

  resolve_access_iff :
      (users : R) (bearer : Str) (p : Principal)
      → (resolve_access j v b s now users bearer ≡ some p) ↔ IsBearer users bearer p
  unfolding resolve_access
  resolve_access_iff users bearer p = go (parse_token j s.tokens access now bearer) refl
    where
      go :
          (o : Result TokenError Claims)
          → parse_token j s.tokens access now bearer ≡ o
          → (resolve_claims j v b s now users o ≡ some p) ↔ IsBearer users bearer p
      go (err e) q = unfold resolve_claims in (λ h. cc, λ h. absurd (ground (arith, q, h.2)))
      go (ok c) q =
          unfold resolve_claims in
          (let found = principal_if_iff (active (b.by_id users c.subject)) p in
            (
              λ h. let r = found.0 h in (c, r.0, q, r.1, r.2),
              λ h.
                  let same : h.0 ≡ c = ground (arith, q, h.2) in
                  found.1
                    (h.1, subst (λ d. active (b.by_id users d.subject) ≡ some h.1) same h.3, h.4),
            ))

  resolve_principal_iff :
      (users : R) (authorization : Str) (p : Principal)
      → (resolve_principal j v b s false by_identity now users authorization ≡ some p) ↔ (
          (str_eq (bearer_of authorization) [] ≡ false)
          × IsBearer users (bearer_of authorization) p)
  unfolding resolve_principal
  resolve_principal_iff users authorization p =
      let bearer = bearer_of authorization in
      let known = resolve_access_iff users bearer p in
      elim (Bool-cases (str_eq bearer [])) [
        | inl empty ↦ (λ h. absurd (ground arith), λ h. absurd (ground (arith, h.0)))
        | inr given ↦ rw given (
          λ h. (refl, known.0 (direct (resolve_access j v b s now users bearer) h)),
          λ h.
              ap (resolved_or j v b s false by_identity now users bearer) (known.1 h.1)
              ∙ unfold resolved_or in refl,
        )
      ]
    where
      direct :
          (o : Option Principal)
          → resolved_or j v b s false by_identity now users (bearer_of authorization) o ≡ some p
          → o ≡ some p
      direct none h = unfold resolved_or in (ground arith)
      direct (some q) h = unfold resolved_or in h

  -- Without the identities for development, a protected route serves a principal exactly if the
  -- bearer token is an access token whose subject is an active account now, the principal is that
  -- account's as the database has it, with its tenant and role, the tenant is named, and the role
  -- or a grant of the principal's own gives the permission.
  pub guard-served_iff :
      (perm : Permission) (authorization path : Str) (users : R) (p : Principal)
      → ((guard j v b s false by_identity now perm authorization path users).0 ≡ served p) ↔ (
          (str_eq (bearer_of authorization) [] ≡ false)
          × IsBearer users (bearer_of authorization) p
          × (p.is_active ≡ true)
          × (str_eq p.tenant_id [] ≡ false)
          × IsGranted p perm)
  unfolding guard
  guard-served_iff perm authorization path users p =
      go (resolve_principal j v b s false by_identity now users authorization) refl
    where
      go :
          (o : Option Principal)
          → resolve_principal j v b s false by_identity now users authorization ≡ o
          → ((authenticated j v b s false by_identity now perm authorization path o).0 ≡ served p)
            ↔ ((str_eq (bearer_of authorization) [] ≡ false)
                × IsBearer users (bearer_of authorization) p
                × (p.is_active ≡ true)
                × (str_eq p.tenant_id [] ≡ false)
                × IsGranted p perm)
      go none q =
          unfold authenticated in
          (
            λ h. cc,
            λ h.
                let known = (resolve_principal_iff users authorization p).1 (h.0, h.1) in
                absurd (ground arith),
          )
      go (some r) q =
          unfold authenticated in
          (let passes = require_permission_iff perm path (some r) p in
            let holds = require_iff (some r) perm p in
            (
              λ h.
                  let facts = holds.0 (passes.0 h) in
                  let known = (resolve_principal_iff users authorization p).0 (q ∙ facts.0) in
                  (known.0, known.1, facts.1, facts.2, facts.3),
              λ h.
                  let known = (resolve_principal_iff users authorization p).1 (h.0, h.1) in
                  passes.1 (holds.1 (sym q ∙ known, h.2, h.3, h.4)),
            ))
