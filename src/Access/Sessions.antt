-- ===== src/Access/Sessions.antt =====
-- Sign-in, refresh and sign-out: backend/internal/service/authsvc.go. The database, the limiter,
-- the password hash, the one-time codes and the sealing of secrets are parameters; a handler takes
-- what it changes and returns it with the response.
pub mod Handlers
pub mod Owners
pub mod Proven
pub mod Frame
pub mod Rotated
use siem_v.Prelude.{
  ℕ, zero, suc, Bool, true, false, not, ◌||◌, Option, none, some, List, [], ◌∷◌, ◌++◌, keep, map,
  length, ltb, if◌then◌else◌,
}
use siem_v.Prelude.Text.{Str, str, str_eq, to_lower, trim_space}
use siem_v.Prelude.Time.{Time, zero_time}
use siem_v.Prelude.Results.{Result, ok, err}
use siem_v.Access.{Kind, invalid_input, unauthorized, unavailable, internal}
use siem_v.Access.Tenancy.{
  Permission, Role, analyst, engineer, admin, other_role, Principal, can, all_permissions,
}
use siem_v.Access.Tokens.{
  Claims, TokenError, Jwt, Valkey, TokenIssuer, Identity, TokenPair, access, mfa_pending,
  issue_pair, issue_mfa_challenge, parse_token, parse_refresh, revoke,
}

-- `postgres.AuthRecord`
pub record AuthRecord : Type 0 where
  pub principal_id : Str
  pub tenant_id : Str
  pub identity : Str
  pub role : Str
  pub is_active : Bool
  pub password_hash : Str
  pub mfa_secret_enc : Str
  pub is_mfa_enrolled : Bool

-- `none` and `false` are the calls that return an error; `R` is what the database holds, and `L`
-- what the limiter has counted.
pub record Backend (R L : Type 0) : Type 0 where
  pub by_email : R → Str → Option AuthRecord
  pub by_id : R → Str → Option AuthRecord
  pub set_mfa_secret : R → Str → Str → Option R
  pub confirm_mfa_enrolment : R → Str → Option R
  pub record_login : R → Str → Time → R
  pub allow : L → Str → Bool × L
  pub verify_password : Str → Str → Bool
  pub generate_totp : Str → Str → Option (Str × Str)
  pub validate_totp : Str → Str → Time → Bool
  pub seal : Str → Option Str
  pub open_sealed : Str → Option Str

pub record AuthService : Type 0 where
  pub tokens : TokenIssuer
  pub issuer : Str
  pub has_audit : Bool
  pub has_limiter : Bool
  pub dev_insecure_cookies : Bool
  pub dev_skip_mfa : Bool

pub record AuditEntry : Type 0 where
  pub tenant_id : Str
  pub principal_id : Str
  pub action : Str
  pub scope : Str
  pub target : Str
  pub outcome : Str
  pub detail : Str

-- What the handlers change: the server of the revocations, the database, the limiter, the number of
-- token ids drawn and the audit log.
pub record World (S R L : Type 0) : Type 0 where
  pub valkey : S
  pub users : R
  pub limits : L
  pub draws : ℕ
  pub audit_log : List AuditEntry

pub record Profile : Type 0 where
  pub principal_id : Str
  pub email : Str
  pub tenant_id : Str
  pub role : Str
  pub permissions : List Permission

pub record Cookie : Type 0 where
  pub name : Str
  pub value : Str
  pub expires : Time
  pub is_secure : Bool
  pub is_cleared : Bool

pub data Reply : Type 0 where
  refused : Kind → Reply
  -- A challenge, with the provisioning URI where the authenticator is new.
  challenged : Str → Option Str → Reply
  signed_in : Str → Time → Profile → Cookie → Reply
  signed_out : Cookie → Reply
  shown : Profile → Reply

unfoldable pub role_of : Str → Role
role_of s =
    if str_eq s (str "analyst")
    then analyst
    else if str_eq s (str "engineer")
    then engineer
    else if str_eq s (str "admin")
    then admin
    else other_role s

unfoldable pub principal_of : AuthRecord → Principal
principal_of r = record {
  id = r.principal_id;
  tenant_id = r.tenant_id;
  identity = r.identity;
  role = role_of r.role;
  property_scope = [];
  extra = [];
  is_active = r.is_active;
}

unfoldable pub profile_of : AuthRecord → Profile
profile_of r = record {
  principal_id = r.principal_id;
  email = r.identity;
  tenant_id = r.tenant_id;
  role = r.role;
  permissions = keep (can (some (principal_of r))) all_permissions;
}

unfoldable pub identity_of : AuthRecord → Identity
identity_of r = record {
  principal_id = r.principal_id;
  email = r.identity;
  tenant_id = r.tenant_id;
  role = r.role;
}

-- The first bytes of a presented address, which is not kept whole.
unfoldable pub take : ℕ → Str → Str
take zero s = []
take (suc n) [] = []
take (suc n) (c ∷ s) = c ∷ take n s

unfoldable pub hint_of : Str → Str
hint_of email = if ltb 8 (length email) then take 8 email ++ str "..." else email

-- An account that cannot sign in is handled as one that is not there.
unfoldable pub usable : Option AuthRecord → Option AuthRecord
usable none = none
usable (some r) = if str_eq r.password_hash [] || not r.is_active then none else some r

unfoldable pub active : Option AuthRecord → Option AuthRecord
active none = none
active (some r) = if not r.is_active then none else some r

unfoldable pub enrolling : Option AuthRecord → Option AuthRecord
enrolling none = none
enrolling (some r) = if not r.is_active || str_eq r.mfa_secret_enc [] then none else some r

module _ (s : AuthService) where
  unfoldable pub cookie_name : Str
  cookie_name = if s.dev_insecure_cookies then str "siem_refresh" else str "__Host-siem_refresh"

  unfoldable pub refresh_cookie : Str → Time → Cookie
  refresh_cookie token expires = record {
    name = cookie_name;
    value = token;
    expires = expires;
    is_secure = not s.dev_insecure_cookies;
    is_cleared = false;
  }

  unfoldable pub clear_refresh_cookie : Cookie
  clear_refresh_cookie = record (refresh_cookie [] zero_time) { is_cleared = true }

  unfoldable pub issuer_label : Str
  issuer_label = if str_eq s.issuer [] then str "SIEM v2" else s.issuer

  module _ {S R L : Type 0} where
    unfoldable pub audit : AuthRecord → Str → Str → Str → World S R L → World S R L
    audit r action outcome detail w = if not s.has_audit then w else record w {
      audit_log =
          w.audit_log
          ++ record {
            tenant_id = r.tenant_id;
            principal_id = r.principal_id;
            action = action;
            scope = str "tenant:" ++ r.tenant_id;
            target = [];
            outcome = outcome;
            detail = detail;
          }
            ∷ [];
    }

    unfoldable pub audit_failed : Str → Str → World S R L → World S R L
    audit_failed email reason w = if not s.has_audit then w else record w {
      audit_log =
          w.audit_log
          ++ record {
            tenant_id = [];
            principal_id = str "presented:" ++ hint_of email;
            action = str "auth.failed";
            scope = [];
            target = [];
            outcome = str "denied";
            detail = reason;
          }
            ∷ [];
    }
