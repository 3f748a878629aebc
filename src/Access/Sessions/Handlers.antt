-- ===== src/Access/Sessions/Handlers.antt =====
-- The handlers of backend/internal/service/authsvc.go.
use siem_v.Prelude.{Bool, false, not, ◌||◌, Option, none, some, [], ◌++◌, if◌then◌else◌}
use siem_v.Prelude.Text.{Str, str, str_eq, to_lower, trim_space}
use siem_v.Prelude.Time.{Time}
use siem_v.Prelude.Results.{Result, ok, err}
use siem_v.Access.{invalid_input, unauthorized, unavailable, internal}
use siem_v.Access.Tenancy.{Principal}
use siem_v.Access.Tokens.{
  Claims, TokenError, Jwt, Valkey, TokenPair, access, mfa_pending, issue_pair, issue_mfa_challenge,
  parse_token, parse_refresh, revoke,
}
use siem_v.Access.Sessions.{
  AuthRecord, Backend, AuthService, World, Reply, refused, challenged, signed_in, signed_out,
  principal_of, profile_of, identity_of, usable, active, enrolling, refresh_cookie,
  clear_refresh_cookie, issuer_label, audit, audit_failed,
}

pub data Request : Type 0 where
  -- The email address and the password, if the body can be read.
  login_request : Option (Str × Str) → Request
  -- The challenge token and the code, if the body can be read.
  mfa_request : Option (Str × Str) → Request
  -- The value of the cookie, if there is one.
  refresh_request : Option Str → Request
  logout_request : Option Str → Request

module _ {S R L : Type 0} (j : Jwt) (v : Valkey S) (b : Backend R L) (s : AuthService)
    (now : Time) where
  abbrev Outcome : Type 0
  Outcome = Reply × World S R L

  unfoldable pub session_of : AuthRecord → Option TokenPair → World S R L → Outcome
  session_of r none w = (refused internal, w)
  session_of r (some pair) w = (
    signed_in pair.access_token pair.expires_at (profile_of r)
        (refresh_cookie s pair.refresh_token pair.refresh_expires_at),
    audit s r (str "auth.login") (str "allowed") []
        (record w { users = b.record_login w.users r.principal_id now }),
  )

  unfoldable pub complete_login : AuthRecord → World S R L → Outcome
  complete_login r w =
      let issued = issue_pair j s.tokens (identity_of r) now w.draws in
      session_of r issued.0 (record w { draws = issued.1 })

  unfoldable pub challenge_of : Option Str → Option Str → World S R L → Outcome
  challenge_of uri none w = (refused internal, w)
  challenge_of uri (some token) w = (challenged token uri, w)

  unfoldable pub challenge : AuthRecord → Option Str → World S R L → Outcome
  challenge r uri w =
      let issued = issue_mfa_challenge j s.tokens (identity_of r) now w.draws in
      challenge_of uri issued.0 (record w { draws = issued.1 })

  unfoldable pub enrol_stored : AuthRecord → Str → Option R → World S R L → Outcome
  enrol_stored r uri none w = (refused internal, w)
  enrol_stored r uri (some users) w = challenge r (some uri) (record w { users = users })

  unfoldable pub enrol_sealed : AuthRecord → Str → Option Str → World S R L → Outcome
  enrol_sealed r uri none w = (refused internal, w)
  enrol_sealed r uri (some sealed) w =
      enrol_stored r uri (b.set_mfa_secret w.users r.principal_id sealed) w

  unfoldable pub enrol : AuthRecord → Option (Str × Str) → World S R L → Outcome
  enrol r none w = (refused internal, w)
  enrol r (some (secret, uri)) w = enrol_sealed r uri (b.seal secret) w

  -- `GenerateMFASecret`
  unfoldable pub generate_mfa_secret : Str → Str → Option (Str × Str)
  generate_mfa_secret issuer account =
      if str_eq issuer [] || str_eq account [] then none else b.generate_totp issuer account

  unfoldable pub password_verified : AuthRecord → World S R L → Outcome
  password_verified r w =
      if s.dev_skip_mfa
      then complete_login r (audit s r (str "auth.login_dev_skip_mfa") (str "allowed") [] w)
      else if not r.is_mfa_enrolled
      then enrol r (generate_mfa_secret (issuer_label s) r.identity) w
      else challenge r none w

  unfoldable pub login_as : Str → Str → Option AuthRecord → World S R L → Outcome
  login_as email password none w =
      (refused unauthorized, audit_failed s email (str "unknown-or-unusable") w)
  login_as email password (some r) w =
      if not (b.verify_password password r.password_hash)
      then (refused unauthorized, audit s r (str "auth.failed") (str "denied") (str "password") w)
      else password_verified r w

  -- What the limiter answers, and the world after it.
  unfoldable pub limited : Str → World S R L → Bool × World S R L
  limited key w =
      if not s.has_limiter
      then (false, w)
      else (let answer = b.allow w.limits key in (not answer.0, record w { limits = answer.1 }))

  unfoldable pub login : Option (Str × Str) → World S R L → Outcome
  login none w = (refused invalid_input, w)
  login (some (email, password)) w =
      if str_eq email [] || str_eq password []
      then (refused invalid_input, w)
      else (let l = limited (str "login:" ++ to_lower email) w in
          if l.0
          then (refused unavailable, l.1)
          else login_as email password (usable (b.by_email l.1.users (trim_space (to_lower email))))
              l.1)

  -- `VerifyMFACode`
  unfoldable pub verify_mfa_code : Str → Str → Bool
  verify_mfa_code secret code =
      if str_eq secret [] || str_eq code [] then false else b.validate_totp secret code now

  unfoldable pub enrolment_confirmed : AuthRecord → Option R → World S R L → Outcome
  enrolment_confirmed r none w = (refused internal, w)
  enrolment_confirmed r (some users) w =
      complete_login r
        (audit s r (str "auth.mfa_enrolled") (str "allowed") [] (record w { users = users }))

  unfoldable pub verify_code : AuthRecord → Str → Option Str → World S R L → Outcome
  verify_code r code none w = (refused internal, w)
  verify_code r code (some secret) w =
      if not (verify_mfa_code secret code)
      then (refused unauthorized, audit s r (str "auth.failed") (str "denied") (str "mfa") w)
      else if not r.is_mfa_enrolled
      then enrolment_confirmed r (b.confirm_mfa_enrolment w.users r.principal_id) w
      else complete_login r w

  unfoldable pub verify_as : Str → Option AuthRecord → World S R L → Outcome
  verify_as code none w = (refused unauthorized, w)
  verify_as code (some r) w = verify_code r code (b.open_sealed r.mfa_secret_enc) w

  unfoldable pub verify_claims : Str → Result TokenError Claims → World S R L → Outcome
  verify_claims code (err e) w = (refused unauthorized, w)
  verify_claims code (ok c) w =
      let l = limited (str "mfa:" ++ c.subject) w in
      if l.0
      then (refused unavailable, l.1)
      else verify_as code (enrolling (b.by_id l.1.users c.subject)) l.1

  unfoldable pub verify_mfa : Option (Str × Str) → World S R L → Outcome
  verify_mfa none w = (refused invalid_input, w)
  verify_mfa (some (token, code)) w =
      if str_eq token [] || str_eq code []
      then (refused invalid_input, w)
      else verify_claims code (parse_token j s.tokens mfa_pending now token) w

  unfoldable pub rotated : AuthRecord → Result TokenError S → World S R L → Outcome
  rotated r (err e) w = (refused internal, w)
  rotated r (ok valkey) w = complete_login r (record w { valkey = valkey })

  unfoldable pub refresh_as : Str → Option AuthRecord → World S R L → Outcome
  refresh_as token none w = (refused unauthorized, w)
  refresh_as token (some r) w = rotated r (revoke j s.tokens v w.valkey now token) w

  unfoldable pub refresh_claims : Str → Result TokenError Claims → World S R L → Outcome
  refresh_claims token (err e) w = (refused unauthorized, w)
  refresh_claims token (ok c) w = refresh_as token (active (b.by_id w.users c.subject)) w

  unfoldable pub refresh_session : Option Str → World S R L → Outcome
  refresh_session none w = (refused unauthorized, w)
  refresh_session (some token) w =
      if str_eq token []
      then (refused unauthorized, w)
      else refresh_claims token (parse_refresh j s.tokens v w.valkey now token) w

  unfoldable pub audit_logout : Option AuthRecord → World S R L → World S R L
  audit_logout none w = w
  audit_logout (some r) w = audit s r (str "auth.logout") (str "allowed") [] w

  unfoldable pub logout_claims : Result TokenError Claims → World S R L → World S R L
  logout_claims (err e) w = w
  logout_claims (ok c) w = audit_logout (b.by_id w.users c.subject) w

  -- The error of the revocation is ignored.
  unfoldable pub revoked_or_same : Result TokenError S → World S R L → World S R L
  revoked_or_same (err e) w = w
  revoked_or_same (ok valkey) w = record w { valkey = valkey }

  unfoldable pub logout_token : Str → World S R L → World S R L
  logout_token token w =
      if str_eq token []
      then w
      else revoked_or_same (revoke j s.tokens v w.valkey now token)
          (logout_claims (parse_refresh j s.tokens v w.valkey now token) w)

  unfoldable pub logout : Option Str → World S R L → Outcome
  logout none w = (signed_out (clear_refresh_cookie s), w)
  logout (some token) w = (signed_out (clear_refresh_cookie s), logout_token token w)

  unfoldable pub handle : Request → World S R L → Outcome
  handle (login_request body) w = login body w
  handle (mfa_request body) w = verify_mfa body w
  handle (refresh_request cookie) w = refresh_session cookie w
  handle (logout_request cookie) w = logout cookie w

  unfoldable pub principal_if : Option AuthRecord → Option Principal
  principal_if none = none
  principal_if (some r) = some (principal_of r)

  unfoldable pub resolve_claims : R → Result TokenError Claims → Option Principal
  resolve_claims users (err e) = none
  resolve_claims users (ok c) = principal_if (active (b.by_id users c.subject))

  -- `ResolveAccess`: the principal behind a bearer token, as the database has it now.
  unfoldable pub resolve_access : R → Str → Option Principal
  resolve_access users bearer = resolve_claims users (parse_token j s.tokens access now bearer)
