-- ===== src/Access/Sessions/Frame.antt =====
-- Which handlers leave the revocations alone.
use siem_v.Prelude.{◌≡◌, refl, ◌∙◌, Option, none, some, [], ◌++◌, arith}
use siem_v.Prelude.Text.{Str, str, to_lower, trim_space}
use siem_v.Prelude.Time.{Time}
use siem_v.Prelude.Results.{Result, ok, err}
use siem_v.Access.Tokens.{
  Claims, TokenError, Jwt, Valkey, TokenPair, mfa_pending, issue_mfa_challenge, parse_token,
}
use siem_v.Access.Sessions.{
  AuthRecord, Backend, AuthService, World, identity_of, usable, enrolling, audit, audit_failed,
  issuer_label,
}
use siem_v.Access.Sessions.Handlers.{
  session_of, complete_login, challenge_of, challenge, enrol_stored, enrol_sealed, enrol,
  generate_mfa_secret, password_verified, login_as, limited, login, enrolment_confirmed,
  verify_code, verify_as, verify_claims, verify_mfa, audit_logout, logout_claims,
}

module _ {S R L : Type 0} (j : Jwt) (v : Valkey S) (b : Backend R L) (s : AuthService)
    (now : Time) where
  audit-valkey :
      (r : AuthRecord) (action outcome detail : Str) (w : World S R L)
      → (audit s r action outcome detail w).valkey ≡ w.valkey
  unfolding audit
  audit-valkey r action outcome detail w = ground arith

  audit_failed-valkey :
      (email reason : Str) (w : World S R L) → (audit_failed s email reason w).valkey ≡ w.valkey
  unfolding audit_failed
  audit_failed-valkey email reason w = ground arith

  limited-valkey : (key : Str) (w : World S R L) → (limited j v b s now key w).1.valkey ≡ w.valkey
  unfolding limited
  limited-valkey key w = ground arith

  session_of-valkey :
      (r : AuthRecord) (o : Option TokenPair) (w : World S R L)
      → (session_of j v b s now r o w).1.valkey ≡ w.valkey
  unfolding session_of
  session_of-valkey r none w = refl
  session_of-valkey r (some pair) w = audit-valkey r _ _ _ _

  pub complete_login-valkey :
      (r : AuthRecord) (w : World S R L) → (complete_login j v b s now r w).1.valkey ≡ w.valkey
  unfolding complete_login
  complete_login-valkey r w = session_of-valkey r _ _

  challenge-valkey :
      (r : AuthRecord) (uri : Option Str) (w : World S R L)
      → (challenge j v b s now r uri w).1.valkey ≡ w.valkey
  unfolding challenge
  challenge-valkey r uri w = go (issue_mfa_challenge j s.tokens (identity_of r) now w.draws).0 _
    where
      go :
          (o : Option Str) (x : World S R L)
          → (challenge_of j v b s now uri o x).1.valkey ≡ x.valkey
      go none x = unfold challenge_of in refl
      go (some t) x = unfold challenge_of in refl

  enrol-valkey :
      (r : AuthRecord) (o : Option (Str × Str)) (w : World S R L)
      → (enrol j v b s now r o w).1.valkey ≡ w.valkey
  unfolding enrol enrol_sealed enrol_stored
  enrol-valkey r none w = refl
  enrol-valkey r (some (secret, uri)) w = sealed (b.seal secret)
    where
      stored : (o : Option R) → (enrol_stored j v b s now r uri o w).1.valkey ≡ w.valkey
      stored none = refl
      stored (some users) = challenge-valkey r (some uri) (record w { users = users })

      sealed : (o : Option Str) → (enrol_sealed j v b s now r uri o w).1.valkey ≡ w.valkey
      sealed none = refl
      sealed (some t) = stored (b.set_mfa_secret w.users r.principal_id t)

  password_verified-valkey :
      (r : AuthRecord) (w : World S R L) → (password_verified j v b s now r w).1.valkey ≡ w.valkey
  unfolding password_verified
  password_verified-valkey r w =
      let skipped = audit s r (str "auth.login_dev_skip_mfa") (str "allowed") [] w in
      let one = complete_login-valkey r skipped in
      let two = enrol-valkey r (generate_mfa_secret j v b s now (issuer_label s) r.identity) w in
      ground (
        arith,
        one,
        audit-valkey r (str "auth.login_dev_skip_mfa") (str "allowed") [] w,
        two,
        challenge-valkey r none w,
      )

  login_as-valkey :
      (email password : Str) (o : Option AuthRecord) (w : World S R L)
      → (login_as j v b s now email password o w).1.valkey ≡ w.valkey
  unfolding login_as
  login_as-valkey email password none w = audit_failed-valkey email _ w
  login_as-valkey email password (some r) w = ground (
    arith,
    audit-valkey r (str "auth.failed") (str "denied") (str "password") w,
    password_verified-valkey r w,
  )

  pub login-valkey :
      (body : Option (Str × Str)) (w : World S R L) → (login j v b s now body w).1.valkey ≡ w.valkey
  unfolding login
  login-valkey none w = refl
  login-valkey (some (email, password)) w =
      let l = limited j v b s now (str "login:" ++ to_lower email) w in
      let same = limited-valkey (str "login:" ++ to_lower email) w in
      let rest =
        login_as-valkey email password (usable (b.by_email l.1.users (trim_space (to_lower email))))
          l.1 in
      ground (arith, same, rest)

  verify_code-valkey :
      (r : AuthRecord) (code : Str) (o : Option Str) (w : World S R L)
      → (verify_code j v b s now r code o w).1.valkey ≡ w.valkey
  unfolding verify_code
  verify_code-valkey r code none w = refl
  verify_code-valkey r code (some secret) w = ground (
    arith,
    audit-valkey r (str "auth.failed") (str "denied") (str "mfa") w,
    confirmed (b.confirm_mfa_enrolment w.users r.principal_id),
    complete_login-valkey r w,
  )
    where
      confirmed : (o : Option R) → (enrolment_confirmed j v b s now r o w).1.valkey ≡ w.valkey
      confirmed none = unfold enrolment_confirmed in refl
      confirmed (some users) =
          unfold enrolment_confirmed in (complete_login-valkey r _ ∙ audit-valkey r _ _ _ _)

  verify_as-valkey :
      (code : Str) (o : Option AuthRecord) (w : World S R L)
      → (verify_as j v b s now code o w).1.valkey ≡ w.valkey
  unfolding verify_as
  verify_as-valkey code none w = refl
  verify_as-valkey code (some r) w = verify_code-valkey r code (b.open_sealed r.mfa_secret_enc) w

  verify_claims-valkey :
      (code : Str) (o : Result TokenError Claims) (w : World S R L)
      → (verify_claims j v b s now code o w).1.valkey ≡ w.valkey
  unfolding verify_claims
  verify_claims-valkey code (err e) w = refl
  verify_claims-valkey code (ok c) w =
      let l = limited j v b s now (str "mfa:" ++ c.subject) w in
      let same = limited-valkey (str "mfa:" ++ c.subject) w in
      let rest = verify_as-valkey code (enrolling (b.by_id l.1.users c.subject)) l.1 in
      ground (arith, same, rest)

  pub verify_mfa-valkey :
      (body : Option (Str × Str)) (w : World S R L)
      → (verify_mfa j v b s now body w).1.valkey ≡ w.valkey
  unfolding verify_mfa
  verify_mfa-valkey none w = refl
  verify_mfa-valkey (some (token, code)) w =
      ground (arith, verify_claims-valkey code (parse_token j s.tokens mfa_pending now token) w)

  pub logout_claims-valkey :
      (o : Result TokenError Claims) (w : World S R L)
      → (logout_claims j v b s now o w).valkey ≡ w.valkey
  unfolding logout_claims
  logout_claims-valkey (err e) w = refl
  logout_claims-valkey (ok c) w = go (b.by_id w.users c.subject)
    where
      go : (o : Option AuthRecord) → (audit_logout j v b s now o w).valkey ≡ w.valkey
      go none = unfold audit_logout in refl
      go (some r) = unfold audit_logout in (audit-valkey r _ _ _ w)
