-- ===== src/Access/Sessions/Owners.antt =====
-- Whose session the steps of a sign-in start: the handlers of backend/internal/service/authsvc.go.
use siem_v.Prelude.{
  ◌≡◌, refl, Bool, true, false, not, Option, none, some, ◌⊎◌, if◌then◌else◌, inl, inr, arith,
}
use siem_v.Prelude.Text.{Str}
use siem_v.Prelude.Time.{Time}
use siem_v.Prelude.Results.{Result, ok, err}
use siem_v.Access.Tokens.{TokenError, Jwt, Valkey, TokenPair, issue_mfa_challenge, revoke}
use siem_v.Access.Sessions.{
  AuthRecord, Backend, AuthService, World, Profile, Reply, refused, challenged, signed_in,
  signed_out, shown, profile_of, identity_of, issuer_label,
}
use siem_v.Access.Sessions.Handlers.{
  session_of, complete_login, challenge_of, challenge, enrol_stored, enrol_sealed, enrol,
  generate_mfa_secret, password_verified, login_as, verify_mfa_code, enrolment_confirmed,
  verify_code, verify_as, rotated, refresh_as,
}

-- Whose session a reply starts, if it starts one.
unfoldable pub session_profile : Reply → Option Profile
session_profile (refused k) = none
session_profile (challenged t uri) = none
session_profile (signed_in a e p k) = some p
session_profile (signed_out k) = none
session_profile (shown p) = none

module _ {S R L : Type 0} (j : Jwt) (v : Valkey S) (b : Backend R L) (s : AuthService)
    (now : Time) where
  session_of-owner :
      (r : AuthRecord) (o : Option TokenPair) (w : World S R L) {p : Profile}
      → session_profile (session_of j v b s now r o w).0 ≡ some p
      → p ≡ profile_of r
  unfolding session_of session_profile
  session_of-owner r none w h = cc
  session_of-owner r (some pair) w h = cc

  complete_login-owner :
      (r : AuthRecord) (w : World S R L) {p : Profile}
      → session_profile (complete_login j v b s now r w).0 ≡ some p
      → p ≡ profile_of r
  unfolding complete_login
  complete_login-owner r w h = session_of-owner r _ _ h

  -- A challenge is no session.
  challenge_refuses :
      (r : AuthRecord) (uri : Option Str) (w : World S R L)
      → session_profile (challenge j v b s now r uri w).0 ≡ none
  unfolding challenge
  challenge_refuses r uri w = go (issue_mfa_challenge j s.tokens (identity_of r) now w.draws).0 _
    where
      go :
          (o : Option Str) (w : World S R L)
          → session_profile (challenge_of j v b s now uri o w).0 ≡ none
      go none w = unfold challenge_of session_profile in refl
      go (some t) w = unfold challenge_of session_profile in refl

  enrol_refuses :
      (r : AuthRecord) (o : Option (Str × Str)) (w : World S R L)
      → session_profile (enrol j v b s now r o w).0 ≡ none
  unfolding enrol enrol_sealed enrol_stored session_profile
  enrol_refuses r none w = refl
  enrol_refuses r (some (secret, uri)) w = sealed (b.seal secret)
    where
      stored : (o : Option R) → session_profile (enrol_stored j v b s now r uri o w).0 ≡ none
      stored none = refl
      stored (some users) = challenge_refuses r (some uri) (record w { users = users })

      sealed : (o : Option Str) → session_profile (enrol_sealed j v b s now r uri o w).0 ≡ none
      sealed none = refl
      sealed (some t) = stored (b.set_mfa_secret w.users r.principal_id t)

  -- Which branch of a test starts the session.
  branch :
      (c : Bool) (x y : Reply × World S R L) {p : Profile}
      → session_profile (if c then x else y).0 ≡ some p
      → ((c ≡ true) × (session_profile x.0 ≡ some p))
        ⊎ ((c ≡ false) × (session_profile y.0 ≡ some p))
  branch true x y h = inl (refl, h)
  branch false x y h = inr (refl, h)

  -- A test that refuses did not.
  pub passed :
      (c : Bool) (x y : Reply × World S R L) {p : Profile}
      → session_profile x.0 ≡ none
      → session_profile (if c then x else y).0 ≡ some p
      → (c ≡ false) × (session_profile y.0 ≡ some p)
  passed true x y n h = cc
  passed false x y n h = (refl, h)

  password_verified-owner :
      (r : AuthRecord) (w : World S R L) {p : Profile}
      → session_profile (password_verified j v b s now r w).0 ≡ some p
      → (s.dev_skip_mfa ≡ true) × (p ≡ profile_of r)
  unfolding password_verified
  password_verified-owner r w {p} h = elim (branch s.dev_skip_mfa _ _ h) [
    | inl skip ↦ (skip.0, complete_login-owner r _ skip.1)
    | inr full ↦
        let rest =
          passed (not r.is_mfa_enrolled) _ _
            (enrol_refuses r (generate_mfa_secret j v b s now (issuer_label s) r.identity) w)
            full.1 in
        let refusal = challenge_refuses r none w in absurd (ground arith)
  ]

  pub login_as-owner :
      (email password : Str) (o : Option AuthRecord) (w : World S R L) {p : Profile}
      → session_profile (login_as j v b s now email password o w).0 ≡ some p
      → (r : AuthRecord) × (o ≡ some r)
        × (b.verify_password password r.password_hash ≡ true)
        × (s.dev_skip_mfa ≡ true)
        × (p ≡ profile_of r)
  unfolding login_as session_profile
  login_as-owner email password none w h = cc
  login_as-owner email password (some r) w h =
      let known = passed (not (b.verify_password password r.password_hash)) _ _ refl h in
      let owner = password_verified-owner r w known.1 in (r, refl, ground arith, owner.0, owner.1)

  verify_code-owner :
      (r : AuthRecord) (code : Str) (o : Option Str) (w : World S R L) {p : Profile}
      → session_profile (verify_code j v b s now r code o w).0 ≡ some p
      → (secret : Str) × (o ≡ some secret)
        × (verify_mfa_code j v b s now secret code ≡ true)
        × (p ≡ profile_of r)
  unfolding verify_code session_profile
  verify_code-owner r code none w h = cc
  verify_code-owner r code (some secret) w {p} h =
      let known = passed (not (verify_mfa_code j v b s now secret code)) _ _ refl h in
      (
        secret,
        refl,
        ground arith,
        elim (branch (not r.is_mfa_enrolled) _ _ known.1) [
          | inl fresh ↦ confirmed (b.confirm_mfa_enrolment w.users r.principal_id) fresh.1
          | inr enrolled ↦ complete_login-owner r w enrolled.1
        ],
      )
    where
      confirmed :
          (o : Option R)
          → session_profile (enrolment_confirmed j v b s now r o w).0 ≡ some p
          → p ≡ profile_of r
      confirmed none h = unfold enrolment_confirmed session_profile in cc
      confirmed (some users) h = unfold enrolment_confirmed in (complete_login-owner r _ h)

  pub verify_as-owner :
      (code : Str) (o : Option AuthRecord) (w : World S R L) {p : Profile}
      → session_profile (verify_as j v b s now code o w).0 ≡ some p
      → (r : AuthRecord) × (secret : Str) × (o ≡ some r)
        × (b.open_sealed r.mfa_secret_enc ≡ some secret)
        × (verify_mfa_code j v b s now secret code ≡ true)
        × (p ≡ profile_of r)
  unfolding verify_as session_profile
  verify_as-owner code none w h = cc
  verify_as-owner code (some r) w h =
      let found = verify_code-owner r code (b.open_sealed r.mfa_secret_enc) w h in
      (r, found.0, refl, found.1, found.2, found.3)

  pub refresh_as-owner :
      (token : Str) (o : Option AuthRecord) (w : World S R L) {p : Profile}
      → session_profile (refresh_as j v b s now token o w).0 ≡ some p
      → (r : AuthRecord) × (valkey : S) × (o ≡ some r)
        × (revoke j s.tokens v w.valkey now token ≡ ok valkey)
        × (p ≡ profile_of r)
  unfolding refresh_as session_profile
  refresh_as-owner token none w h = cc
  refresh_as-owner token (some r) w {p} h = go (revoke j s.tokens v w.valkey now token) refl h
    where
      go :
          (o : Result TokenError S)
          → revoke j s.tokens v w.valkey now token ≡ o
          → session_profile (rotated j v b s now r o w).0 ≡ some p
          → (r' : AuthRecord) × (valkey : S) × (some r ≡ some r')
            × (revoke j s.tokens v w.valkey now token ≡ ok valkey)
            × (p ≡ profile_of r')
      go (err e) q h = unfold rotated session_profile in cc
      go (ok valkey) q h = unfold rotated in (r, valkey, refl, q, complete_login-owner r _ h)
