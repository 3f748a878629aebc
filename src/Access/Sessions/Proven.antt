-- ===== src/Access/Sessions/Proven.antt =====
-- What has to be proved of a person before a session is handed out.
use siem_v.Prelude.{◌≡◌, refl, subst, true, ◌||◌, none, some, [], ◌++◌, arith}
use siem_v.Prelude.Text.{Str, str, str_eq, to_lower, trim_space}
use siem_v.Prelude.Time.{Time}
use siem_v.Prelude.Results.{Result, ok, err}
use siem_v.Access.Tokens.{
  Claims, TokenError, Jwt, Valkey, mfa_pending, parse_token, parse_refresh, revoke,
}
use siem_v.Access.Sessions.{
  AuthRecord, Backend, AuthService, World, Profile, profile_of, usable, active, enrolling,
}
use siem_v.Access.Sessions.Handlers.{
  Request, login_request, mfa_request, refresh_request, logout_request, limited, login,
  verify_mfa_code, verify_claims, verify_mfa, refresh_claims, refresh_session, logout, handle,
}
use siem_v.Access.Sessions.Owners.{
  session_profile, passed, login_as-owner, verify_as-owner, refresh_as-owner,
}

module _ {S R L : Type 0} (j : Jwt) (v : Valkey S) (b : Backend R L) (s : AuthService)
    (now : Time) where
  limited-users : (key : Str) (w : World S R L) → (limited j v b s now key w).1.users ≡ w.users
  unfolding limited
  limited-users key w = ground arith

  -- With the password alone, where the second factor is switched off for development.
  abbrev pub IsLogin : Str → Str → World S R L → Profile → Type 0
  IsLogin email password w p =
      (r : AuthRecord) × (usable (b.by_email w.users (trim_space (to_lower email))) ≡ some r)
      × (b.verify_password password r.password_hash ≡ true)
      × (s.dev_skip_mfa ≡ true)
      × (p ≡ profile_of r)

  -- With a challenge token and a code of the authenticator.
  abbrev pub IsMfa : Str → Str → World S R L → Profile → Type 0
  IsMfa token code w p =
      (c : Claims) × (r : AuthRecord) × (secret : Str) × (parse_token j s.tokens mfa_pending now
          token
        ≡ ok c)
      × (enrolling (b.by_id w.users c.subject) ≡ some r)
      × (b.open_sealed r.mfa_secret_enc ≡ some secret)
      × (verify_mfa_code j v b s now secret code ≡ true)
      × (p ≡ profile_of r)

  -- With a refresh token that has not been revoked, and is now.
  abbrev pub IsRefresh : Str → World S R L → Profile → Type 0
  IsRefresh token w p =
      (c : Claims) × (r : AuthRecord) × (valkey : S) × (parse_refresh j s.tokens v w.valkey now
          token
        ≡ ok c)
      × (active (b.by_id w.users c.subject) ≡ some r)
      × (revoke j s.tokens v w.valkey now token ≡ ok valkey)
      × (p ≡ profile_of r)

  abbrev pub IsProven : Request → World S R L → Profile → Type 0
  IsProven (login_request none) w p = ⊥
  IsProven (login_request (some (email, password))) w p = IsLogin email password w p
  IsProven (mfa_request none) w p = ⊥
  IsProven (mfa_request (some (token, code))) w p = IsMfa token code w p
  IsProven (refresh_request none) w p = ⊥
  IsProven (refresh_request (some token)) w p = IsRefresh token w p
  IsProven (logout_request cookie) w p = ⊥

  login-IsLogin :
      (email password : Str) (w : World S R L) {p : Profile}
      → session_profile (login j v b s now (some (email, password)) w).0 ≡ some p
      → IsLogin email password w p
  unfolding login session_profile
  login-IsLogin email password w {p} h =
      let l = limited j v b s now (str "login:" ++ to_lower email) w in
      let given = passed j v b s now (str_eq email [] || str_eq password []) _ _ refl h in
      let allowed = passed j v b s now l.0 _ _ refl given.1 in
      let found = login_as-owner j v b s now email password _ l.1 allowed.1 in
      (
        found.0,
        subst (λ u. usable (b.by_email u (trim_space (to_lower email))) ≡ some found.0)
            (limited-users _ w) found.1,
        found.2,
        found.3,
        found.4,
      )

  verify_mfa-IsMfa :
      (token code : Str) (w : World S R L) {p : Profile}
      → session_profile (verify_mfa j v b s now (some (token, code)) w).0 ≡ some p
      → IsMfa token code w p
  unfolding verify_mfa session_profile
  verify_mfa-IsMfa token code w {p} h =
      let given = passed j v b s now (str_eq token [] || str_eq code []) _ _ refl h in
      go (parse_token j s.tokens mfa_pending now token) refl given.1
    where
      go :
          (o : Result TokenError Claims)
          → parse_token j s.tokens mfa_pending now token ≡ o
          → session_profile (verify_claims j v b s now code o w).0 ≡ some p
          → IsMfa token code w p
      go (err e) q h = unfold verify_claims in cc
      go (ok c) q h =
          unfold verify_claims in
          (let l = limited j v b s now (str "mfa:" ++ c.subject) w in
            let allowed = passed j v b s now l.0 _ _ refl h in
            let found = verify_as-owner j v b s now code _ l.1 allowed.1 in
            (
              c,
              found.0,
              found.1,
              q,
              subst (λ u. enrolling (b.by_id u c.subject) ≡ some found.0) (limited-users _ w)
                  found.2,
              found.3,
              found.4,
              found.5,
            ))

  pub refresh_session-IsRefresh :
      (token : Str) (w : World S R L) {p : Profile}
      → session_profile (refresh_session j v b s now (some token) w).0 ≡ some p
      → IsRefresh token w p
  unfolding refresh_session session_profile
  refresh_session-IsRefresh token w {p} h =
      let given = passed j v b s now (str_eq token []) _ _ refl h in
      go (parse_refresh j s.tokens v w.valkey now token) refl given.1
    where
      go :
          (o : Result TokenError Claims)
          → parse_refresh j s.tokens v w.valkey now token ≡ o
          → session_profile (refresh_claims j v b s now token o w).0 ≡ some p
          → IsRefresh token w p
      go (err e) q h = unfold refresh_claims in cc
      go (ok c) q h =
          unfold refresh_claims in
          (let found = refresh_as-owner j v b s now token _ w h in
            (c, found.0, found.1, q, found.2, found.3, found.4))

  -- A reply starts a session only to a login with the right password of an active account where the
  -- second factor is switched off, to a code that verifies against the sealed secret of the active
  -- account that a challenge token names, or to a refresh token of an active account that has not
  -- been revoked and that this request revokes; the session is that account's.
  pub handle-IsProven :
      (request : Request) (w : World S R L) (p : Profile)
      → session_profile (handle j v b s now request w).0 ≡ some p
      → IsProven request w p
  unfolding handle login verify_mfa refresh_session logout session_profile
  handle-IsProven (login_request none) w p h = cc
  handle-IsProven (login_request (some (email, password))) w p h = login-IsLogin email password w h
  handle-IsProven (mfa_request none) w p h = cc
  handle-IsProven (mfa_request (some (token, code))) w p h = verify_mfa-IsMfa token code w h
  handle-IsProven (refresh_request none) w p h = cc
  handle-IsProven (refresh_request (some token)) w p h = refresh_session-IsRefresh token w h
  handle-IsProven (logout_request none) w p h = cc
  handle-IsProven (logout_request (some token)) w p h = cc
