-- ===== src/Tests/Access.antt =====
-- The theorems on sessions, permissions, limits and feeds, applied to samples.
use siem_v.Prelude.{
  ℕ, ◌+◌, ◌*◌, ◌/◌, ◌≤◌, ◌<◌, ◌≡◌, refl, subst, sym, ap, ◌∙◌, true, false, Option, none, some, [],
  ◌∷◌, Bool-cases, inl, inr, arith, ltb, if◌then◌else◌, ◌&&◌,
}
use siem_v.Prelude.Text.{Str, str, str_eq}
use siem_v.Prelude.Time.{Time, Duration, pos, negsuc, second, minute, max_duration, time_sub}
use siem_v.Prelude.Maps.{Map, lookup, put, lookup-put, lookup-put_self}
use siem_v.Access.Tokens.{
  Claims, Parsed, accepted, Jwt, Valkey, revocation_key, parse_refresh, check_revoked, parse_token,
  check_claims, refuse_revoked, is_revoked, is_found, revoke, revoke_parsed, revoked_or,
  record_revocation, issue_pair, issue_refresh, pair_of, sign, claims_of,
}
use siem_v.Access.Tokens.Marks.{IsStrict, IsKeeping}
use siem_v.Access.Sessions.{
  AuthRecord, Backend, AuthService, World, Profile, profile_of, active, audit,
}
use siem_v.Access.Sessions.Handlers.{
  Request, refresh_request, handle, refresh_session, refresh_claims, refresh_as, rotated,
  complete_login, session_of,
}
use siem_v.Access.Sessions.Owners.{session_profile}
use siem_v.Access.Sessions.Proven.{IsProven, handle-IsProven}
use siem_v.Access.Sessions.Rotated.{serve, refresh-IsRotated}

-- A library that knows one refresh token, until the tenth second.
abbrev pub sample_claims : Claims
sample_claims = record {
  subject = str "u1";
  id = str "j1";
  issued_at = 0;
  not_before = 0;
  expires_at = 10 * second;
  issuer = str "siem-v2";
  tenant_id = str "t1";
  role = str "engineer";
  email = str "ann@example";
  purpose = str "refresh";
}

abbrev sample_jwt : Jwt
sample_jwt = record {
  sign = λ key c. some c.purpose;
  parse = λ key now token.
      if str_eq token (str "r1") && ltb now (10 * second)
      then accepted sample_claims
      else Parsed.expired;
  numeric_date = λ t. t;
  new_jti = λ n. n ∷ [];
}

sample_accepted :
    (t : Time) (token : Str) (c : Claims)
    → sample_jwt.parse [] t token ≡ accepted c
    → (sample_claims ≡ c) × (t < 10 * second)
sample_accepted t token c h = elim (Bool-cases (str_eq token (str "r1") && ltb t (10 * second))) [
  | inl read ↦ (ground arith, ground arith)
  | inr other ↦ absurd (ground arith)
]

sample-IsStrict : IsStrict sample_jwt []
sample-IsStrict = record {
  current = λ t token c h. (
    subst (λ d. t < d.expires_at) (sample_accepted t token c h).0 (sample_accepted t token c h).1,
    subst (λ d. d.expires_at ≤ t + max_duration) (sample_accepted t token c h).0 (omega arith),
  );
  one = λ t u token c d h k. sym (sample_accepted t token c h).0 ∙ (sample_accepted u token d k).0;
  unique = λ t u first second c d h k e.
      ap (λ x. x.expires_at)
        (sym (sample_accepted t first c h).0 ∙ (sample_accepted u second d k).0);
}

-- A server that keeps for each key the time until which it is found.
abbrev pub is_found_at : Time → Option Time → ℕ
is_found_at t none = 0
is_found_at t (some until) = if ltb t until then 1 else 0

abbrev pub until_of : Time → Duration → Time
until_of now (pos ttl) = now + ttl / second * second
until_of now (negsuc n) = now

abbrev pub sample_valkey : Valkey (Map Time)
sample_valkey = record {
  set_ex = λ s now key ttl. some (put key (until_of now ttl) s);
  exists = λ s t key. some (is_found_at t (lookup key s));
}

sample-IsKeeping : IsKeeping sample_valkey
sample-IsKeeping = record {
  marks = λ s s' now key ttl h.
      let same : put key (now + ttl / second * second) s ≡ s' = ground arith in
      record {
        found = λ t n lt e.
            let read =
              ap (λ m. is_found_at t (lookup key m)) (sym same)
              ∙ ap (is_found_at t) (lookup-put_self key (now + ttl / second * second) s) in
            ground (arith, read);
      };
  keeps = λ s s' now key other ttl t h d.
      let same : put key (until_of now ttl) s ≡ s' = ground arith in
      ap (λ m. some (is_found_at t (lookup other m))) (sym same)
      ∙ ap (λ o. some (is_found_at t o)) (lookup-put key other (until_of now ttl) s ∙ rw d refl);
}

abbrev pub sample_record : AuthRecord
sample_record = record {
  principal_id = str "u1";
  tenant_id = str "t1";
  identity = str "ann@example";
  role = str "engineer";
  is_active = true;
  password_hash = str "h";
  mfa_secret_enc = str "s";
  is_mfa_enrolled = true;
}

abbrev pub sample_backend : Backend ℕ ℕ
sample_backend = record {
  by_email = λ r email. some sample_record;
  by_id = λ r id. some sample_record;
  set_mfa_secret = λ r id sealed. some r;
  confirm_mfa_enrolment = λ r id. some r;
  record_login = λ r id now. r + 1;
  allow = λ l key. (true, l + 1);
  verify_password = λ password hash. str_eq password (str "secret");
  generate_totp = λ issuer account. some (str "k", str "uri");
  validate_totp = λ secret code now. str_eq code (str "123456");
  seal = λ secret. some secret;
  open_sealed = λ sealed. some sealed;
}

abbrev pub sample_service : AuthService
sample_service = record {
  tokens = record {
    signing_key = [];
    access_ttl = pos minute;
    refresh_ttl = pos (10 * second);
    has_revocation = true;
  };
  issuer = [];
  has_audit = true;
  has_limiter = true;
  dev_insecure_cookies = false;
  dev_skip_mfa = false;
}

abbrev sample_world : World (Map Time) ℕ ℕ
sample_world = record { valkey = []; users = 0; limits = 0; draws = 0; audit_log = [] }

abbrev sample_request : Request
sample_request = refresh_request (some (str "r1"))

abbrev sample_profile : Profile
sample_profile = profile_of sample_record

-- Half a second into the last two: the server keeps the revocation for one whole second.
abbrev half_past_eight : Time
half_past_eight = 8_500_000_000

abbrev just_before_ten : Time
just_before_ten = 9_700_000_000

sample_exchange :
    session_profile
      (handle sample_jwt sample_valkey sample_backend sample_service half_past_eight sample_request
        sample_world).0
    ≡ some sample_profile
unfolding session_profile handle refresh_session str_eq refresh_claims parse_refresh check_revoked
    parse_token check_claims refuse_revoked is_revoked is_found lookup put refresh_as active rotated
    revoke revoke_parsed revoked_or record_revocation revocation_key time_sub complete_login
    session_of issue_pair issue_refresh pair_of sign claims_of
sample_exchange = refl

handle-IsProven_example :
    IsProven sample_jwt sample_valkey sample_backend sample_service half_past_eight sample_request
      sample_world sample_profile
handle-IsProven_example =
    handle-IsProven sample_jwt sample_valkey sample_backend sample_service half_past_eight
      sample_request sample_world sample_profile sample_exchange

abbrev sample_after : World (Map Time) ℕ ℕ
sample_after =
    (handle sample_jwt sample_valkey sample_backend sample_service half_past_eight sample_request
      sample_world).1

-- The token is taken once more: the revocation has gone, and the token has not yet expired.
sample_again :
    session_profile
      (handle sample_jwt sample_valkey sample_backend sample_service just_before_ten sample_request
        (serve sample_jwt sample_valkey sample_backend sample_service [] sample_after)).0
    ≡ some sample_profile
unfolding session_profile handle refresh_session str_eq refresh_claims parse_refresh check_revoked
    parse_token check_claims refuse_revoked is_revoked is_found lookup put refresh_as active rotated
    revoke revoke_parsed revoked_or record_revocation revocation_key time_sub complete_login
    session_of issue_pair issue_refresh pair_of sign claims_of serve audit
sample_again = refl

sample_parsed : sample_jwt.parse [] half_past_eight (str "r1") ≡ accepted sample_claims
unfolding str_eq
sample_parsed = refl

refresh-IsRotated_example :
    (10 * second ≤ just_before_ten + second) × (just_before_ten < 10 * second)
refresh-IsRotated_example =
    refresh-IsRotated sample_jwt sample_valkey sample_backend sample_service sample-IsStrict
      sample-IsKeeping half_past_eight (str "r1") sample_claims sample_parsed refl sample_world
      sample_profile sample_profile [] just_before_ten sample_exchange sample_again
