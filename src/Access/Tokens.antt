-- ===== src/Access/Tokens.antt =====
-- Session tokens and their revocation: backend/internal/auth/tokens.go and
-- backend/internal/data/valkey/revocation.go. The JWT library and the Valkey server are parameters.
-- One clock stands for the clock of the issuer and for that of `time.Until`.
pub mod Marks
pub mod Purposes
pub mod Revoked
use siem_v.Prelude.{
  ℕ, suc, ◌+◌, ◌*◌, Bool, true, false, not, ◌||◌, Option, none, some, List, [], ◌∷◌, ◌++◌, length,
  ltb, if◌then◌else◌,
}
use siem_v.Prelude.Text.{Str, str, str_eq}
use siem_v.Prelude.Time.{Time, Duration, pos, ltb_ℤ, time_sub, minute, hour}
use siem_v.Prelude.Results.{Result, ok, err}
use siem_v.Alerting.{time_add}

pub data Purpose : Type 0 where
  access refresh mfa_pending : Purpose

abbrev pub purpose_text : Purpose → Str
purpose_text access = str "access"
purpose_text refresh = str "refresh"
purpose_text mfa_pending = str "mfa_pending"

pub record Claims : Type 0 where
  pub subject : Str
  pub id : Str
  pub issued_at : Time
  pub not_before : Time
  pub expires_at : Time
  pub issuer : Str
  pub tenant_id : Str
  pub role : Str
  pub email : Str
  pub purpose : Str

pub data TokenError : Type 0 where
  invalid_token token_expired token_revoked revocation_failed signing_failed : TokenError

-- What the library answers to a token: the signature, the method, the issuer and the times are its
-- to check.
pub data Parsed : Type 0 where
  accepted : Claims → Parsed
  expired rejected : Parsed

pub record Jwt : Type 0 where
  pub sign : Str → Claims → Option Str
  pub parse : Str → Time → Str → Parsed
  pub numeric_date : Time → Time
  -- `newJTI`: the id that the n-th draw gives.
  pub new_jti : ℕ → Str

-- `none` is a call that fails. The second argument is the time of the call.
pub record Valkey (S : Type 0) : Type 0 where
  pub set_ex : S → Time → Str → Duration → Option S
  pub exists : S → Time → Str → Option ℕ

unfoldable pub revocation_key : Str → Str
revocation_key token_id = str "auth:revoked:" ++ token_id

-- Exactly the durations below or at zero.
abbrev pub is_positive : Duration → Bool
is_positive d = ltb_ℤ (pos 0) d

module _ {S : Type 0} (v : Valkey S) where
  -- `Revocations.Revoke`
  unfoldable pub record_revocation : S → Time → Str → Duration → Option S
  record_revocation s now token_id ttl =
      if str_eq token_id []
      then none
      else v.set_ex s now (revocation_key token_id)
          (if is_positive ttl then ttl else pos (7 * (24 * hour)))

  unfoldable pub is_found : Option ℕ → Option Bool
  is_found none = none
  is_found (some n) = some (ltb 0 n)

  -- `Revocations.IsRevoked`
  unfoldable pub is_revoked : S → Time → Str → Option Bool
  is_revoked s now token_id = is_found (v.exists s now (revocation_key token_id))

pub record TokenIssuer : Type 0 where
  pub signing_key : Str
  pub access_ttl : Duration
  pub refresh_ttl : Duration
  pub has_revocation : Bool

unfoldable pub new_token_issuer : Str → Duration → Duration → Bool → Option TokenIssuer
new_token_issuer signing_key access_ttl refresh_ttl has_revocation =
    if ltb (length signing_key) 32
    then none
    else if not (is_positive access_ttl) || not (is_positive refresh_ttl)
    then none
    else some (record {
      signing_key = signing_key;
      access_ttl = access_ttl;
      refresh_ttl = refresh_ttl;
      has_revocation = has_revocation;
    })

pub record Identity : Type 0 where
  pub principal_id : Str
  pub email : Str
  pub tenant_id : Str
  pub role : Str

pub record TokenPair : Type 0 where
  pub access_token : Str
  pub refresh_token : Str
  pub expires_at : Time
  pub refresh_expires_at : Time

abbrev pub issuer_name : Str
issuer_name = str "siem-v2"

module _ (j : Jwt) (ti : TokenIssuer) where
  unfoldable pub claims_of : Identity → Purpose → Time → Duration → Str → Claims
  claims_of id purpose now ttl jti = record {
    subject = id.principal_id;
    id = jti;
    issued_at = j.numeric_date now;
    not_before = j.numeric_date now;
    expires_at = j.numeric_date (time_add now ttl);
    issuer = issuer_name;
    tenant_id = id.tenant_id;
    role = id.role;
    email = id.email;
    purpose = purpose_text purpose;
  }

  unfoldable pub sign : Identity → Purpose → Time → Duration → Str → Option Str
  sign id purpose now ttl jti = j.sign ti.signing_key (claims_of id purpose now ttl jti)

  unfoldable pub pair_of : Time → Str → Option Str → Option TokenPair
  pair_of now first none = none
  pair_of now first (some second) = some (record {
    access_token = first;
    refresh_token = second;
    expires_at = time_add now ti.access_ttl;
    refresh_expires_at = time_add now ti.refresh_ttl;
  })

  unfoldable pub issue_refresh : Identity → Time → ℕ → Option Str → Option TokenPair × ℕ
  issue_refresh id now draws none = (none, draws)
  issue_refresh id now draws (some first) =
      (pair_of now first (sign id refresh now ti.refresh_ttl (j.new_jti draws)), suc draws)

  -- `IssuePair`, with the ids that have been drawn before and after.
  unfoldable pub issue_pair : Identity → Time → ℕ → Option TokenPair × ℕ
  issue_pair id now draws =
      issue_refresh id now (suc draws) (sign id access now ti.access_ttl (j.new_jti draws))

  unfoldable pub issue_mfa_challenge : Identity → Time → ℕ → Option Str × ℕ
  issue_mfa_challenge id now draws =
      (sign id mfa_pending now (pos (5 * minute)) (j.new_jti draws), suc draws)

  unfoldable pub check_claims : Purpose → Parsed → Result TokenError Claims
  check_claims want expired = err token_expired
  check_claims want rejected = err invalid_token
  check_claims want (accepted c) =
      if not (str_eq c.purpose (purpose_text want))
      then err invalid_token
      else if str_eq c.tenant_id [] || str_eq c.subject []
      then err invalid_token
      else ok c

  -- `parse`, and with the two purposes `ParseAccess` and `ParseMFAChallenge`.
  unfoldable pub parse_token : Purpose → Time → Str → Result TokenError Claims
  parse_token want now token = check_claims want (j.parse ti.signing_key now token)

  module _ {S : Type 0} (v : Valkey S) where
    unfoldable pub refuse_revoked : Claims → Option Bool → Result TokenError Claims
    refuse_revoked c none = err revocation_failed
    refuse_revoked c (some revoked) = if revoked then err token_revoked else ok c

    unfoldable pub check_revoked : S → Time → Result TokenError Claims → Result TokenError Claims
    check_revoked s now (err e) = err e
    check_revoked s now (ok c) =
        if ti.has_revocation then refuse_revoked c (is_revoked v s now c.id) else ok c

    unfoldable pub parse_refresh : S → Time → Str → Result TokenError Claims
    parse_refresh s now token = check_revoked s now (parse_token refresh now token)

    unfoldable pub revoked_or : Option S → Result TokenError S
    revoked_or none = err revocation_failed
    revoked_or (some s) = ok s

    -- An expired token leaves no claims, and so nothing to revoke.
    unfoldable pub revoke_parsed : S → Time → Result TokenError Claims → Result TokenError S
    revoke_parsed s now (err token_expired) = ok s
    revoke_parsed s now (err e) = err e
    revoke_parsed s now (ok c) =
        let ttl = time_sub c.expires_at now in
        if not ti.has_revocation || not (is_positive ttl)
        then ok s
        else revoked_or (record_revocation v s now c.id ttl)

    -- `Revoke`, with what the server holds afterwards.
    unfoldable pub revoke : S → Time → Str → Result TokenError S
    revoke s now token = revoke_parsed s now (parse_token refresh now token)
