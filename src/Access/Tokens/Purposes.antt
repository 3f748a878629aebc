-- ===== src/Access/Tokens/Purposes.antt =====
-- A token of one purpose is not taken for one of another.
use siem_v.Prelude.{
  ℕ, suc, ◌+◌, ◌*◌, ◌/◌, ◌≤◌, ◌<◌, ◌≡◌, refl, ap, false, Option, none, some, [], any, leb, arith,
  if◌then◌else◌,
}
use siem_v.Prelude.Text.{Str, str_eq}
use siem_v.Prelude.Time.{Time, Duration, second}
use siem_v.Alerting.{time_add}
use siem_v.Prelude.Results.{ok, err}
use siem_v.Access.Tokens.{
  Purpose, access, refresh, mfa_pending, purpose_text, Claims, invalid_token, accepted, Jwt,
  issuer_name, TokenIssuer, Identity, TokenPair, claims_of, sign, pair_of, issue_refresh,
  issue_pair, check_claims, parse_token,
}

abbrev pub IsAscii : Str → Type 0
IsAscii s = any (λ c. leb 128 c) s ≡ false

-- Claims that their JSON carries as they are: ASCII texts, and times of whole seconds.
pub record IsSignable (c : Claims) : Type 0 where
  pub texts :
      IsAscii c.subject
      × IsAscii c.id
      × IsAscii c.issuer
      × IsAscii c.tenant_id
      × IsAscii c.role
      × IsAscii c.email
      × IsAscii c.purpose
  pub seconds :
      ((n : ℕ) × (c.issued_at ≡ n * second))
      × ((n : ℕ) × (c.not_before ≡ n * second))
      × ((n : ℕ) × (c.expires_at ≡ n * second))

-- What the library promises of a token that it has signed: with the same key, and from the time it is
-- valid until before it expires, it gives the claims of the token, if their issuer is the one that is
-- asked for.
abbrev pub ReadsBack : Jwt → Str → Type 0
ReadsBack j key =
    (c : Claims) (token : Str) (now : Time)
    → j.sign key c ≡ some token
    → IsSignable c
    → c.issuer ≡ issuer_name
    → c.not_before ≤ now
    → now < c.expires_at
    → j.parse key now token ≡ accepted c

-- The dates of the library are cut to the second.
abbrev pub IsTruncating : Jwt → Type 0
IsTruncating j = (t : Time) → j.numeric_date t ≡ t / second * second

pub record IsAsciiIdentity (id : Identity) : Type 0 where
  pub principal : IsAscii id.principal_id
  pub email : IsAscii id.email
  pub tenant : IsAscii id.tenant_id
  pub role : IsAscii id.role

module _ (j : Jwt) (ti : TokenIssuer) where
  pair_of-some :
      (at : Time) (first : Str) (o : Option Str) (pair : TokenPair)
      → pair_of j ti at first o ≡ some pair
      → (first ≡ pair.access_token)
        × (o ≡ some pair.refresh_token)
        × (pair.expires_at ≡ time_add at ti.access_ttl)
        × (pair.refresh_expires_at ≡ time_add at ti.refresh_ttl)
  unfolding pair_of
  pair_of-some at first none pair h = cc
  pair_of-some at first (some second) pair h =
      (ground arith, ground arith, ground arith, ground arith)

  issue_refresh-some :
      (id : Identity) (at : Time) (draws : ℕ) (o : Option Str) (pair : TokenPair)
      → (issue_refresh j ti id at draws o).0 ≡ some pair
      → (o ≡ some pair.access_token)
        × (sign j ti id refresh at ti.refresh_ttl (j.new_jti draws) ≡ some pair.refresh_token)
        × (pair.expires_at ≡ time_add at ti.access_ttl)
        × (pair.refresh_expires_at ≡ time_add at ti.refresh_ttl)
  unfolding issue_refresh
  issue_refresh-some id at draws none pair h = cc
  issue_refresh-some id at draws (some first) pair h =
      let both =
        pair_of-some at first (sign j ti id refresh at ti.refresh_ttl (j.new_jti draws)) pair h in
      (ap some both.0, both.1, both.2, both.3)

module _ (j : Jwt) (ti : TokenIssuer) (reads : ReadsBack j ti.signing_key) (cut : IsTruncating j)
    (drawn : (n : ℕ) → IsAscii (j.new_jti n)) (id : Identity) (ascii : IsAsciiIdentity id)
    (tenant : str_eq id.tenant_id [] ≡ false) (subject : str_eq id.principal_id [] ≡ false) where
  purpose_text-IsAscii : (purpose : Purpose) → IsAscii (purpose_text purpose)
  unfolding purpose_text
  purpose_text-IsAscii access = refl
  purpose_text-IsAscii refresh = refl
  purpose_text-IsAscii mfa_pending = refl

  claims_of-IsSignable :
      (purpose : Purpose) (at : Time) (ttl : Duration) (jti : Str)
      → IsAscii jti
      → IsSignable (claims_of j ti id purpose at ttl jti)
  unfolding claims_of
  claims_of-IsSignable purpose at ttl jti a = record {
    texts = (
      ascii.principal,
      a,
      refl,
      ascii.tenant,
      ascii.role,
      ascii.email,
      purpose_text-IsAscii purpose,
    );
    seconds = (
      (at / second, cut at),
      (at / second, cut at),
      (time_add at ttl / second, cut (time_add at ttl)),
    );
  }

  parse_token-sign :
      (purpose want : Purpose) (at now : Time) (ttl : Duration) (jti token : Str)
      → IsAscii jti
      → at ≤ now
      → now + second ≤ time_add at ttl
      → sign j ti id purpose at ttl jti ≡ some token
      → parse_token j ti want now token ≡ (
          if str_eq (purpose_text purpose) (purpose_text want)
          then ok (claims_of j ti id purpose at ttl jti)
          else err invalid_token)
  unfolding parse_token check_claims sign claims_of
  parse_token-sign purpose want at now ttl jti token a started ends h =
      let c = claims_of j ti id purpose at ttl jti in
      let from : j.numeric_date at ≤ now = omega (arith, cut at, started) in
      let until : now < j.numeric_date (time_add at ttl) =
        omega (arith, cut (time_add at ttl), ends) in
      let read = reads c token now h (claims_of-IsSignable purpose at ttl jti a) refl from until in
      rw (read, tenant, subject) (ground arith)

  -- The first token of a pair is read back as an access token with its own claims, and refused as a
  -- refresh token and as an answer to a challenge; the second is read back as a refresh token, and
  -- refused as either of the others. This holds from the time of signing until a second before the
  -- expiries that the pair carries, of an identity with a tenant and a principal and of ASCII texts;
  -- the library cuts dates to the second, draws ASCII ids, and reads back what it has signed.
  pub issue_pair-IsSeparate :
      (at now : Time) (draws : ℕ) (pair : TokenPair)
      → (issue_pair j ti id at draws).0 ≡ some pair
      → at ≤ now
      → now + second ≤ pair.expires_at
      → now + second ≤ pair.refresh_expires_at
      → (parse_token j ti access now pair.access_token
          ≡ ok (claims_of j ti id access at ti.access_ttl (j.new_jti draws)))
        × (parse_token j ti refresh now pair.access_token ≡ err invalid_token)
        × (parse_token j ti mfa_pending now pair.access_token ≡ err invalid_token)
        × (parse_token j ti refresh now pair.refresh_token
            ≡ ok (claims_of j ti id refresh at ti.refresh_ttl (j.new_jti (suc draws))))
        × (parse_token j ti access now pair.refresh_token ≡ err invalid_token)
        × (parse_token j ti mfa_pending now pair.refresh_token ≡ err invalid_token)
  unfolding issue_pair str_eq
  issue_pair-IsSeparate at now draws pair h started first_ends second_ends =
      let made =
        issue_refresh-some j ti id at (suc draws)
          (sign j ti id access at ti.access_ttl (j.new_jti draws)) pair h in
      let one = j.new_jti draws in
      let two = j.new_jti (suc draws) in
      let open_first : now + second ≤ time_add at ti.access_ttl =
        omega (arith, made.2, first_ends) in
      let open_second : now + second ≤ time_add at ti.refresh_ttl =
        omega (arith, made.3, second_ends) in
      (
        parse_token-sign access access at now ti.access_ttl one pair.access_token (drawn draws)
            started open_first made.0,
        parse_token-sign access refresh at now ti.access_ttl one pair.access_token (drawn draws)
            started open_first made.0,
        parse_token-sign access mfa_pending at now ti.access_ttl one pair.access_token (drawn draws)
            started open_first made.0,
        parse_token-sign refresh refresh at now ti.refresh_ttl two pair.refresh_token
            (drawn (suc draws)) started open_second made.1,
        parse_token-sign refresh access at now ti.refresh_ttl two pair.refresh_token
            (drawn (suc draws)) started open_second made.1,
        parse_token-sign refresh mfa_pending at now ti.refresh_ttl two pair.refresh_token
            (drawn (suc draws)) started open_second made.1,
      )
