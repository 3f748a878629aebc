-- ===== src/Tests/Tokens.antt =====
-- The theorems on tokens, limits and feeds, applied to samples.
use siem_v.Prelude.{
  ℕ, zero, suc, true, subst, arith, ◌+◌, ◌*◌, ◌≤◌, ◌≡◌, ◌↔◌, refl, ap, none, some, List, [], ◌∷◌,
  ◌++◌, ltb, leb, length, ◌/◌, ◌%◌, ◌∙◌, ◌&&◌, if◌then◌else◌,
}
use siem_v.Prelude.Text.{Str, str, str_eq, str_eq_refl}
use siem_v.Prelude.Time.{Time, Duration, pos, minute, second}
use siem_v.Prelude.Results.{ok, err}
use siem_v.Access.Tokens.{
  Purpose, Claims, Parsed, accepted, Jwt, TokenIssuer, Identity, TokenPair, parse_token, issue_pair,
  claims_of, issuer_name, access, refresh, mfa_pending, invalid_token, issue_refresh, pair_of, sign,
}
use siem_v.Alerting.{time_add}
use siem_v.Access.Tokens.Purposes.{ReadsBack, IsAsciiIdentity, issue_pair-IsSeparate}
use siem_v.Access.Sessions.{take}
use siem_v.Access.Limiter.{RateLimiter, allow, new_rate_limiter, recent}
use siem_v.Access.Limiter.Limited.{Attempt, after, allowed, allow_limited}
use siem_v.Access.Feeds.{Feed, Verdict, encode, drop, new_store, refresh_store, check}
use siem_v.Access.Feeds.Checked.{IsPart, IsMatch, latest, check-allowed_iff}

-- A library whose tokens are their claims: each field behind its length.
abbrev pack : List Str → Str
pack [] = []
pack (s ∷ rest) = length s ∷ s ++ pack rest

abbrev unpack : ℕ → Str → List Str
unpack zero text = []
unpack (suc n) [] = []
unpack (suc n) (k ∷ text) = take k text ∷ unpack n (drop k text)

take-length : (s text : Str) → take (length s) (s ++ text) ≡ s
unfolding take
take-length [] text = refl
take-length (c ∷ s) text = ap (λ t. c ∷ t) (take-length s text)

drop-length : (s text : Str) → drop (length s) (s ++ text) ≡ text
unfolding drop
drop-length [] text = refl
drop-length (c ∷ s) text = drop-length s text

unpack-pack : (fields : List Str) → unpack (length fields) (pack fields) ≡ fields
unpack-pack [] = refl
unpack-pack (s ∷ rest) =
    rw (take-length s (pack rest), drop-length s (pack rest), unpack-pack rest) refl

abbrev fields_of : Claims → List Str
fields_of c =
    c.subject
    ∷ c.id
    ∷ (c.issued_at ∷ [])
    ∷ (c.not_before ∷ [])
    ∷ (c.expires_at ∷ [])
    ∷ c.issuer
    ∷ c.tenant_id
    ∷ c.role
    ∷ c.email
    ∷ c.purpose
    ∷ []

abbrev first_number : Str → ℕ
first_number [] = 0
first_number (n ∷ rest) = n

abbrev checked_claims : Str → Time → Str → Claims → Parsed
checked_claims key now own_key c =
    if str_eq own_key key && str_eq c.issuer issuer_name && leb c.not_before now
    then if ltb now c.expires_at then accepted c else Parsed.expired
    else Parsed.rejected

abbrev read_fields : Str → Time → List Str → Parsed
read_fields key now (own_key ∷ a ∷ b ∷ c ∷ d ∷ e ∷ f ∷ g ∷ h ∷ i ∷ k ∷ []) =
    checked_claims key now own_key (record {
      subject = a;
      id = b;
      issued_at = first_number c;
      not_before = first_number d;
      expires_at = first_number e;
      issuer = f;
      tenant_id = g;
      role = h;
      email = i;
      purpose = k;
    })
read_fields key now _ = Parsed.rejected

abbrev packed_jwt : Jwt
packed_jwt = record {
  sign = λ key c. some (pack (key ∷ fields_of c));
  parse = λ key now token. read_fields key now (unpack 11 token);
  numeric_date = λ t. t / second * second;
  new_jti = λ n. n % 64 ∷ [];
}

abbrev sample_key : Str
sample_key = str "an example of a signing key, of 32"

packed-ReadsBack : (key : Str) → ReadsBack packed_jwt key
packed-ReadsBack key c token now h signable issued from until =
    let text : pack (key ∷ fields_of c) ≡ token = ground arith in
    let issuer = subst (λ i. str_eq c.issuer i ≡ true) issued (str_eq_refl c.issuer) in
    let passes : checked_claims key now key c ≡ accepted c =
      ground (arith, str_eq_refl key, issuer, from, until) in
    subst (λ t. read_fields key now (unpack 11 t) ≡ accepted c) text
      (ap (read_fields key now) (unpack-pack (key ∷ fields_of c)) ∙ passes)

abbrev sample_issuer : TokenIssuer
sample_issuer = record {
  signing_key = sample_key;
  access_ttl = pos minute;
  refresh_ttl = pos (10 * minute);
  has_revocation = true;
}

abbrev sample_identity : Identity
sample_identity = record {
  principal_id = str "u1";
  email = str "ann@example";
  tenant_id = str "t1";
  role = str "admin";
}

abbrev sample_claims_of : Purpose → Duration → ℕ → Claims
sample_claims_of purpose ttl draw =
    claims_of packed_jwt sample_issuer sample_identity purpose (30 * second) ttl (draw ∷ [])

abbrev sample_pair : TokenPair
sample_pair = record {
  access_token = pack (sample_key ∷ fields_of (sample_claims_of access (pos minute) 3));
  refresh_token = pack (sample_key ∷ fields_of (sample_claims_of refresh (pos (10 * minute)) 4));
  expires_at = 30 * second + minute;
  refresh_expires_at = 30 * second + 10 * minute;
}

sample_issued :
    (issue_pair packed_jwt sample_issuer sample_identity (30 * second) 3).0 ≡ some sample_pair
unfolding issue_pair issue_refresh pair_of sign claims_of time_add
sample_issued = refl

sample_ascii : IsAsciiIdentity sample_identity
sample_ascii = record { principal = refl; email = refl; tenant = refl; role = refl }

issue_pair-IsSeparate_example :
    (parse_token packed_jwt sample_issuer access (60 * second) sample_pair.access_token
      ≡ ok (sample_claims_of access (pos minute) 3))
    × (parse_token packed_jwt sample_issuer refresh (60 * second) sample_pair.access_token
        ≡ err invalid_token)
    × (parse_token packed_jwt sample_issuer mfa_pending (60 * second) sample_pair.access_token
        ≡ err invalid_token)
    × (parse_token packed_jwt sample_issuer refresh (60 * second) sample_pair.refresh_token
        ≡ ok (sample_claims_of refresh (pos (10 * minute)) 4))
    × (parse_token packed_jwt sample_issuer access (60 * second) sample_pair.refresh_token
        ≡ err invalid_token)
    × (parse_token packed_jwt sample_issuer mfa_pending (60 * second) sample_pair.refresh_token
        ≡ err invalid_token)
unfolding str_eq
issue_pair-IsSeparate_example =
    issue_pair-IsSeparate packed_jwt sample_issuer (packed-ReadsBack sample_key) (λ t. refl)
      (λ n. ground arith) sample_identity sample_ascii refl refl (30 * second) (60 * second) 3
      sample_pair sample_issued (omega arith) (omega arith) (omega arith)

abbrev sample_attempts : List Attempt
sample_attempts = (str "login:ann", 1) ∷ (str "login:ann", 2) ∷ []

abbrev sample_limiter : RateLimiter
sample_limiter = new_rate_limiter (pos 2) (pos 10)

allow_limited_example :
    ((allow (after sample_attempts sample_limiter) (str "login:ann") 5).0
      ≡ ltb
          (length (
            recent sample_limiter.window 5
              (allowed (str "login:ann") sample_attempts sample_limiter [])))
          sample_limiter.limit)
    × (length (
          recent sample_limiter.window 5
            (allowed (str "login:ann") sample_attempts sample_limiter []))
        ≤ sample_limiter.limit)
allow_limited_example =
    allow_limited (pos 2) (pos 10) sample_attempts (str "login:ann") 5
      (omega arith, (omega arith, omega arith))

abbrev sample_feed : Feed
sample_feed = record {
  id = str "f1";
  tenant_id = str "t1";
  provider = str "nginx";
  name = str "edge";
  token_hash = str "#s3cret";
}

abbrev sample_hash : Str → Str
sample_hash s = b'#' ∷ s

check-allowed_iff_example :
    (check sample_hash
        (refresh_store (some (sample_feed ∷ [])) new_store)
        (str "nginx")
        (str "f1")
        (str "f1.s3cret")
      ≡ Verdict.allowed sample_feed)
    ↔ ((secret : Str) × (str "f1.s3cret" ≡ encode (record { feed_id = str "f1"; secret = secret }))
        × IsPart (str "f1")
        × IsPart secret
        × (latest (str "f1") (sample_feed ∷ []) none ≡ some sample_feed)
        × IsMatch sample_hash (str "nginx") secret sample_feed)
check-allowed_iff_example =
    check-allowed_iff sample_hash (sample_feed ∷ []) new_store (str "nginx") (str "f1")
      (str "f1.s3cret") sample_feed
