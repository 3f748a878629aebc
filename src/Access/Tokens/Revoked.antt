-- ===== src/Access/Tokens/Revoked.antt =====
-- A revoked token stays revoked. The server keeps whole seconds of the time to live.
use siem_v.Prelude.{
  ℕ, ◌+◌, ◌-◌, ◌≤◌, ◌<◌, ◌≡◌, refl, sym, ap, subst, Bool, true, false, not, ◌||◌, Option, none,
  some, Bool-cases, ◌⊎◌, inl, inr, arith, ltb,
}
use siem_v.Prelude.Text.{Str, Str-cases}
use siem_v.Prelude.Time.{Time, time_sub, second}
use siem_v.Prelude.Results.{Result, ok, err}
use siem_v.Access.Tokens.{
  Claims, TokenError, token_expired, token_revoked, Parsed, accepted, Jwt, Valkey, revocation_key,
  is_positive, record_revocation, is_found, is_revoked, TokenIssuer, refresh, check_claims,
  parse_token, refuse_revoked, check_revoked, parse_refresh, revoked_or, revoke_parsed, revoke,
}
use siem_v.Access.Tokens.Marks.{
  IsStrict, IsMarked, IsKeeping, ttl-pos, IsSpent, record_revocation-IsSpent,
  record_revocation-keeps,
}

module _ {S : Type 0} (j : Jwt) (ti : TokenIssuer) (v : Valkey S)
    (strict : IsStrict j ti.signing_key) (keeping : IsKeeping v) where
  pub parse_token-accepted :
      (t : Time) (token : Str) (c : Claims)
      → parse_token j ti refresh t token ≡ ok c
      → j.parse ti.signing_key t token ≡ accepted c
  unfolding parse_token
  parse_token-accepted t token c h = go (j.parse ti.signing_key t token) h
    where
      go : (p : Parsed) → check_claims j ti refresh p ≡ ok c → p ≡ accepted c
      go Parsed.expired h = unfold check_claims in cc
      go Parsed.rejected h = unfold check_claims in cc
      go (accepted d) h = unfold check_claims in (ground arith)

  -- What a revocation writes, if it writes.
  record IsWritten (s s' : S) (now : Time) (token : Str) : Type 0 where
    claims : Claims
    parsed : j.parse ti.signing_key now token ≡ accepted claims
    written : record_revocation v s now claims.id (time_sub claims.expires_at now) ≡ some s'

  revoked_or-some : (o : Option S) (s' : S) → revoked_or j ti v o ≡ ok s' → o ≡ some s'
  unfolding revoked_or
  revoked_or-some none s' h = cc
  revoked_or-some (some s) s' h = ground arith

  revoke-IsWritten :
      (s s' : S) (now : Time) (token : Str)
      → revoke j ti v s now token ≡ ok s'
      → (s ≡ s') ⊎ IsWritten s s' now token
  unfolding revoke
  revoke-IsWritten s s' now token h = go (parse_token j ti refresh now token) refl h
    where
      go :
          (o : Result TokenError Claims)
          → parse_token j ti refresh now token ≡ o
          → revoke_parsed j ti v s now o ≡ ok s'
          → (s ≡ s') ⊎ IsWritten s s' now token
      go (err TokenError.invalid_token) q h = unfold revoke_parsed in cc
      go (err token_expired) q h = unfold revoke_parsed in (inl (ground arith))
      go (err token_revoked) q h = unfold revoke_parsed in cc
      go (err TokenError.revocation_failed) q h = unfold revoke_parsed in cc
      go (err TokenError.signing_failed) q h = unfold revoke_parsed in cc
      go (ok c) q h =
          unfold revoke_parsed in
          (elim (Bool-cases
            (not ti.has_revocation || not (is_positive (time_sub c.expires_at now)))) [
              | inl skipped ↦ inl (ground arith)
              | inr writes ↦ inr (record {
                claims = c;
                parsed = parse_token-accepted now token c q;
                written =
                    revoked_or-some (record_revocation v s now c.id (time_sub c.expires_at now)) s'
                      (ground arith);
              })
            ])

  -- A spent token stays spent, whatever is revoked after it.
  pub revoke-keeps :
      (s s' : S) (now t : Time) (token spent : Str) (c : Claims)
      → j.parse ti.signing_key t spent ≡ accepted c
      → IsSpent v keeping s c
      → revoke j ti v s now token ≡ ok s'
      → IsSpent v keeping s' c
  revoke-keeps s s' now t token spent c q m h = elim (revoke-IsWritten s s' now token h) [
    | inl same ↦ subst (λ x. IsSpent v keeping x c) same m
    | inr w ↦
        let times = strict.current now token w.claims w.parsed in
        elim (Str-cases w.claims.id c.id) [
          | inl same ↦
              let own =
                record_revocation-IsSpent v keeping s s' now w.claims times.0 times.1 w.written in
              subst (λ e. IsMarked v s' (revocation_key c.id) (e - second))
                (strict.unique now t token spent w.claims c w.parsed q same)
                (subst (λ i. IsMarked v s' (revocation_key i) (w.claims.expires_at - second)) same
                  own)
          | inr differ ↦
              record_revocation-keeps v keeping s s' now w.claims.id _ c differ w.written m
        ]
  ]

  -- What a refresh token has to be for `ParseRefresh` to give its claims.
  pub parse_refresh-ok :
      (s : S) (now : Time) (token : Str) (c : Claims)
      → parse_refresh j ti v s now token ≡ ok c
      → (parse_token j ti refresh now token ≡ ok c)
        × ((ti.has_revocation ≡ true) → is_revoked v s now c.id ≡ some false)
  unfolding parse_refresh
  parse_refresh-ok s now token c h = go (parse_token j ti refresh now token) h
    where
      unrevoked :
          (d : Claims) (o : Option Bool)
          → refuse_revoked j ti v d o ≡ ok c
          → (d ≡ c) × (o ≡ some false)
      unrevoked d none h = unfold refuse_revoked in cc
      unrevoked d (some true) h = unfold refuse_revoked in cc
      unrevoked d (some false) h = unfold refuse_revoked in (ground arith, refl)

      go :
          (o : Result TokenError Claims)
          → check_revoked j ti v s now o ≡ ok c
          → (o ≡ ok c) × ((ti.has_revocation ≡ true) → is_revoked v s now c.id ≡ some false)
      go (err e) h = unfold check_revoked in cc
      go (ok d) h =
          unfold check_revoked in
          (elim (Bool-cases ti.has_revocation) [
            | inl checks ↦
                let both = unrevoked d (is_revoked v s now d.id) (ground arith) in
                (ap ok both.0, λ k. subst (λ e. is_revoked v s now e.id ≡ some false) both.0 both.1)
            | inr open_ ↦ (ground arith, λ k. ground arith)
          ])

  -- Revoking a token that is accepted spends it.
  pub revoke-IsSpent :
      (s s' : S) (now : Time) (token : Str) (c : Claims)
      → ti.has_revocation ≡ true
      → parse_refresh j ti v s now token ≡ ok c
      → revoke j ti v s now token ≡ ok s'
      → IsSpent v keeping s' c
  unfolding revoke revoke_parsed
  revoke-IsSpent s s' now token c on p h =
      let parsed = (parse_refresh-ok s now token c p).0 in
      let times = strict.current now token c (parse_token-accepted now token c parsed) in
      let positive : is_positive (time_sub c.expires_at now) ≡ true =
        rw (ttl-pos now c.expires_at times.0 times.1) (ground arith) in
      let written = subst (λ o. revoke_parsed j ti v s now o ≡ ok s') parsed h in
      record_revocation-IsSpent v keeping s s' now c times.0 times.1 (
        revoked_or-some (record_revocation v s now c.id (time_sub c.expires_at now)) s'
          (ground arith))

  -- A spent token is refused, but for the second before it expires.
  pub spent-late :
      (s : S) (t u : Time) (token : Str) (c d : Claims)
      → ti.has_revocation ≡ true
      → j.parse ti.signing_key t token ≡ accepted c
      → IsSpent v keeping s c
      → parse_refresh j ti v s u token ≡ ok d
      → (c.expires_at ≤ u + second) × (u < c.expires_at)
  unfolding is_revoked
  spent-late s t u token c d on q m h =
      let ok_ = parse_refresh-ok s u token d h in
      let parsed = parse_token-accepted u token d ok_.0 in
      let same = strict.one t u token c d q parsed in
      let clear =
        subst (λ e. is_found v (v.exists s u (revocation_key e.id)) ≡ some false) (sym same)
          (ok_.1 on) in
      let current = subst (λ e. u < e.expires_at) (sym same) (strict.current u token d parsed).0 in
      (go (v.exists s u (revocation_key c.id)) refl clear, current)
    where
      go :
          (o : Option ℕ)
          → v.exists s u (revocation_key c.id) ≡ o
          → is_found v o ≡ some false
          → c.expires_at ≤ u + second
      go none e f = unfold is_found in cc
      go (some n) e f =
          unfold is_found in
          (let zero_ : n ≡ 0 = ground arith in
            elim (Bool-cases (ltb u (c.expires_at - second))) [
              | inl early ↦ let found = m.found u n (ground arith) e in absurd (omega arith)
              | inr late ↦ ground arith
            ])
