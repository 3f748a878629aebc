-- ===== src/Access/Sessions/Rotated.antt =====
-- A refresh token that has been exchanged is refused from then on.
use siem_v.Prelude.{
  ◌+◌, ◌≤◌, ◌<◌, ◌≡◌, refl, sym, subst, true, Option, none, some, List, [], ◌∷◌, Bool-cases, inl,
  inr, arith,
}
use siem_v.Prelude.Text.{Str, str_eq}
use siem_v.Prelude.Time.{Time, second}
use siem_v.Prelude.Results.{Result, ok, err}
use siem_v.Access.Tokens.{Claims, TokenError, Jwt, Valkey, accepted, parse_refresh, revoke}
use siem_v.Access.Tokens.Marks.{IsStrict, IsKeeping, IsSpent}
use siem_v.Access.Tokens.Revoked.{
  parse_token-accepted, parse_refresh-ok, revoke-keeps, revoke-IsSpent, spent-late,
}
use siem_v.Access.Sessions.{AuthRecord, Backend, AuthService, World, Profile, active}
use siem_v.Access.Sessions.Handlers.{
  Request, login_request, mfa_request, refresh_request, logout_request, rotated, refresh_as,
  refresh_claims, refresh_session, logout_claims, revoked_or_same, logout_token, logout, handle,
}
use siem_v.Access.Sessions.Frame.{
  complete_login-valkey, login-valkey, verify_mfa-valkey, logout_claims-valkey,
}
use siem_v.Access.Sessions.Owners.{session_profile}
use siem_v.Access.Sessions.Proven.{refresh_session-IsRefresh}

module _ {S R L : Type 0} (j : Jwt) (v : Valkey S) (b : Backend R L) (s : AuthService) where
  -- The requests in the order in which they are served, each with the time of its clock.
  unfoldable pub serve : List (Request × Time) → World S R L → World S R L
  serve [] w = w
  serve ((request, now) ∷ rest) w = serve rest (handle j v b s now request w).1

  module _ (strict : IsStrict j s.tokens.signing_key) (keeping : IsKeeping v) (t : Time)
      (token : Str) (c : Claims) (parsed : j.parse s.tokens.signing_key t token ≡ accepted c) where
    abbrev Spent : S → Type 0
    Spent valkey = IsSpent v keeping valkey c

    revoke-Spent :
        (now : Time) (other : Str) (old new : S)
        → Spent old
        → revoke j s.tokens v old now other ≡ ok new
        → Spent new
    revoke-Spent now other old new m h =
        revoke-keeps j s.tokens v strict keeping old new now t other token c parsed m h

    module _ (now : Time) where
      refresh-Spent :
          (other : Str) (w : World S R L)
          → Spent w.valkey
          → Spent (refresh_session j v b s now (some other) w).1.valkey
      unfolding refresh_session
      refresh-Spent other w m = elim (Bool-cases (str_eq other [])) [
        | inl empty ↦ rw empty m
        | inr given ↦ rw given (claims (parse_refresh j s.tokens v w.valkey now other))
      ]
        where
          renewed :
              (r : AuthRecord) (o : Result TokenError S)
              → revoke j s.tokens v w.valkey now other ≡ o
              → Spent (rotated j v b s now r o w).1.valkey
          renewed r (err e) q = unfold rotated in m
          renewed r (ok valkey) q =
              unfold rotated in
              (subst Spent
                (sym (complete_login-valkey j v b s now r (record w { valkey = valkey })))
                (revoke-Spent now other w.valkey valkey m q))

          person : (o : Option AuthRecord) → Spent (refresh_as j v b s now other o w).1.valkey
          person none = unfold refresh_as in m
          person (some r) =
              unfold refresh_as in (renewed r (revoke j s.tokens v w.valkey now other) refl)

          claims :
              (o : Result TokenError Claims) → Spent (refresh_claims j v b s now other o w).1.valkey
          claims (err e) = unfold refresh_claims in m
          claims (ok d) = unfold refresh_claims in (person (active (b.by_id w.users d.subject)))

      logout-Spent :
          (other : Str) (w : World S R L)
          → Spent w.valkey
          → Spent (logout_token j v b s now other w).valkey
      unfolding logout_token
      logout-Spent other w m = elim (Bool-cases (str_eq other [])) [
        | inl empty ↦ rw empty m
        | inr given ↦ rw given (go (revoke j s.tokens v w.valkey now other) refl)
      ]
        where
          go :
              (o : Result TokenError S)
              → revoke j s.tokens v w.valkey now other ≡ o
              → Spent
                  (revoked_or_same j v b s now o (
                    logout_claims j v b s now
                      (parse_refresh j s.tokens v w.valkey now other)
                      w)).valkey
          go (err e) q =
              unfold revoked_or_same in (subst Spent (sym (logout_claims-valkey j v b s now _ w)) m)
          go (ok valkey) q = unfold revoked_or_same in (revoke-Spent now other w.valkey valkey m q)

      handle-Spent :
          (request : Request) (w : World S R L)
          → Spent w.valkey
          → Spent (handle j v b s now request w).1.valkey
      unfolding handle logout refresh_session
      handle-Spent (login_request body) w m = subst Spent (sym (login-valkey j v b s now body w)) m
      handle-Spent (mfa_request body) w m =
          subst Spent (sym (verify_mfa-valkey j v b s now body w)) m
      handle-Spent (refresh_request none) w m = m
      handle-Spent (refresh_request (some other)) w m = refresh-Spent other w m
      handle-Spent (logout_request none) w m = m
      handle-Spent (logout_request (some other)) w m = logout-Spent other w m

    serve-Spent :
        (requests : List (Request × Time)) (w : World S R L)
        → Spent w.valkey
        → Spent (serve requests w).valkey
    unfolding serve
    serve-Spent [] w m = m
    serve-Spent ((request, now) ∷ rest) w m =
        serve-Spent rest (handle j v b s now request w).1 (handle-Spent now request w m)

    -- The exchange itself spends the token.
    module _ (checks : s.tokens.has_revocation ≡ true) where
      exchange-Spent :
          (w : World S R L) (p : Profile)
          → session_profile (refresh_session j v b s t (some token) w).0 ≡ some p
          → Spent (refresh_session j v b s t (some token) w).1.valkey
      unfolding refresh_session session_profile
      exchange-Spent w p h = elim (Bool-cases (str_eq token [])) [
        | inl empty ↦ absurd (ground arith)
        | inr given ↦
            rw given (claims (parse_refresh j s.tokens v w.valkey t token) refl (ground arith))
      ]
        where
          renewed :
              (r : AuthRecord) (d : Claims) (o : Result TokenError S)
              → parse_refresh j s.tokens v w.valkey t token ≡ ok d
              → revoke j s.tokens v w.valkey t token ≡ o
              → session_profile (rotated j v b s t r o w).0 ≡ some p
              → Spent (rotated j v b s t r o w).1.valkey
          renewed r d (err e) a q h = unfold rotated session_profile in cc
          renewed r d (ok valkey) a q h =
              unfold rotated in
              (let own =
                  parse_token-accepted j s.tokens v strict keeping t token d
                    (parse_refresh-ok j s.tokens v strict keeping w.valkey t token d a).0 in
                let same = strict.one t t token d c own parsed in
                let spent = subst (IsSpent v keeping valkey) same (
                  revoke-IsSpent j s.tokens v strict keeping w.valkey valkey t token d checks a
                    q) in
                subst Spent (sym (complete_login-valkey j v b s t r (record w { valkey = valkey })))
                  spent)

          person :
              (d : Claims) (o : Option AuthRecord)
              → parse_refresh j s.tokens v w.valkey t token ≡ ok d
              → session_profile (refresh_as j v b s t token o w).0 ≡ some p
              → Spent (refresh_as j v b s t token o w).1.valkey
          person d none a h = unfold refresh_as session_profile in cc
          person d (some r) a h =
              unfold refresh_as in (renewed r d (revoke j s.tokens v w.valkey t token) a refl h)

          claims :
              (o : Result TokenError Claims)
              → parse_refresh j s.tokens v w.valkey t token ≡ o
              → session_profile (refresh_claims j v b s t token o w).0 ≡ some p
              → Spent (refresh_claims j v b s t token o w).1.valkey
          claims (err e) a h = unfold refresh_claims session_profile in cc
          claims (ok d) a h =
              unfold refresh_claims in (person d (active (b.by_id w.users d.subject)) a h)

      -- Once a refresh token has been exchanged for a session, and whatever requests are served
      -- after that, it starts no other, except within the second before it expires. The issuer has
      -- a store of revocations; the library and the server keep their promises.
      pub refresh-IsRotated :
          (w : World S R L) (p q : Profile) (requests : List (Request × Time)) (u : Time)
          → session_profile (handle j v b s t (refresh_request (some token)) w).0 ≡ some p
          → session_profile
              (handle j v b s u
                (refresh_request (some token))
                (serve requests (handle j v b s t (refresh_request (some token)) w).1)).0
            ≡ some q
          → (c.expires_at ≤ u + second) × (u < c.expires_at)
      unfolding handle
      refresh-IsRotated w p q requests u h k =
          let after = serve requests (refresh_session j v b s t (some token) w).1 in
          let spent =
            serve-Spent requests (refresh_session j v b s t (some token) w).1
              (exchange-Spent w p h) in
          let again = refresh_session-IsRefresh j v b s u token after k in
          spent-late j s.tokens v strict keeping after.valkey t u token c again.0 checks parsed
            spent again.3
