-- ===== src/Access/Tokens/Marks.antt =====
-- What a revocation writes in the server: backend/internal/data/valkey/revocation.go.
use siem_v.Prelude.{
  ℕ, ◌+◌, ◌-◌, ◌*◌, ◌/◌, ◌≤◌, ◌<◌, ◌≡◌, refl, sym, subst, ◌∙◌, true, false, some, [], if◌then◌else◌,
  Bool-cases, inl, inr, arith,
}
use siem_v.Prelude.Text.{Str, str_eq}
use siem_v.Prelude.Time.{Time, Duration, pos, time_sub, second, hour, max_duration}
use siem_v.Access.Tokens.{
  Claims, accepted, Jwt, Valkey, revocation_key, is_positive, record_revocation,
}

-- What the library promises of the tokens it accepts: they have not expired, and do so within the
-- range of a duration; a token has one set of claims, and an id is that of one expiry.
pub record IsStrict (j : Jwt) (key : Str) : Type 0 where
  pub current :
      (t : Time) (token : Str) (c : Claims)
      → j.parse key t token ≡ accepted c
      → (t < c.expires_at) × (c.expires_at ≤ t + max_duration)
  pub one :
      (t u : Time) (token : Str) (c d : Claims)
      → j.parse key t token ≡ accepted c
      → j.parse key u token ≡ accepted d
      → c ≡ d
  pub unique :
      (t u : Time) (first second : Str) (c d : Claims)
      → j.parse key t first ≡ accepted c
      → j.parse key u second ≡ accepted d
      → c.id ≡ d.id
      → c.expires_at ≡ d.expires_at

-- The key is found, where the server answers, at every time before `until`.
pub record IsMarked {S : Type 0} (v : Valkey S) (s : S) (key : Str) (until : Time) : Type 0 where
  pub found : (t : Time) (n : ℕ) → t < until → v.exists s t key ≡ some n → 0 < n

-- What the server promises: a key that is set is found for the whole seconds of its time to live,
-- and setting one key does not touch another.
pub record IsKeeping {S : Type 0} (v : Valkey S) : Type 0 where
  pub marks :
      (s s' : S) (now : Time) (key : Str) (ttl : ℕ)
      → v.set_ex s now key (pos ttl) ≡ some s'
      → IsMarked v s' key (now + ttl / second * second)
  pub keeps :
      (s s' : S) (now : Time) (key other : Str) (ttl : Duration) (t : Time)
      → v.set_ex s now key ttl ≡ some s'
      → str_eq key other ≡ false
      → v.exists s' t other ≡ v.exists s t other

revocation_key-eq : (a b : Str) → str_eq (revocation_key a) (revocation_key b) ≡ str_eq a b
unfolding revocation_key str_eq
revocation_key-eq a b = refl

pub ttl-pos :
    (now exp : Time) → now < exp → exp ≤ now + max_duration → time_sub exp now ≡ pos (exp - now)
unfolding time_sub
ttl-pos now exp lt le = ground arith

module _ {S : Type 0} (v : Valkey S) (keeping : IsKeeping v) where
  -- The token with these claims is revoked until a second before it expires.
  abbrev pub IsSpent : S → Claims → Type 0
  IsSpent s c = IsMarked v s (revocation_key c.id) (c.expires_at - second)

  IsMarked-mono : {s : S} {key : Str} {a b : Time} → b ≤ a → IsMarked v s key a → IsMarked v s key b
  IsMarked-mono le m = record { found = λ t n h e. m.found t n (omega arith) e }

  record_revocation-set_ex :
      (s s' : S) (now : Time) (id : Str) (ttl : Duration)
      → record_revocation v s now id ttl ≡ some s'
      → v.set_ex s now (revocation_key id) (if is_positive ttl then ttl else pos (7 * (24 * hour)))
        ≡ some s'
  unfolding record_revocation
  record_revocation-set_ex s s' now id ttl h = elim (Bool-cases (str_eq id [])) [
    | inl missing ↦ absurd (ground arith)
    | inr named ↦ ground arith
  ]

  pub record_revocation-IsSpent :
      (s s' : S) (now : Time) (c : Claims)
      → now < c.expires_at
      → c.expires_at ≤ now + max_duration
      → record_revocation v s now c.id (time_sub c.expires_at now) ≡ some s'
      → IsSpent s' c
  record_revocation-IsSpent s s' now c lt le h =
      let ttl = c.expires_at - now in
      let long : is_positive (pos ttl) ≡ true = ground arith in
      let set : v.set_ex s now (revocation_key c.id) (pos ttl) ≡ some s' =
        subst
          (λ b.
            v.set_ex s now (revocation_key c.id) (if b then pos ttl else pos (7 * (24 * hour)))
            ≡ some s')
          long
          (subst
            (λ d.
              v.set_ex s now (revocation_key c.id)
                (if is_positive d then d else pos (7 * (24 * hour)))
              ≡ some s')
            (ttl-pos now c.expires_at lt le)
            (record_revocation-set_ex s s' now c.id (time_sub c.expires_at now) h)) in
      IsMarked-mono (omega arith) (keeping.marks s s' now (revocation_key c.id) ttl set)

  pub record_revocation-keeps :
      (s s' : S) (now : Time) (id : Str) (ttl : Duration) (c : Claims)
      → str_eq id c.id ≡ false
      → record_revocation v s now id ttl ≡ some s'
      → IsSpent s c
      → IsSpent s' c
  record_revocation-keeps s s' now id ttl c d h m =
      let set = record_revocation-set_ex s s' now id ttl h in
      record {
        found = λ t n lt e. m.found t n lt (
            sym (
              keeping.keeps s s' now (revocation_key id) (revocation_key c.id) _ t set
                (revocation_key-eq id c.id ∙ d))
            ∙ e);
      }
