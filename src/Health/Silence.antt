-- ===== src/Health/Silence.antt =====
-- Which sources are reported as silent, whatever the registry was told before.
use siem_v.Prelude.{
  ◌≡◌, ◌≢◌, ◌↔◌, refl, sym, ap, subst, ◌∙◌, Bool, true, false, ◌&&◌, Option, none, some, List, [],
  ◌∷◌, Bool-cases, inl, inr, arith, ◌==◌, if◌then◌else◌,
}
use siem_v.Prelude.Text.{Str, str_eq, str_eq→eq}
use siem_v.Prelude.Time.{Time, Duration, ℤ, pos, ltb_ℤ, time_sub}
use siem_v.Prelude.Maps.{Map, lookup, put, lookup-put}
use siem_v.Health.{
  SourceHealth, Registry, new_registry, registered_as, register_source, delivered_to,
  record_delivery, rated_at, record_parse_failure_rate, is_late, judged, evaluate_silence,
  update_stage,
}
use siem_v.Health.Reports.{
  reports, IsTidy, IsTidy-put, IsTidy-lookup, judged_or, evaluate_sources-lookup,
  IsTidy-evaluate_sources, late_at, reports-evaluate_sources,
}
use siem_v.Health.History.{
  Call, register, deliver, fail_rate, stage, check_silence, cadence_of, delivery_of, time_or_zero,
  declared, told, told-declared,
}

module _ {F : Type 0} where
  abbrev looked_up : Option (SourceHealth F) → Option (Duration × Time)
  looked_up none = none
  looked_up (some s) = some (s.expected_cadence, s.last_record_at)

  put-looked_up :
      (id name : Str) (s : SourceHealth F) (m : Map (SourceHealth F))
      → looked_up (lookup name (put id s m))
        ≡ (if str_eq id name then looked_up (some s) else looked_up (lookup name m))
  put-looked_up id name s m = ap looked_up (lookup-put id name s m) ∙ split (str_eq id name)
    where
      split :
          (b : Bool)
          → looked_up (if b then some s else lookup name m)
            ≡ (if b then looked_up (some s) else looked_up (lookup name m))
      split true = refl
      split false = refl

module _ {F : Type 0} (is_positive is_zero : F → Bool) (zero_rate : F) where
  unfoldable pub call : Call F → Registry F → Registry F
  call (register id provider cadence) r = register_source zero_rate id provider cadence r
  call (deliver id count at) r = record_delivery id count at r
  call (fail_rate id rate) r = record_parse_failure_rate id rate r
  call (stage id input output backlog latency) r =
      update_stage is_positive is_zero id input output backlog latency r
  call (check_silence now) r = (evaluate_silence now r).1

  -- The registry after the calls, of which the newest comes first.
  unfoldable pub after : List (Call F) → Registry F
  after [] = new_registry
  after (c ∷ earlier) = call c (after earlier)

  registered_as-source_id :
      (id provider : Str) (cadence : Duration) (m : Map (SourceHealth F))
      → IsTidy m
      → (registered_as zero_rate id provider cadence (lookup id m)).source_id ≡ id
  registered_as-source_id id provider cadence m h = go (lookup id m) refl
    where
      go :
          (o : Option (SourceHealth F))
          → lookup id m ≡ o
          → (registered_as zero_rate id provider cadence o).source_id ≡ id
      go none q = unfold registered_as in refl
      go (some s) q = unfold registered_as in (IsTidy-lookup id m s h q)

  IsTidy-delivered_to :
      (id : Str) (count : ℤ) (at : Time) (o : Option (SourceHealth F)) (r : Registry F)
      → lookup id r.sources ≡ o
      → IsTidy r.sources
      → IsTidy (delivered_to id count at o r).sources
  unfolding delivered_to
  IsTidy-delivered_to id count at none r q h = h
  IsTidy-delivered_to id count at (some s) r q h = elim (Bool-cases (ltb_ℤ (pos 0) count)) [
    | inl any ↦ rw any (IsTidy-put id _ r.sources (IsTidy-lookup id r.sources s h q) h)
    | inr empty ↦ rw empty h
  ]

  IsTidy-rated_at :
      (id : Str) (rate : F) (o : Option (SourceHealth F)) (r : Registry F)
      → lookup id r.sources ≡ o
      → IsTidy r.sources
      → IsTidy (rated_at id rate o r).sources
  unfolding rated_at
  IsTidy-rated_at id rate none r q h = h
  IsTidy-rated_at id rate (some s) r q h =
      IsTidy-put id _ r.sources (IsTidy-lookup id r.sources s h q) h

  IsTidy-call : (c : Call F) (r : Registry F) → IsTidy r.sources → IsTidy (call c r).sources
  unfolding call register_source record_delivery record_parse_failure_rate update_stage
      evaluate_silence
  IsTidy-call (register id provider cadence) r h =
      IsTidy-put id _ r.sources (registered_as-source_id id provider cadence r.sources h) h
  IsTidy-call (deliver id count at) r h =
      IsTidy-delivered_to id count at (lookup id r.sources) r refl h
  IsTidy-call (fail_rate id rate) r h = IsTidy-rated_at id rate (lookup id r.sources) r refl h
  IsTidy-call (stage id input output backlog latency) r h = h
  IsTidy-call (check_silence now) r h = IsTidy-evaluate_sources now r.sources h

  IsTidy-after : (calls : List (Call F)) → IsTidy (after calls).sources
  unfolding after new_registry
  IsTidy-after [] = tt
  IsTidy-after (c ∷ earlier) = IsTidy-call c (after earlier) (IsTidy-after earlier)

  call-looked_up :
      (name : Str) (c : Call F) (r : Registry F)
      → looked_up (lookup name (call c r).sources) ≡ told name c (looked_up (lookup name r.sources))
  unfolding call
  call-looked_up name (register id provider cadence) r =
      unfold register_source in
      (put-looked_up id name _ r.sources
        ∙ ap (λ o. if str_eq id name then o else looked_up (lookup name r.sources))
            (fresh (lookup id r.sources))
        ∙ same)
    where
      fresh :
          (o : Option (SourceHealth F))
          → looked_up (some (registered_as zero_rate id provider cadence o))
            ≡ some (cadence, time_or_zero (looked_up o))
      fresh none = unfold registered_as in refl
      fresh (some s) = unfold registered_as in refl

      same :
          (if str_eq id name
            then some (cadence, time_or_zero (looked_up (lookup id r.sources)))
            else looked_up (lookup name r.sources))
          ≡ (if str_eq id name
              then some (cadence, time_or_zero (looked_up (lookup name r.sources)))
              else looked_up (lookup name r.sources))
      same = elim (Bool-cases (str_eq id name)) [
        | inl own ↦ rw own (
            ap (λ k. some (cadence, time_or_zero (looked_up (lookup k r.sources))))
              (str_eq→eq id name own))
        | inr differ ↦ rw differ refl
      ]
  call-looked_up name (deliver id count at) r =
      unfold record_delivery in (go (lookup id r.sources) refl)
    where
      here : str_eq id name ≡ true → lookup id r.sources ≡ lookup name r.sources
      here own = ap (λ k. lookup k r.sources) (str_eq→eq id name own)

      go :
          (o : Option (SourceHealth F))
          → lookup id r.sources ≡ o
          → looked_up (lookup name (delivered_to id count at o r).sources)
            ≡ told {F = F} name (deliver id count at) (looked_up (lookup name r.sources))
      go none q =
          unfold delivered_to in
          (elim (Bool-cases (str_eq id name)) [
            | inl own ↦ rw (own, sym (here own) ∙ q) (ground arith)
            | inr differ ↦ rw differ refl
          ])
      go (some s) q =
          unfold delivered_to in
          (elim (Bool-cases (ltb_ℤ (pos 0) count)) [
            | inl any ↦ elim (Bool-cases (str_eq id name)) [
              | inl own ↦ rw (any, put-looked_up, own, sym (here own) ∙ q) refl
              | inr differ ↦ rw (any, put-looked_up, differ) refl
            ]
            | inr empty ↦ elim (Bool-cases (str_eq id name)) [
              | inl own ↦ rw (empty, own) refl
              | inr differ ↦ rw (empty, differ) refl
            ]
          ])
  call-looked_up name (fail_rate id rate) r =
      unfold record_parse_failure_rate in (go (lookup id r.sources) refl)
    where
      go :
          (o : Option (SourceHealth F))
          → lookup id r.sources ≡ o
          → looked_up (lookup name (rated_at id rate o r).sources)
            ≡ looked_up (lookup name r.sources)
      go none q = unfold rated_at in refl
      go (some s) q =
          unfold rated_at in
          (elim (Bool-cases (str_eq id name)) [
            | inl own ↦
                rw (put-looked_up, own)
                  (ap looked_up (sym q ∙ ap (λ k. lookup k r.sources) (str_eq→eq id name own)))
            | inr differ ↦ rw (put-looked_up, differ) refl
          ])
  call-looked_up name (stage id input output backlog latency) r = unfold update_stage in refl
  call-looked_up name (check_silence now) r =
      unfold evaluate_silence in
      (ap looked_up (evaluate_sources-lookup now name r.sources) ∙ go (lookup name r.sources))
    where
      go : (o : Option (SourceHealth F)) → looked_up (judged_or now o) ≡ looked_up o
      go none = refl
      go (some s) = unfold judged in refl

  after-looked_up :
      (name : Str) (calls : List (Call F))
      → looked_up (lookup name (after calls).sources)
        ≡ declared (cadence_of name calls) (delivery_of name calls)
  unfolding after new_registry lookup
  after-looked_up name [] = refl
  after-looked_up name (c ∷ earlier) =
      call-looked_up name c (after earlier)
      ∙ ap (told name c) (after-looked_up name earlier)
      ∙ told-declared name c earlier

  -- The source is known with a positive cadence, has delivered, and its last delivery is further
  -- back than the cadence.
  abbrev pub IsSilent : Str → Time → List (Call F) → Type 0
  IsSilent name now calls =
      (c : Duration) × (cadence_of name calls ≡ some c)
      × (delivery_of name calls ≢ 0)
      × (ltb_ℤ (pos 0) c ≡ true)
      × (ltb_ℤ c (time_sub now (delivery_of name calls)) ≡ true)

  tests_iff :
      (t : Time) (p q : Bool)
      → ((if t == 0 then false else p && q) ≡ true) ↔ ((t ≢ 0) × (p ≡ true) × (q ≡ true))
  tests_iff t p q = (λ h. (λ e. ground arith, ground arith, ground arith), λ h. ground (arith, h.0))

  late_at_iff :
      (now : Time) (o : Option (SourceHealth F)) (d : Option Duration) (t : Time)
      → looked_up o ≡ declared d t
      → (late_at now o ≡ true) ↔ (
          (c : Duration) × (d ≡ some c)
          × (t ≢ 0)
          × (ltb_ℤ (pos 0) c ≡ true)
          × (ltb_ℤ c (time_sub now t) ≡ true))
  unfolding is_late
  late_at_iff now none none t q = (λ h. absurd (ground arith), λ h. absurd (ground (arith, h.1)))
  late_at_iff now none (some c) t q = absurd (ground arith)
  late_at_iff now (some s) none t q = absurd (ground arith)
  late_at_iff now (some s) (some c) t q =
      let cadence : s.expected_cadence ≡ c = ground arith in
      let last : s.last_record_at ≡ t = ground arith in
      let late : is_late now s
          ≡ (if t == 0 then false else ltb_ℤ (pos 0) c && ltb_ℤ c (time_sub now t)) =
        ap
          (λ d.
            if s.last_record_at == 0
            then false
            else ltb_ℤ (pos 0) d && ltb_ℤ d (time_sub now s.last_record_at))
          cadence
        ∙ ap (λ u. if u == 0 then false else ltb_ℤ (pos 0) c && ltb_ℤ c (time_sub now u)) last in
      let tests = tests_iff t (ltb_ℤ (pos 0) c) (ltb_ℤ c (time_sub now t)) in
      (
        λ h. let facts = tests.0 (sym late ∙ h) in (c, refl, facts.0, facts.1, facts.2),
        λ h.
            let own : h.0 ≡ c = ground (arith, h.1) in
            late
            ∙ tests.1 (
              h.2,
              subst (λ d. ltb_ℤ (pos 0) d ≡ true) own h.3,
              subst (λ d. ltb_ℤ d (time_sub now t) ≡ true) own h.4,
            ),
      )

  -- Whatever calls the registry has seen, a check for silence reports a source exactly if it is
  -- registered with a positive cadence, has delivered records since, and the last delivery lies
  -- further back than the cadence that was declared last.
  pub evaluate_silence-reports_iff :
      (calls : List (Call F)) (name : Str) (now : Time)
      → (reports name (evaluate_silence now (after calls)).0 ≡ true) ↔ IsSilent name now calls
  unfolding evaluate_silence
  evaluate_silence-reports_iff calls name now =
      let found = reports-evaluate_sources now name (after calls).sources (IsTidy-after calls) in
      let holds =
        late_at_iff now (lookup name (after calls).sources) _ _ (after-looked_up name calls) in
      (λ h. holds.0 (sym found ∙ h), λ h. found ∙ holds.1 h)
