-- ===== src/Recovery/Escalated.antt =====
-- A fault that repairs do not mend is escalated.
use siem_v.Prelude.{
  ℕ, suc, ◌≡◌, refl, sym, ap, subst, ◌∙◌, true, false, Option, none, some, List, [], ◌∷◌,
  Bool-cases, inl, inr, arith, ltb, if◌then◌else◌,
}
use siem_v.Prelude.Text.{Str, str_eq, str_eq_refl, Str-cases}
use siem_v.Prelude.Time.{Time}
use siem_v.Prelude.Maps.{lookup, lookup-put}
use siem_v.Recovery.{
  Recovery, RecoveryOutcome, Healer, new_healer, number_or_zero, is_new_incident, count_attempt,
  limit_of, report_of, try_repair, heal, attempts_of,
}

-- A repair that is asked for, with its cause, at a time.
abbrev pub Ask : Type 0
Ask = Recovery × Str × Time

-- What the asks for the repair of that name come to.
unfoldable pub outcomes : Str → List Ask → Healer → List RecoveryOutcome
outcomes name [] h = []
outcomes name ((r, cause, now) ∷ asks) h =
    let later = outcomes name asks (heal h r cause now).1 in
    if str_eq r.name name then (heal h r cause now).0 ∷ later else later

-- Every ask for the repair of that name has the limit, fails, and comes within the window of the
-- one before.
abbrev pub IsFailing : Str → ℕ → Option Time → List Ask → Type 0
IsFailing name limit last [] = Unit
IsFailing name limit last ((r, cause, now) ∷ asks) =
    (str_eq r.name name ≡ true
      → (limit_of r.max_attempts ≡ limit)
        × ((e : Str) × (r.attempt ≡ some (some e)))
        × (is_new_incident r last now ≡ false))
    × IsFailing name limit (if str_eq r.name name then some now else last) asks

-- The attempts are counted on from `n`, and those beyond the limit, and no others, are escalated.
abbrev pub IsEscalating : ℕ → ℕ → List RecoveryOutcome → Type 0
IsEscalating limit n [] = Unit
IsEscalating limit n (o ∷ rest) =
    (o.attempt ≡ suc n)
    × (o.is_escalated ≡ ltb limit (suc n))
    × (o.is_success ≡ false)
    × IsEscalating limit (suc n) rest

count_attempt-attempts :
    (r : Recovery) (now : Time) (h : Healer) (name : Str)
    → lookup name (count_attempt r now h).attempts ≡ (
        if str_eq r.name name
        then some (
            suc (
              if is_new_incident r (lookup r.name h.last_try) now
              then 0
              else number_or_zero (lookup r.name h.attempts)))
        else lookup name h.attempts)
unfolding count_attempt
count_attempt-attempts r now h name = lookup-put r.name name _ h.attempts

count_attempt-last_try :
    (r : Recovery) (now : Time) (h : Healer) (name : Str)
    → lookup name (count_attempt r now h).last_try
      ≡ (if str_eq r.name name then some now else lookup name h.last_try)
unfolding count_attempt
count_attempt-last_try r now h name = lookup-put r.name name now h.last_try

heal-last_try :
    (h : Healer) (r : Recovery) (cause : Str) (now : Time)
    → (heal h r cause now).1.last_try ≡ (count_attempt r now h).last_try
unfolding heal
heal-last_try h r cause now = ground (arith, tried r.attempt)
  where
    tried :
        (o : Option (Option Str))
        → (try_repair r cause now
            (number_or_zero (lookup r.name (count_attempt r now h).attempts))
            o
            (count_attempt r now h)).1.last_try
          ≡ (count_attempt r now h).last_try
    tried none = unfold try_repair in refl
    tried (some none) = unfold try_repair in refl
    tried (some (some e)) = unfold try_repair in refl

heal-other :
    (h : Healer) (r : Recovery) (cause : Str) (now : Time) (name : Str)
    → str_eq r.name name ≡ false
    → lookup name (heal h r cause now).1.attempts ≡ lookup name h.attempts
unfolding heal
heal-other h r cause now name d = ground (arith, tried r.attempt, same)
  where
    same : lookup name (count_attempt r now h).attempts ≡ lookup name h.attempts
    same = count_attempt-attempts r now h name ∙ rw d refl

    tried :
        (o : Option (Option Str))
        → lookup name
            (try_repair r cause now
              (number_or_zero (lookup r.name (count_attempt r now h).attempts))
              o
              (count_attempt r now h)).1.attempts
          ≡ lookup name h.attempts
    tried none = unfold try_repair in same
    tried (some none) =
        unfold try_repair in (lookup-put r.name name 0 (count_attempt r now h).attempts ∙ rw d same)
    tried (some (some e)) = unfold try_repair in same

-- One failing ask.
module _ (h : Healer) (r : Recovery) (cause : Str) (now : Time) (e : Str)
    (fails : r.attempt ≡ some (some e))
    (follows : is_new_incident r (lookup r.name h.last_try) now ≡ false) where
  counted :
      number_or_zero (lookup r.name (count_attempt r now h).attempts) ≡ suc (attempts_of h r.name)
  unfolding attempts_of
  counted =
      ap number_or_zero (count_attempt-attempts r now h r.name)
      ∙ rw (str_eq_refl r.name, follows) refl

  abbrev IsStep : RecoveryOutcome × Healer → Type 0
  IsStep done =
      (done.0.attempt ≡ suc (attempts_of h r.name))
      × (done.0.is_escalated ≡ ltb (limit_of r.max_attempts) (suc (attempts_of h r.name)))
      × (done.0.is_success ≡ false)
      × (attempts_of done.1 r.name ≡ suc (attempts_of h r.name))

  heal-fails : IsStep (heal h r cause now)
  unfolding heal try_repair report_of attempts_of
  heal-fails =
      let n = counted in
      let c = count_attempt r now h in
      let k = number_or_zero (lookup r.name c.attempts) in
      elim (Bool-cases (ltb (limit_of r.max_attempts) k)) [
        | inl over ↦ rw over (n, ground (arith, over, n), refl, n)
        | inr within ↦ rw within (
            subst (λ o. IsStep (try_repair r cause now k o c)) (sym fails)
              (n, ground (arith, within, n), refl, n))
      ]

attempts_of-other :
    (h : Healer) (r : Recovery) (cause : Str) (now : Time) (name : Str)
    → str_eq r.name name ≡ false
    → attempts_of h name ≡ attempts_of (heal h r cause now).1 name
unfolding attempts_of
attempts_of-other h r cause now name d = ap number_or_zero (sym (heal-other h r cause now name d))

-- The state that an ask leaves behind, for the repair of the name.
module _ (name : Str) (limit : ℕ) where
  outcomes-IsEscalating :
      (asks : List Ask) (h : Healer)
      → IsFailing name limit (lookup name h.last_try) asks
      → IsEscalating limit (attempts_of h name) (outcomes name asks h)
  unfolding outcomes
  outcomes-IsEscalating [] h f = tt
  outcomes-IsEscalating ((r, cause, now) ∷ asks) h f =
      let next = (heal h r cause now).1 in
      let last : lookup name next.last_try
          ≡ (if str_eq r.name name then some now else lookup name h.last_try) =
        ap (lookup name) (heal-last_try h r cause now) ∙ count_attempt-last_try r now h name in
      let later =
        outcomes-IsEscalating asks next (subst (λ o. IsFailing name limit o asks) (sym last) f.1) in
      elim (Str-cases r.name name) [
        | inl same ↦
            let own : str_eq r.name name ≡ true =
              ap (str_eq r.name) (sym same) ∙ str_eq_refl r.name in
            let asked = f.0 own in
            let follows =
              subst (λ k. is_new_incident r (lookup k h.last_try) now ≡ false) (sym same) asked.2 in
            let step = heal-fails h r cause now asked.1.0 asked.1.1 follows in
            rw own (
              subst (λ k. (heal h r cause now).0.attempt ≡ suc (attempts_of h k)) same step.0,
              subst (λ l. (heal h r cause now).0.is_escalated ≡ ltb l (suc (attempts_of h name)))
                  asked.0
                  (subst
                    (λ k.
                      (heal h r cause now).0.is_escalated
                      ≡ ltb (limit_of r.max_attempts) (suc (attempts_of h k)))
                    same step.1),
              step.2,
              subst (λ n. IsEscalating limit n (outcomes name asks next))
                  (subst (λ k. attempts_of next k ≡ suc (attempts_of h k)) same step.3) later,
            )
        | inr differ ↦ rw differ (
            subst (λ n. IsEscalating limit n (outcomes name asks next))
              (sym (attempts_of-other h r cause now name differ)) later)
      ]

-- While a repair fails whenever it is asked for, each time within the window of the time before, its
-- attempts are counted from one on, no ask before the limit is passed is escalated, and every ask
-- after that is, whatever other repairs are asked for in between.
pub outcomes-new_healer-IsEscalating :
    (name : Str) (limit : ℕ) (asks : List Ask)
    → IsFailing name limit none asks
    → IsEscalating limit 0 (outcomes name asks new_healer)
unfolding new_healer lookup attempts_of
outcomes-new_healer-IsEscalating name limit asks f =
    outcomes-IsEscalating name limit asks new_healer f
