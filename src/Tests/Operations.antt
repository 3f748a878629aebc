-- ===== src/Tests/Operations.antt =====
-- The theorems on protected routes, detections and repairs, applied to samples.
use siem_v.Prelude.{
  ℕ, ◌*◌, ltb, ◌==◌, ◌≡◌, ◌↔◌, refl, Bool, true, false, Option, none, some, List, [], ◌∷◌, All,
  if◌then◌else◌,
}
use siem_v.Prelude.Text.{Str, str, str_eq}
use siem_v.Prelude.Time.{pos, second, minute, time_sub}
use siem_v.Prelude.Maps.{Map}
use siem_v.Access.Tenancy.{Principal, export}
use siem_v.Access.Tenancy.Grants.{IsGranted}
use siem_v.Access.Tokens.{Parsed, accepted, Jwt}
use siem_v.Access.Sessions.{principal_of}
use siem_v.Access.Gate.{bearer_of, served, guard}
use siem_v.Access.Gate.Served.{IsBearer, guard-served_iff}
use siem_v.Alerting.{high}
use siem_v.Alerting.Detections.{Subject, Detection, stage_health, fires, evaluate}
use siem_v.Alerting.Detections.Gate.{IsTested, activate_all, evaluate-IsTested}
use siem_v.Health.{evaluate_silence}
use siem_v.Health.History.{Call, register, deliver, check_silence}
use siem_v.Health.Reports.{reports}
use siem_v.Health.Silence.{after, IsSilent, evaluate_silence-reports_iff}
use siem_v.Recovery.{Recovery, new_healer, limit_of, is_new_incident}
use siem_v.Recovery.Escalated.{
  Ask, outcomes, IsFailing, IsEscalating, outcomes-new_healer-IsEscalating,
}
use siem_v.Tests.Access.{
  sample_claims, sample_valkey, sample_record, sample_backend, sample_service,
}

abbrev access_jwt : Jwt
access_jwt = record {
  sign = λ key c. some c.purpose;
  parse = λ key now token.
      if str_eq token (str "a1")
      then accepted (record sample_claims { purpose = str "access" })
      else Parsed.expired;
  numeric_date = λ t. t;
  new_jti = λ n. n ∷ [];
}

abbrev no_identity : ℕ → Str → Option Principal
no_identity users bearer = none

guard-served_iff_example :
    ((guard access_jwt sample_valkey sample_backend sample_service false no_identity second export
        (str "Bearer a1")
        (str "/flows")
        0).0
      ≡ served (principal_of sample_record))
    ↔ ((str_eq (bearer_of (str "Bearer a1")) [] ≡ false)
        × IsBearer access_jwt sample_valkey sample_backend sample_service no_identity second 0
            (bearer_of (str "Bearer a1"))
            (principal_of sample_record)
        × ((principal_of sample_record).is_active ≡ true)
        × (str_eq (principal_of sample_record).tenant_id [] ≡ false)
        × IsGranted (principal_of sample_record) export)
guard-served_iff_example =
    guard-served_iff access_jwt sample_valkey sample_backend sample_service no_identity second
      export (str "Bearer a1") (str "/flows") 0 (principal_of sample_record)

-- Records dropped in a minute, as natural numbers.
abbrev subject_of : Map ℕ → Subject ℕ
subject_of numbers = record {
  kind = stage_health;
  tenant = str "t1";
  at = 0;
  attributes = [];
  numeric_vals = numbers;
}

abbrev has_numbers : Subject ℕ → Bool
has_numbers s = is_some_number s.numeric_vals
  where
    is_some_number : Map ℕ → Bool
    is_some_number [] = false
    is_some_number (e ∷ m) = true

abbrev sample_detection : Detection ℕ
sample_detection = record {
  id = str "d1";
  name = str "records dropped";
  version = str "1";
  severity = high;
  category = str "pipeline";
  hypothesis = str "a stage loses records";
  mitre_attack = [];
  expected_response = [];
  recommended_first_check = [];
  is_enabled = true;
  condition = some has_numbers;
  positive = subject_of ((str "dropped", 3) ∷ []) ∷ [];
  near_miss = subject_of [] ∷ [];
}

-- The second detection has no near miss, and is refused.
abbrev sample_detections : List (Detection ℕ)
sample_detections =
    sample_detection ∷ record sample_detection { id = str "d2"; near_miss = [] } ∷ []

evaluate-IsTested_example :
    All
      (λ d.
        IsTested d
        × (d.is_enabled ≡ true)
        × (fires d.condition (subject_of ((str "dropped", 1) ∷ [])) ≡ true))
      (evaluate (activate_all sample_detections []) (subject_of ((str "dropped", 1) ∷ [])))
evaluate-IsTested_example =
    evaluate-IsTested sample_detections (subject_of ((str "dropped", 1) ∷ []))

abbrev sample_recovery : Recovery
sample_recovery = record {
  name = str "reconnect";
  attempt = some (some (str "refused"));
  max_attempts = pos 1;
  backoff = pos second;
  window = pos minute;
}

abbrev sample_asks : List Ask
sample_asks = (sample_recovery, str "closed", 0) ∷ (sample_recovery, str "closed", 10 * second) ∷ []

sample-IsFailing : IsFailing (str "reconnect") 1 none sample_asks
unfolding str_eq limit_of is_new_incident time_sub
sample-IsFailing =
    (λ same. (refl, (str "refused", refl), refl), (λ same. (refl, (str "refused", refl), refl), tt))

outcomes-new_healer-IsEscalating_example :
    IsEscalating 1 0 (outcomes (str "reconnect") sample_asks new_healer)
outcomes-new_healer-IsEscalating_example =
    outcomes-new_healer-IsEscalating (str "reconnect") 1 sample_asks sample-IsFailing

-- A source that delivers, and another one that does not; rates are natural numbers.
abbrev sample_calls : List (Call ℕ)
sample_calls =
    check_silence (3 * minute)
    ∷ deliver (str "s2") (pos 0) second
    ∷ deliver (str "s1") (pos 2) second
    ∷ register (str "s2") (str "nginx") (pos minute)
    ∷ register (str "s1") (str "nginx") (pos minute)
    ∷ []

abbrev is_positive_rate : ℕ → Bool
is_positive_rate n = ltb 0 n

abbrev is_zero_rate : ℕ → Bool
is_zero_rate n = n == 0

evaluate_silence-reports_iff_example :
    (reports
        (str "s1")
        (evaluate_silence (4 * minute) (after is_positive_rate is_zero_rate 0 sample_calls)).0
      ≡ true)
    ↔ IsSilent is_positive_rate is_zero_rate 0 (str "s1") (4 * minute) sample_calls
evaluate_silence-reports_iff_example =
    evaluate_silence-reports_iff is_positive_rate is_zero_rate 0 sample_calls (str "s1")
      (4 * minute)
