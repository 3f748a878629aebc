-- ===== src/Recovery.antt =====
-- Bounded automatic repairs: backend/internal/observability/selfheal.go. What an attempt does is the
-- answer that a call is given; the mutex is not modelled.
pub mod Escalated
use siem_v.Prelude.{
  ℕ, suc, Bool, true, false, not, ◌&&◌, Option, none, some, List, [], ◌∷◌, ltb, if◌then◌else◌,
}
use siem_v.Prelude.Text.{Str}
use siem_v.Prelude.Time.{Time, Duration, ℤ, pos, negsuc, ltb_ℤ, time_sub}
use siem_v.Prelude.Maps.{Map, lookup, put}

-- `Attempt` is what the function returns when it is called: `none` if there is no function, and
-- otherwise its error, if it fails.
pub record Recovery : Type 0 where
  pub name : Str
  pub attempt : Option (Option Str)
  pub max_attempts : ℤ
  pub backoff : Duration
  pub window : Duration

pub data HealError : Type 0 where
  exhausted : ℕ → HealError
  no_attempt_function : HealError
  attempt_failed : Str → HealError

pub record RecoveryOutcome : Type 0 where
  pub name : Str
  pub cause : Str
  pub attempt : ℕ
  pub is_success : Bool
  pub error : Option HealError
  pub at : Time
  pub is_escalated : Bool

pub record Healer : Type 0 where
  pub attempts : Map ℕ
  pub last_try : Map Time

unfoldable pub new_healer : Healer
new_healer = record { attempts = []; last_try = [] }

abbrev pub number_or_zero : Option ℕ → ℕ
number_or_zero none = 0
number_or_zero (some n) = n

-- Long enough since the last attempt.
unfoldable pub is_new_incident : Recovery → Option Time → Time → Bool
is_new_incident r none now = false
is_new_incident r (some last) now = ltb_ℤ (pos 0) r.window && ltb_ℤ r.window (time_sub now last)

unfoldable pub count_attempt : Recovery → Time → Healer → Healer
count_attempt r now h =
    let before =
      if is_new_incident r (lookup r.name h.last_try) now
      then 0
      else number_or_zero (lookup r.name h.attempts) in
    record { attempts = put r.name (suc before) h.attempts; last_try = put r.name now h.last_try }

unfoldable pub limit_of : ℤ → ℕ
limit_of (pos n) = if ltb 0 n then n else 3
limit_of (negsuc n) = 3

unfoldable pub report_of : Recovery → Str → Time → ℕ → Option HealError → Bool → RecoveryOutcome
report_of r cause now attempt error is_escalated = record {
  name = r.name;
  cause = cause;
  attempt = attempt;
  is_success = false;
  error = error;
  at = now;
  is_escalated = is_escalated;
}

-- The attempt itself; a success resets the count.
unfoldable pub try_repair :
    Recovery → Str → Time → ℕ → Option (Option Str) → Healer → RecoveryOutcome × Healer
try_repair r cause now attempt none h =
    (report_of r cause now attempt (some no_attempt_function) false, h)
try_repair r cause now attempt (some (some e)) h =
    (report_of r cause now attempt (some (attempt_failed e)) false, h)
try_repair r cause now attempt (some none) h = (
  record (report_of r cause now attempt none false) { is_success = true },
  record h { attempts = put r.name 0 h.attempts },
)

unfoldable pub heal : Healer → Recovery → Str → Time → RecoveryOutcome × Healer
heal h r cause now =
    let counted = count_attempt r now h in
    let attempt = number_or_zero (lookup r.name counted.attempts) in
    if ltb (limit_of r.max_attempts) attempt
    then (report_of r cause now attempt (some (exhausted (limit_of r.max_attempts))) true, counted)
    else try_repair r cause now attempt r.attempt counted

-- `Attempts`
unfoldable pub attempts_of : Healer → Str → ℕ
attempts_of h name = number_or_zero (lookup name h.attempts)
