-- ===== src/Alerting.antt =====
-- Suppression of repeated alerts: backend/internal/alerting/alert.go.
pub mod Spaced
pub mod Detections
use siem_v.Prelude.{
  ℕ, suc, ◌+◌, ◌-◌, ◌*◌, Bool, true, false, Option, none, some, List, [], ◌∷◌, ltb, ◌==◌,
  if◌then◌else◌,
}
use siem_v.Prelude.Text.{Str}
use siem_v.Prelude.Time.{Time, Duration, pos, negsuc, ltb_ℤ, time_sub, minute}
use siem_v.Prelude.Maps.{Map, lookup, put, delete}
use siem_v.Prelude.Sort.{sort}
use siem_v.Schema.{Any}

pub data Severity : Type 0 where
  critical high medium low : Severity
  other_severity : Str → Severity

pub record Alert : Type 0 where
  pub alert_id : Str
  pub detection_id : Str
  pub detection_version : Str
  pub tenant : Str
  pub fired_at : Time
  pub severity : Severity
  pub title : Str
  pub evidence : Map Any
  pub linked_flow_ids : List Str
  pub recommended_first_check : Str
  pub expected_response : Str
  pub grouping_key : Str
  pub suppressed_until : Option Time
  pub occurrence_count : ℕ

pub record Suppressor : Type 0 where
  pub window : Duration
  pub last_fired : Map Time
  pub counts : Map ℕ

-- A window that is not positive falls back to 15 minutes.
unfoldable pub new_suppressor : Duration → Suppressor
new_suppressor window = record {
  window = if ltb_ℤ (pos 0) window then window else pos (15 * minute);
  last_fired = [];
  counts = [];
}

-- t.Add(d)
unfoldable pub time_add : Time → Duration → Time
time_add t (pos n) = t + n
time_add t (negsuc n) = t - suc n

unfoldable pub count_or_zero : Option ℕ → ℕ
count_or_zero none = 0
count_or_zero (some n) = n

unfoldable pub counted : Suppressor → Str → Suppressor
counted s key = record s { counts = put key (suc (count_or_zero (lookup key s.counts))) s.counts }

unfoldable pub is_repeat : Duration → Option Time → Time → Bool
is_repeat window none now = false
is_repeat window (some last) now = ltb_ℤ (time_sub now last) window

unfoldable pub until : Duration → Option Time → Option Time
until window none = none
until window (some last) = some (time_add last window)

-- The alert with its count, whether it is delivered, and the state afterwards.
unfoldable pub admit : Suppressor → Alert → Time → Alert × Bool × Suppressor
admit s a now =
    let last = lookup a.grouping_key s.last_fired in
    let s' = counted s a.grouping_key in
    let a' = record a { occurrence_count = count_or_zero (lookup a.grouping_key s'.counts) } in
    if is_repeat s.window last now
    then (record a' { suppressed_until = until s.window last }, false, s')
    else (a', true, record s' { last_fired = put a.grouping_key now s.last_fired })

unfoldable pub reset : Suppressor → Str → Suppressor
reset s key = record s { last_fired = delete key s.last_fired; counts = delete key s.counts }

-- An unknown severity is missing in the source's map, and so has the rank 0.
unfoldable pub severity_rank : Severity → ℕ
severity_rank critical = 0
severity_rank high = 1
severity_rank medium = 2
severity_rank low = 3
severity_rank (other_severity s) = 0

unfoldable pub alert_less : Alert → Alert → Bool
alert_less a b =
    if severity_rank a.severity == severity_rank b.severity
    then ltb b.fired_at a.fired_at
    else ltb (severity_rank a.severity) (severity_rank b.severity)

unfoldable pub sort_alerts : List Alert → List Alert
sort_alerts alerts = sort alert_less alerts
