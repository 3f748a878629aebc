-- ===== src/Tests/Rules.antt =====
-- The theorems on filters, holds, tiers and retention runs, applied to samples.
use siem_v.Prelude.{
  ℕ, ◌+◌, ◌*◌, ◌≤◌, ◌≡◌, ◌↔◌, ◌⊎◌, refl, true, Option, none, some, List, [], ◌∷◌, All, Memᴰ, length,
  if◌then◌else◌,
}
use siem_v.Prelude.Text.{Str, str, str_eq, to_lower, trim_space}
use siem_v.Prelude.Time.{minute, Time, pos}
use siem_v.Filter.{
  Rule, Set, max_rules, compile, drops, ok, compile_from, compile_rule, usable, clean, is_field,
  is_op, add_rule,
}
use siem_v.Filter.Drops.{Matches, compile-drops_iff}
use siem_v.Filter.Meaning.{IsRule, compile-ok_iff}
use siem_v.Retention.{Hold, Policy, gone, day}
use siem_v.Retention.Apply.{Partition, Backend, Result, apply, apply_with}
use siem_v.Retention.Apply.Safety.{IsSafe, apply-IsSafe}
use siem_v.Retention.Apply.Counts.{count_deleted, count_prevented, apply_counts}
use siem_v.Schema.{Any}
use siem_v.Prelude.Maps.{lookup}
use siem_v.Alerting.{Alert, Severity, Suppressor, count_or_zero}
use siem_v.Alerting.Spaced.{Firing, IsSpaced, firings, deliveries, admit_all, deliveries-IsSpaced}

abbrev sample_rule : Rule
sample_rule = record {
  field = str "request_host";
  op = str "suffix";
  values = str " .Example " ∷ str " " ∷ [];
}

sample_compiled : (s : Set) × (compile (sample_rule ∷ []) ≡ ok s)
unfolding compile compile_from compile_rule usable str_eq clean to_lower trim_space is_field is_op
    add_rule
sample_compiled = (_, refl)

compile-drops_iff_example :
    (drops (some sample_compiled.0) (str "Shop.example") (str "/cart") ≡ true)
    ↔ ((r : Rule) × Memᴰ r (sample_rule ∷ []) × Matches (str "Shop.example") (str "/cart") r)
compile-drops_iff_example =
    compile-drops_iff (sample_rule ∷ []) sample_compiled.0 (str "Shop.example") (str "/cart")
      sample_compiled.1

compile-ok_iff_example :
    ((s : Set) × (compile (sample_rule ∷ []) ≡ ok s))
    ↔ ((length (sample_rule ∷ []) ≤ max_rules) × All IsRule (sample_rule ∷ []))
compile-ok_iff_example = compile-ok_iff (sample_rule ∷ [])

-- A reader of times that knows one text.
abbrev sample_parse : Str → Option Time
sample_parse s = if str_eq s (str "2026-01-01T00:00:00Z") then some (500 * day) else none

abbrev sample_hold : Hold
sample_hold = record {
  id = str "h1";
  tenant_id = str "t1";
  scope_filter = (str "from", Any.text (str "2026-01-01T00:00:00Z")) ∷ [];
  reason = str "case 7";
  placed_by = str "ann";
  placed_at = 600 * day;
  released_at = none;
  released_by = [];
  preserved_refs = [];
}

abbrev sample_policy : Policy
sample_policy = record {
  id = str "p1";
  tenant_id = str "t1";
  name = str "default";
  data_category = str "flows";
  hot_days = pos 30;
  warm_days = pos 60;
  cold_months = pos 12;
}

-- Every call succeeds, and one hold is open.
abbrev sample_backend : Backend
sample_backend = record {
  open_holds = λ tenant. some (sample_hold ∷ []);
  archive = λ p. some (str "ref");
  preserve = λ ref. true;
  record_prevented_expiry = λ id ref now. true;
  delete = λ p. true;
  has_auditor = true;
}

abbrev partition_of : ℕ → Partition
partition_of date = record { tenant_id = str "t1"; date = date; tier = gone; size_bytes = 9 }

-- One partition too old for the hold, one under it.
abbrev sample_partitions : List Partition
sample_partitions = partition_of (490 * day) ∷ partition_of (510 * day) ∷ []

apply-IsSafe_example :
    ((sample_backend.open_holds (str "t1") ≡ none)
      × ((apply sample_parse sample_backend
            (str "t1")
            sample_policy
            (900 * day)
            sample_partitions).0
          ≡ []))
    ⊎ ((holds : List Hold) × (sample_backend.open_holds (str "t1") ≡ some holds)
        × All
            (IsSafe sample_parse holds (str "t1") sample_policy (900 * day))
            (apply sample_parse sample_backend
              (str "t1")
              sample_policy
              (900 * day)
              sample_partitions).0)
apply-IsSafe_example =
    apply-IsSafe sample_parse sample_backend (str "t1") sample_policy (900 * day) sample_partitions

sample_result :
    (r : Result) × ((apply sample_parse sample_backend
        (str "t1")
        sample_policy
        (900 * day)
        sample_partitions).1
      ≡ some r)
unfolding apply apply_with
sample_result = (_, refl)

apply_counts_example :
    (sample_result.0.deleted
      ≡ count_deleted
          (apply sample_parse sample_backend
            (str "t1")
            sample_policy
            (900 * day)
            sample_partitions).0)
    × (sample_result.0.prevented_by_hold
        ≡ count_prevented sample_parse sample_backend
            (sample_hold ∷ [])
            (str "t1")
            sample_policy
            (900 * day)
            sample_partitions)
apply_counts_example =
    apply_counts sample_parse sample_backend (str "t1") sample_policy (900 * day) sample_partitions
      (sample_hold ∷ []) sample_result.0 refl sample_result.1

abbrev sample_alert : Alert
sample_alert = record {
  alert_id = str "alert:1";
  detection_id = str "stalled_stage";
  detection_version = str "1";
  tenant = str "t1";
  fired_at = 500 * day;
  severity = Severity.high;
  title = str "stage stalled";
  evidence = [];
  linked_flow_ids = [];
  recommended_first_check = [];
  expected_response = [];
  grouping_key = str "g1";
  suppressed_until = none;
  occurrence_count = 1;
}

-- Three firings, the second of them too soon.
abbrev sample_firings : List Firing
sample_firings =
    (sample_alert, 500 * day) ∷ (sample_alert, 500 * day + minute) ∷ (sample_alert, 501 * day) ∷ []

abbrev sample_suppressor : Suppressor
sample_suppressor = record { window = pos (15 * minute); last_fired = []; counts = [] }

deliveries-IsSpaced_example :
    IsSpaced sample_suppressor.window
      (lookup (str "g1") sample_suppressor.last_fired)
      (deliveries (str "g1") sample_firings sample_suppressor)
    × (count_or_zero (lookup (str "g1") (admit_all sample_firings sample_suppressor).counts)
        ≡ firings (str "g1") sample_firings
          + count_or_zero (lookup (str "g1") sample_suppressor.counts))
deliveries-IsSpaced_example = deliveries-IsSpaced (str "g1") sample_firings sample_suppressor
