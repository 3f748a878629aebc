-- ===== src/Alerting/Detections.antt =====
-- Detections and their fixtures: backend/internal/alerting/detection.go. `F` stands for the
-- floating-point numbers, which only conditions read.
pub mod Gate
use siem_v.Prelude.{
  ℕ, suc, Bool, true, false, not, Option, none, some, List, [], ◌∷◌, ◌++◌, if◌then◌else◌,
}
use siem_v.Prelude.Text.{Str, str, str_eq, str_lt}
use siem_v.Prelude.Time.{Time}
use siem_v.Prelude.Maps.{Map, lookup, put, values}
use siem_v.Prelude.Results.{Result, ok, err}
use siem_v.Prelude.Sort.{sort}
use siem_v.Schema.{Any}
use siem_v.Alerting.{Severity, Alert}

pub data SubjectKind : Type 0 where
  flow source_health stage_health : SubjectKind
  other_subject : Str → SubjectKind

module _ (F : Type 0) where
  pub record Subject : Type 0 where
    pub kind : SubjectKind
    pub tenant : Str
    pub at : Time
    pub attributes : Map Any
    pub numeric_vals : Map F

  pub record Detection : Type 0 where
    pub id : Str
    pub name : Str
    pub version : Str
    pub severity : Severity
    pub category : Str
    pub hypothesis : Str
    pub mitre_attack : List Str
    pub expected_response : Str
    pub recommended_first_check : Str
    pub is_enabled : Bool
    pub condition : Option (Subject → Bool)
    pub positive : List Subject
    pub near_miss : List Subject

-- The fixtures are named by their position.
pub data FixtureError : Type 0 where
  no_condition no_positive no_near_miss no_hypothesis : FixtureError
  silent_on_positive fires_on_near_miss : ℕ → FixtureError

unfoldable pub text_of : Option Any → Option Str
text_of (some (Any.text t)) = some t
text_of _ = none

unfoldable pub or_else : Option FixtureError → Option FixtureError → Option FixtureError
or_else none second = second
or_else (some e) second = some e

module _ {F : Type 0} where
  -- `Subject.Num`
  unfoldable pub num : Subject F → Str → Option F
  num s key = lookup key s.numeric_vals

  -- `Subject.Str`
  unfoldable pub string_of : Subject F → Str → Option Str
  string_of s key = text_of (lookup key s.attributes)

  -- The first positive fixture that the condition does not meet.
  unfoldable pub first_silent : (Subject F → Bool) → ℕ → List (Subject F) → Option FixtureError
  first_silent condition i [] = none
  first_silent condition i (s ∷ rest) =
      let later = first_silent condition (suc i) rest in
      if not (condition s) then some (silent_on_positive i) else later

  unfoldable pub first_firing : (Subject F → Bool) → ℕ → List (Subject F) → Option FixtureError
  first_firing condition i [] = none
  first_firing condition i (s ∷ rest) =
      let later = first_firing condition (suc i) rest in
      if condition s then some (fires_on_near_miss i) else later

  abbrev pub is_none : List (Subject F) → Bool
  is_none [] = true
  is_none (s ∷ rest) = false

  unfoldable pub validate_condition : Detection F → Option (Subject F → Bool) → Option FixtureError
  validate_condition d none = some no_condition
  validate_condition d (some condition) =
      if is_none d.positive
      then some no_positive
      else if is_none d.near_miss
      then some no_near_miss
      else if str_eq d.hypothesis []
      then some no_hypothesis
      else or_else (first_silent condition 0 d.positive) (first_firing condition 0 d.near_miss)

  -- `ValidateFixtures`: the error, if there is one.
  unfoldable pub validate_fixtures : Detection F → Option FixtureError
  validate_fixtures d = validate_condition d d.condition

  unfoldable pub activate_if :
      Detection F
      → Option FixtureError
      → Map (Detection F)
      → Option FixtureError × Map (Detection F)
  activate_if d (some e) registry = (some e, registry)
  activate_if d none registry = (none, put d.id d registry)

  -- `Activate`, with its error.
  unfoldable pub activate :
      Detection F → Map (Detection F) → Option FixtureError × Map (Detection F)
  activate d registry = activate_if d (validate_fixtures d) registry

  -- A condition that is missing cannot be called; no registered detection lacks one.
  unfoldable pub fires : Option (Subject F → Bool) → Subject F → Bool
  fires none s = false
  fires (some condition) s = condition s

  unfoldable pub firing : Subject F → List (Detection F) → List (Detection F)
  firing s [] = []
  firing s (d ∷ rest) =
      let later = firing s rest in
      if not d.is_enabled then later else if fires d.condition s then d ∷ later else later

  abbrev by_detection_id : Detection F → Detection F → Bool
  by_detection_id a b = str_lt a.id b.id

  -- `Evaluate`
  unfoldable pub evaluate : Map (Detection F) → Subject F → List (Detection F)
  evaluate registry s = sort by_detection_id (firing s (values registry))

  -- `All`
  unfoldable pub all_detections : Map (Detection F) → List (Detection F)
  all_detections registry = sort by_detection_id (values registry)

unfoldable pub kind_text : SubjectKind → Str
kind_text flow = str "flow"
kind_text source_health = str "source_health"
kind_text stage_health = str "stage_health"
kind_text (other_subject s) = s

unfoldable pub join_parts : List Str → Str
join_parts [] = []
join_parts (p ∷ []) = p
join_parts (p ∷ q ∷ parts) = let rest = join_parts (q ∷ parts) in p ++ b'|' ∷ rest

unfoldable pub key_part : Str → Option Str → List Str
key_part key none = []
key_part key (some v) = (key ++ b'=' ∷ v) ∷ []

-- The hash in hexadecimal digits, cut to a number of bytes, the text of a time, and a number as a
-- value of an attribute are parameters.
module _ {F : Type 0} (hex_hash : ℕ → Str → Str) (format_time : Time → Str) (number : F → Any) where
  unfoldable pub attribute_parts : Subject F → List Str → List Str
  attribute_parts s [] = []
  attribute_parts s (key ∷ keys) = key_part key (string_of s key) ++ attribute_parts s keys

  -- `groupingKey`
  unfoldable pub grouping_key_of : Detection F → Subject F → Str
  grouping_key_of d s = hex_hash 8 (
      join_parts (
        d.id
        ∷ d.version
        ∷ s.tenant
        ∷ kind_text s.kind
        ∷ attribute_parts s (str "source_id" ∷ str "stage" ∷ str "rule_id" ∷ str "client_ip" ∷ [])))

  unfoldable pub alert_id_of : Str → Time → Str
  alert_id_of grouping at = str "alert:" ++ hex_hash 12 (grouping ++ format_time at)

  unfoldable pub add_attributes : Map Any → Map Any → Map Any
  add_attributes [] evidence = evidence
  add_attributes ((k, v) ∷ rest) evidence = add_attributes rest (put k v evidence)

  unfoldable pub add_numbers : Map F → Map Any → Map Any
  add_numbers [] evidence = evidence
  add_numbers ((k, v) ∷ rest) evidence = add_numbers rest (put k (number v) evidence)

  -- `NewAlert`
  unfoldable pub new_alert : Detection F → Subject F → Time → List Str → Alert
  new_alert d s fired_at flow_ids =
      let grouping = grouping_key_of d s in
      record {
        alert_id = alert_id_of grouping fired_at;
        detection_id = d.id;
        detection_version = d.version;
        tenant = s.tenant;
        fired_at = fired_at;
        severity = d.severity;
        title = d.name;
        evidence = add_numbers s.numeric_vals (add_attributes s.attributes []);
        linked_flow_ids = flow_ids;
        recommended_first_check = d.recommended_first_check;
        expected_response = d.expected_response;
        grouping_key = grouping;
        suppressed_until = none;
        occurrence_count = 1;
      }
