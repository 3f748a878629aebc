-- ===== src/Flow.antt =====
-- Request flows: backend/internal/biz/flow/flow.go and materialize.go.
pub mod Materialize
pub mod Coverage
pub mod Outcome
pub mod Judgement
pub mod Reached
pub mod Missing
pub mod Flags
pub mod Span
pub mod Events
pub mod Amend
use siem_v.Prelude.{
  ℕ, ◌+◌, ◌-◌, ◌≤◌, Bool, true, false, not, ◌&&◌, ◌||◌, Option, none, some, List, [], ◌∷◌, ◌++◌,
  any, keep, length, ltb, leb, ◌==◌, if◌then◌else◌,
}
use siem_v.Prelude.Text.{Str, str, str_eq, to_lower}
use siem_v.Prelude.Time.{Time, is_zero, zero_time}
use siem_v.Prelude.Sort.{sort}
use siem_v.Schema.{
  Event, Layer, Action, Client, Request, QualityFlag, layer_order, layer_eq, has_flag, add_flag,
}
use siem_v.Keys.{Tier}
use siem_v.Order.{order_events, detect_skew}
use siem_v.Prelude.{◌≡◌, refl}

pub data Completeness : Type 0 where
  complete partial ambiguous : Completeness

-- A confidence in tenths.
pub record Flow : Type 0 where
  pub flow_id : Str
  pub tenant : Str
  pub correlation_key : Str
  pub events : List Event
  pub layers_present : List Layer
  pub layers_missing : List Layer
  pub completeness : Completeness
  pub method : Tier
  pub confidence : ℕ
  pub bridged : Bool
  pub effective_outcome : Action
  pub terminating_layer : Layer
  pub first_seen : Time
  pub last_seen : Time
  pub closed_at : Option Time
  pub timing_attribution : List (Layer × ℕ)
  pub amended : Bool
  pub data_quality_flags : List QualityFlag
  pub client : Client
  pub request : Request

pub record Options : Type 0 where
  pub tenant : Str
  pub expected_layers : List Layer
  pub method : Tier
  pub bridged : Bool
  pub closed : Bool
  pub now : Time

abbrev pub expected_layers : List Layer
expected_layers = Layer.edge ∷ Layer.bot_management ∷ Layer.app_firewall ∷ Layer.origin ∷ []

-- The empty text, as a layer.
abbrev pub no_layer : Layer
no_layer = Layer.other []

abbrev pub cache_served_statuses : List Str
cache_served_statuses = str "hit" ∷ str "revalidated" ∷ str "updating" ∷ str "stale" ∷ []

unfoldable pub edge_served_from_cache : List Event → Bool
unfolding layer_eq str_eq to_lower
edge_served_from_cache events =
    any
      (λ e.
        layer_eq e.layer Layer.edge
        && any (λ s. str_eq s (to_lower e.response.cache_status)) cache_served_statuses)
      events

deeper : Option ℕ → Layer → Layer × ℕ → Layer × ℕ
deeper none l best = best
deeper (some o) l (best, best_order) = if ltb best_order o then (l, o) else (best, best_order)

-- The closure `consider` of `completenessBoundary`.
unfoldable pub consider : Layer → Layer × ℕ → Layer × ℕ
unfolding deeper
consider l best = deeper (layer_order l) l best

unfoldable pub consider_events : List Event → Layer × ℕ → Layer × ℕ
consider_events [] best = best
consider_events (e ∷ rest) best = consider_events rest (consider e.layer best)

unfoldable pub completeness_boundary : List Event → Layer → Layer
completeness_boundary ordered terminating =
    let reached = consider_events ordered (Layer.edge, 0) in
    let stopped = if layer_eq terminating no_layer then reached else consider terminating reached in
    let passed = layer_eq terminating no_layer && not (edge_served_from_cache ordered) in
    (if passed then consider Layer.origin stopped else stopped).0

unfoldable pub within : ℕ → Option ℕ → Bool
within limit none = false
within limit (some o) = leb o limit

unfoldable pub up_to : Option ℕ → List Layer → List Layer
up_to none expected = expected
up_to (some limit) expected = keep (λ l. within limit (layer_order l)) expected

unfoldable pub expected_up_to : List Layer → Layer → List Layer
expected_up_to expected terminating =
    if layer_eq terminating no_layer then expected else up_to (layer_order terminating) expected

-- `seen[l]` of `layerCoverage`: some event is of the layer.
unfoldable pub has_reported : List Event → Layer → Bool
has_reported events l = any (λ e. layer_eq e.layer l) events

unfoldable pub layer_coverage : List Event → List Layer → List Layer × List Layer
layer_coverage events expected =
    (keep (has_reported events) expected, keep (λ l. not (has_reported events l)) expected)

-- `last` is the event before the rest, so that it is the last one in the end.
outcome_from : Event → List Event → Action × Layer
outcome_from last [] = (last.verdict.action, no_layer)
outcome_from last (e ∷ rest) =
    let later = outcome_from e rest in
    if e.verdict.terminating then (e.verdict.action, e.layer) else later

-- `materialize` calls it on a list with a first event `e` only.
unfoldable pub resolve_outcome : Event → List Event → Action × Layer
unfolding outcome_from
resolve_outcome e rest =
    if e.verdict.terminating then (e.verdict.action, e.layer) else outcome_from e rest

add_duration : Layer → ℕ → List (Layer × ℕ) → List (Layer × ℕ)
add_duration l d [] = (l, d) ∷ []
add_duration l d ((k, n) ∷ out) =
    if layer_eq k l then (k, n + d) ∷ out else (k, n) ∷ add_duration l d out

timing_from : List Event → List (Layer × ℕ) → List (Layer × ℕ)
unfolding add_duration
timing_from [] out = out
timing_from (e ∷ rest) out =
    timing_from rest (
      if ltb 0 e.response.duration_us then add_duration e.layer e.response.duration_us out else out)

unfoldable pub timing_attribution : List Event → List (Layer × ℕ)
unfolding timing_from
timing_attribution ordered = timing_from ordered []

-- A text that is still empty is taken from the event.
unfoldable pub fill : Str → Str → Str
unfolding str_eq
fill old new = if str_eq old [] then new else old

fill_number : ℕ → ℕ → ℕ
fill_number old new = if old == 0 then new else old

unfoldable pub denormalize_from : List Event → Client × Request → Client × Request
unfolding fill fill_number
denormalize_from [] acc = acc
denormalize_from (e ∷ rest) (c, r) = denormalize_from rest (
  record {
    ip = fill c.ip e.client.ip;
    asn = fill_number c.asn e.client.asn;
    country = fill c.country e.client.country;
    user_agent = fill c.user_agent e.client.user_agent;
  },
  record r {
    method = fill r.method e.request.method;
    host = fill r.host e.request.host;
    path = fill r.path e.request.path;
    query = fill r.query e.request.query;
  },
)

unfoldable pub denormalize : List Event → Client × Request
denormalize ordered = denormalize_from ordered (
  record { ip = []; asn = 0; country = []; user_agent = [] },
  record {
    method = [];
    host = [];
    path = [];
    query = [];
    http_version = [];
    headers = [];
    body_ref = [];
    body_truncated = false;
  },
)

unfoldable pub is_no_tier : Tier → Bool
is_no_tier Tier.no_tier = true
is_no_tier _ = false

unfoldable pub completeness_of : Flow → Bool → Completeness
unfolding is_no_tier
completeness_of f closed =
    if is_no_tier f.method
    then ambiguous
    else if length f.layers_missing == 0
    then complete
    else if not closed
    then complete
    else partial

-- 1.0, 0.6 with its corrections, and 0.0, in tenths.
unfoldable pub confidence_by : Tier → ℕ → Bool → ℕ
confidence_by Tier.exact present skewed = 10
confidence_by Tier.heuristic present skewed =
    let score = if leb 3 present then 6 + 1 else 6 in if skewed then score - 2 else score
confidence_by _ present skewed = 0

unfoldable pub confidence_of : Flow → ℕ
confidence_of f =
    confidence_by f.method (length f.layers_present)
      (has_flag f.data_quality_flags QualityFlag.clock_skew)

add_flags : List QualityFlag → List QualityFlag → List QualityFlag
add_flags flags [] = flags
add_flags flags (f ∷ rest) = add_flags (add_flag flags f) rest

event_flags : List QualityFlag → List Event → List QualityFlag
unfolding add_flags
event_flags flags [] = flags
event_flags flags (e ∷ rest) = event_flags (add_flags flags e.data_quality_flags) rest

unfoldable pub is_heuristic : Tier → Bool
is_heuristic Tier.heuristic = true
is_heuristic _ = false

add_flag_if : Bool → QualityFlag → List QualityFlag → List QualityFlag
add_flag_if b f flags = if b then add_flag flags f else flags

unfoldable pub propagate_flags : Flow → List Event → Flow
unfolding event_flags is_heuristic add_flag_if
propagate_flags f ordered = record f {
  data_quality_flags = add_flag_if f.bridged QualityFlag.bridged_correlation (
      add_flag_if (is_heuristic f.method) QualityFlag.heuristic_correlation (
        add_flag_if (detect_skew ordered).0 QualityFlag.clock_skew
          (event_flags f.data_quality_flags ordered)));
}

-- The test `i == 0` of the loop is the flag `at_start`.
span_from : Bool → List Event → Time × Time → Time × Time
span_from at_start [] acc = acc
span_from at_start (e ∷ rest) (first, last) = span_from false rest (
    if is_zero e.event_time then (first, last) else (
      (if at_start || (is_zero first || ltb e.event_time first) then e.event_time else first),
      (if ltb last e.event_time then e.event_time else last),
    ))

unfoldable pub time_span : List Event → Time × Time
unfolding span_from
time_span ordered = span_from true ordered (zero_time, zero_time)

unfoldable pub flow_id_of : Str → Str
flow_id_of correlation_key = str "flow:" ++ correlation_key
