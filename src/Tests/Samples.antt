-- ===== src/Tests/Samples.antt =====
-- One request as three layers report it, and another that the edge blocked.
use siem_v.Prelude.{ℕ, ◌*◌, true, false, none, List, [], ◌∷◌}
use siem_v.Prelude.Text.{Str, str}
use siem_v.Prelude.Time.{pos, minute, second}
use siem_v.Schema.{Event, Layer, Action, TimeQuality, KeySource, Client, Request, Verdict}
use siem_v.Window.{Window, State}

abbrev pub sample_client : Client
sample_client = record {
  ip = str "192.0.2.7";
  asn = 64500;
  country = str "NL";
  user_agent = str "curl";
}

abbrev pub sample_request : Request
sample_request = record {
  method = str "GET";
  host = str "Shop.example";
  path = str "/cart";
  query = [];
  http_version = str "2";
  headers = [];
  body_ref = [];
  body_truncated = false;
}

abbrev pub sample_verdict : Action → Verdict
sample_verdict a = record {
  action = a;
  terminating = false;
  rule_id = [];
  rule_name = [];
  rule_version = [];
  category = [];
  score = none;
  threshold = none;
  reason_raw = [];
  mapped = true;
}

abbrev pub sample_event : Str → Layer → Action → ℕ → List Str → Event
sample_event id layer action at ids = record {
  schema_version = str "1";
  event_id = id;
  raw_id = id;
  tenant = str "t1";
  provider = str "cloudflare";
  dataset = [];
  parser_version = [];
  identifiers = ids;
  correlation_key = [];
  correlation_key_source = KeySource.no_source;
  ray_id = [];
  vendor_request_id = [];
  event_time = at;
  received_at = at;
  clock_skew_ms = pos 0;
  time_quality = TimeQuality.ok;
  layer = layer;
  layer_order_hint = 0;
  client = sample_client;
  request = sample_request;
  response = record { status = 200; bytes = 10; duration_us = 70; cache_status = str "miss" };
  verdict = sample_verdict action;
  bot = none;
  shape = none;
  data_quality_flags = [];
  unmapped_fields = [];
  masked_fields = [];
}

abbrev pub edge_event : Event
edge_event =
    sample_event (str "e") Layer.edge Action.allowed (2 * second) (str "ray:b" ∷ str "ray:c" ∷ [])

abbrev pub bot_event : Event
bot_event =
    sample_event (str "d") Layer.bot_management Action.allowed (1 * second) (str "ray:b" ∷ [])

abbrev pub origin_event : Event
origin_event = sample_event (str "o") Layer.origin Action.allowed (3 * second) (str "ray:c" ∷ [])

abbrev pub blocked_event : Event
blocked_event = sample_event (str "x") Layer.edge Action.blocked (5 * second) (str "ray:z" ∷ [])

abbrev pub sample_events : List Event
sample_events = origin_event ∷ edge_event ∷ bot_event ∷ []

abbrev pub open_state : Str → List Event → ℕ → State
open_state key events at = record {
  correlation_key = key;
  tenant = str "t1";
  events = events;
  first_arrival = at;
  last_arrival = at;
  closed = false;
  closed_at = 0;
  amended = false;
}

abbrev pub bot_state : State
bot_state = open_state (str "ray:b") (bot_event ∷ []) (2 * second)

abbrev pub origin_state : State
origin_state = open_state (str "ray:c") (origin_event ∷ []) (3 * second)

abbrev pub blocked_state : State
blocked_state = open_state (str "ray:z") (blocked_event ∷ []) (6 * second)

-- Three requests in flight.
abbrev pub sample_window : Window
sample_window = record {
  opts = record { late_arrival = pos (15 * minute); expected_layers = pos 4 };
  states =
      (str "ray:b", bot_state) ∷ (str "ray:c", origin_state) ∷ (str "ray:z", blocked_state) ∷ [];
}
