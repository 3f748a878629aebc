-- ===== src/Schema.antt =====
-- The common event schema: backend/internal/normalize/schema/event.go. A Go `string` type with
-- named constants is a data type with a constructor for each and `other` for every other text; but of
-- the quality flags there are only the named ones.
mod Equality
unfoldable pub use Equality.*
use siem_v.Prelude.{
  ℕ, Bool, true, false, Option, none, some, List, [], ◌∷◌, ◌++◌, any, if◌then◌else◌,
}
use siem_v.Prelude.Text.{Str}
use siem_v.Prelude.Time.{Time, ℤ}
use siem_v.Prelude.Maps.{Map}
use Equality.{
  Layer, Action, QualityFlag, flag_eq, edge, bot_management, app_firewall, origin, other,
}
use Equality.{challenge_failed, rate_limited, blocked}

-- A value of Go's `any`, as far as the code looks into one.
pub data Any : Type 0 where
  text : Str → Any
  time : Time → Any
  opaque : Any

-- The causal position of a layer in the request path, if the layer is known.
unfoldable pub layer_order : Layer → Option ℕ
layer_order edge = some 0
layer_order bot_management = some 1
layer_order app_firewall = some 2
layer_order origin = some 3
layer_order (other s) = none

unfoldable pub terminal : Action → Bool
terminal blocked = true
terminal challenge_failed = true
terminal rate_limited = true
terminal _ = false

pub data TimeQuality : Type 0 where
  ok skewed implausible : TimeQuality

pub data KeySource : Type 0 where
  ray_id vendor_request_id heuristic no_source : KeySource

pub record Client : Type 0 where
  pub ip : Str
  pub asn : ℕ
  pub country : Str
  pub user_agent : Str

pub record Request : Type 0 where
  pub method : Str
  pub host : Str
  pub path : Str
  pub query : Str
  pub http_version : Str
  pub headers : Map Str
  pub body_ref : Str
  pub body_truncated : Bool

pub record Shape : Type 0 where
  pub request_bytes : Option ℕ
  pub header_count : Option ℕ
  pub header_bytes : Option ℕ
  pub cookie_count : Option ℕ
  pub cookie_names : List Str
  pub body_form : Str

-- A duration in whole microseconds.
pub record Response : Type 0 where
  pub status : ℕ
  pub bytes : ℕ
  pub duration_us : ℕ
  pub cache_status : Str

-- A score in thousandths.
pub record Verdict : Type 0 where
  pub action : Action
  pub terminating : Bool
  pub rule_id : Str
  pub rule_name : Str
  pub rule_version : Str
  pub category : Str
  pub score : Option ℕ
  pub threshold : Option ℕ
  pub reason_raw : Map Any
  pub mapped : Bool

-- Scores in thousandths, but for the whole number `cf_bot_score`.
pub record Bot : Type 0 where
  pub cf_bot_score : Option ℕ
  pub datadome_present : Bool
  pub datadome_isbot : Str
  pub datadome_botname : Str
  pub datadome_ruletype : Str
  pub datadome_score : Option ℕ
  pub datadome_riskscore : Option ℕ
  pub datadome_action : Str

pub record Event : Type 0 where
  pub schema_version : Str
  pub event_id : Str
  pub raw_id : Str
  pub tenant : Str
  pub provider : Str
  pub dataset : Str
  pub parser_version : Str
  pub identifiers : List Str
  pub correlation_key : Str
  pub correlation_key_source : KeySource
  pub ray_id : Str
  pub vendor_request_id : Str
  pub event_time : Time
  pub received_at : Time
  pub clock_skew_ms : ℤ
  pub time_quality : TimeQuality
  pub layer : Layer
  pub layer_order_hint : ℕ
  pub client : Client
  pub request : Request
  pub response : Response
  pub verdict : Verdict
  pub bot : Option Bot
  pub shape : Option Shape
  pub data_quality_flags : List QualityFlag
  pub unmapped_fields : Map Any
  pub masked_fields : List Str

-- `HasFlag` and `AddFlag`, on the list of flags that an event and a flow both carry.
unfoldable pub has_flag : List QualityFlag → QualityFlag → Bool
has_flag flags f = any (λ got. flag_eq got f) flags

unfoldable pub add_flag : List QualityFlag → QualityFlag → List QualityFlag
unfolding has_flag
add_flag flags f = if has_flag flags f then flags else flags ++ f ∷ []

pub event_has_flag : Event → QualityFlag → Bool
event_has_flag e f = has_flag e.data_quality_flags f

pub event_add_flag : Event → QualityFlag → Event
event_add_flag e f = record e { data_quality_flags = add_flag e.data_quality_flags f }
