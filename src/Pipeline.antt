-- ===== src/Pipeline.antt =====
-- The state of the correlation pipeline: backend/internal/biz/flow/pipeline.go. The mutexes are not
-- modelled: each method below runs as one step, as it does under `mu`.
pub mod Correlate
pub mod Flush
pub mod Process
pub mod Restart
use siem_v.Prelude.{
  ℕ, Bool, true, false, Option, none, some, List, [], ◌∷◌, ◌++◌, any, if◌then◌else◌,
}
use siem_v.Prelude.Text.{Str, str_eq}
use siem_v.Prelude.Time.{Time}
use siem_v.Prelude.Maps.{Map, lookup, put}
use siem_v.Schema.{Event, Layer}
use siem_v.Keys.{Identifier, parse_identifier}
use siem_v.Window.{Window}

-- `group.Record`.
pub record Record : Type 0 where
  pub event_id : Str
  pub provider : Str
  pub identifiers : List Identifier

-- The fields that correlation reads and writes. A set of texts is the list of its members.
pub record Pipeline : Type 0 where
  pub window : Window
  pub expected_layers : List Layer
  pub events : Map Event
  pub records : List Record
  pub bridged : Map Bool
  pub id_index : Map Str
  pub key_ids : Map (List Str)
  pub recent_keys : Map Time

-- `NewPipeline`, with the layers that the caller sets later.
unfoldable pub new_pipeline : Window → List Layer → Pipeline
new_pipeline w layers = record {
  window = w;
  expected_layers = layers;
  events = [];
  records = [];
  bridged = [];
  id_index = [];
  key_ids = [];
  recent_keys = [];
}

unfoldable pub member : Str → List Str → Bool
member s set = any (λ t. str_eq t s) set

unfoldable pub set_add : Str → List Str → List Str
unfolding member
set_add s set = if member s set then set else set ++ s ∷ []

unfoldable pub parse_all : List Str → List Identifier
parse_all [] = []
parse_all (s ∷ rest) = parse_identifier s ∷ parse_all rest

unfoldable pub record_of : Event → Record
record_of e = record {
  event_id = e.event_id;
  provider = e.provider;
  identifiers = parse_all e.identifiers;
}

unfoldable pub accumulate_new : Option Event → Pipeline → Event → Pipeline
accumulate_new (some seen) p e = p
accumulate_new none p e = record p {
  events = put e.event_id e p.events;
  records = p.records ++ record_of e ∷ [];
}

-- A redelivered event is passed over.
unfoldable pub accumulate : Pipeline → Event → Pipeline
accumulate p e = accumulate_new (lookup e.event_id p.events) p e
