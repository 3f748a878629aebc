-- ===== src/Flow/Amend.antt =====
-- `Amend` of backend/internal/biz/flow/amend.go. The loader's answer and the store's are parameters.
pub mod Repeated
use siem_v.Prelude.{Bool, true, Option, none, some, List, [], ◌∷◌, ◌++◌, any, if◌then◌else◌}
use siem_v.Prelude.Text.{Str, str_eq}
use siem_v.Prelude.Time.{Time}
use siem_v.Schema.{Event, QualityFlag, add_flag}
use siem_v.Order.{detect_skew}
use siem_v.Flow.{Flow, Options, flow_id_of}
use siem_v.Flow.Materialize.{materialize}

pub data Loaded : Type 0 where
  load_error : Str → Loaded
  missing : Loaded
  found : Flow → Loaded

-- What `Amend` returns: an error, no flow, the stored flow as it is, or the amended one, written.
pub data Outcome : Type 0 where
  load_failed store_failed : Str → Outcome
  made_nothing no_flow : Outcome
  kept stored : Flow → Outcome

-- The expected layers are not passed on, so that those of `Materialize` apply.
unfoldable pub amend_options : Flow → Time → Options
amend_options existing now = record {
  tenant = existing.tenant;
  expected_layers = [];
  method = existing.method;
  bridged = existing.bridged;
  closed = true;
  now = now;
}

unfoldable pub mark : Flow → Flow → Flow
mark existing f = record f {
  amended = true;
  closed_at = existing.closed_at;
  data_quality_flags =
      if (detect_skew f.events).0
      then add_flag f.data_quality_flags QualityFlag.clock_skew
      else f.data_quality_flags;
}

unfoldable pub store_amended : Flow → Option Str → Outcome
store_amended f none = stored f
store_amended f (some cause) = store_failed cause

unfoldable pub amend_new : (Flow → Option Str) → Flow → Option Flow → Outcome
amend_new write existing none = made_nothing
amend_new write existing (some f) = store_amended (mark existing f) (write (mark existing f))

unfoldable pub amend_found : (Flow → Option Str) → Time → Str → Event → Flow → Outcome
amend_found write now key late existing =
    if any (λ e. str_eq e.event_id late.event_id) existing.events
    then kept existing
    else amend_new write existing
        (materialize key (existing.events ++ late ∷ []) (amend_options existing now))

unfoldable pub amend_loaded : (Flow → Option Str) → Time → Str → Event → Loaded → Outcome
amend_loaded write now key late (load_error cause) = load_failed cause
amend_loaded write now key late missing = no_flow
amend_loaded write now key late (found existing) = amend_found write now key late existing

unfoldable pub amend :
    (Str → Str → Loaded) → (Flow → Option Str) → Time → Str → Str → Event → Outcome
amend load write now tenant key late =
    amend_loaded write now key late (load tenant (flow_id_of key))
