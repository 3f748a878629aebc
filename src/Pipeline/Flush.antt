-- ===== src/Pipeline/Flush.antt =====
-- `Flush` of backend/internal/biz/flow/pipeline.go, its closing of windows under `mu`, and
-- `mergeWithStored`. What the store holds under a flow id is the parameter `load`.
pub mod Closing
pub mod Made
pub mod Stragglers
pub mod Emit
use siem_v.Prelude.{
  ℕ, ◌+◌, Bool, true, false, ◌&&◌, ◌||◌, not, Option, none, some, List, [], ◌∷◌, ◌++◌, length, ltb,
  leb, if◌then◌else◌,
}
use siem_v.Prelude.Text.{Str, str, str_eq, has_prefix}
use siem_v.Prelude.Time.{Time, hour, pos, ltb_ℤ, time_sub}
use siem_v.Prelude.Maps.{Map, lookup, put, delete}
use siem_v.Schema.{Event}
use siem_v.Keys.{Tier}
use siem_v.Window.{State, Window, ready}
use siem_v.Flow.{Flow, Options}
use siem_v.Flow.Materialize.{materialize}
use siem_v.Pipeline.{Pipeline, member}
use siem_v.Pipeline.Correlate.{ids_of, is_bridged}

unfoldable pub method_for : Str → Tier
method_for key = if has_prefix key (str "heur:") then Tier.heuristic else Tier.exact

unfoldable pub flow_options : Pipeline → Time → State → Options
flow_options p now st = record {
  tenant = st.tenant;
  expected_layers = p.expected_layers;
  method = method_for st.correlation_key;
  bridged = is_bridged p.bridged st.correlation_key;
  closed = true;
  now = now;
}

unfoldable pub delete_keys {ℓ} : {V : Type ℓ} → List Str → Map V → Map V
delete_keys [] m = m
delete_keys (k ∷ ks) m = delete_keys ks (delete k m)

unfoldable pub collect_event_ids : List Event → List Str
collect_event_ids [] = []
collect_event_ids (e ∷ rest) = e.event_id ∷ collect_event_ids rest

-- What the pipeline forgets of a window that has closed.
unfoldable pub forget : Pipeline → State → Pipeline
forget p st = record p {
  events = delete_keys (collect_event_ids st.events) p.events;
  bridged = delete st.correlation_key p.bridged;
  id_index = delete_keys (ids_of p.key_ids st.correlation_key) p.id_index;
  key_ids = delete st.correlation_key p.key_ids;
}

unfoldable pub stamp : Flow → State → Flow
stamp f st = record f { amended = st.amended; correlation_key = st.correlation_key }

-- A state without events makes no flow, and nothing is forgotten of it.
unfoldable pub close_state : Option Flow → State → Pipeline → List Flow × Pipeline
close_state none st p = ([], p)
close_state (some f) st p = (stamp f st ∷ [], forget p st)

unfoldable pub close_states : Time → List State → Pipeline → List Flow × Pipeline
close_states now [] p = ([], p)
close_states now (st ∷ rest) p =
    let (flow, q) =
      close_state (materialize st.correlation_key st.events (flow_options p now st)) st p in
    let (flows, r) = close_states now rest q in (flow ++ flows, r)

-- The part of `Flush` that holds the lock.
unfoldable pub close_windows : Time → Pipeline → List Flow × Pipeline
close_windows now p =
    let (done, w) = ready p.window now in close_states now done (record p { window = w })

-- The events of a list whose ids were not seen before, in order; the flag says that there was one.
unfoldable pub collect : List Event → List Str × List Event × Bool → List Str × List Event × Bool
collect [] acc = acc
collect (e ∷ rest) (seen, events, added) = collect rest (
    if member e.event_id seen
    then (seen, events, added)
    else (e.event_id ∷ seen, events ++ e ∷ [], true))

unfoldable pub mark_amended : Option Flow → Option Flow
mark_amended none = none
mark_amended (some f) = some (record f { amended = true })

unfoldable pub merged_options : Pipeline → Str → Flow → Flow → Time → Options
merged_options p tenant existing late now = record {
  tenant = tenant;
  expected_layers = p.expected_layers;
  method = existing.method;
  bridged = existing.bridged || late.bridged;
  closed = true;
  now = now;
}

-- The first pass goes over the stored events, the second over the late ones.
unfoldable pub merge_flows : Pipeline → Str → Str → Flow → Flow → Time → Option Flow
merge_flows p tenant key existing late now =
    let (seen, old, _) = collect existing.events ([], [], false) in
    let (_, events, added) = collect late.events (seen, old, false) in
    if added
    then mark_amended (materialize key events (merged_options p tenant existing late now))
    else some existing

unfoldable pub merge_with_stored : Pipeline → Option Flow → Str → Str → Flow → Time → Option Flow
merge_with_stored p none tenant key late now = none
merge_with_stored p (some existing) tenant key late now = merge_flows p tenant key existing late now

unfoldable pub merged_or_own : Option Flow → Flow → Flow
merged_or_own none f = f
merged_or_own (some merged) f = record merged { correlation_key = f.correlation_key }

abbrev pub is_recent : Map Time → Str → Bool
is_recent recent key = elim (lookup key recent) [ none ↦ false | some t ↦ true ]

-- `load tenant flow_id` is the stored flow; an error of the loader is `none` too.
unfoldable pub straggler_merge : (Str → Str → Option Flow) → Pipeline → Time → Flow → Flow
straggler_merge load p now f =
    if is_recent p.recent_keys f.correlation_key
    then merged_or_own
        (merge_with_stored p (load f.tenant f.flow_id) f.tenant f.correlation_key f now) f
    else f

abbrev pub merge_horizon : ℕ
merge_horizon = hour

unfoldable pub drop_old : Time → Map Time → Map Time
drop_old now [] = []
drop_old now ((k, at) ∷ m) =
    let rest = drop_old now m in
    if ltb_ℤ (pos merge_horizon) (time_sub now at) then rest else (k, at) ∷ rest

-- Below this size the map is left alone.
abbrev pub prune_limit : ℕ
prune_limit = 500000

unfoldable pub prune_recent_keys : ℕ → Time → Map Time → Map Time
prune_recent_keys limit now recent =
    if ltb (length recent) limit then recent else drop_old now recent
