-- ===== src/Flow/Materialize.antt =====
-- `Materialize` of backend/internal/biz/flow/materialize.go, and `SortFlows`.
use siem_v.Prelude.{false, Option, none, some, List, [], ◌∷◌, ltb, if◌then◌else◌}
use siem_v.Prelude.Text.{Str}
use siem_v.Prelude.Sort.{sort}
use siem_v.Schema.{Event, Layer}
use siem_v.Order.{order_events}
use siem_v.Flow.{
  Flow, Options, Completeness, expected_layers, completeness_boundary, expected_up_to,
  layer_coverage, resolve_outcome, timing_attribution, denormalize, completeness_of, confidence_of,
  propagate_flags, time_span, flow_id_of,
}

unfoldable pub or_default : List Layer → List Layer
or_default [] = expected_layers
or_default (l ∷ ls) = l ∷ ls

-- The layers that the flow is judged by: those up to the boundary of its path.
unfoldable pub expected_of : List Event → Layer → Options → List Layer
expected_of ordered terminating opts =
    expected_up_to (or_default opts.expected_layers) (completeness_boundary ordered terminating)

-- The flow before its completeness, confidence and flags are known.
unfoldable pub draft_flow : Str → Event → List Event → Options → Flow
draft_flow key e rest opts =
    let outcome = resolve_outcome e rest in
    let coverage = layer_coverage (e ∷ rest) (expected_of (e ∷ rest) outcome.1 opts) in
    record {
      flow_id = flow_id_of key;
      tenant = opts.tenant;
      correlation_key = key;
      events = e ∷ rest;
      layers_present = coverage.0;
      layers_missing = coverage.1;
      completeness = Completeness.complete;
      method = opts.method;
      confidence = 0;
      bridged = opts.bridged;
      effective_outcome = outcome.0;
      terminating_layer = outcome.1;
      first_seen = (time_span (e ∷ rest)).0;
      last_seen = (time_span (e ∷ rest)).1;
      closed_at = none;
      timing_attribution = timing_attribution (e ∷ rest);
      amended = false;
      data_quality_flags = [];
      client = (denormalize (e ∷ rest)).0;
      request = (denormalize (e ∷ rest)).1;
    }

-- Completeness first, then confidence, then the closing time, and the flags last.
unfoldable pub finish_flow : Flow → List Event → Options → Flow
finish_flow f ordered opts =
    let judged = record f { completeness = completeness_of f opts.closed } in
    let scored = record judged { confidence = confidence_of judged } in
    let stamped = record scored { closed_at = if opts.closed then some opts.now else none } in
    propagate_flags stamped ordered

unfoldable pub materialize_ordered : Str → List Event → Options → Option Flow
materialize_ordered key [] opts = none
materialize_ordered key (e ∷ rest) opts =
    some (finish_flow (draft_flow key e rest opts) (e ∷ rest) opts)

-- Ordering the events of a flow loses none, so `none` stands for the empty list that the source tests.
unfoldable pub materialize : Str → List Event → Options → Option Flow
materialize key events opts = materialize_ordered key (order_events events) opts

-- Newest first.
unfoldable pub sort_flows : List Flow → List Flow
sort_flows flows = sort (λ a b. ltb b.first_seen a.first_seen) flows
