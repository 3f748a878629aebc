-- ===== src/Tests/Flows.antt =====
-- The theorems on flows, applied to the samples.
use siem_v.Prelude.{
  none, ap, List, ◌*◌, ◌≡◌, ◌↔◌, Memᴰ, refl, true, false, some, [], ◌∷◌, if◌then◌else◌,
}
use siem_v.Prelude.Text.{Str, str, str_eq}
use siem_v.Prelude.Time.{minute}
use siem_v.Schema.{Event, Layer}
use siem_v.Order.{order_events}
use siem_v.Keys.{Tier}
use siem_v.Flow.{Flow, Options, expected_layers}
use siem_v.Flow.Materialize.{materialize, finish_flow, draft_flow}
use siem_v.Flow.Events.{materialize_total, materialize-events, has_id}
use siem_v.Flow.Outcome.{IsOutcome, materialize-IsOutcome}
use siem_v.Flow.Missing.{IsMissing, materialize-IsMissing_iff}
use siem_v.Pipeline.{Pipeline, new_pipeline}
use siem_v.Pipeline.Flush.{merge_flows}
use siem_v.Pipeline.Flush.Stragglers.{IsMerge, merge_flows-IsMerge, merge_flows_repeated}
use siem_v.Flow.Amend.{amend, found, kept, stored}
use siem_v.Flow.Amend.Repeated.{IsAmendment, amend_repeated}
use siem_v.Tests.Samples.{
  blocked_event, sample_window, edge_event, bot_event, origin_event, sample_events,
}

abbrev sample_options : Options
sample_options = record {
  tenant = str "t1";
  expected_layers = expected_layers;
  method = Tier.exact;
  bridged = true;
  closed = true;
  now = 20 * minute;
}

sample_made : (f : Flow) × (materialize (str "ray:b") sample_events sample_options ≡ some f)
sample_made = materialize_total (str "ray:b") sample_events sample_options (λ h. cc)

materialize-IsOutcome_example :
    IsOutcome sample_made.0.effective_outcome sample_made.0.terminating_layer
      (order_events sample_events)
materialize-IsOutcome_example =
    materialize-IsOutcome (str "ray:b") sample_events sample_options sample_made.0 sample_made.1

materialize-IsMissing_iff_example :
    Memᴰ Layer.app_firewall sample_made.0.layers_missing
    ↔ IsMissing sample_events sample_made.0.terminating_layer sample_options Layer.app_firewall
materialize-IsMissing_iff_example =
    materialize-IsMissing_iff (str "ray:b") sample_events sample_options sample_made.0
      Layer.app_firewall sample_made.1

-- The event that each sample id stands for.
abbrev sample_record : Str → Event
sample_record id =
    if str_eq id (str "e")
    then edge_event
    else if str_eq id (str "d")
    then bot_event
    else origin_event

-- The sample flow, with its events in causal order.
abbrev sample_flow : Flow
sample_flow =
    finish_flow (draft_flow (str "ray:b") edge_event (bot_event ∷ origin_event ∷ []) sample_options)
      (edge_event ∷ bot_event ∷ origin_event ∷ []) sample_options

-- The flow of one late event.
late_made : (f : Flow) × (materialize (str "ray:b") (edge_event ∷ []) sample_options ≡ some f)
late_made = materialize_total (str "ray:b") (edge_event ∷ []) sample_options (λ h. cc)

early_made : (f : Flow) × (materialize (str "ray:b") (bot_event ∷ []) sample_options ≡ some f)
early_made = materialize_total (str "ray:b") (bot_event ∷ []) sample_options (λ h. cc)

abbrev idle_pipeline : Pipeline
idle_pipeline = new_pipeline sample_window expected_layers

merge_flows-IsMerge_example :
    (m : Flow) × (merge_flows idle_pipeline
        (str "t1")
        (str "ray:b")
        early_made.0
        late_made.0
        (21 * minute)
      ≡ some m)
    × IsMerge early_made.0 late_made.0 m
merge_flows-IsMerge_example =
    merge_flows-IsMerge idle_pipeline (str "t1") (str "ray:b") early_made.0 late_made.0
      (21 * minute)

-- The two flows merged.
both_made :
    (m : Flow) × (merge_flows idle_pipeline
        (str "t1")
        (str "ray:b")
        early_made.0
        late_made.0
        (21 * minute)
      ≡ some m)
both_made =
    let (m, made, _) =
      merge_flows-IsMerge idle_pipeline (str "t1") (str "ray:b") early_made.0 late_made.0
        (21 * minute) in
    (m, made)

merge_flows_repeated_example :
    merge_flows idle_pipeline (str "t1") (str "ray:b") both_made.0 late_made.0 (22 * minute)
    ≡ some both_made.0
merge_flows_repeated_example =
    merge_flows_repeated idle_pipeline (str "t1") (str "ray:b") early_made.0 late_made.0 both_made.0
      (21 * minute) (22 * minute) both_made.1

-- One layer let the request through and another stopped it.
abbrev opposed_events : List Event
opposed_events = edge_event ∷ blocked_event ∷ []

early_made-lacks : has_id (str "e") early_made.0.events ≡ false
unfolding order_events str_eq
early_made-lacks =
    ap (has_id (str "e"))
      (materialize-events (str "ray:b") (bot_event ∷ []) sample_options early_made.0 early_made.1)

amend_repeated_example :
    (m : Flow) × (amend
        (λ tenant id. found early_made.0)
        (λ f. none)
        (21 * minute)
        (str "t1")
        (str "ray:b")
        edge_event
      ≡ stored m)
    × IsAmendment early_made.0 edge_event m
    × (amend (λ tenant id. found m) (λ f. none) (22 * minute) (str "t1") (str "ray:b") edge_event
        ≡ kept m)
amend_repeated_example =
    amend_repeated (λ tenant id. found early_made.0) (λ f. none) (21 * minute) (22 * minute)
      (str "t1") (str "ray:b") edge_event early_made.0 refl (λ f. refl) early_made-lacks
