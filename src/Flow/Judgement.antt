-- ===== src/Flow/Judgement.antt =====
-- What a flow is judged by: its completeness, whatever the order of its events.
use siem_v.Prelude.{ℕ, ◌≡◌, ◌≢◌, ◌↔◌, refl, ap, true, false, some, List, [], ◌∷◌, All, Permᴰ, arith}
use siem_v.Prelude.Text.{Str}
use siem_v.Schema.{Event, Layer, layer_order, layer_eq}
use siem_v.Keys.{Tier}
use siem_v.Order.{order_events}
use siem_v.Order.Sorted.{IsRecorded, order_events-eq_of_perm}
use siem_v.Flow.{Flow, Options, Completeness, no_layer, completeness_of, propagate_flags}
use siem_v.Flow.Materialize.{draft_flow, finish_flow, materialize_ordered, materialize}

-- The known layers are not the empty text.
pub known-ne-no_layer : (l : Layer) (b : ℕ) → layer_order l ≡ some b → layer_eq l no_layer ≡ false
unfolding layer_order layer_eq
known-ne-no_layer Layer.edge b h = refl
known-ne-no_layer (Layer.other s) b h = cc
known-ne-no_layer _ b h = refl

materialize_ordered-partial_iff :
    (key : Str) (ordered : List Event) (opts : Options) (f : Flow)
    → materialize_ordered key ordered opts ≡ some f
    → (f.completeness ≡ Completeness.partial)
      ↔ ((opts.method ≢ Tier.no_tier) × (opts.closed ≡ true) × (f.layers_missing ≢ []))
unfolding materialize_ordered finish_flow draft_flow propagate_flags completeness_of
materialize_ordered-partial_iff key [] opts f h = cc
materialize_ordered-partial_iff key (e ∷ rest) opts f h = (λ p. ground arith, λ p. ground arith)

-- A flow is partial exactly if it is closed, lacks a layer, and was joined at some tier.
pub materialize-partial_iff :
    (key : Str) (events : List Event) (opts : Options) (f : Flow)
    → materialize key events opts ≡ some f
    → (f.completeness ≡ Completeness.partial)
      ↔ ((opts.method ≢ Tier.no_tier) × (opts.closed ≡ true) × (f.layers_missing ≢ []))
unfolding materialize
materialize-partial_iff key events opts f h =
    materialize_ordered-partial_iff key (order_events events) opts f h

-- The same events in another order give the same flow, where event ids identify events.
pub materialize-eq_of_perm :
    (record_of : Str → Event) (key : Str) (xs ys : List Event) (opts : Options)
    → All (IsRecorded record_of) xs
    → Permᴰ xs ys
    → materialize key xs opts ≡ materialize key ys opts
unfolding materialize
materialize-eq_of_perm record_of key xs ys opts ids p =
    ap (λ ordered. materialize_ordered key ordered opts)
      (order_events-eq_of_perm record_of xs ys ids p)
