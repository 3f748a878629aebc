-- ===== src/Order.antt =====
-- The causal order of a flow's events: backend/internal/correlate/order.go.
pub mod Sorted
pub mod Skew
use siem_v.Prelude.{
  ℕ, ◌-◌, Bool, true, false, Option, none, some, List, [], ◌∷◌, ltb, ◌==◌, if◌then◌else◌,
}
use siem_v.Prelude.Text.{str_lt}
use siem_v.Prelude.Time.{ℤ, pos, time_sub, milliseconds, ltb_ℤ}
use siem_v.Prelude.Sort.{sort}
use siem_v.Schema.{Event, Layer, layer_order, layer_eq}

-- Within one position: by time, and events of one instant by id.
tie_less : Event → Event → Bool
tie_less a b =
    if a.event_time == b.event_time
    then str_lt a.event_id b.event_id
    else ltb a.event_time b.event_time

position_less : Option ℕ → Option ℕ → Bool → Bool
position_less (some i) none tie = true
position_less none (some j) tie = false
position_less (some i) (some j) tie = if i == j then tie else ltb i j
position_less none none tie = tie

-- The comparison that `OrderEvents` hands to the sort.
unfoldable pub event_less : Event → Event → Bool
unfolding tie_less position_less
event_less a b = position_less (layer_order a.layer) (layer_order b.layer) (tie_less a b)

unfoldable pub order_events : List Event → List Event
unfolding sort
order_events events = sort event_less events

-- What one pair of neighbours adds to the skew seen so far.
skew_step : Option ℕ → Option ℕ → Event → Event → Bool × ℤ → Bool × ℤ
skew_step (some i) (some j) prev cur (skewed, worst) =
    if layer_eq prev.layer cur.layer
    then (skewed, worst)
    else if ltb cur.event_time prev.event_time
    then (let delta = milliseconds (time_sub prev.event_time cur.event_time) in
        (true, (if ltb_ℤ worst delta then delta else worst)))
    else (skewed, worst)
skew_step _ _ prev cur acc = acc

skew_from : Event → List Event → Bool × ℤ → Bool × ℤ
unfolding skew_step
skew_from prev [] acc = acc
skew_from prev (cur ∷ rest) acc =
    skew_from cur rest (skew_step (layer_order prev.layer) (layer_order cur.layer) prev cur acc)

unfoldable pub detect_skew : List Event → Bool × ℤ
unfolding skew_from
detect_skew [] = (false, pos 0)
detect_skew (e ∷ rest) = skew_from e rest (false, pos 0)
