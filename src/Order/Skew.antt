-- ===== src/Order/Skew.antt =====
-- What `DetectSkew` reports of a list in causal order.
use siem_v.Prelude.{◌≤◌, ◌≡◌, ◌≢◌, ◌↔◌, refl, Bool, false, none, List, [], ◌∷◌, All, arith}
use siem_v.Prelude.Time.{ℤ, pos}
use siem_v.Prelude.Sort.{IsSorted}
use siem_v.Schema.{Event, Layer, layer_order, layer_eq→eq, layer_eq_refl}
use siem_v.Order.{event_less, skew_step, skew_from, detect_skew}

abbrev pub IsKnown : Event → Type 0
IsKnown e = layer_order e.layer ≢ none

abbrev pub FollowInTime : Event → List Event → Type 0
FollowInTime prev [] = Unit {0}
FollowInTime prev (cur ∷ rest) = (prev.event_time ≤ cur.event_time) × FollowInTime cur rest

-- The time stamps never fall along the list.
abbrev pub IsChronological : List Event → Type 0
IsChronological [] = Unit {0}
IsChronological (e ∷ rest) = FollowInTime e rest

layer_eq_of_order : (k l : Layer) → layer_order k ≡ layer_order l → layer_order k ≢ none → k ≡ l
unfolding layer_order
layer_eq_of_order (Layer.other s) l h n = absurd (n refl)
layer_eq_of_order Layer.edge l h n = ground arith
layer_eq_of_order Layer.bot_management l h n = ground arith
layer_eq_of_order Layer.app_firewall l h n = ground arith
layer_eq_of_order Layer.origin l h n = ground arith

-- One step finds a contradiction exactly where the time falls.
skew_step_iff :
    (prev cur : Event) (acc : Bool × ℤ)
    → IsKnown prev
    → IsKnown cur
    → event_less cur prev ≡ false
    → ((skew_step (layer_order prev.layer) (layer_order cur.layer) prev cur acc).0 ≡ false)
      ↔ ((acc.0 ≡ false) × (prev.event_time ≤ cur.event_time))
unfolding skew_step event_less
skew_step_iff prev cur acc kp kc sorted = ground (
  arith,
  layer_eq_of_order prev.layer cur.layer,
  layer_eq_of_order cur.layer prev.layer,
  layer_eq→eq prev.layer cur.layer,
  layer_eq_refl prev.layer,
)

skew_from_iff :
    (prev : Event) (rest : List Event) (acc : Bool × ℤ)
    → IsKnown prev
    → All IsKnown rest
    → IsSorted event_less (prev ∷ rest)
    → ((skew_from prev rest acc).0 ≡ false) ↔ ((acc.0 ≡ false) × FollowInTime prev rest)
unfolding skew_from
skew_from_iff prev [] acc kp kr s = (λ h. (h, tt), λ h. h.0)
skew_from_iff prev (cur ∷ rest) acc kp kr s =
    let step = skew_step_iff prev cur acc kp kr.0 s.0.0 in
    let next =
      skew_from_iff cur rest
        (skew_step (layer_order prev.layer) (layer_order cur.layer) prev cur acc) kr.0 kr.1 s.1 in
    (
      λ h. ((step.0 (next.0 h).0).0, ((step.0 (next.0 h).0).1, (next.0 h).1)),
      λ h. next.1 (step.1 (h.0, h.1.0), h.1.1),
    )

-- On events of known layers in causal order, `detect_skew` reports a contradiction exactly if some
-- time stamp falls along the list.
pub detect_skew_iff :
    (events : List Event)
    → All IsKnown events
    → IsSorted event_less events
    → ((detect_skew events).0 ≡ false) ↔ IsChronological events
unfolding detect_skew
detect_skew_iff [] k s = (λ h. tt, λ h. refl)
detect_skew_iff (e ∷ rest) k s =
    let from = skew_from_iff e rest (false, pos 0) k.0 k.1 s in
    (λ h. (from.0 h).1, λ h. from.1 (refl, h))
