-- ===== src/Order/Sorted.antt =====
-- What `OrderEvents` promises: a permutation of the events, in causal order, that does not depend
-- on the order of arrival.
use siem_v.Prelude.{
  ℕ, Bool, refl, inl, inr, Option, none, some, [], ◌∷◌, ◌<◌, ◌⊎◌, All-map, ◌≡◌, ap, sym, ◌∙◌, true,
  false, List, All, Perm, Permᴰ, arith,
}
use siem_v.Prelude.Text.{Str, str_lt, str_lt_asymm, str_lt_compare, str_lt_total}
use siem_v.Prelude.Sort.{WeakOrder, IsSorted, sort-perm, sort-IsSorted, sort-eq_of_perm}
use siem_v.Schema.{Event, Layer, layer_order}
use siem_v.Order.{event_less, tie_less, position_less, order_events}

tie_less_asymm : (a b : Event) → tie_less a b ≡ true → tie_less b a ≡ false
unfolding tie_less
tie_less_asymm a b h = ground (arith, str_lt_asymm a.event_id b.event_id)

tie_less_compare :
    (a b c : Event) → tie_less a c ≡ true → tie_less b c ≡ false → tie_less a b ≡ true
unfolding tie_less
tie_less_compare a b c h k = ground (arith, str_lt_compare a.event_id b.event_id c.event_id)

event_less_asymm : (a b : Event) → event_less a b ≡ true → event_less b a ≡ false
unfolding event_less
event_less_asymm a b h = ground (arith, tie_less_asymm a b)

event_less_compare :
    (a b c : Event) → event_less a c ≡ true → event_less b c ≡ false → event_less a b ≡ true
unfolding event_less
event_less_compare a b c h k = ground (arith, tie_less_compare a b c)

pub event_less-WeakOrder : WeakOrder event_less
event_less-WeakOrder = record { asymm = event_less_asymm; compare = event_less_compare }

-- Events that neither precede one another have one id.
event_less_tie :
    (a b : Event) → event_less a b ≡ false → event_less b a ≡ false → a.event_id ≡ b.event_id
unfolding event_less tie_less
event_less_tie a b h k = ground (arith, str_lt_total a.event_id b.event_id)

-- `order_events` loses no event and adds none.
pub order_events-perm : (events : List Event) → Perm (order_events events) events
unfolding order_events
order_events-perm events = sort-perm event_less events

pub order_events-IsSorted : (events : List Event) → IsSorted event_less (order_events events)
unfolding order_events
order_events-IsSorted events = sort-IsSorted event_less-WeakOrder events

-- An event is the one that is recorded under its id.
abbrev pub IsRecorded : (Str → Event) → Event → Type 0
IsRecorded record_of e = record_of e.event_id ≡ e

-- Where event ids identify events, `order_events` gives the same list for every arrival order.
pub order_events-eq_of_perm :
    (record_of : Str → Event) (xs ys : List Event)
    → All (IsRecorded record_of) xs
    → Permᴰ xs ys
    → order_events xs ≡ order_events ys
unfolding order_events
order_events-eq_of_perm record_of xs ys ids p =
    sort-eq_of_perm event_less-WeakOrder (IsRecorded record_of)
      (λ a b ra rb h k. sym ra ∙ ap record_of (event_less_tie a b h k) ∙ rb) p ids

-- The place of a layer in the request path; all unknown layers come behind the known ones.
abbrev pub place_of : Option ℕ → ℕ
place_of none = 4
place_of (some n) = n

abbrev pub place : Event → ℕ
place e = place_of (layer_order e.layer)

-- The first event may stand before the second.
abbrev pub InOrder : Event → Event → Type 0
InOrder a b =
    (place a < place b)
    ⊎ ((place a ≡ place b)
        × ((a.event_time < b.event_time)
            ⊎ ((a.event_time ≡ b.event_time) × (str_lt b.event_id a.event_id ≡ false))))

abbrev pub IsCausal : List Event → Type 0
IsCausal [] = Unit
IsCausal (e ∷ rest) = All (InOrder e) rest × IsCausal rest

place_known : (l : Layer) → (layer_order l ≡ none) ⊎ (place_of (layer_order l) < 4)
unfolding layer_order
place_known (Layer.other s) = inl refl
place_known Layer.edge = inr (omega arith)
place_known Layer.bot_management = inr (omega arith)
place_known Layer.app_firewall = inr (omega arith)
place_known Layer.origin = inr (omega arith)

-- By places, with what the tie break says.
InOrder-places :
    (o q : Option ℕ) (tie : Bool)
    → (o ≡ none) ⊎ (place_of o < 4)
    → (q ≡ none) ⊎ (place_of q < 4)
    → position_less q o tie ≡ false
    → (place_of o < place_of q) ⊎ ((place_of o ≡ place_of q) × (tie ≡ false))
unfolding position_less
InOrder-places none none tie h k less = inr (refl, less)
InOrder-places none (some n) tie h k less = cc
InOrder-places (some n) none tie h k less = ground (arith, h)
InOrder-places (some n) (some m) tie h k less = ground arith

InOrder-of_event_less : (a b : Event) → event_less b a ≡ false → InOrder a b
unfolding event_less tie_less
InOrder-of_event_less a b h =
    let places =
      InOrder-places (layer_order a.layer) (layer_order b.layer) (tie_less b a)
        (place_known a.layer) (place_known b.layer) h in
    ground (arith, places)

IsCausal-of_IsSorted : (events : List Event) → IsSorted event_less events → IsCausal events
IsCausal-of_IsSorted [] h = tt
IsCausal-of_IsSorted (e ∷ rest) h = (
  All-map (λ x. event_less x e ≡ false) (InOrder e) rest (λ x. InOrder-of_event_less e x) h.0,
  IsCausal-of_IsSorted rest h.1,
)

-- The ordered list is a permutation of the events; in it no event comes before one of an outer
-- layer, known layers come before unknown ones, and events of one place in the path are in the order
-- of their times, then of their ids.
pub order_events-IsCausal :
    (events : List Event) → Perm (order_events events) events × IsCausal (order_events events)
order_events-IsCausal events = (
  order_events-perm events,
  IsCausal-of_IsSorted (order_events events) (order_events-IsSorted events),
)
