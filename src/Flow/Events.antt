-- ===== src/Flow/Events.antt =====
-- The events of a flow are those that it was made from.
use mathlib.Core.List.Perm
use siem_v.Prelude.{
  ◌++◌, ◌||◌, ◌≡◌, ◌≢◌, refl, sym, Bool, some, List, [], ◌∷◌, any, any-perm, arith,
}
use siem_v.Prelude.Text.{Str, str_eq}
use siem_v.Prelude.Sort.{sort-permᴰ}
use siem_v.Schema.{Event}
use siem_v.Order.{order_events, event_less}
use siem_v.Order.Sorted.{order_events-perm}
use siem_v.Flow.{Flow, Options, propagate_flags}
use siem_v.Flow.Materialize.{draft_flow, finish_flow, materialize_ordered, materialize}

materialize_ordered-events :
    (key : Str) (ordered : List Event) (opts : Options) (f : Flow)
    → materialize_ordered key ordered opts ≡ some f
    → f.events ≡ ordered
unfolding materialize_ordered finish_flow draft_flow propagate_flags
materialize_ordered-events key [] opts f h = cc
materialize_ordered-events key (e ∷ rest) opts f h = ground arith

pub materialize-events :
    (key : Str) (events : List Event) (opts : Options) (f : Flow)
    → materialize key events opts ≡ some f
    → f.events ≡ order_events events
unfolding materialize
materialize-events key events opts f h =
    materialize_ordered-events key (order_events events) opts f h

materialize_ordered_total :
    (key : Str) (ordered : List Event) (opts : Options)
    → ordered ≢ []
    → (f : Flow) × (materialize_ordered key ordered opts ≡ some f)
unfolding materialize_ordered
materialize_ordered_total key [] opts n = absurd (n refl)
materialize_ordered_total key (e ∷ rest) opts n = (_, refl)

-- A flow is made of any events.
pub materialize_total :
    (key : Str) (events : List Event) (opts : Options)
    → events ≢ []
    → (f : Flow) × (materialize key events opts ≡ some f)
unfolding materialize
materialize_total key events opts n =
    materialize_ordered_total key (order_events events) opts
      (λ empty. n (sym (Perm.nil-eq (rw (← empty) (order_events-perm events)))))

-- What is true of some event before the events are ordered is so afterwards.
pub any-order_events :
    (p : Event → Bool) (events : List Event) → any p (order_events events) ≡ any p events
unfolding order_events
any-order_events p events = sym (any-perm p (sort-permᴰ event_less events))

-- An event of the list has the id.
abbrev pub has_id : Str → List Event → Bool
has_id s events = any (λ e. str_eq e.event_id s) events

pub has_id-append :
    (s : Str) (xs ys : List Event) → has_id s (xs ++ ys) ≡ (has_id s xs || has_id s ys)
has_id-append s [] ys = refl
has_id-append s (x ∷ xs) ys = ground (arith, has_id-append s xs ys)
