-- ===== src/Tests/Windows.antt =====
-- The theorems on the window and on the order of events, applied to the samples.
use siem_v.Prelude.{
  ◌*◌, ◌≡◌, ◌↔◌, refl, true, false, List, [], ◌∷◌, ◌++◌, All, Perm, Permᴰ, arith, if◌then◌else◌,
}
use siem_v.Prelude.Text.{Str, str, str_eq}
use siem_v.Prelude.Time.{minute, second}
use siem_v.Prelude.Maps.{AllValues, values}
use siem_v.Schema.{Event}
use siem_v.Order.{order_events}
use siem_v.Order.Sorted.{order_events-eq_of_perm, order_events-IsCausal, IsCausal}
use siem_v.Window.{State, ready, terminally_complete}
use siem_v.Window.Ready.{IsWaiting, IsHandedOver, ready-IsWaiting, ready-IsHandedOver}
use siem_v.Window.Lossless.{events_of, ready-events}
use siem_v.Window.Terminal.{IsStoppedComplete, terminally_complete_iff}
use siem_v.Window.Closed.{IsInFlight, Call, adds, readies, merges}
use siem_v.Tests.Samples.{
  edge_event, bot_event, origin_event, sample_events, blocked_state, sample_window,
}

ready-IsWaiting_example :
    AllValues
      (IsWaiting sample_window.opts (15 * minute) (7 * second))
      (ready sample_window (7 * second)).1.states
ready-IsWaiting_example =
    ready-IsWaiting sample_window (15 * minute) (7 * second) refl (omega arith)
      (refl, (refl, (refl, tt)))

ready-IsHandedOver_example :
    All
      (IsHandedOver sample_window (15 * minute) (20 * minute))
      (ready sample_window (20 * minute)).0
ready-IsHandedOver_example =
    ready-IsHandedOver sample_window (15 * minute) (20 * minute) refl (omega arith)

ready-events_example : Perm (events_of (values sample_window.states)) (
    events_of (ready sample_window (7 * second)).0
    ++ events_of (values (ready sample_window (7 * second)).1.states))
ready-events_example = ready-events sample_window (7 * second)

terminally_complete_iff_example :
    (terminally_complete blocked_state ≡ true) ↔ IsStoppedComplete blocked_state.events
terminally_complete_iff_example = terminally_complete_iff blocked_state

abbrev sample_calls : List Call
sample_calls =
    adds (str "ray:b") (str "t1") edge_event (8 * second)
    ∷ merges (str "ray:b") (str "ray:c")
    ∷ readies (9 * second)
    ∷ []

IsInFlight-of_flags : (st : State) → st.closed ≡ false → st.amended ≡ false → IsInFlight st
IsInFlight-of_flags st c a = record { not_closed = c; not_amended = a }

-- The event that each sample id stands for.
abbrev sample_record : Str → Event
sample_record id =
    if str_eq id (str "e")
    then edge_event
    else if str_eq id (str "d")
    then bot_event
    else origin_event

order_events-eq_of_perm_example :
    order_events (edge_event ∷ bot_event ∷ origin_event ∷ [])
    ≡ order_events (bot_event ∷ edge_event ∷ origin_event ∷ [])
unfolding str_eq
order_events-eq_of_perm_example =
    order_events-eq_of_perm sample_record (edge_event ∷ bot_event ∷ origin_event ∷ [])
      (bot_event ∷ edge_event ∷ origin_event ∷ []) (refl, (refl, (refl, tt))) (Permᴰ.swap refl refl)

order_events-IsCausal_example :
    Perm (order_events sample_events) sample_events × IsCausal (order_events sample_events)
order_events-IsCausal_example = order_events-IsCausal sample_events
