-- ===== src/Window.antt =====
-- In-flight correlation state: backend/internal/correlate/window/window.go. A method returns the
-- new window; the clock is the argument `now`, as in the source. The entries of `states` have
-- distinct keys, as in a Go map, so that a `delete` inside a `range` drops the visited entry.
pub mod Redelivery
pub mod Ready
pub mod Lossless
pub mod Terminal
pub mod Closed
pub mod Contents
pub mod Keyed
use siem_v.Prelude.{
  ℕ, zero, suc, ◌*◌, Bool, true, false, not, ◌&&◌, ◌||◌, Option, none, some, List, [], ◌∷◌, ◌++◌,
  any, length, ltb, ◌==◌, if◌then◌else◌,
}
use siem_v.Prelude.Text.{Str, str_eq, str_lt}
use siem_v.Prelude.Time.{Time, Duration, ℤ, pos, ltb_ℤ, time_sub, minute, zero_time}
use siem_v.Prelude.Maps.{Map, lookup, put, delete, values}
use siem_v.Prelude.Sort.{sort}
use siem_v.Schema.{Event, Layer, layer_order, layer_eq}

pub record State : Type 0 where
  pub correlation_key : Str
  pub tenant : Str
  pub events : List Event
  pub first_arrival : Time
  pub last_arrival : Time
  pub closed : Bool
  pub closed_at : Time
  pub amended : Bool

pub record Options : Type 0 where
  pub late_arrival : Duration
  pub expected_layers : ℤ

pub record Window : Type 0 where
  pub opts : Options
  pub open opts use *
  pub states : Map State

-- Options that are not positive fall back to 15 minutes and four layers.
unfoldable pub new_window : Options → Window
new_window o = record {
  opts = record {
    late_arrival = if ltb_ℤ (pos 0) o.late_arrival then o.late_arrival else pos (15 * minute);
    expected_layers = if ltb_ℤ (pos 0) o.expected_layers then o.expected_layers else pos 4;
  };
  states = [];
}

unfoldable pub has_event : List Event → Event → Bool
has_event events e = any (λ existing. str_eq existing.event_id e.event_id) events

unfoldable pub fresh_state : Str → Str → Time → State
fresh_state key tenant now = record {
  correlation_key = key;
  tenant = tenant;
  events = [];
  first_arrival = now;
  last_arrival = zero_time;
  closed = false;
  closed_at = zero_time;
  amended = false;
}

unfoldable pub state_or_fresh : Option State → Str → Str → Time → State
unfolding fresh_state
state_or_fresh none key tenant now = fresh_state key tenant now
state_or_fresh (some st) key tenant now = st

-- The event goes into the state unless its id is there; into a closed state it is an amendment.
unfoldable pub record_event : State → Event → Time → State
unfolding has_event
record_event st e now = if has_event st.events e then st else record st {
  events = st.events ++ e ∷ [];
  last_arrival = now;
  amended = st.closed || st.amended;
}

unfoldable pub add : Window → Str → Str → Event → Time → Window × State
add w key tenant e now =
    let st = record_event (state_or_fresh (lookup key w.states) key tenant now) e now in
    (record w { states = put key st w.states }, st)

unfoldable pub seen_layers : List Event → List Layer
seen_layers [] = []
seen_layers (e ∷ rest) =
    let seen = seen_layers rest in
    if any (λ l. layer_eq l e.layer) seen then seen else e.layer ∷ seen

unfoldable pub has_all_layers : Options → State → Bool
has_all_layers o st = not (ltb_ℤ (pos (length (seen_layers st.events))) o.expected_layers)

-- `stop` is `none` for the -1 of the source.
unfoldable pub lower_stop : Bool → ℕ → Option ℕ → Option ℕ
lower_stop false o stop = stop
lower_stop true o none = some o
lower_stop true o (some s) = some (if ltb o s then o else s)

unfoldable pub scan_event : Option ℕ → Bool → List ℕ × Option ℕ → List ℕ × Option ℕ
scan_event none terminating acc = acc
scan_event (some o) terminating (present, stop) = (o ∷ present, lower_stop terminating o stop)

unfoldable pub scan_events : List Event → List ℕ × Option ℕ → List ℕ × Option ℕ
scan_events [] acc = acc
scan_events (e ∷ rest) acc =
    scan_events rest (scan_event (layer_order e.layer) e.verdict.terminating acc)

-- Orders 0, ..., n - 1 are all present.
unfoldable pub all_present : ℕ → List ℕ → Bool
all_present zero present = true
all_present (suc o) present = any (λ p. p == o) present && all_present o present

unfoldable pub complete_to : List ℕ × Option ℕ → Bool
complete_to (present, none) = false
complete_to (present, some stop) = all_present (suc stop) present

unfoldable pub terminally_complete : State → Bool
terminally_complete st = complete_to (scan_events st.events ([], none))

-- The three cases of the switch in `Ready`, for a state that is not closed yet.
unfoldable pub closes : Options → Time → State → Bool
closes o now st =
    not st.closed
    && (has_all_layers o st
        || (terminally_complete st || not (ltb_ℤ (time_sub now st.first_arrival) o.late_arrival)))

unfoldable pub close : Time → State → State
close now st = record st { closed = true; closed_at = now }

-- The loop of `Ready` over the map: the states that close, and the entries that stay.
unfoldable pub ready_loop : Options → Time → Map State → List State × Map State
ready_loop o now [] = ([], [])
ready_loop o now ((k, st) ∷ entries) =
    let (done, kept) = ready_loop o now entries in
    if closes o now st then (close now st ∷ done, kept) else (done, (k, st) ∷ kept)

abbrev pub key_less : State → State → Bool
key_less a b = str_lt a.correlation_key b.correlation_key

unfoldable pub ready : Window → Time → List State × Window
ready w now =
    let (done, kept) = ready_loop w.opts now w.states in
    (sort key_less done, record w { states = kept })

unfoldable pub in_flight : Window → ℕ
in_flight w = length w.states

unfoldable pub get : Window → Str → Option State
get w key = lookup key w.states

-- The events of `from` that `into` lacks go behind those of `into`, one by one.
unfoldable pub merge_events : List Event → List Event → List Event
unfolding has_event
merge_events into [] = into
merge_events into (e ∷ from) = merge_events (if has_event into e then into else into ++ e ∷ []) from

unfoldable pub merge_states : State → State → State
merge_states into from = record into {
  events = merge_events into.events from.events;
  first_arrival =
      if ltb from.first_arrival into.first_arrival then from.first_arrival else into.first_arrival;
  last_arrival =
      if ltb into.last_arrival from.last_arrival then from.last_arrival else into.last_arrival;
  amended = into.closed || into.amended;
}

unfoldable pub merge_found : Window → Str → Str → Option State → State → Window
merge_found w dst src none from = record w {
  states = delete src (put dst (record from { correlation_key = dst }) w.states);
}
merge_found w dst src (some into) from = record w {
  states = delete src (put dst (merge_states into from) w.states);
}

unfoldable pub merge : Window → Str → Str → Window
unfolding merge_found
merge w dst src = if str_eq src dst then w else elim (lookup src w.states) [
  | none ↦ w
  | some from ↦ merge_found w dst src (lookup dst w.states) from
]

-- States without a key are passed over; a nil pointer is no state.
unfoldable pub restore : Window → List State → Window
restore w [] = w
restore w (st ∷ rest) =
    restore
      (if str_eq st.correlation_key []
        then w
        else record w { states = put st.correlation_key st w.states })
      rest

unfoldable pub snapshot : Window → List State
unfolding values sort
snapshot w = sort key_less (values w.states)
