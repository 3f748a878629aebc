-- ===== src/Window/Redelivery.antt =====
-- An event that comes twice is counted once.
use siem_v.Prelude.{◌≡◌, refl, true, ◌||◌, List, [], ◌∷◌, ◌++◌, Bool-cases, inl, inr, arith}
use siem_v.Prelude.Text.{Str, str_eq_refl}
use siem_v.Prelude.Time.{Time}
use siem_v.Prelude.Maps.{lookup, put, lookup-put, lookup-put_self}
use siem_v.Schema.{Event}
use siem_v.Window.{State, Window, has_event, record_event, state_or_fresh, add, get}

pub has_event-append :
    (xs ys : List Event) (e : Event) → has_event (xs ++ ys) e ≡ (has_event xs e || has_event ys e)
unfolding has_event
has_event-append [] ys e = refl
has_event-append (x ∷ xs) ys e = ground (arith, has_event-append xs ys e)

pub has_event-record_event :
    (st : State) (e : Event) (now : Time) → has_event (record_event st e now).events e ≡ true
unfolding record_event
has_event-record_event st e now = elim (Bool-cases (has_event st.events e)) [
  | inl old ↦ rw old old
  | inr new ↦
      rw (new, has_event-append st.events (e ∷ []) e, new)
        (unfold has_event in (ground (arith, str_eq_refl e.event_id)))
]

record_event_known :
    (st : State) (e : Event) (now : Time)
    → has_event st.events e ≡ true
    → record_event st e now ≡ st
unfolding record_event
record_event_known st e now h = rw h

-- A second delivery of an event under its key, whenever it comes, leaves every state of the window
-- as the first one left it.
pub add_redelivered :
    (w : Window) (key tenant : Str) (e : Event) (now later : Time) (j : Str)
    → let once = (add w key tenant e now).0 in get (add once key tenant e later).0 j ≡ get once j
unfolding add get state_or_fresh
add_redelivered w key tenant e now later j =
    let st = record_event (state_or_fresh (lookup key w.states) key tenant now) e now in
    let again : record_event st e later ≡ st =
      record_event_known st e later
        (has_event-record_event (state_or_fresh (lookup key w.states) key tenant now) e now) in
    ground (
      arith,
      again,
      lookup-put_self key st w.states,
      lookup-put key j st w.states,
      lookup-put key j (record_event st e later) (put key st w.states),
    )
