-- ===== src/Window/Closed.antt =====
-- Whatever the calls, no flow in the window is closed: `Ready` drops the flows that it closes.
use siem_v.Prelude.{
  ◌≡◌, refl, false, Option, none, some, List, [], ◌∷◌, Bool-cases, Option-cases, inl, inr, arith,
}
use siem_v.Prelude.Text.{Str, str_eq}
use siem_v.Prelude.Time.{Time}
use siem_v.Prelude.Maps.{Map, lookup, AllValues, AllValues-put, AllValues-delete, AllValues-lookup}
use siem_v.Schema.{Event}
use siem_v.Window.{
  State, Options, Window, fresh_state, state_or_fresh, record_event, add, closes, ready_loop, ready,
  merge_states, merge_found, merge,
}

pub record IsInFlight (st : State) : Type 0 where
  pub not_closed : st.closed ≡ false
  pub not_amended : st.amended ≡ false

-- The calls of a window's clients.
pub data Call : Type 0 where
  adds : Str → Str → Event → Time → Call
  readies : Time → Call
  merges : Str → Str → Call

unfoldable pub step : Window → Call → Window
step w (adds key tenant e now) = (add w key tenant e now).0
step w (readies now) = (ready w now).1
step w (merges dst src) = merge w dst src

unfoldable pub run : Window → List Call → Window
run w [] = w
run w (c ∷ cs) = run (step w c) cs

record_event-IsInFlight :
    (st : State) (e : Event) (now : Time) → IsInFlight st → IsInFlight (record_event st e now)
unfolding record_event
record_event-IsInFlight st e now h = ground arith

state_or_fresh-IsInFlight :
    (o : Option State) (key tenant : Str) (now : Time)
    → ((st : State) → o ≡ some st → IsInFlight st)
    → IsInFlight (state_or_fresh o key tenant now)
unfolding state_or_fresh fresh_state
state_or_fresh-IsInFlight none key tenant now h = record { not_closed = refl; not_amended = refl }
state_or_fresh-IsInFlight (some st) key tenant now h = h st refl

add-IsInFlight :
    (w : Window) (key tenant : Str) (e : Event) (now : Time)
    → AllValues IsInFlight w.states
    → AllValues IsInFlight (add w key tenant e now).0.states
unfolding add
add-IsInFlight w key tenant e now h =
    AllValues-put IsInFlight key _ w.states
      (record_event-IsInFlight _ e now (
        state_or_fresh-IsInFlight (lookup key w.states) key tenant now
          (λ st found. AllValues-lookup IsInFlight key w.states st h found)))
      h

ready_loop-IsInFlight :
    (o : Options) (now : Time) (m : Map State)
    → AllValues IsInFlight m
    → AllValues IsInFlight (ready_loop o now m).1
unfolding ready_loop
ready_loop-IsInFlight o now [] h = tt
ready_loop-IsInFlight o now ((k, st) ∷ m) h =
    let rest = ready_loop-IsInFlight o now m h.1 in
    elim (Bool-cases (closes o now st)) [ inl done ↦ rw done rest | inr wait ↦ rw wait (h.0, rest) ]

merge_found-IsInFlight :
    (w : Window) (dst src : Str) (o : Option State) (from : State)
    → AllValues IsInFlight w.states
    → IsInFlight from
    → ((st : State) → o ≡ some st → IsInFlight st)
    → AllValues IsInFlight (merge_found w dst src o from).states
unfolding merge_found merge_states
merge_found-IsInFlight w dst src none from h f g = AllValues-delete IsInFlight src _ (
    AllValues-put IsInFlight dst _ w.states
      (record { not_closed = f.not_closed; not_amended = f.not_amended }) h)
merge_found-IsInFlight w dst src (some into) from h f g =
    let into_open = g into refl in
    AllValues-delete IsInFlight src _ (
      AllValues-put IsInFlight dst _ w.states
        (record { not_closed = into_open.not_closed; not_amended = ground arith }) h)

merge-IsInFlight :
    (w : Window) (dst src : Str)
    → AllValues IsInFlight w.states
    → AllValues IsInFlight (merge w dst src).states
unfolding merge
merge-IsInFlight w dst src h = elim (Bool-cases (str_eq src dst)) [
  | inl same ↦ rw same h
  | inr differ ↦ rw differ (elim (Option-cases (lookup src w.states)) [
    | inl absent ↦ rw absent h
    | inr (from, found) ↦ rw found (
        merge_found-IsInFlight w dst src (lookup dst w.states) from h
          (AllValues-lookup IsInFlight src w.states from h found)
          (λ st e. AllValues-lookup IsInFlight dst w.states st h e))
  ])
]

step-IsInFlight :
    (w : Window) (c : Call) → AllValues IsInFlight w.states → AllValues IsInFlight (step w c).states
unfolding step ready
step-IsInFlight w (adds key tenant e now) h = add-IsInFlight w key tenant e now h
step-IsInFlight w (readies now) h = ready_loop-IsInFlight w.opts now w.states h
step-IsInFlight w (merges dst src) h = merge-IsInFlight w dst src h

-- In a window whose flows are open and not amended, no call of `add`, `ready` and `merge` ever
-- brings about a closed or an amended flow.
pub run-IsInFlight :
    (w : Window) (calls : List Call)
    → AllValues IsInFlight w.states
    → AllValues IsInFlight (run w calls).states
unfolding run
run-IsInFlight w [] h = h
run-IsInFlight w (c ∷ cs) h = run-IsInFlight (step w c) cs (step-IsInFlight w c h)
