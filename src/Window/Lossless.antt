-- ===== src/Window/Lossless.antt =====
-- `Ready` moves events out of the window and loses none.
use mathlib.Core.List.{append_assoc, Perm-prop}
use mathlib.Core.List.Perm
use mathlib.Core.Logic.{∥∥₁_elim}
use siem_v.Prelude.{List, [], ◌∷◌, ◌++◌, Bool-cases, inl, inr, Perm, Permᴰ, perm_exchange}
use siem_v.Prelude.Time.{Time}
use siem_v.Prelude.Maps.{Map, values}
use siem_v.Prelude.Sort.{sort-perm}
use siem_v.Schema.{Event}
use siem_v.Window.{State, Options, Window, key_less, closes, close, ready_loop, ready}

pub events_of : List State → List Event
events_of [] = []
events_of (st ∷ rest) = st.events ++ events_of rest

events_of-perm : {xs ys : List State} → Permᴰ xs ys → Perm (events_of xs) (events_of ys)
unfolding events_of
events_of-perm Permᴰ.nil = Perm.refl []
events_of-perm (Permᴰ.cons e p) = rw e (Perm.append (Perm.refl _) (events_of-perm p))
events_of-perm (Permᴰ.swap {a = a} {b = b} {l = l} e f) =
    rw (← e, ← f) (perm_exchange a.events b.events (events_of l))
events_of-perm (Permᴰ.trans p q) = Perm.trans (events_of-perm p) (events_of-perm q)

events_of-Perm : {xs ys : List State} → Perm xs ys → Perm (events_of xs) (events_of ys)
events_of-Perm p = ∥∥₁_elim p Perm-prop events_of-perm

ready_loop-events :
    (o : Options) (now : Time) (m : Map State)
    → Perm
        (events_of (values m))
        (events_of (ready_loop o now m).0 ++ events_of (values (ready_loop o now m).1))
unfolding ready_loop events_of values close
ready_loop-events o now [] = Perm.refl []
ready_loop-events o now ((k, st) ∷ m) =
    let rest = ready_loop-events o now m in
    elim (Bool-cases (closes o now st)) [
      | inl done ↦ rw (done, append_assoc) (Perm.append_left st.events rest)
      | inr wait ↦ rw wait (
          Perm.trans (Perm.append_left st.events rest)
            (perm_exchange st.events (events_of (ready_loop o now m).0) _))
    ]

-- The events of the flows that `ready` hands over, with those that it leaves in the window, are the
-- events that were in the window.
pub ready-events :
    (w : Window) (now : Time)
    → Perm
        (events_of (values w.states))
        (events_of (ready w now).0 ++ events_of (values (ready w now).1.states))
unfolding ready
ready-events w now = Perm.trans (ready_loop-events w.opts now w.states) (
    Perm.append_right (events_of (values (ready_loop w.opts now w.states).1))
      (events_of-Perm (Perm.symm (sort-perm key_less (ready_loop w.opts now w.states).0))))
