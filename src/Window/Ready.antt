-- ===== src/Window/Ready.antt =====
-- Which flows `Ready` hands over, and what it leaves in the window.
use siem_v.Prelude.{
  ◌≡◌, ◌≤◌, ◌<◌, ◌+◌, subst, refl, ℕ, true, false, List, [], ◌∷◌, All, All-map, All-perm,
  All-of_Mem, Memᴰ, any, length, Bool-cases, ◌⊎◌, inl, inr, arith,
}
use siem_v.Prelude.Time.{Time, pos, time_sub-ge_iff, max_duration, ltb_ℤ, time_sub}
use siem_v.Prelude.Maps.{Map, AllValues}
use siem_v.Prelude.Sort.{sort-permᴰ}
use siem_v.Prelude.Text.{Str}
use siem_v.Schema.{Event, Layer, layer_eq}
use siem_v.Window.Terminal.{IsStoppedComplete, terminally_complete_iff}
use siem_v.Window.{
  seen_layers, State, Options, Window, key_less, has_all_layers, terminally_complete, closes, close,
  ready_loop, ready,
}

-- No two of the layers are the same.
abbrev pub AreDistinct : List Layer → Type 0
AreDistinct [] = Unit
AreDistinct (l ∷ layers) = All (λ k. layer_eq k l ≡ false) layers × AreDistinct layers

-- A state that the window keeps waiting for: something is missing and the wait is not over.
pub record IsWaiting (o : Options) (d : ℕ) (now : Time) (st : State) : Type 0 where
  pub some_layer_missing : has_all_layers o st ≡ false
  pub not_stopped : terminally_complete st ≡ false
  pub in_time : now < st.first_arrival + d

in_time_of_test :
    (o : Options) (d : ℕ) (now first : Time)
    → o.late_arrival ≡ pos d
    → d ≤ max_duration
    → ltb_ℤ (time_sub now first) o.late_arrival ≡ true
    → now < first + d
in_time_of_test o d now first e q h =
    let test : ltb_ℤ (time_sub now first) (pos d) ≡ true =
      subst (λ l. ltb_ℤ (time_sub now first) l ≡ true) e h in
    omega (arith, after test)
  where
    after : ltb_ℤ (time_sub now first) (pos d) ≡ true → ¬ (first + d ≤ now)
    after test late = cc ((time_sub-ge_iff now first d q).1 late)

IsWaiting-of_not-closes :
    (o : Options) (d : ℕ) (now : Time) (st : State)
    → o.late_arrival ≡ pos d
    → d ≤ max_duration
    → st.closed ≡ false
    → closes o now st ≡ false
    → IsWaiting o d now st
unfolding closes
IsWaiting-of_not-closes o d now st e q fresh h = record {
  some_layer_missing = ground arith;
  not_stopped = ground arith;
  in_time = in_time_of_test o d now st.first_arrival e q (ground arith);
}

abbrev pub IsOpen : State → Type 0
IsOpen st = st.closed ≡ false

ready_loop-IsWaiting :
    (o : Options) (d : ℕ) (now : Time) (m : Map State)
    → o.late_arrival ≡ pos d
    → d ≤ max_duration
    → AllValues IsOpen m
    → AllValues (IsWaiting o d now) (ready_loop o now m).1
unfolding ready_loop
ready_loop-IsWaiting o d now [] e q h = tt
ready_loop-IsWaiting o d now ((k, st) ∷ m) e q h =
    let rest = ready_loop-IsWaiting o d now m e q h.1 in
    elim (Bool-cases (closes o now st)) [
      | inl done ↦ rw done rest
      | inr wait ↦ rw wait (IsWaiting-of_not-closes o d now st e q h.0 wait, rest)
    ]

-- After `ready`, every flow left in a window of open flows still lacks a layer, has not been stopped
-- with all layers above the stop present, and arrived less than the late-arrival wait ago.
pub ready-IsWaiting :
    (w : Window) (d : ℕ) (now : Time)
    → w.late_arrival ≡ pos d
    → d ≤ max_duration
    → AllValues IsOpen w.states
    → AllValues (IsWaiting w.opts d now) (ready w now).1.states
unfolding ready
ready-IsWaiting w d now e q h = ready_loop-IsWaiting w.opts d now w.states e q h

-- Layers of the events, no two the same, as many as are expected, whatever layers they are.
pub record HasEnoughLayers (o : Options) (events : List Event) : Type 0 where
  pub layers : List Layer
  pub reported : All (λ l. (e : Event) × Memᴰ e events × (l ≡ e.layer)) layers
  pub distinct : AreDistinct layers
  pub enough : ltb_ℤ (pos (length layers)) o.expected_layers ≡ false

seen_layers-reported :
    (events : List Event)
    → All (λ l. (e : Event) × Memᴰ e events × (l ≡ e.layer)) (seen_layers events)
unfolding seen_layers
seen_layers-reported [] = tt
seen_layers-reported (e ∷ rest) =
    let later =
      All-map _ (λ l. (d : Event) × Memᴰ d (e ∷ rest) × (l ≡ d.layer)) (seen_layers rest)
        (λ l h. (h.0, Memᴰ.tail h.1, h.2)) (seen_layers-reported rest) in
    elim (Bool-cases (any (λ l. layer_eq l e.layer) (seen_layers rest))) [
      | inl known ↦ rw known later
      | inr fresh ↦ rw fresh ((e, Memᴰ.head refl, refl), later)
    ]

none_equal :
    (l : Layer) (layers : List Layer)
    → any (λ k. layer_eq k l) layers ≡ false
    → All (λ k. layer_eq k l ≡ false) layers
none_equal l [] h = tt
none_equal l (k ∷ layers) h = (ground arith, none_equal l layers (ground arith))

seen_layers-AreDistinct : (events : List Event) → AreDistinct (seen_layers events)
unfolding seen_layers
seen_layers-AreDistinct [] = tt
seen_layers-AreDistinct (e ∷ rest) =
    let later = seen_layers-AreDistinct rest in
    elim (Bool-cases (any (λ l. layer_eq l e.layer) (seen_layers rest))) [
      | inl known ↦ rw known later
      | inr fresh ↦ rw fresh (none_equal e.layer (seen_layers rest) fresh, later)
    ]

has_all_layers-HasEnoughLayers :
    (o : Options) (st : State) → has_all_layers o st ≡ true → HasEnoughLayers o st.events
unfolding has_all_layers
has_all_layers-HasEnoughLayers o st h = record {
  layers = seen_layers st.events;
  reported = seen_layers-reported st.events;
  distinct = seen_layers-AreDistinct st.events;
  enough = ground arith;
}

-- A flow that was handed over: an open one of the window, marked closed at `now`, that was due.
pub record IsHandedOver (w : Window) (d : ℕ) (now : Time) (st : State) : Type 0 where
  pub key : Str
  pub before : State
  pub held : Memᴰ (key, before) w.states
  pub was_open : before.closed ≡ false
  pub same : st ≡ record before { closed = true; closed_at = now }
  pub was_due :
      HasEnoughLayers w.opts before.events
      ⊎ (IsStoppedComplete before.events ⊎ (before.first_arrival + d ≤ now))

module _ (w : Window) (d : ℕ) (now : Time) (e : w.late_arrival ≡ pos d) (q : d ≤ max_duration) where
  due :
      (st : State)
      → closes w.opts now st ≡ true
      → HasEnoughLayers w.opts st.events
        ⊎ (IsStoppedComplete st.events ⊎ (st.first_arrival + d ≤ now))
  unfolding closes
  due st h = elim (Bool-cases (has_all_layers w.opts st)) [
    | inl enough ↦ inl (has_all_layers-HasEnoughLayers w.opts st enough)
    | inr few ↦ elim (Bool-cases (terminally_complete st)) [
      | inl stopped ↦ inr (inl ((terminally_complete_iff st).0 stopped))
      | inr going ↦
          let over : ltb_ℤ (time_sub now st.first_arrival) w.late_arrival ≡ false = ground arith in
          inr (
            inr (
              (time_sub-ge_iff now st.first_arrival d q).0
                (subst (λ l. ltb_ℤ (time_sub now st.first_arrival) l ≡ false) e over)))
    ]
  ]

  close-IsHandedOver :
      (k : Str) (st : State)
      → Memᴰ (k, st) w.states
      → closes w.opts now st ≡ true
      → IsHandedOver w d now (close now st)
  unfolding close closes
  close-IsHandedOver k st m h = record {
    key = k;
    before = st;
    held = m;
    was_open = ground arith;
    same = refl;
    was_due = due st h;
  }

  ready_loop-IsHandedOver :
      (m : Map State)
      → All (λ entry. Memᴰ entry w.states) m
      → All (IsHandedOver w d now) (ready_loop w.opts now m).0
  unfolding ready_loop
  ready_loop-IsHandedOver [] held = tt
  ready_loop-IsHandedOver ((k, st) ∷ m) held =
      let rest = ready_loop-IsHandedOver m held.1 in
      elim (Bool-cases (closes w.opts now st)) [
        | inl done ↦ rw done (close-IsHandedOver k st held.0 done, rest)
        | inr wait ↦ rw wait rest
      ]

  -- Every flow that `ready` hands over was an open one of the window, is now marked closed at the
  -- time of the call and otherwise the same, and was due: its events are of as many different layers
  -- as are expected, whichever those are, or some layer stopped it and every layer up to the
  -- shallowest that did has reported, or it first arrived the late-arrival wait ago or more. The
  -- wait is a duration that is not negative.
  pub ready-IsHandedOver : All (IsHandedOver w d now) (ready w now).0
  unfolding ready
  ready-IsHandedOver =
      All-perm (IsHandedOver w d now) (sort-permᴰ key_less (ready_loop w.opts now w.states).0) (
        ready_loop-IsHandedOver w.states
          (All-of_Mem (λ entry. Memᴰ entry w.states) w.states (λ x m. m)))
