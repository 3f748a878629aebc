-- ===== src/Window/Terminal.antt =====
-- When `terminallyComplete` lets a stopped flow close early.
use siem_v.Prelude.{
  ℕ, zero, suc, ◌≤◌, ◌<◌, ◌≡◌, ◌↔◌, refl, sym, ◌∙◌, Bool, true, false, ◌&&◌, ◌||◌, Option, none,
  some, List, [], ◌∷◌, any, ◌==◌, ltb, Bool-cases, inl, inr, arith,
}
use siem_v.Schema.{Event, layer_order}
use siem_v.Window.{
  State, lower_stop, scan_event, scan_events, all_present, complete_to, terminally_complete,
}

abbrev at_order : ℕ → Option ℕ → Bool
at_order n none = false
at_order n (some o) = o == n

-- A layer at position `n` has reported.
abbrev pub reported_at : ℕ → List Event → Bool
reported_at n [] = false
reported_at n (e ∷ rest) = at_order n (layer_order e.layer) || reported_at n rest

-- A layer at position `n` has terminated the request.
abbrev pub stopped_at : ℕ → List Event → Bool
stopped_at n [] = false
stopped_at n (e ∷ rest) =
    (at_order n (layer_order e.layer) && e.verdict.terminating) || stopped_at n rest

has : ℕ → List ℕ → Bool
has n present = any (λ p. p == n) present

-- `stop` is the least position of which `f` holds.
abbrev IsLeast : Option ℕ → (ℕ → Bool) → Type 0
IsLeast none f = (m : ℕ) → f m ≡ false
IsLeast (some s) f = (f s ≡ true) × ((m : ℕ) → m < s → f m ≡ false)

IsLeast-ext :
    (stop : Option ℕ) (f g : ℕ → Bool) → ((m : ℕ) → f m ≡ g m) → IsLeast stop f → IsLeast stop g
IsLeast-ext none f g eq h = λ m. sym (eq m) ∙ h m
IsLeast-ext (some s) f g eq h = (sym (eq s) ∙ h.0, λ m lt. sym (eq m) ∙ h.1 m lt)

lower_stop-IsLeast :
    (t : Bool) (o : ℕ) (stop : Option ℕ) (f : ℕ → Bool)
    → IsLeast stop f
    → IsLeast (lower_stop t o stop) (λ m. f m || (o == m && t))
unfolding lower_stop
lower_stop-IsLeast false o none f h = λ m. ground (arith, h m)
lower_stop-IsLeast false o (some s) f h = (ground (arith, h.0), λ m lt. ground (arith, h.1 m lt))
lower_stop-IsLeast true o none f h = (ground arith, λ m lt. ground (arith, h m))
lower_stop-IsLeast true o (some s) f h = elim (Bool-cases (ltb o s)) [
  | inl below ↦ rw below (ground arith, λ m lt. ground (arith, h.1 m))
  | inr above ↦ rw above (ground (arith, h.0), λ m lt. ground (arith, h.1 m lt))
]

scan_event-IsLeast :
    (order : Option ℕ) (t : Bool) (acc : List ℕ × Option ℕ) (f : ℕ → Bool)
    → IsLeast acc.1 f
    → IsLeast (scan_event order t acc).1 (λ m. f m || (at_order m order && t))
unfolding scan_event
scan_event-IsLeast none t (present, stop) f h =
    IsLeast-ext stop f (λ m. f m || (false && t)) (λ m. ground arith) h
scan_event-IsLeast (some o) t (present, stop) f h = lower_stop-IsLeast t o stop f h

scan_events-IsLeast :
    (events : List Event) (acc : List ℕ × Option ℕ) (f : ℕ → Bool)
    → IsLeast acc.1 f
    → IsLeast (scan_events events acc).1 (λ m. f m || stopped_at m events)
unfolding scan_events
scan_events-IsLeast [] acc f h = IsLeast-ext acc.1 f (λ m. f m || false) (λ m. ground arith) h
scan_events-IsLeast (e ∷ rest) acc f h =
    IsLeast-ext (scan_events rest (scan_event (layer_order e.layer) e.verdict.terminating acc)).1
      (λ m.
        (f m || (at_order m (layer_order e.layer) && e.verdict.terminating)) || stopped_at m rest)
      (λ m. f m || stopped_at m (e ∷ rest)) (λ m. ground arith)
      (scan_events-IsLeast rest _ _
        (scan_event-IsLeast (layer_order e.layer) e.verdict.terminating acc f h))

scan_event-has :
    (order : Option ℕ) (t : Bool) (acc : List ℕ × Option ℕ) (n : ℕ)
    → has n (scan_event order t acc).0 ≡ (has n acc.0 || at_order n order)
unfolding scan_event has
scan_event-has none t acc n = ground arith
scan_event-has (some o) t (present, stop) n = ground arith

scan_events-has :
    (events : List Event) (acc : List ℕ × Option ℕ) (n : ℕ)
    → has n (scan_events events acc).0 ≡ (has n acc.0 || reported_at n events)
unfolding scan_events
scan_events-has [] acc n = ground arith
scan_events-has (e ∷ rest) acc n = ground (
  arith,
  scan_events-has rest (scan_event (layer_order e.layer) e.verdict.terminating acc) n,
  scan_event-has (layer_order e.layer) e.verdict.terminating acc n,
)

all_present_iff :
    (n : ℕ) (present : List ℕ)
    → (all_present n present ≡ true) ↔ ((m : ℕ) → m < n → has m present ≡ true)
unfolding all_present has
all_present_iff zero present = (λ h m lt. elim lt [ ], λ h. refl)
all_present_iff (suc o) present =
    let below = all_present_iff o present in
    (
      λ h m lt. elim (Bool-cases (m == o)) [
        | inl last ↦ ground arith
        | inr earlier ↦ below.0 (ground arith) m (ground arith)
      ],
      λ h. ground (arith, h o (omega arith), below.1 (λ m lt. h m (omega arith))),
    )

-- The flow was stopped, and every layer up to the shallowest one that stopped it has reported.
abbrev pub IsStoppedComplete : List Event → Type 0
IsStoppedComplete events =
    (n : ℕ) × (stopped_at n events ≡ true)
    × ((m : ℕ) → m < n → stopped_at m events ≡ false)
    × ((m : ℕ) → m ≤ n → reported_at m events ≡ true)

complete_to_sound :
    (acc : List ℕ × Option ℕ) (events : List Event)
    → IsLeast acc.1 (λ m. stopped_at m events)
    → ((n : ℕ) → has n acc.0 ≡ reported_at n events)
    → (complete_to acc ≡ true) ↔ IsStoppedComplete events
unfolding complete_to
complete_to_sound (present, none) events least eq = (λ h. cc, λ h. cc (least h.0, h.1))
complete_to_sound (present, some s) events least eq =
    let all = all_present_iff (suc s) present in
    (
      λ h. (s, least.0, least.1, λ m le. sym (eq m) ∙ all.0 h m (omega arith)),
      λ h. all.1 (λ m lt. eq m ∙ h.3 m (same h m lt)),
    )
  where
    same : (h : IsStoppedComplete events) (m : ℕ) → m < suc s → m ≤ h.0
    same h m lt = ground (arith, least.1 h.0, h.1)

-- A flow counts as stopped and complete exactly if some layer terminated it and every layer up to
-- the shallowest terminating one has reported.
pub terminally_complete_iff :
    (st : State) → (terminally_complete st ≡ true) ↔ IsStoppedComplete st.events
unfolding terminally_complete
terminally_complete_iff st =
    complete_to_sound (scan_events st.events ([], none)) st.events
      (scan_events-IsLeast st.events ([], none) (λ m. false) (λ m. refl))
      (λ n. unfold has in scan_events-has st.events ([], none) n)
