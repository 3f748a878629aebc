-- ===== src/Window/Contents.antt =====
-- Which events a window holds under which key, after each call.
use siem_v.Prelude.{
  ◌≡◌, refl, ◌∙◌, ap, subst, Bool, true, false, ◌&&◌, ◌||◌, Option, none, some, List, [], ◌∷◌, ◌++◌,
  Bool-cases, Option-cases, inl, inr, arith, if◌then◌else◌,
}
use siem_v.Prelude.Text.{Str, str_eq, str_eq_refl, str_eq→eq, Str-cases}
use siem_v.Prelude.Time.{Time}
use siem_v.Prelude.Maps.{lookup, put, lookup-put, lookup-delete}
use siem_v.Schema.{Event}
use siem_v.Window.{
  State, Window, has_event, fresh_state, state_or_fresh, record_event, add, merge_events,
  merge_states, merge_found, merge,
}
use siem_v.Window.Redelivery.{has_event-append}

abbrev pub holds_in : Option State → Event → Bool
holds_in none e = false
holds_in (some st) e = has_event st.events e

-- The window holds an event with this id under the key.
abbrev pub holds : Window → Str → Event → Bool
holds w key e = holds_in (lookup key w.states) e

abbrev pub same_id : Event → Event → Bool
same_id e f = str_eq e.event_id f.event_id

has_event_same :
    (events : List Event) (e f : Event)
    → same_id e f ≡ true
    → has_event events e ≡ has_event events f
unfolding has_event
has_event_same [] e f h = refl
has_event_same (x ∷ xs) e f h =
    let eq : e.event_id ≡ f.event_id = str_eq→eq e.event_id f.event_id h in
    let here : str_eq x.event_id e.event_id ≡ str_eq x.event_id f.event_id =
      ap (str_eq x.event_id) eq in
    ground (arith, here, has_event_same xs e f h)

has_event-snoc :
    (events : List Event) (e f : Event)
    → has_event (events ++ e ∷ []) f ≡ (has_event events f || same_id e f)
has_event-snoc events e f =
    has_event-append events (e ∷ []) f ∙ (unfold has_event in (ground arith))

-- Adding an event unless it is there, as `Add` and `Merge` do.
has_event_once :
    (events : List Event) (e f : Event)
    → has_event (if has_event events e then events else events ++ e ∷ []) f
      ≡ (has_event events f || same_id e f)
has_event_once events e f = elim (Bool-cases (has_event events e)) [
  | inl old ↦ rw old (ground (arith, has_event_same events e f))
  | inr new ↦ rw new (has_event-snoc events e f)
]

record_event-holds :
    (o : Option State) (key tenant : Str) (e f : Event) (now : Time)
    → has_event (record_event (state_or_fresh o key tenant now) e now).events f
      ≡ (holds_in o f || same_id e f)
unfolding record_event state_or_fresh fresh_state
record_event-holds none key tenant e f now = unfold has_event in (ground arith)
record_event-holds (some st) key tenant e f now = ground (arith, has_event_once st.events e f)

-- `add` puts the event under its key, keeps what is there, and touches no other key.
pub add-holds :
    (w : Window) (key tenant : Str) (e : Event) (now : Time) (k : Str) (f : Event)
    → holds (add w key tenant e now).0 k f ≡ (holds w k f || (str_eq key k && same_id e f))
unfolding add
add-holds w key tenant e now k f =
    let st = record_event (state_or_fresh (lookup key w.states) key tenant now) e now in
    let here = record_event-holds (lookup key w.states) key tenant e f now in
    ap (λ o. holds_in o f) (lookup-put key k st w.states) ∙ elim (Str-cases key k) [
      | inl same ↦ rw (← same, str_eq_refl) here
      | inr differ ↦ rw differ (ground arith)
    ]

merge_events-holds :
    (into from : List Event) (f : Event)
    → has_event (merge_events into from) f ≡ (has_event into f || has_event from f)
unfolding merge_events
merge_events-holds into [] f = unfold has_event in (ground arith)
merge_events-holds into (e ∷ from) f =
    merge_events-holds (if has_event into e then into else into ++ e ∷ []) from f
    ∙ rw (has_event_once into e f) (unfold has_event in (ground arith))

merge_found-holds :
    (w : Window) (dst src : Str) (o : Option State) (from : State) (k : Str) (f : Event)
    → str_eq src dst ≡ false
    → lookup dst w.states ≡ o
    → holds (merge_found w dst src o from) k f
      ≡ (if str_eq src k then false else (holds w k f || (str_eq dst k && has_event from.events f)))
unfolding merge_found merge_states
merge_found-holds w dst src none from k f ne found =
    let rekeyed = record from { correlation_key = dst } in
    ap (λ o. holds_in o f)
      (lookup-delete src k (put dst rekeyed w.states)
        ∙ ap (λ o. if str_eq src k then none else o) (lookup-put dst k rekeyed w.states))
    ∙ elim (Str-cases dst k) [
      | inl same ↦ rw (← same, str_eq_refl, found, ne) refl
      | inr differ ↦ rw differ (ground arith)
    ]
merge_found-holds w dst src (some into) from k f ne found =
    let merged = merge_states into from in
    ap (λ o. holds_in o f)
      (lookup-delete src k (put dst merged w.states)
        ∙ ap (λ o. if str_eq src k then none else o) (lookup-put dst k merged w.states))
    ∙ elim (Str-cases dst k) [
      | inl same ↦
          rw (← same, str_eq_refl, found, ne) (merge_events-holds into.events from.events f)
      | inr differ ↦ rw differ (ground arith)
    ]

-- `merge` moves all that is under `src` under `dst`, loses nothing, and touches no other key.
pub merge-holds :
    (w : Window) (dst src : Str) (k : Str) (f : Event)
    → str_eq src dst ≡ false
    → holds (merge w dst src) k f
      ≡ (if str_eq src k then false else (holds w k f || (str_eq dst k && holds w src f)))
unfolding merge
merge-holds w dst src k f ne = elim (Option-cases (lookup src w.states)) [
  | inl absent ↦
      rw (ne, absent)
        (elim (Str-cases src k) [
          | inl same ↦
              let gone : lookup k w.states ≡ none =
                subst (λ j. lookup j w.states ≡ none) same absent in
              rw (gone, same, str_eq_refl) refl
          | inr differ ↦ rw differ (ground arith)
        ])
  | inr (from, found) ↦
      rw (ne, found) (merge_found-holds w dst src (lookup dst w.states) from k f ne refl)
]
