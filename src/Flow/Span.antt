-- ===== src/Flow/Span.antt =====
-- The first and the last time at which a flow was seen.
use siem_v.Prelude.{
  ◌≤◌, ◌≡◌, ◌≢◌, refl, ◌∙◌, Bool, true, false, ◌||◌, List, [], ◌∷◌, any, All, ltb, ◌==◌, ◌⊎◌, inl,
  inr, arith, if◌then◌else◌,
}
use siem_v.Prelude.Time.{Time, is_zero}
use siem_v.Schema.{Event}
use siem_v.Flow.{span_from, time_span}

abbrev pub any_at : Time → List Event → Bool
any_at t events = any (λ e. e.event_time == t) events

-- What the loop keeps: its result against the times seen before and those to come.
record IsSpan (events : List Event) (before after : Time × Time) : Type 0 where
  first_kept : before.0 ≢ 0 → (after.0 ≢ 0) × (after.0 ≤ before.0)
  last_kept : before.1 ≤ after.1
  bounds : All (λ e. e.event_time ≢ 0 → (after.0 ≤ e.event_time) × (e.event_time ≤ after.1)) events
  first_met : (after.0 ≡ before.0) ⊎ (any_at after.0 events ≡ true)
  last_met : (after.1 ≡ before.1) ⊎ (any_at after.1 events ≡ true)

span_step : Event → Time × Time → Time × Time
span_step e (first, last) = if is_zero e.event_time then (first, last) else (
  (if is_zero first || ltb e.event_time first then e.event_time else first),
  (if ltb last e.event_time then e.event_time else last),
)

span_step_first :
    (e : Event) (acc : Time × Time)
    → (acc.0 ≢ 0 → ((span_step e acc).0 ≢ 0) × ((span_step e acc).0 ≤ acc.0))
      × (e.event_time ≢ 0 → ((span_step e acc).0 ≢ 0) × ((span_step e acc).0 ≤ e.event_time))
      × (((span_step e acc).0 ≡ acc.0) ⊎ ((span_step e acc).0 ≡ e.event_time))
unfolding span_step
span_step_first e (first, last) = (λ h. ground arith, λ h. ground arith, ground arith)

span_step_last :
    (e : Event) (acc : Time × Time)
    → (acc.1 ≤ (span_step e acc).1)
      × (e.event_time ≤ (span_step e acc).1)
      × (((span_step e acc).1 ≡ acc.1) ⊎ ((span_step e acc).1 ≡ e.event_time))
unfolding span_step
span_step_last e (first, last) = (ground arith, ground arith, ground arith)

span_from-IsSpan :
    (events : List Event) (acc : Time × Time) → IsSpan events acc (span_from false events acc)
unfolding span_from span_step
span_from-IsSpan [] acc = record {
  first_kept = λ h. (h, omega arith);
  last_kept = omega arith;
  bounds = tt;
  first_met = inl refl;
  last_met = inl refl;
}
span_from-IsSpan (e ∷ rest) acc =
    let later = span_from-IsSpan rest (span_step e acc) in
    let firsts = span_step_first e acc in
    let lasts = span_step_last e acc in
    record {
      first_kept = λ h.
          let met = later.first_kept (firsts.0 h).0 in
          (met.0, omega (arith, met.1, (firsts.0 h).1));
      last_kept = omega (arith, later.last_kept, lasts.0);
      bounds = (
        λ h.
            let met = later.first_kept (firsts.1 h).0 in
            (omega (arith, met.1, (firsts.1 h).1), omega (arith, later.last_kept, lasts.1)),
        later.bounds,
      );
      first_met = elim later.first_met [
        | inl same ↦ elim firsts.2 [ inl old ↦ inl (same ∙ old) | inr new ↦ inr (ground arith) ]
        | inr seen ↦ inr (ground arith)
      ];
      last_met = elim later.last_met [
        | inl same ↦ elim lasts.2 [ inl old ↦ inl (same ∙ old) | inr new ↦ inr (ground arith) ]
        | inr seen ↦ inr (ground arith)
      ];
    }

-- At the start of the loop the time to beat is the zero time, so that its first test adds nothing.
span_from_start :
    (events : List Event) → span_from true events (0, 0) ≡ span_from false events (0, 0)
unfolding span_from
span_from_start [] = refl
span_from_start (e ∷ rest) = refl

-- Every event with a time lies between the two ends of the span, and each end is the time of an
-- event, or the zero time.
pub time_span_bounds :
    (events : List Event)
    → All
        (λ e.
          e.event_time ≢ 0
          → ((time_span events).0 ≤ e.event_time) × (e.event_time ≤ (time_span events).1))
        events
      × (((time_span events).0 ≡ 0) ⊎ (any_at (time_span events).0 events ≡ true))
      × (((time_span events).1 ≡ 0) ⊎ (any_at (time_span events).1 events ≡ true))
unfolding time_span
time_span_bounds events =
    let span = span_from-IsSpan events (0, 0) in
    rw (span_from_start events) (span.bounds, span.first_met, span.last_met)
