-- ===== src/Pipeline/Flush/Stragglers.antt =====
-- A late event is merged into its stored flow once.
use siem_v.Prelude.{
  ◌≡◌, ◌≢◌, refl, sym, ap, ◌∙◌, subst, Bool, true, false, ◌||◌, some, List, [], ◌∷◌, ◌++◌,
  Bool-cases, inl, inr, arith,
}
use siem_v.Prelude.Text.{Str, str_eq, str_eq_refl, str_eq→eq}
use siem_v.Prelude.Time.{Time}
use siem_v.Schema.{Event}
use siem_v.Flow.{Flow}
use siem_v.Flow.Events.{
  materialize_total, materialize-events, any-order_events, has_id, has_id-append,
}
use siem_v.Pipeline.{Pipeline, member}
use siem_v.Pipeline.Flush.{collect, mark_amended, merged_options, merge_flows}

has_id-snoc :
    (s : Str) (events : List Event) (e : Event)
    → has_id s (events ++ e ∷ []) ≡ (has_id s events || str_eq e.event_id s)
has_id-snoc s events e = has_id-append s events (e ∷ []) ∙ ground arith

-- `seen` is the set of the ids of `events`.
abbrev Agree : List Str → List Event → Type 0
Agree seen events = (s : Str) → member s seen ≡ has_id s events

Agree-snoc :
    (seen : List Str) (events : List Event) (e : Event)
    → Agree seen events
    → Agree (e.event_id ∷ seen) (events ++ e ∷ [])
unfolding member
Agree-snoc seen events e h s = ground (arith, h s, has_id-snoc s events e)

-- All the ids of the first list are in the second.
abbrev pub IsCovered : List Event → List Event → Type 0
IsCovered late old = (s : Str) → has_id s late ≡ true → has_id s old ≡ true

-- What going over `late` makes of the events collected so far.
record Collected (events : List Event) (added : Bool) (late : List Event)
    (out : List Str × List Event × Bool) : Type 0 where
  agree : Agree out.0 out.1
  ids : (s : Str) → has_id s out.1 ≡ (has_id s events || has_id s late)
  still : IsCovered late events → out.2 ≡ added
  covers : out.2 ≡ false → IsCovered late events
  lasts : added ≡ true → out.2 ≡ true

has_id_known :
    (events late : List Event) (e : Event) (s : Str)
    → has_id e.event_id events ≡ true
    → str_eq e.event_id s ≡ true
    → has_id s events ≡ true
has_id_known events late e s there same =
    let eq : e.event_id ≡ s = str_eq→eq e.event_id s same in
    subst (λ t. has_id t events ≡ true) eq there

collect-Collected :
    (late : List Event) (seen : List Str) (events : List Event) (added : Bool)
    → Agree seen events
    → Collected events added late (collect late (seen, events, added))
unfolding collect
collect-Collected [] seen events added h = record {
  agree = h;
  ids = λ s. ground arith;
  still = λ c. refl;
  covers = λ f s t. ground arith;
  lasts = λ a. a;
}
collect-Collected (e ∷ late) seen events added h = elim (Bool-cases (member e.event_id seen)) [
  | inl old ↦
      let rest = collect-Collected late seen events added h in
      let there : has_id e.event_id events ≡ true = sym (h e.event_id) ∙ old in
      rw old (record {
        agree = rest.agree;
        ids = λ s. ground (arith, rest.ids s, has_id_known events late e s there);
        still = λ c. rest.still (λ s t. c s (ground arith));
        covers = λ f s t. ground (arith, rest.covers f s, has_id_known events late e s there);
        lasts = rest.lasts;
      })
  | inr new ↦
      let rest =
        collect-Collected late (e.event_id ∷ seen) (events ++ e ∷ []) true
          (Agree-snoc seen events e h) in
      let absent : has_id e.event_id events ≡ false = sym (h e.event_id) ∙ new in
      rw new (record {
        agree = rest.agree;
        ids = λ s. ground (arith, rest.ids s, has_id-snoc s events e);
        still = λ c. ground (arith, c e.event_id, str_eq_refl e.event_id);
        covers = λ f s t. let up = rest.lasts refl in ground arith;
        lasts = λ a. rest.lasts refl;
      })
]

-- The two passes of `mergeWithStored`.
abbrev stored_pass : Flow → List Str × List Event × Bool
stored_pass existing = collect existing.events ([], [], false)

abbrev late_pass : Flow → Flow → List Str × List Event × Bool
late_pass existing late =
    let (seen, old, _) = stored_pass existing in collect late.events (seen, old, false)

stored_pass-Collected :
    (existing : Flow) → Collected [] false existing.events (stored_pass existing)
unfolding member
stored_pass-Collected existing = collect-Collected existing.events [] [] false (λ s. refl)

late_pass-Collected :
    (existing late : Flow)
    → Collected (stored_pass existing).1 false late.events (late_pass existing late)
late_pass-Collected existing late =
    collect-Collected late.events (stored_pass existing).0 (stored_pass existing).1 false
      (stored_pass-Collected existing).agree

stored_ids :
    (existing : Flow) (s : Str) → has_id s (stored_pass existing).1 ≡ has_id s existing.events
stored_ids existing s = ground (arith, (stored_pass-Collected existing).ids s)

-- If nothing late is new, the stored flow is left as it is.
merge_flows-covered :
    (p : Pipeline) (tenant key : Str) (existing late : Flow) (now : Time)
    → IsCovered late.events existing.events
    → merge_flows p tenant key existing late now ≡ some existing
unfolding merge_flows
merge_flows-covered p tenant key existing late now c =
    let same : (late_pass existing late).2 ≡ false =
      (late_pass-Collected existing late).still (λ s h. stored_ids existing s ∙ c s h) in
    rw same refl

-- What merging promises of its result.
pub record IsMerge (existing late m : Flow) : Type 0 where
  pub ids : (s : Str) → has_id s m.events ≡ (has_id s existing.events || has_id s late.events)
  pub amended :
      (s : Str) → has_id s late.events ≡ true → has_id s existing.events ≡ false → m.amended ≡ true

late_pass_nonempty :
    (existing late : Flow) → (late_pass existing late).2 ≡ true → (late_pass existing late).1 ≢ []
late_pass_nonempty existing late h empty =
    let pass = late_pass-Collected existing late in
    let none_new : (late_pass existing late).2 ≡ false =
      pass.still (λ s t. ground (arith, pass.ids s, ap (has_id s) empty)) in
    cc

IsMerge-new :
    (p : Pipeline) (tenant key : Str) (existing late : Flow) (now : Time)
    → (late_pass existing late).2 ≡ true
    → (m : Flow) × (merge_flows p tenant key existing late now ≡ some m) × IsMerge existing late m
unfolding merge_flows mark_amended
IsMerge-new p tenant key existing late now h =
    let pass = late_pass-Collected existing late in
    let events = (late_pass existing late).1 in
    let opts = merged_options p tenant existing late now in
    let (f, made) = materialize_total key events opts (late_pass_nonempty existing late h) in
    (
      record f { amended = true },
      rw (h, made) refl,
      record {
        ids = λ s.
            ap (has_id s) (materialize-events key events opts f made)
            ∙ any-order_events (λ e. str_eq e.event_id s) events
            ∙ pass.ids s
            ∙ ap (λ b. b || has_id s late.events) (stored_ids existing s);
        amended = λ s new old. refl;
      },
    )

IsMerge-old :
    (p : Pipeline) (tenant key : Str) (existing late : Flow) (now : Time)
    → (late_pass existing late).2 ≡ false
    → (m : Flow) × (merge_flows p tenant key existing late now ≡ some m) × IsMerge existing late m
unfolding merge_flows
IsMerge-old p tenant key existing late now h =
    let old : IsCovered late.events existing.events =
      λ s t. sym (stored_ids existing s) ∙ (late_pass-Collected existing late).covers h s t in
    (
      existing,
      rw h refl,
      record { ids = λ s. ground (arith, old s); amended = λ s new absent. ground (arith, old s) },
    )

-- Merging a late flow into a stored one succeeds; the result has the events of both and no others,
-- and is marked as amended if one of the late events was new.
pub merge_flows-IsMerge :
    (p : Pipeline) (tenant key : Str) (existing late : Flow) (now : Time)
    → (m : Flow) × (merge_flows p tenant key existing late now ≡ some m) × IsMerge existing late m
merge_flows-IsMerge p tenant key existing late now = elim (Bool-cases (late_pass existing late).2) [
  | inl new ↦ IsMerge-new p tenant key existing late now new
  | inr old ↦ IsMerge-old p tenant key existing late now old
]

-- Merging the same late flow a second time, at any later moment, changes nothing.
pub merge_flows_repeated :
    (p : Pipeline) (tenant key : Str) (existing late m : Flow) (now later : Time)
    → merge_flows p tenant key existing late now ≡ some m
    → merge_flows p tenant key m late later ≡ some m
merge_flows_repeated p tenant key existing late m now later h =
    let (n, made, merged) = merge_flows-IsMerge p tenant key existing late now in
    let same : n ≡ m = cc in
    merge_flows-covered p tenant key m late later
      (λ s t. ground (arith, ap (λ f. has_id s f.events) same, merged.ids s))
