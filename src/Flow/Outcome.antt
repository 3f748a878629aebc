-- ===== src/Flow/Outcome.antt =====
-- Which event decides the outcome of a flow.
use siem_v.Prelude.{
  ◌≡◌, refl, true, false, some, List, subst, [], ◌∷◌, Bool-cases, ◌⊎◌, inl, inr, arith,
}
use siem_v.Prelude.Text.{Str}
use siem_v.Schema.{Event, Layer, Action}
use siem_v.Order.{order_events}
use siem_v.Flow.{Flow, Options, resolve_outcome, outcome_from, no_layer, propagate_flags}
use siem_v.Flow.Materialize.{draft_flow, finish_flow, materialize_ordered, materialize}

-- The first event that terminates the request decides; every event before it lets it pass.
abbrev pub FirstStop : Action → Layer → List Event → Type 0
FirstStop action layer [] = ⊥
FirstStop action layer (e ∷ rest) =
    ((e.verdict.terminating ≡ true) × (action ≡ e.verdict.action) × (layer ≡ e.layer))
    ⊎ ((e.verdict.terminating ≡ false) × FirstStop action layer rest)

-- No event terminates the request, and `action` is that of the last one.
abbrev pub NoStop : Action → List Event → Type 0
NoStop action [] = ⊥
NoStop action (e ∷ []) = (e.verdict.terminating ≡ false) × (action ≡ e.verdict.action)
NoStop action (e ∷ d ∷ rest) = (e.verdict.terminating ≡ false) × NoStop action (d ∷ rest)

abbrev pub IsOutcome : Action → Layer → List Event → Type 0
IsOutcome action layer events =
    FirstStop action layer events ⊎ ((layer ≡ no_layer) × NoStop action events)

IsOutcome-cons :
    (action : Action) (layer : Layer) (e d : Event) (rest : List Event)
    → e.verdict.terminating ≡ false
    → IsOutcome action layer (d ∷ rest)
    → IsOutcome action layer (e ∷ d ∷ rest)
IsOutcome-cons action layer e d rest h (inl stop) = inl (inr (h, stop))
IsOutcome-cons action layer e d rest h (inr (same, pass)) = inr (same, (h, pass))

-- `IsOutcome` of a pair, to carry it along an equation.
abbrev Decides : List Event → Action × Layer → Type 0
Decides events o = IsOutcome o.0 o.1 events

outcome_from-IsOutcome :
    (e : Event) (rest : List Event)
    → e.verdict.terminating ≡ false
    → Decides (e ∷ rest) (outcome_from e rest)
unfolding outcome_from
outcome_from-IsOutcome e [] h = inr (refl, (h, refl))
outcome_from-IsOutcome e (d ∷ rest) h = elim (Bool-cases d.verdict.terminating) [
  | inl stop ↦
      let eq : (d.verdict.action, d.layer) ≡ outcome_from e (d ∷ rest) = ground arith in
      subst (Decides (e ∷ d ∷ rest)) eq (inl (inr (h, inl (stop, refl, refl))))
  | inr pass ↦
      let eq : outcome_from d rest ≡ outcome_from e (d ∷ rest) = ground arith in
      subst (Decides (e ∷ d ∷ rest)) eq (
        IsOutcome-cons (outcome_from d rest).0 (outcome_from d rest).1 e d rest h
          (outcome_from-IsOutcome d rest pass))
]

resolve_outcome-IsOutcome :
    (e : Event) (rest : List Event) → Decides (e ∷ rest) (resolve_outcome e rest)
unfolding resolve_outcome
resolve_outcome-IsOutcome e rest = elim (Bool-cases e.verdict.terminating) [
  | inl stop ↦
      let eq : (e.verdict.action, e.layer) ≡ resolve_outcome e rest = ground arith in
      subst (Decides (e ∷ rest)) eq (inl (inl (stop, refl, refl)))
  | inr pass ↦
      let eq : outcome_from e rest ≡ resolve_outcome e rest = ground arith in
      subst (Decides (e ∷ rest)) eq (outcome_from-IsOutcome e rest pass)
]

materialize_ordered-IsOutcome :
    (key : Str) (ordered : List Event) (opts : Options) (f : Flow)
    → materialize_ordered key ordered opts ≡ some f
    → Decides ordered (f.effective_outcome, f.terminating_layer)
unfolding materialize_ordered finish_flow draft_flow propagate_flags
materialize_ordered-IsOutcome key [] opts f h = cc
materialize_ordered-IsOutcome key (e ∷ rest) opts f h =
    let eq : resolve_outcome e rest ≡ (f.effective_outcome, f.terminating_layer) = ground arith in
    subst (Decides (e ∷ rest)) eq (resolve_outcome-IsOutcome e rest)

-- The outcome of a flow is the action of the first event, in causal order, that terminates the
-- request, and that event's layer is the terminating layer; if none does, the outcome is the action
-- of the last event, and the terminating layer is empty.
pub materialize-IsOutcome :
    (key : Str) (events : List Event) (opts : Options) (f : Flow)
    → materialize key events opts ≡ some f
    → IsOutcome f.effective_outcome f.terminating_layer (order_events events)
unfolding materialize
materialize-IsOutcome key events opts f h =
    materialize_ordered-IsOutcome key (order_events events) opts f h
