-- ===== src/Flow/Missing.antt =====
-- Which layers a flow is said to lack: `layerCoverage` and `completenessBoundary` of
-- backend/internal/biz/flow/materialize.go, as `Materialize` uses them.
use siem_v.Prelude.{
  ℕ, ◌≤◌, ◌≡◌, ◌↔◌, ◌⊎◌, refl, sym, subst, Bool, true, not, none, some, List, [], ◌∷◌, any, keep,
  Option, Memᴰ, Permᴰ, perm_symm, Mem-perm, Mem-keep, Mem-of_keep, any-Mem, any-of_Mem, Bool-cases,
  inl, inr, arith,
}
use siem_v.Prelude.Text.{Str}
use siem_v.Prelude.Sort.{sort-permᴰ}
use siem_v.Schema.{Event, Layer, layer_order, layer_eq, layer_eq→eq, layer_eq_refl}
use siem_v.Order.{event_less, order_events}
use siem_v.Flow.{
  Flow, Options, completeness_boundary, within, up_to, expected_up_to, has_reported, layer_coverage,
  propagate_flags,
}
use siem_v.Flow.Coverage.{stopped_at, passes, boundary_of, boundary_of-IsPlaced}
use siem_v.Flow.Judgement.{known-ne-no_layer}
use siem_v.Flow.Materialize.{
  or_default, expected_of, draft_flow, finish_flow, materialize_ordered, materialize,
}
use siem_v.Flow.Reached.{IsReached, from_boundary, reached-le}

-- Some event is of the layer.
abbrev pub HasReported : List Event → Layer → Type 0
HasReported events l = (e : Event) × Memᴰ e events × (e.layer ≡ l)

-- The layers that a deployment names, or the four known ones if it names none.
abbrev pub IsExpected : Options → Layer → Type 0
IsExpected opts l =
    Memᴰ l opts.expected_layers
    ⊎ ((opts.expected_layers ≡ [])
        × Memᴰ l (Layer.edge ∷ Layer.bot_management ∷ Layer.app_firewall ∷ Layer.origin ∷ []))

or_default_iff :
    (opts : Options) (l : Layer) → Memᴰ l (or_default opts.expected_layers) ↔ IsExpected opts l
unfolding or_default
or_default_iff opts l = go opts.expected_layers
  where
    go :
        (named : List Layer)
        → Memᴰ l (or_default named) ↔ (
            Memᴰ l named
            ⊎ ((named ≡ [])
                × Memᴰ l
                    (Layer.edge ∷ Layer.bot_management ∷ Layer.app_firewall ∷ Layer.origin ∷ [])))
    go [] = (λ m. inr (refl, m), λ h. elim h [ inl m ↦ elim m [ ] | inr (e, m) ↦ m ])
    go (k ∷ named) = (λ m. inl m, λ h. elim h [ inl m ↦ m | inr (e, m) ↦ absurd (cc e) ])

has_reported_iff :
    (events : List Event) (l : Layer)
    → (not (has_reported events l) ≡ true) ↔ (HasReported events l → ⊥)
unfolding has_reported
has_reported_iff events l = (
  λ h r. absurd (
      ground (
        arith,
        any-of_Mem (λ e. layer_eq e.layer l) events r.1
            (subst (λ k. layer_eq r.0.layer k ≡ true) r.2 (layer_eq_refl r.0.layer)),
      )),
  λ n. elim (Bool-cases (any (λ e. layer_eq e.layer l) events)) [
    | inl some_event ↦
        let (e, m, q) = any-Mem (λ e. layer_eq e.layer l) events some_event in
        absurd (n (e, m, layer_eq→eq e.layer l q))
    | inr no_event ↦ ground arith
  ],
)

-- A layer is missing from the flow of events in order.
abbrev pub IsMissing : List Event → Layer → Options → Layer → Type 0
IsMissing events t opts l =
    IsExpected opts l
    × ((o : ℕ) × (layer_order l ≡ some o) × IsReached events t o)
    × (HasReported events l → ⊥)

within_iff :
    (b : ℕ) (l : Layer)
    → (within b (layer_order l) ≡ true) ↔ ((o : ℕ) × (layer_order l ≡ some o) × (o ≤ b))
unfolding within
within_iff b l = go (layer_order l)
  where
    go : (p : Option ℕ) → (within b p ≡ true) ↔ ((o : ℕ) × (p ≡ some o) × (o ≤ b))
    go none = (λ h. cc, λ h. cc (h.1))
    go (some n) = (
      λ h. (n, refl, ground arith),
      λ h. let same : n ≡ h.0 = ground (arith, h.1) in ground (arith, h.2),
    )

boundary_known :
    (ordered : List Event) (t : Layer)
    → layer_order (completeness_boundary ordered t) ≡ some (boundary_of ordered t).1
unfolding completeness_boundary boundary_of passes stopped_at
boundary_known ordered t = boundary_of-IsPlaced ordered t

expected_of-keep :
    (ordered : List Event) (t : Layer) (opts : Options)
    → expected_of ordered t opts
      ≡ keep
          (λ l. within (boundary_of ordered t).1 (layer_order l))
          (or_default opts.expected_layers)
unfolding expected_of expected_up_to up_to
expected_of-keep ordered t opts =
    let known = boundary_known ordered t in
    rw (known-ne-no_layer (completeness_boundary ordered t) (boundary_of ordered t).1 known, known)
      refl

expected_of_iff :
    (ordered : List Event) (t : Layer) (opts : Options) (l : Layer)
    → Memᴰ l (expected_of ordered t opts)
      ↔ (IsExpected opts l × ((o : ℕ) × (layer_order l ≡ some o) × IsReached ordered t o))
expected_of_iff ordered t opts l =
    let b = (boundary_of ordered t).1 in
    let test : Layer → Bool = λ k. within b (layer_order k) in
    let same = expected_of-keep ordered t opts in
    (
      λ m.
          let (named, near) =
            Mem-of_keep test (or_default opts.expected_layers) (subst (λ ls. Memᴰ l ls) same m) in
          let (o, known, le) = (within_iff b l).0 near in
          ((or_default_iff opts l).0 named, (o, known, from_boundary ordered t o le)),
      λ h.
          let (named, (o, known, reached)) = h in
          let near =
            (within_iff b l).1
              (o, known, reached-le ordered t b o (boundary_known ordered t) reached) in
          subst (λ ls. Memᴰ l ls) (sym same)
            (Mem-keep test (or_default opts.expected_layers) near
              ((or_default_iff opts l).1 named)),
    )

materialize_ordered-missing :
    (key : Str) (ordered : List Event) (opts : Options) (f : Flow)
    → materialize_ordered key ordered opts ≡ some f
    → f.layers_missing
      ≡ keep (λ m. not (has_reported ordered m)) (expected_of ordered f.terminating_layer opts)
unfolding materialize_ordered finish_flow draft_flow propagate_flags layer_coverage
materialize_ordered-missing key [] opts f h = cc
materialize_ordered-missing key (e ∷ rest) opts f h = ground arith

-- The order of the events does not matter to what is said of them.
IsMissing-perm :
    (xs ys : List Event) (t : Layer) (opts : Options) (l : Layer)
    → Permᴰ xs ys
    → IsMissing xs t opts l
    → IsMissing ys t opts l
IsMissing-perm xs ys t opts l p (named, (o, known, reached), silent) =
    (named, (o, known, moved reached), λ r. silent (r.0, Mem-perm (perm_symm p) r.1, r.2))
  where
    moved : IsReached xs t o → IsReached ys t o
    moved (inl start) = inl start
    moved (inr (inl (e, k, m, q, le))) = inr (inl (e, k, Mem-perm p m, q, le))
    moved (inr (inr (inl stop))) = inr (inr (inl stop))
    moved (inr (inr (inr (open_end, le, unserved)))) =
        inr (inr (inr (open_end, le, λ c. unserved (c.0, Mem-perm (perm_symm p) c.1, c.2, c.3))))

-- A layer is missing from a flow exactly if it is expected, no event is of it, and the request got
-- to it: it is the edge, or an event or the layer that stopped the request stands at its position or
-- deeper, or nothing stopped the request and the edge did not answer it from its cache. The expected
-- layers are those that the options name, or the four known ones if they name none.
pub materialize-IsMissing_iff :
    (key : Str) (events : List Event) (opts : Options) (f : Flow) (l : Layer)
    → materialize key events opts ≡ some f
    → Memᴰ l f.layers_missing ↔ IsMissing events f.terminating_layer opts l
unfolding materialize order_events
materialize-IsMissing_iff key events opts f l h =
    let ordered = order_events events in
    let t = f.terminating_layer in
    let perm = sort-permᴰ event_less events in
    let same = materialize_ordered-missing key ordered opts f h in
    let unseen : Layer → Bool = λ m. not (has_reported ordered m) in
    let reach = expected_of_iff ordered t opts l in
    (
      λ m.
          let (expected, silent) =
            Mem-of_keep unseen (expected_of ordered t opts) (subst (λ ls. Memᴰ l ls) same m) in
          let (named, reached) = reach.0 expected in
          IsMissing-perm ordered events t opts l (perm_symm perm)
            (named, reached, (has_reported_iff ordered l).0 silent),
      λ missing.
          let (named, reached, silent) = IsMissing-perm events ordered t opts l perm missing in
          subst (λ ls. Memᴰ l ls) (sym same)
            (Mem-keep unseen (expected_of ordered t opts) ((has_reported_iff ordered l).1 silent)
              (reach.1 (named, reached))),
    )
