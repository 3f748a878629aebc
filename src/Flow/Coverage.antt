-- ===== src/Flow/Coverage.antt =====
-- How deep a flow is expected to have gone, and which layers it is said to lack.
use siem_v.Prelude.{
  ℕ, ◌≤◌, ◌≡◌, refl, Bool, true, false, not, ◌&&◌, some, List, [], ◌∷◌, All, Bool-cases,
  if◌then◌else◌, inl, inr, arith,
}
use siem_v.Schema.{Event, Layer, layer_order, layer_eq, layer_eq→eq, layer_eq_refl}
use siem_v.Flow.{no_layer, consider, consider_events, completeness_boundary, edge_served_from_cache}

abbrev pub IsPlaced : Layer × ℕ → Type 0
IsPlaced (l, o) = layer_order l ≡ some o

-- No event stands deeper than `b`.
abbrev pub ReachesNoDeeper : ℕ → List Event → Type 0
ReachesNoDeeper b events = All (λ e. (o : ℕ) → layer_order e.layer ≡ some o → o ≤ b) events

consider-IsPlaced : (l : Layer) (best : Layer × ℕ) → IsPlaced best → IsPlaced (consider l best)
unfolding consider
consider-IsPlaced l (k, b) h = ground arith

consider-le : (l : Layer) (best : Layer × ℕ) → best.1 ≤ (consider l best).1
unfolding consider
consider-le l (k, b) = ground arith

consider-covers :
    (l : Layer) (best : Layer × ℕ) (o : ℕ) → layer_order l ≡ some o → o ≤ (consider l best).1
unfolding consider
consider-covers l (k, b) o h = ground arith

consider_events-IsPlaced :
    (events : List Event) (best : Layer × ℕ)
    → IsPlaced best
    → IsPlaced (consider_events events best)
unfolding consider_events
consider_events-IsPlaced [] best h = h
consider_events-IsPlaced (e ∷ rest) best h =
    consider_events-IsPlaced rest (consider e.layer best) (consider-IsPlaced e.layer best h)

consider_events-le :
    (events : List Event) (best : Layer × ℕ) → best.1 ≤ (consider_events events best).1
unfolding consider_events
consider_events-le [] best = omega arith
consider_events-le (e ∷ rest) best =
    omega (arith, consider_events-le rest (consider e.layer best), consider-le e.layer best)

ReachesNoDeeper-mono :
    (a b : ℕ) (events : List Event) → a ≤ b → ReachesNoDeeper a events → ReachesNoDeeper b events
ReachesNoDeeper-mono a b [] h r = tt
ReachesNoDeeper-mono a b (e ∷ rest) h r =
    (λ o known. omega (arith, r.0 o known), ReachesNoDeeper-mono a b rest h r.1)

consider_events-covers :
    (events : List Event) (best : Layer × ℕ)
    → ReachesNoDeeper (consider_events events best).1 events
unfolding consider_events
consider_events-covers [] best = tt
consider_events-covers (e ∷ rest) best = (
  λ o known. omega (
    arith,
    consider-covers e.layer best o known,
    consider_events-le rest (consider e.layer best),
  ),
  consider_events-covers rest (consider e.layer best),
)

-- The boundary is at a known position, no event stands deeper, nor does the layer that terminated
-- the request; and a request that was neither terminated nor served from the edge's cache is
-- expected to have reached the origin.
pub record IsBoundary (ordered : List Event) (terminating boundary : Layer) : Type 0 where
  pub position : ℕ
  pub placed : layer_order boundary ≡ some position
  pub no_deeper : ReachesNoDeeper position ordered
  pub stop_no_deeper : (o : ℕ) → layer_order terminating ≡ some o → o ≤ position
  pub passed :
      terminating ≡ no_layer → edge_served_from_cache ordered ≡ false → boundary ≡ Layer.origin

origin_deepest : (l : Layer) (o : ℕ) → layer_order l ≡ some o → 3 ≤ o → l ≡ Layer.origin
unfolding layer_order
origin_deepest Layer.edge o h p = ground arith
origin_deepest _ o h p = ground arith

unfoldable pub stopped_at : List Event → Layer → Layer × ℕ
stopped_at ordered terminating =
    let reached = consider_events ordered (Layer.edge, 0) in
    if layer_eq terminating no_layer then reached else consider terminating reached

stopped_at-IsPlaced : (ordered : List Event) (t : Layer) → IsPlaced (stopped_at ordered t)
unfolding stopped_at
stopped_at-IsPlaced ordered t =
    let reached = consider_events-IsPlaced ordered (Layer.edge, 0) (unfold layer_order in refl) in
    elim (Bool-cases (layer_eq t no_layer)) [
      | inl open_end ↦ rw open_end reached
      | inr stop ↦ rw stop (consider-IsPlaced t _ reached)
    ]

stopped_at-le :
    (ordered : List Event) (t : Layer)
    → (consider_events ordered (Layer.edge, 0)).1 ≤ (stopped_at ordered t).1
unfolding stopped_at
stopped_at-le ordered t = ground (arith, consider-le t (consider_events ordered (Layer.edge, 0)))

stopped_at-covers :
    (ordered : List Event) (t : Layer) (o : ℕ)
    → layer_order t ≡ some o
    → o ≤ (stopped_at ordered t).1
unfolding stopped_at layer_order
stopped_at-covers ordered t o known =
    ground
      (arith, consider-covers t (consider_events ordered (Layer.edge, 0)) o, layer_eq→eq t no_layer)

unfoldable pub passes : List Event → Layer → Bool
passes ordered t = layer_eq t no_layer && not (edge_served_from_cache ordered)

unfoldable pub boundary_of : List Event → Layer → Layer × ℕ
boundary_of ordered t =
    if passes ordered t then consider Layer.origin (stopped_at ordered t) else stopped_at ordered t

boundary_of-le :
    (ordered : List Event) (t : Layer) → (stopped_at ordered t).1 ≤ (boundary_of ordered t).1
unfolding boundary_of
boundary_of-le ordered t = ground (arith, consider-le Layer.origin (stopped_at ordered t))

pub boundary_of-IsPlaced : (ordered : List Event) (t : Layer) → IsPlaced (boundary_of ordered t)
unfolding boundary_of
boundary_of-IsPlaced ordered t = elim (Bool-cases (passes ordered t)) [
  | inl passed ↦ rw passed (consider-IsPlaced Layer.origin _ (stopped_at-IsPlaced ordered t))
  | inr held ↦ rw held (stopped_at-IsPlaced ordered t)
]

boundary_of-passed :
    (ordered : List Event) (t : Layer)
    → t ≡ no_layer
    → edge_served_from_cache ordered ≡ false
    → (boundary_of ordered t).0 ≡ Layer.origin
unfolding boundary_of passes
boundary_of-passed ordered t e c =
    let open_end : passes ordered t ≡ true = unfold passes in (ground (arith, layer_eq_refl t)) in
    origin_deepest (boundary_of ordered t).0 (boundary_of ordered t).1
      (boundary_of-IsPlaced ordered t)
      (ground (
        arith,
        open_end,
        consider-covers Layer.origin (stopped_at ordered t) 3 (unfold layer_order in refl),
      ))

-- The boundary that `completenessBoundary` finds is at least as deep as every event and as the layer
-- that terminated the request, and it is the origin where the request passed and was not served
-- from the cache.
pub completeness_boundary-IsBoundary :
    (ordered : List Event) (terminating : Layer)
    → IsBoundary ordered terminating (completeness_boundary ordered terminating)
unfolding completeness_boundary boundary_of passes stopped_at
completeness_boundary-IsBoundary ordered terminating = record {
  position = (boundary_of ordered terminating).1;
  placed = boundary_of-IsPlaced ordered terminating;
  no_deeper =
      ReachesNoDeeper-mono (consider_events ordered (Layer.edge, 0)).1
        (boundary_of ordered terminating).1 ordered
        (omega (arith, stopped_at-le ordered terminating, boundary_of-le ordered terminating))
        (consider_events-covers ordered (Layer.edge, 0));
  stop_no_deeper = λ o known.
      omega
        (arith, stopped_at-covers ordered terminating o known, boundary_of-le ordered terminating);
  passed = λ e c. boundary_of-passed ordered terminating e c;
}
