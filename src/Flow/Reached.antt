-- ===== src/Flow/Reached.antt =====
-- How far a request got: `completenessBoundary` of backend/internal/biz/flow/materialize.go.
use siem_v.Prelude.{
  ℕ, ◌≤◌, ◌≡◌, ◌↔◌, ◌⊎◌, refl, sym, ap, subst, ◌∙◌, Bool, true, false, ◌&&◌, some, List, [], ◌∷◌,
  any, leb, Memᴰ, any-Mem, any-of_Mem, All-mem, Bool-cases, Option-cases, inl, inr, arith,
}
use siem_v.Prelude.Text.{str, str_eq, str_eq→eq, str_eq_refl, to_lower}
use siem_v.Schema.{Event, Layer, layer_order, layer_eq, layer_eq→eq, layer_eq_refl}
use siem_v.Flow.{
  no_layer, cache_served_statuses, consider, consider_events, edge_served_from_cache,
  completeness_boundary,
}
use siem_v.Flow.Coverage.{
  IsBoundary, stopped_at, passes, boundary_of, completeness_boundary-IsBoundary,
}

-- The edge answered from its cache.
abbrev pub IsServedByEdge : List Event → Type 0
IsServedByEdge events =
    (e : Event) × Memᴰ e events
    × (e.layer ≡ Layer.edge)
    × Memᴰ (to_lower e.response.cache_status)
        (str "hit" ∷ str "revalidated" ∷ str "updating" ∷ str "stale" ∷ [])

-- The request got to the position: it is that of the edge, or an event or the layer that stopped the
-- request stands there or deeper, or nothing stopped the request and the edge did not answer it.
abbrev pub IsReached : List Event → Layer → ℕ → Type 0
IsReached events t o =
    (o ≡ 0)
    ⊎ (((e : Event) × (k : ℕ) × Memᴰ e events × (layer_order e.layer ≡ some k) × (o ≤ k))
        ⊎ (((k : ℕ) × (layer_order t ≡ some k) × (o ≤ k))
            ⊎ ((t ≡ no_layer) × (o ≤ 3) × (IsServedByEdge events → ⊥))))

abbrev is_hit : Event → Bool
is_hit e =
    layer_eq e.layer Layer.edge
    && any (λ s. str_eq s (to_lower e.response.cache_status)) cache_served_statuses

is_hit_iff :
    (e : Event)
    → (is_hit e ≡ true)
      ↔ ((e.layer ≡ Layer.edge) × Memᴰ (to_lower e.response.cache_status) cache_served_statuses)
is_hit_iff e =
    let text = to_lower e.response.cache_status in
    (
      λ h.
          let (s, n, u) = any-Mem (λ s. str_eq s text) cache_served_statuses (ground arith) in
          let same : s ≡ text = str_eq→eq s text u in
          (
            layer_eq→eq e.layer Layer.edge (ground arith),
            subst (λ x. Memᴰ x cache_served_statuses) same n,
          ),
      λ h.
          let at_edge =
            subst (λ l. layer_eq l Layer.edge ≡ true) (sym h.0) (layer_eq_refl Layer.edge) in
          ground (
            arith,
            at_edge,
            any-of_Mem (λ s. str_eq s text) cache_served_statuses h.1 (str_eq_refl text),
          ),
    )

edge_served_from_cache_iff :
    (events : List Event) → (edge_served_from_cache events ≡ true) ↔ IsServedByEdge events
unfolding edge_served_from_cache
edge_served_from_cache_iff events = (
  λ h.
      let (e, m, t) = any-Mem is_hit events h in
      let hit = (is_hit_iff e).0 t in (e, m, hit.0, hit.1),
  λ h. any-of_Mem is_hit events h.1 ((is_hit_iff h.0).1 (h.2, h.3)),
)

-- Where a position that the scan came to stands.
consider-reaches :
    (l : Layer) (best : Layer × ℕ) (o : ℕ)
    → o ≤ (consider l best).1
    → (o ≤ best.1) ⊎ ((k : ℕ) × (layer_order l ≡ some k) × (o ≤ k))
unfolding consider
consider-reaches l (b, n) o h = elim (Bool-cases (leb o n)) [
  | inl old ↦ inl (ground arith)
  | inr new ↦ elim (Option-cases (layer_order l)) [
    | inl unknown ↦ absurd (ground arith)
    | inr (k, known) ↦ inr (k, known, ground arith)
  ]
]

consider_events-reaches :
    (events : List Event) (best : Layer × ℕ) (o : ℕ)
    → o ≤ (consider_events events best).1
    → (o ≤ best.1)
      ⊎ ((e : Event) × (k : ℕ) × Memᴰ e events × (layer_order e.layer ≡ some k) × (o ≤ k))
unfolding consider_events
consider_events-reaches [] best o h = inl h
consider_events-reaches (e ∷ rest) best o h =
    elim (consider_events-reaches rest (consider e.layer best) o h) [
      | inl here ↦ elim (consider-reaches e.layer best o here) [
        | inl old ↦ inl old
        | inr (k, known, le) ↦ inr (e, k, Memᴰ.head refl, known, le)
      ]
      | inr (d, k, m, known, le) ↦ inr (d, k, Memᴰ.tail m, known, le)
    ]

-- Three deep at the most: the position of the origin.
origin-order : layer_order Layer.origin ≡ some 3
unfolding layer_order
origin-order = refl

from_events :
    (ordered : List Event) (t : Layer) (o : ℕ)
    → o ≤ (consider_events ordered (Layer.edge, 0)).1
    → IsReached ordered t o
from_events ordered t o h = elim (consider_events-reaches ordered (Layer.edge, 0) o h) [
  | inl start ↦ inl (omega arith)
  | inr event ↦ inr (inl event)
]

from_stop :
    (ordered : List Event) (t : Layer) (o : ℕ)
    → o ≤ (stopped_at ordered t).1
    → IsReached ordered t o
unfolding stopped_at
from_stop ordered t o = elim (Bool-cases (layer_eq t no_layer)) [
  | inl open_end ↦ rw open_end (λ h. from_events ordered t o h)
  | inr stopped ↦ rw stopped (λ h.
      elim (consider-reaches t (consider_events ordered (Layer.edge, 0)) o h) [
        | inl old ↦ from_events ordered t o old
        | inr stop ↦ inr (inr (inl stop))
      ])
]

pub from_boundary :
    (ordered : List Event) (t : Layer) (o : ℕ)
    → o ≤ (boundary_of ordered t).1
    → IsReached ordered t o
unfolding boundary_of passes
from_boundary ordered t o = elim (Bool-cases (passes ordered t)) [
  | inr held ↦ rw held (λ h. from_stop ordered t o h)
  | inl passed ↦ rw passed (λ h. elim (consider-reaches Layer.origin (stopped_at ordered t) o h) [
    | inl old ↦ from_stop ordered t o old
    | inr (k, known, le) ↦
        let deepest : k ≡ 3 = ground (arith, origin-order) in
        inr (
          inr (
            inr (
              layer_eq→eq t no_layer (ground arith),
              omega arith,
              λ served. absurd (ground (arith, (edge_served_from_cache_iff ordered).1 served)),
            )))
  ])
]

-- The position of the boundary is the deepest one that is reached.
pub reached-le :
    (ordered : List Event) (t : Layer) (b o : ℕ)
    → layer_order (completeness_boundary ordered t) ≡ some b
    → IsReached ordered t o
    → o ≤ b
reached-le ordered t b o h r = go r
  where
    known : IsBoundary ordered t (completeness_boundary ordered t)
    known = completeness_boundary-IsBoundary ordered t

    same : known.position ≡ b
    same = ground (arith, known.placed, h)

    missed :
        (c : Bool)
        → edge_served_from_cache ordered ≡ c
        → (IsServedByEdge ordered → ⊥)
        → edge_served_from_cache ordered ≡ false
    missed true q n = absurd (n ((edge_served_from_cache_iff ordered).0 q))
    missed false q n = q

    go : IsReached ordered t o → o ≤ b
    go (inl start) = omega arith
    go (inr (inl (e, k, m, q, le))) =
        let deep =
          All-mem (λ e. (n : ℕ) → layer_order e.layer ≡ some n → n ≤ known.position) known.no_deeper
            m k q in
        omega (arith, deep, same)
    go (inr (inr (inl (k, q, le)))) = omega (arith, known.stop_no_deeper k q, same)
    go (inr (inr (inr (open_end, le, unserved)))) =
        let origin =
          known.passed open_end (missed (edge_served_from_cache ordered) refl unserved) in
        let three : some 3 ≡ some b = sym (ap layer_order origin ∙ origin-order) ∙ h in ground arith
