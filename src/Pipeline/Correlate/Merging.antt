-- ===== src/Pipeline/Correlate/Merging.antt =====
-- The windows that a record bridges become one, and its identifiers are free for that one's key.
use siem_v.Prelude.{
  ◌≡◌, ◌⊎◌, refl, sym, ap, ◌∙◌, true, Option, none, some, List, [], ◌∷◌, All, All-map, Bool-cases,
  inl, inr, arith,
}
use siem_v.Prelude.Text.{Str, str_eq, str_eq_refl, str_eq→eq, Str-cases}
use siem_v.Prelude.Maps.{Map, lookup}
use siem_v.Window.{merge}
use siem_v.Keys.{Identifier}
use siem_v.Pipeline.{Pipeline, member}
use siem_v.Pipeline.Correlate.{
  claim, claim_all, merge_into, merge_one, merge_all, merge_existing, add_key, existing_keys,
  choose_key,
}
use siem_v.Pipeline.Correlate.Index.{IsConsistent, merge_key_state-lookup, member-set_add}
use siem_v.Pipeline.Correlate.Placed.{
  IsSettled, Carries, Carries-trans, merge_into-lookup, merge_into-Carries, claim-IsSettled,
  claim-IsConsistent, claim-IsPlaced,
}

pub Carries-refl : (p : Pipeline) → IsConsistent p → Carries p p
Carries-refl p c = record { consistent = c; placed = λ e strs place. place }

pub merge_one-Carries :
    (key k : Str) (p : Pipeline) → IsConsistent p → Carries p (merge_one key k p)
unfolding merge_one
merge_one-Carries key k p c = elim (Bool-cases (str_eq k key)) [
  | inl same ↦ rw same (Carries-refl p c)
  | inr differ ↦ rw differ (merge_into-Carries key k p differ c)
]

pub merge_all-Carries :
    (key : Str) (ks : List Str) (p : Pipeline) → IsConsistent p → Carries p (merge_all key ks p)
unfolding merge_all
merge_all-Carries key [] p c = Carries-refl p c
merge_all-Carries key (k ∷ ks) p c =
    let first = merge_one-Carries key k p c in
    Carries-trans p (merge_one key k p) (merge_all key ks (merge_one key k p)) first
      (merge_all-Carries key ks (merge_one key k p) first.consistent)

-- The identifier leads nowhere, to `key`, or to one of the windows still to be merged.
abbrev IsPending : Pipeline → Str → List Str → Str → Type 0
IsPending p key ks s =
    IsSettled p key s ⊎ ((k : Str) × (lookup s p.id_index ≡ some k) × (member k ks ≡ true))

merge_into-lookup-none :
    (key k : Str) (p : Pipeline) (t : Str)
    → IsConsistent p
    → lookup t p.id_index ≡ none
    → lookup t (merge_into key k p).id_index ≡ none
unfolding merge_into
merge_into-lookup-none key k p t c absent =
    let to = merge_key_state-lookup key k (record p { window = merge p.window key k }) t in
    let fact = c.agree t k in ground (arith, to, fact.1)

member-cons :
    (s t : Str) (set : List Str) → member s (t ∷ set) ≡ true → (t ≡ s) ⊎ (member s set ≡ true)
unfolding member
member-cons s t set h = elim (Str-cases t s) [
  | inl same ↦ inl same
  | inr differ ↦ inr (ground arith)
]

-- A step over a window that is `key`'s own.
stay :
    (key k : Str) (ks : List Str) (p : Pipeline) (s : Str)
    → k ≡ key
    → IsPending p key (k ∷ ks) s
    → IsPending p key ks s
stay key k ks p s same (inl settled) = inl settled
stay key k ks p s same (inr (j, found, among)) = elim (member-cons j k ks among) [
  | inl here ↦ inl (inr (found ∙ ap some (sym here ∙ same)))
  | inr later ↦ inr (j, found, later)
]

-- A step that merges a window.
move :
    (key k : Str) (ks : List Str) (p : Pipeline) (s : Str)
    → IsConsistent p
    → IsPending p key (k ∷ ks) s
    → IsPending (merge_into key k p) key ks s
move key k ks p s c (inl (inl absent)) = inl (inl (merge_into-lookup-none key k p s c absent))
move key k ks p s c (inl (inr found)) =
    let to = merge_into-lookup key k p s key c found in inl (inr (ground (arith, to)))
move key k ks p s c (inr (j, found, among)) =
    let to = merge_into-lookup key k p s j c found in
    elim (member-cons j k ks among) [
      | inl here ↦ inl (inr (ground (arith, to, here, str_eq_refl k)))
      | inr later ↦ elim (Str-cases k j) [
        | inl same ↦ inl (inr (ground (arith, to, same, str_eq_refl k)))
        | inr differ ↦ inr (j, ground (arith, to), later)
      ]
    ]

merge_one-IsPending :
    (key k : Str) (ks : List Str) (p : Pipeline) (s : Str)
    → IsConsistent p
    → IsPending p key (k ∷ ks) s
    → IsPending (merge_one key k p) key ks s
unfolding merge_one
merge_one-IsPending key k ks p s c h = elim (Bool-cases (str_eq k key)) [
  | inl same ↦ rw same (stay key k ks p s (str_eq→eq k key same) h)
  | inr differ ↦ rw differ (move key k ks p s c h)
]

IsSettled-of_IsPending : (p : Pipeline) (key s : Str) → IsPending p key [] s → IsSettled p key s
unfolding member
IsSettled-of_IsPending p key s (inl settled) = settled
IsSettled-of_IsPending p key s (inr (k, found, among)) = cc

merge_all-IsSettled :
    (key : Str) (ks : List Str) (p : Pipeline) (s : Str)
    → IsConsistent p
    → IsPending p key ks s
    → IsSettled (merge_all key ks p) key s
unfolding merge_all
merge_all-IsSettled key [] p s c h = IsSettled-of_IsPending p key s h
merge_all-IsSettled key (k ∷ ks) p s c h =
    merge_all-IsSettled key ks (merge_one key k p) s (merge_one-Carries key k p c).consistent
      (merge_one-IsPending key k ks p s c h)

existing_keys-keeps :
    (index : Map Str) (strs keys : List Str) (k : Str)
    → member k keys ≡ true
    → member k (existing_keys index strs keys) ≡ true
unfolding existing_keys
existing_keys-keeps index [] keys k h = h
existing_keys-keeps index (s ∷ rest) keys k h =
    existing_keys-keeps index rest (add_key (lookup s index) keys) k (kept (lookup s index))
  where
    kept : (o : Option Str) → member k (add_key o keys) ≡ true
    kept none = unfold add_key in h
    kept (some j) = unfold add_key in (ground (arith, member-set_add k j keys))

-- Every window that an identifier of the record leads to is among the existing ones.
abbrev pub IsListed : Map Str → List Str → Str → Type 0
IsListed index keys s =
    (lookup s index ≡ none) ⊎ ((k : Str) × (lookup s index ≡ some k) × (member k keys ≡ true))

pub existing_keys-IsListed :
    (index : Map Str) (strs keys : List Str)
    → All (IsListed index (existing_keys index strs keys)) strs
unfolding existing_keys
existing_keys-IsListed index [] keys = tt
existing_keys-IsListed index (s ∷ rest) keys =
    (here (lookup s index) refl, existing_keys-IsListed index rest (add_key (lookup s index) keys))
  where
    here :
        (o : Option Str)
        → lookup s index ≡ o
        → IsListed index (existing_keys index rest (add_key (lookup s index) keys)) s
    here none absent = inl absent
    here (some k) found = inr (
      k,
      found,
      existing_keys-keeps index rest (add_key (lookup s index) keys) k
          (rw found (unfold add_key in (ground (arith, member-set_add k k keys, str_eq_refl k)))),
    )

IsPending-of_IsListed :
    (p : Pipeline) (key s : Str) (keys : List Str)
    → IsListed p.id_index keys s
    → IsPending p key keys s
IsPending-of_IsListed p key s keys (inl absent) = inl (inl absent)
IsPending-of_IsListed p key s keys (inr there) = inr there

-- After the switch over the number of windows, the record's identifiers are free for its key.
pub merge_existing-IsSettled :
    (ids : List Identifier) (strs existing : List Str) (p : Pipeline) (s : Str)
    → IsConsistent p
    → IsListed p.id_index existing s
    → let key = choose_key ids strs existing in IsSettled (merge_existing key existing p) key s
unfolding merge_existing choose_key
merge_existing-IsSettled ids strs [] p s c h =
    IsSettled-of_IsPending p _ s (IsPending-of_IsListed p _ s [] h)
merge_existing-IsSettled ids strs (k ∷ []) p s c h =
    IsSettled-of_IsPending p k s (stay k k [] p s refl (IsPending-of_IsListed p k s (k ∷ []) h))
merge_existing-IsSettled ids strs (k ∷ j ∷ rest) p s c h =
    merge_all-IsSettled _ (k ∷ j ∷ rest) p s c (IsPending-of_IsListed p _ s (k ∷ j ∷ rest) h)

pub merge_existing-Carries :
    (key : Str) (existing : List Str) (p : Pipeline)
    → IsConsistent p
    → Carries p (merge_existing key existing p)
unfolding merge_existing
merge_existing-Carries key [] p c = Carries-refl p c
merge_existing-Carries key (k ∷ []) p c = Carries-refl p c
merge_existing-Carries key (k ∷ j ∷ rest) p c = merge_all-Carries key (k ∷ j ∷ rest) p c

pub claim_all-Carries :
    (key : Str) (ss : List Str) (p : Pipeline)
    → IsConsistent p
    → All (IsSettled p key) ss
    → Carries p (claim_all key ss p)
unfolding claim_all
claim_all-Carries key [] p c h = Carries-refl p c
claim_all-Carries key (s ∷ ss) p c h =
    Carries-trans p (claim key s p) (claim_all key ss (claim key s p))
      (record {
        consistent = claim-IsConsistent key s p h.0 c;
        placed = λ e strs place. claim-IsPlaced key s p e strs h.0 place;
      })
      (claim_all-Carries key ss (claim key s p) (claim-IsConsistent key s p h.0 c) (
        All-map (IsSettled p key) (IsSettled (claim key s p) key) ss
          (λ t settled. claim-IsSettled key s t p settled) h.1))
