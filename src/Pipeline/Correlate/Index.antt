-- ===== src/Pipeline/Correlate/Index.antt =====
-- The identifier index and its reverse agree, whatever windows are merged.
use siem_v.Prelude.{
  ◌≡◌, ◌↔◌, refl, ◌∙◌, Bool, true, false, ◌&&◌, ◌||◌, some, List, [], ◌∷◌, ◌++◌, Bool-cases, inl,
  inr, arith, if◌then◌else◌,
}
use siem_v.Prelude.Text.{Str, str_eq, str_eq_refl, str_eq→eq, Str-cases}
use siem_v.Prelude.Maps.{Map, lookup, put, delete, lookup-put, lookup-delete}
use siem_v.Schema.{Layer}
use siem_v.Window.{Window}
use siem_v.Pipeline.{Pipeline, new_pipeline, member, set_add}
use siem_v.Pipeline.Correlate.{set_or_empty, ids_of, claim, claim_all, ensure_key, merge_key_state}

-- Key `k` owns identifier `s`.
abbrev pub owns : Map (List Str) → Str → Str → Bool
owns key_ids k s = member s (ids_of key_ids k)

-- An identifier is indexed under a key exactly if the key owns it.
pub record IsConsistent (p : Pipeline) : Type 0 where
  pub agree : (s k : Str) → (lookup s p.id_index ≡ some k) ↔ (owns p.key_ids k s ≡ true)

pub member-append :
    (s : Str) (xs ys : List Str) → member s (xs ++ ys) ≡ (member s xs || member s ys)
unfolding member
member-append s [] ys = refl
member-append s (x ∷ xs) ys = ground (arith, member-append s xs ys)

pub member-set_add :
    (t s : Str) (set : List Str) → member t (set_add s set) ≡ (member t set || str_eq s t)
unfolding set_add
member-set_add t s set = elim (Bool-cases (member s set)) [
  | inl old ↦ elim (Str-cases s t) [
    | inl same ↦ rw (← same, old) (rw old (unfold str_eq in refl))
    | inr differ ↦ rw (old, differ) (ground arith)
  ]
  | inr new ↦ rw new (member-append t set (s ∷ []) ∙ (unfold member in (ground arith)))
]

pub owns-put :
    (k j s : Str) (set : List Str) (m : Map (List Str))
    → owns (put k set m) j s ≡ (if str_eq k j then member s set else owns m j s)
unfolding set_or_empty
owns-put k j s set m = ground (arith, lookup-put k j set m)

pub owns-delete :
    (k j s : Str) (m : Map (List Str))
    → owns (delete k m) j s ≡ (if str_eq k j then false else owns m j s)
unfolding set_or_empty member
owns-delete k j s m = ground (arith, lookup-delete k j m)

-- What `claim` does to both maps.
pub claim-lookup :
    (key s : Str) (p : Pipeline) (t : Str)
    → lookup t (claim key s p).id_index ≡ (if str_eq s t then some key else lookup t p.id_index)
unfolding claim
claim-lookup key s p t = lookup-put s t key p.id_index

pub claim-owns :
    (key s : Str) (p : Pipeline) (k t : Str)
    → owns (claim key s p).key_ids k t ≡ (owns p.key_ids k t || (str_eq key k && str_eq s t))
unfolding claim
claim-owns key s p k t =
    owns-put key k t (set_add s (ids_of p.key_ids key)) p.key_ids ∙ elim (Str-cases key k) [
      | inl same ↦
          let eq = member-set_add t s (ids_of p.key_ids key) in
          rw (← same) (ground (arith, eq, str_eq_refl key))
      | inr differ ↦ ground arith
    ]

pub ensure_key-owns :
    (key : Str) (p : Pipeline) (k t : Str)
    → owns (ensure_key key p).key_ids k t ≡ owns p.key_ids k t
unfolding ensure_key
ensure_key-owns key p k t =
    owns-put key k t (ids_of p.key_ids key) p.key_ids ∙ elim (Str-cases key k) [
      | inl same ↦ rw (← same) (ground (arith, str_eq_refl key))
      | inr differ ↦ ground arith
    ]

pub claim_all-lookup :
    (key : Str) (ss : List Str) (p : Pipeline) (t : Str)
    → lookup t (claim_all key ss p).id_index
      ≡ (if member t ss then some key else lookup t p.id_index)
unfolding claim_all
claim_all-lookup key [] p t = unfold member in refl
claim_all-lookup key (s ∷ ss) p t =
    claim_all-lookup key ss (claim key s p) t
    ∙ rw (claim-lookup key s p t) (unfold member in (ground arith))

claim_all-owns :
    (key : Str) (ss : List Str) (p : Pipeline) (k t : Str)
    → owns (claim_all key ss p).key_ids k t ≡ (owns p.key_ids k t || (str_eq key k && member t ss))
unfolding claim_all
claim_all-owns key [] p k t = unfold member in (ground arith)
claim_all-owns key (s ∷ ss) p k t =
    claim_all-owns key ss (claim key s p) k t
    ∙ rw (claim-owns key s p k t) (unfold member in (ground arith))

pub merge_key_state-lookup :
    (dst src : Str) (p : Pipeline) (t : Str)
    → lookup t (merge_key_state dst src p).id_index
      ≡ (if owns p.key_ids src t then some dst else lookup t p.id_index)
unfolding merge_key_state ensure_key
merge_key_state-lookup dst src p t =
    claim_all-lookup dst (ids_of p.key_ids src) (ensure_key dst p) t

merge_key_state-owns :
    (dst src : Str) (p : Pipeline) (k t : Str)
    → owns (merge_key_state dst src p).key_ids k t ≡ (
        if str_eq src k
        then false
        else (owns p.key_ids k t || (str_eq dst k && owns p.key_ids src t)))
unfolding merge_key_state
merge_key_state-owns dst src p k t =
    let claimed = claim_all dst (ids_of p.key_ids src) (ensure_key dst p) in
    owns-delete src k t claimed.key_ids
    ∙ rw (
      claim_all-owns dst (ids_of p.key_ids src) (ensure_key dst p) k t,
      ensure_key-owns dst p k t,
    )

pub merge_key_state-IsConsistent :
    (dst src : Str) (p : Pipeline)
    → str_eq src dst ≡ false
    → IsConsistent p
    → IsConsistent (merge_key_state dst src p)
merge_key_state-IsConsistent dst src p ne c = record {
  agree = λ s k.
      let to = merge_key_state-lookup dst src p s in
      let by = merge_key_state-owns dst src p k s in
      let fact = c.agree s k in
      let source = c.agree s src in
      ground (
        arith,
        to,
        by,
        fact.0,
        fact.1,
        source.0,
        source.1,
        str_eq→eq src k,
        str_eq→eq dst k,
        str_eq_refl dst,
        str_eq_refl src,
      );
}

pub new_pipeline-IsConsistent :
    (w : Window) (layers : List Layer) → IsConsistent (new_pipeline w layers)
unfolding new_pipeline lookup member set_or_empty
new_pipeline-IsConsistent w layers = record { agree = λ s k. (λ h. cc, λ h. cc) }
