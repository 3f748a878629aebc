-- ===== src/Pipeline/Correlate/Placed.antt =====
-- An event that was correlated stays in the window that its identifiers lead to.
use siem_v.Prelude.{
  ◌≡◌, ◌⊎◌, refl, sym, ap, ◌∙◌, subst, true, false, none, some, List, [], ◌∷◌, All, All-map, inl,
  inr, arith, if◌then◌else◌,
}
use siem_v.Prelude.Text.{Str, str_eq, str_eq_refl, str_eq→eq, Str-cases}
use siem_v.Prelude.Maps.{lookup}
use siem_v.Schema.{Event}
use siem_v.Window.{merge}
use siem_v.Window.Contents.{holds, merge-holds}
use siem_v.Pipeline.{Pipeline}
use siem_v.Pipeline.Correlate.{claim, claim_all, ensure_key, merge_key_state, merge_into}
use siem_v.Pipeline.Correlate.Index.{
  IsConsistent, claim-lookup, claim-owns, ensure_key-owns, merge_key_state-lookup,
  merge_key_state-IsConsistent,
}

-- Some window holds the event, and every one of the identifiers leads to that window.
pub record IsPlaced (p : Pipeline) (e : Event) (strs : List Str) : Type 0 where
  pub key : Str
  pub held : holds p.window key e ≡ true
  pub indexed : All (λ s. lookup s p.id_index ≡ some key) strs

-- An identifier may be claimed for the key: no other key has it.
abbrev pub IsSettled : Pipeline → Str → Str → Type 0
IsSettled p key s = (lookup s p.id_index ≡ none) ⊎ (lookup s p.id_index ≡ some key)

pub claim-IsSettled :
    (key s t : Str) (p : Pipeline) → IsSettled p key t → IsSettled (claim key s p) key t
claim-IsSettled key s t p h = ground (arith, claim-lookup key s p t)

pub claim-IsConsistent :
    (key s : Str) (p : Pipeline) → IsSettled p key s → IsConsistent p → IsConsistent (claim key s p)
claim-IsConsistent key s p h c = record {
  agree = λ t k.
      let to = claim-lookup key s p t in
      let by = claim-owns key s p k t in
      let fact = c.agree t k in
      let at : str_eq s t ≡ true → lookup t p.id_index ≡ lookup s p.id_index =
        λ e. ap (λ x. lookup x p.id_index) (sym (str_eq→eq s t e)) in
      ground (arith, to, by, fact.0, fact.1, at, str_eq→eq key k, str_eq_refl key);
}

pub claim-IsPlaced :
    (key s : Str) (p : Pipeline) (e : Event) (strs : List Str)
    → IsSettled p key s
    → IsPlaced p e strs
    → IsPlaced (claim key s p) e strs
unfolding claim
claim-IsPlaced key s p e strs h place = record {
  key = place.key;
  held = place.held;
  indexed =
      All-map (λ t. lookup t p.id_index ≡ some place.key) _ strs
        (λ t found.
          let to = claim-lookup key s p t in
          let at : str_eq s t ≡ true → lookup t p.id_index ≡ lookup s p.id_index =
            λ e. ap (λ x. lookup x p.id_index) (sym (str_eq→eq s t e)) in
          ground (arith, to, at))
        place.indexed;
}

pub ensure_key-IsConsistent :
    (key : Str) (p : Pipeline) → IsConsistent p → IsConsistent (ensure_key key p)
ensure_key-IsConsistent key p c = record {
  agree = λ t k.
      let by = ensure_key-owns key p k t in
      let fact = c.agree t k in
      (λ h. by ∙ fact.0 (unfold ensure_key in h), λ h. unfold ensure_key in (fact.1 (sym by ∙ h)));
}

-- What a step of the merging loop promises.
pub record Carries (p q : Pipeline) : Type 0 where
  pub consistent : IsConsistent q
  pub placed : (e : Event) (strs : List Str) → IsPlaced p e strs → IsPlaced q e strs

pub Carries-trans : (p q r : Pipeline) → Carries p q → Carries q r → Carries p r
Carries-trans p q r f g = record {
  consistent = g.consistent;
  placed = λ e strs place. g.placed e strs (f.placed e strs place);
}

pub claim_all-window :
    (key : Str) (ss : List Str) (p : Pipeline) → (claim_all key ss p).window ≡ p.window
unfolding claim_all claim
claim_all-window key [] p = refl
claim_all-window key (s ∷ ss) p = claim_all-window key ss (claim key s p)

-- After a merge, what led to `k` leads to `key`, and the rest leads where it did.
pub merge_into-lookup :
    (key k : Str) (p : Pipeline) (t j : Str)
    → IsConsistent p
    → lookup t p.id_index ≡ some j
    → lookup t (merge_into key k p).id_index ≡ some (if str_eq k j then key else j)
unfolding merge_into
merge_into-lookup key k p t j c found =
    let to = merge_key_state-lookup key k (record p { window = merge p.window key k }) t in
    let fact = c.agree t k in ground (arith, to, fact.0, fact.1, str_eq→eq k j, str_eq_refl j)

merge_into-window :
    (key k : Str) (p : Pipeline) → (merge_into key k p).window ≡ merge p.window key k
unfolding merge_into merge_key_state ensure_key
merge_into-window key k p = claim_all-window key _ _

pub merge_into-Carries :
    (key k : Str) (p : Pipeline)
    → str_eq k key ≡ false
    → IsConsistent p
    → Carries p (merge_into key k p)
merge_into-Carries key k p ne c = record {
  consistent =
      unfold merge_into in
      (merge_key_state-IsConsistent key k (record p { window = merge p.window key k }) ne
        (record { agree = c.agree }));
  placed = λ e strs place. record {
    key = if str_eq k place.key then key else place.key;
    held =
        ap (λ w. holds w (if str_eq k place.key then key else place.key) e)
          (merge_into-window key k p)
        ∙ kept e place.key place.held;
    indexed =
        All-map (λ t. lookup t p.id_index ≡ some place.key) _ strs
          (λ t found. merge_into-lookup key k p t place.key c found) place.indexed;
  };
}
  where
    kept :
        (e : Event) (j : Str)
        → holds p.window j e ≡ true
        → holds (merge p.window key k) (if str_eq k j then key else j) e ≡ true
    kept e j held = elim (Str-cases k j) [
      | inl same ↦
          let there : holds p.window k e ≡ true =
            subst (λ x. holds p.window x e ≡ true) (sym same) held in
          rw (← same, str_eq_refl, merge-holds p.window key k key e ne, ne, there)
            (ground (arith, str_eq_refl key))
      | inr differ ↦ rw (differ, merge-holds p.window key k j e ne, differ, held) refl
    ]
