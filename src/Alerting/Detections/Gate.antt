-- ===== src/Alerting/Detections/Gate.antt =====
-- Only detections that meet their fixtures are ever evaluated.
use siem_v.Prelude.{
  ℕ, suc, ◌≡◌, ◌≢◌, refl, sym, subst, Bool, true, false, not, Option, none, some, List, [], ◌∷◌,
  All, All-perm, arith, if◌then◌else◌,
}
use siem_v.Prelude.Text.{str_eq}
use siem_v.Prelude.Maps.{Map, AllValues, AllValues-put, values}
use siem_v.Prelude.Sort.{sort-permᴰ}
use siem_v.Alerting.Detections.{
  Subject, Detection, FixtureError, first_silent, first_firing, or_else, is_none, no_positive,
  no_near_miss, no_hypothesis, validate_condition, validate_fixtures, activate_if, activate, fires,
  firing, evaluate,
}

module _ {F : Type 0} where
  -- The detection fires on every positive fixture, of which there is one, and on no near miss, of
  -- which there is one.
  pub record IsTested (d : Detection F) : Type 0 where
    pub has_positive : d.positive ≢ []
    pub has_near_miss : d.near_miss ≢ []
    pub positives : All (λ s. fires d.condition s ≡ true) d.positive
    pub near_misses : All (λ s. fires d.condition s ≡ false) d.near_miss

  first_silent-none :
      (condition : Subject F → Bool) (i : ℕ) (l : List (Subject F))
      → first_silent condition i l ≡ none
      → All (λ s. condition s ≡ true) l
  unfolding first_silent
  first_silent-none condition i [] h = tt
  first_silent-none condition i (s ∷ rest) h =
      (ground arith, first_silent-none condition (suc i) rest (ground arith))

  first_firing-none :
      (condition : Subject F → Bool) (i : ℕ) (l : List (Subject F))
      → first_firing condition i l ≡ none
      → All (λ s. condition s ≡ false) l
  unfolding first_firing
  first_firing-none condition i [] h = tt
  first_firing-none condition i (s ∷ rest) h =
      (ground arith, first_firing-none condition (suc i) rest (ground arith))

  checks-none :
      (ps ns : List (Subject F)) (b : Bool) (e1 e2 : Option FixtureError)
      → (if is_none ps
          then some no_positive
          else if is_none ns
          then some no_near_miss
          else if b
          then some no_hypothesis
          else or_else e1 e2)
        ≡ none
      → (ps ≢ []) × (ns ≢ []) × (e1 ≡ none) × (e2 ≡ none)
  unfolding or_else
  checks-none [] ns b e1 e2 h = ground arith
  checks-none (p ∷ ps) [] b e1 e2 h = ground arith
  checks-none (p ∷ ps) (n ∷ ns) true e1 e2 h = ground arith
  checks-none (p ∷ ps) (n ∷ ns) false none e2 h = (λ q. ground arith, λ q. ground arith, refl, h)
  checks-none (p ∷ ps) (n ∷ ns) false (some e) e2 h = ground arith

  validate_condition-IsTested :
      (d : Detection F) (o : Option (Subject F → Bool))
      → d.condition ≡ o
      → validate_condition d o ≡ none
      → IsTested d
  unfolding validate_condition fires
  validate_condition-IsTested d none q h = ground arith
  validate_condition-IsTested d (some condition) q h =
      let (ps, ns, silent, firing_miss) =
        checks-none d.positive d.near_miss (str_eq d.hypothesis []) _ _ h in
      record {
        has_positive = ps;
        has_near_miss = ns;
        positives =
            subst (λ o. All (λ s. fires o s ≡ true) d.positive) (sym q)
              (first_silent-none condition 0 d.positive silent);
        near_misses =
            subst (λ o. All (λ s. fires o s ≡ false) d.near_miss) (sym q)
              (first_firing-none condition 0 d.near_miss firing_miss);
      }

  validate_fixtures-IsTested : (d : Detection F) → validate_fixtures d ≡ none → IsTested d
  unfolding validate_fixtures
  validate_fixtures-IsTested d h = validate_condition-IsTested d d.condition refl h

  -- The registry after a list of activations, refused or not.
  unfoldable pub activate_all : List (Detection F) → Map (Detection F) → Map (Detection F)
  activate_all [] registry = registry
  activate_all (d ∷ rest) registry = activate_all rest (activate d registry).1

  activate-AllValues :
      (d : Detection F) (registry : Map (Detection F))
      → AllValues IsTested registry
      → AllValues IsTested (activate d registry).1
  unfolding activate
  activate-AllValues d registry h = go (validate_fixtures d) refl
    where
      go :
          (o : Option FixtureError)
          → validate_fixtures d ≡ o
          → AllValues IsTested (activate_if d o registry).1
      go (some e) q = unfold activate_if in h
      go none q =
          unfold activate_if in
          (AllValues-put IsTested d.id d registry (validate_fixtures-IsTested d q) h)

  activate_all-AllValues :
      (ds : List (Detection F)) (registry : Map (Detection F))
      → AllValues IsTested registry
      → AllValues IsTested (activate_all ds registry)
  unfolding activate_all
  activate_all-AllValues [] registry h = h
  activate_all-AllValues (d ∷ ds) registry h =
      activate_all-AllValues ds (activate d registry).1 (activate-AllValues d registry h)

  firing_one-All :
      (s : Subject F) (d : Detection F) (rest : List (Detection F)) (enabled fired : Bool)
      → IsTested d
      → d.is_enabled ≡ enabled
      → fires d.condition s ≡ fired
      → All (λ d. IsTested d × (d.is_enabled ≡ true) × (fires d.condition s ≡ true)) rest
      → All
          (λ d. IsTested d × (d.is_enabled ≡ true) × (fires d.condition s ≡ true))
          (if not enabled then rest else if fired then d ∷ rest else rest)
  firing_one-All s d rest false fired t e f later = later
  firing_one-All s d rest true false t e f later = later
  firing_one-All s d rest true true t e f later = ((t, e, f), later)

  firing-All :
      (s : Subject F) (m : Map (Detection F))
      → AllValues IsTested m
      → All
          (λ d. IsTested d × (d.is_enabled ≡ true) × (fires d.condition s ≡ true))
          (firing s (values m))
  unfolding firing values
  firing-All s [] h = tt
  firing-All s ((k, d) ∷ m) h =
      firing_one-All s d (firing s (values m)) d.is_enabled (fires d.condition s) h.0 refl refl
        (firing-All s m h.1)

  -- Whatever detections are activated, with success or not, and whatever is evaluated, each
  -- detection that fires is enabled, holds of the subject, fires on each of its positive fixtures
  -- and on none of its near misses, and has one of each at least.
  pub evaluate-IsTested :
      (ds : List (Detection F)) (s : Subject F)
      → All
          (λ d. IsTested d × (d.is_enabled ≡ true) × (fires d.condition s ≡ true))
          (evaluate (activate_all ds []) s)
  unfolding evaluate
  evaluate-IsTested ds s =
      All-perm _ (sort-permᴰ _ (firing s (values (activate_all ds []))))
        (firing-All s (activate_all ds []) (activate_all-AllValues ds [] tt))
