-- ===== src/Flow/Flags.antt =====
-- Which quality flags a flow carries.
use siem_v.Prelude.{
  ◌≡◌, refl, ◌∙◌, ap, subst, Bool, true, false, ◌&&◌, ◌||◌, some, List, [], ◌∷◌, ◌++◌, any,
  Bool-cases, inl, inr, arith,
}
use siem_v.Prelude.Text.{Str}
use siem_v.Schema.{Event, QualityFlag, has_flag, add_flag, flag_eq, flag_eq→eq}
use siem_v.Order.{order_events, detect_skew}
use siem_v.Flow.{Flow, Options, add_flags, event_flags, add_flag_if, is_heuristic, propagate_flags}
use siem_v.Flow.Materialize.{draft_flow, finish_flow, materialize_ordered, materialize}

has_flag-append :
    (fs gs : List QualityFlag) (g : QualityFlag)
    → has_flag (fs ++ gs) g ≡ (has_flag fs g || has_flag gs g)
unfolding has_flag
has_flag-append [] gs g = refl
has_flag-append (f ∷ fs) gs g = ground (arith, has_flag-append fs gs g)

has_flag-add_flag :
    (fs : List QualityFlag) (f g : QualityFlag)
    → has_flag (add_flag fs f) g ≡ (has_flag fs g || flag_eq f g)
unfolding add_flag
has_flag-add_flag fs f g = elim (Bool-cases (has_flag fs f)) [
  | inl old ↦
      let same : flag_eq f g ≡ true → has_flag fs g ≡ true =
        λ e. subst (λ h. has_flag fs h ≡ true) (flag_eq→eq f g e) old in
      ground (arith, same)
  | inr new ↦ rw new (has_flag-append fs (f ∷ []) g ∙ (unfold has_flag in (ground arith)))
]

has_flag-add_flags :
    (fs gs : List QualityFlag) (g : QualityFlag)
    → has_flag (add_flags fs gs) g ≡ (has_flag fs g || has_flag gs g)
unfolding add_flags
has_flag-add_flags fs [] g = unfold has_flag in (ground arith)
has_flag-add_flags fs (f ∷ gs) g =
    has_flag-add_flags (add_flag fs f) gs g
    ∙ ap (λ b. b || has_flag gs g) (has_flag-add_flag fs f g)
    ∙ unfold has_flag in (ground arith)

abbrev pub any_has : QualityFlag → List Event → Bool
any_has g events = any (λ e. has_flag e.data_quality_flags g) events

has_flag-event_flags :
    (fs : List QualityFlag) (events : List Event) (g : QualityFlag)
    → has_flag (event_flags fs events) g ≡ (has_flag fs g || any_has g events)
unfolding event_flags
has_flag-event_flags fs [] g = ground arith
has_flag-event_flags fs (e ∷ rest) g = ground (
  arith,
  has_flag-event_flags (add_flags fs e.data_quality_flags) rest g,
  has_flag-add_flags fs e.data_quality_flags g,
)

has_flag-add_flag_if :
    (b : Bool) (f : QualityFlag) (fs : List QualityFlag) (g : QualityFlag)
    → has_flag (add_flag_if b f fs) g ≡ (has_flag fs g || (b && flag_eq f g))
unfolding add_flag_if
has_flag-add_flag_if true f fs g = has_flag-add_flag fs f g
has_flag-add_flag_if false f fs g = ground arith

-- The flags that a flow of these events should carry.
abbrev pub is_due : List Event → Options → QualityFlag → Bool
is_due ordered opts g =
    ((any_has g ordered || ((detect_skew ordered).0 && flag_eq QualityFlag.clock_skew g))
      || (is_heuristic opts.method && flag_eq QualityFlag.heuristic_correlation g))
    || (opts.bridged && flag_eq QualityFlag.bridged_correlation g)

propagate_flags-has :
    (f : Flow) (ordered : List Event) (g : QualityFlag)
    → f.data_quality_flags ≡ []
    → has_flag (propagate_flags f ordered).data_quality_flags g ≡ (
        ((any_has g ordered || ((detect_skew ordered).0 && flag_eq QualityFlag.clock_skew g))
          || (is_heuristic f.method && flag_eq QualityFlag.heuristic_correlation g))
        || (f.bridged && flag_eq QualityFlag.bridged_correlation g))
unfolding propagate_flags
propagate_flags-has f ordered g none_yet =
    let from_events = event_flags f.data_quality_flags ordered in
    let skewed = add_flag_if (detect_skew ordered).0 QualityFlag.clock_skew from_events in
    let guessed = add_flag_if (is_heuristic f.method) QualityFlag.heuristic_correlation skewed in
    let start : has_flag f.data_quality_flags g ≡ false =
      ap (λ fs. has_flag fs g) none_yet ∙ unfold has_flag in refl in
    ground (
      arith,
      start,
      has_flag-event_flags f.data_quality_flags ordered g,
      has_flag-add_flag_if (detect_skew ordered).0 QualityFlag.clock_skew from_events g,
      has_flag-add_flag_if (is_heuristic f.method) QualityFlag.heuristic_correlation skewed g,
      has_flag-add_flag_if f.bridged QualityFlag.bridged_correlation guessed g,
    )

materialize_ordered-has_flag :
    (key : Str) (ordered : List Event) (opts : Options) (f : Flow) (g : QualityFlag)
    → materialize_ordered key ordered opts ≡ some f
    → has_flag f.data_quality_flags g ≡ is_due ordered opts g
unfolding materialize_ordered finish_flow draft_flow
materialize_ordered-has_flag key [] opts f g h = cc
materialize_ordered-has_flag key (e ∷ rest) opts f g h =
    let made = finish_flow (draft_flow key e rest opts) (e ∷ rest) opts in
    let same : made ≡ f = ground arith in
    subst (λ x. has_flag x.data_quality_flags g ≡ is_due (e ∷ rest) opts g) same
      (propagate_flags-has _ (e ∷ rest) g refl)

-- A flow carries a flag exactly if one of its events does, or its events contradict the causal order
-- (clock skew), or it was joined by the heuristic tier, or it was bridged.
pub materialize-has_flag :
    (key : Str) (events : List Event) (opts : Options) (f : Flow) (g : QualityFlag)
    → materialize key events opts ≡ some f
    → has_flag f.data_quality_flags g ≡ is_due (order_events events) opts g
unfolding materialize
materialize-has_flag key events opts f g h =
    materialize_ordered-has_flag key (order_events events) opts f g h
