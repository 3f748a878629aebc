-- ===== src/Window/Keyed.antt =====
-- Every state stands under its own correlation key, whatever calls were made.
use siem_v.Prelude.{
  ◌≡◌, refl, sym, ap, ◌∙◌, subst, true, false, Option, none, some, List, [], ◌∷◌, All, All-map,
  Bool-cases, Option-cases, inl, inr, arith,
}
use siem_v.Prelude.Text.{Str, str_eq, str_eq_refl, str_eq→eq, Str-cases}
use siem_v.Prelude.Time.{Time}
use siem_v.Prelude.Maps.{Map, values, lookup, put, delete, lookup-put, lookup-delete}
use siem_v.Schema.{Event}
use siem_v.Window.{
  State, Options, Window, fresh_state, state_or_fresh, record_event, add, closes, ready_loop, ready,
  merge_states, merge_found, merge,
}
use siem_v.Window.Closed.{Call, adds, readies, merges, step, run}

-- No key stands twice or is empty, and each state carries the key that it stands under.
abbrev pub IsKeyed : Map State → Type 0
IsKeyed [] = Unit
IsKeyed ((k, st) ∷ m) =
    (st.correlation_key ≡ k) × (str_eq k [] ≡ false) × (lookup k m ≡ none) × IsKeyed m

pub IsKeyed-lookup :
    (m : Map State) (k : Str) (st : State)
    → IsKeyed m
    → lookup k m ≡ some st
    → st.correlation_key ≡ k
unfolding lookup
IsKeyed-lookup [] k st h found = cc
IsKeyed-lookup ((j, s) ∷ m) k st h found = elim (Str-cases j k) [
  | inl same ↦
      let at : str_eq j k ≡ true = ap (str_eq j) (sym same) ∙ str_eq_refl j in
      let eq : s ≡ st = ground arith in ap (λ x. x.correlation_key) (sym eq) ∙ h.0 ∙ same
  | inr differ ↦ IsKeyed-lookup m k st h.3 (ground arith)
]

pub IsKeyed-named : (m : Map State) → IsKeyed m → lookup [] m ≡ none
unfolding lookup
IsKeyed-named [] h = refl
IsKeyed-named ((j, s) ∷ m) h = ground (arith, IsKeyed-named m h.3, h.1)

pub IsKeyed-values :
    (m : Map State) → IsKeyed m → All (λ st. lookup st.correlation_key m ≡ some st) (values m)
unfolding lookup values
IsKeyed-values [] h = tt
IsKeyed-values ((j, s) ∷ m) h =
    let own : str_eq j s.correlation_key ≡ true = ap (str_eq j) h.0 ∙ str_eq_refl j in
    (
      ground (arith, own),
      All-map (λ st. lookup st.correlation_key m ≡ some st) _ (values m)
          (λ st found.
            let at : str_eq j st.correlation_key ≡ true → lookup st.correlation_key m ≡ none =
              λ e. ap (λ k. lookup k m) (sym (str_eq→eq j st.correlation_key e)) ∙ h.2 in
            ground (arith, found, at))
          (IsKeyed-values m h.3),
    )

IsKeyed-put :
    (k : Str) (st : State) (m : Map State)
    → st.correlation_key ≡ k
    → str_eq k [] ≡ false
    → IsKeyed m
    → IsKeyed (put k st m)
unfolding put lookup
IsKeyed-put k st [] own named h = (own, named, refl, tt)
IsKeyed-put k st ((j, s) ∷ m) own named h =
    let rest = IsKeyed-put k st m own named h.3 in
    elim (Bool-cases (str_eq j k)) [
      | inl same ↦
          let eq : j ≡ k = str_eq→eq j k same in
          rw same (own, named, subst (λ i. lookup i m ≡ none) eq h.2, h.3)
      | inr differ ↦
          rw differ
            (h.0, h.1, ground (arith, lookup-put k j st m, str_eq→eq k j, str_eq_refl k, h.2), rest)
    ]

IsKeyed-delete : (k : Str) (m : Map State) → IsKeyed m → IsKeyed (delete k m)
unfolding delete lookup
IsKeyed-delete k [] h = tt
IsKeyed-delete k ((j, s) ∷ m) h =
    let rest = IsKeyed-delete k m h.3 in
    elim (Bool-cases (str_eq j k)) [
      | inl same ↦ rw same rest
      | inr differ ↦ rw differ (h.0, h.1, ground (arith, lookup-delete k j m, h.2), rest)
    ]

ready_loop-absent :
    (o : Options) (now : Time) (m : Map State) (k : Str)
    → lookup k m ≡ none
    → lookup k (ready_loop o now m).1 ≡ none
unfolding ready_loop lookup
ready_loop-absent o now [] k h = refl
ready_loop-absent o now ((j, st) ∷ m) k h =
    let rest = ready_loop-absent o now m k in
    elim (Bool-cases (closes o now st)) [
      | inl done ↦ rw done (rest (ground arith))
      | inr wait ↦ rw wait (ground (arith, rest))
    ]

ready_loop-IsKeyed :
    (o : Options) (now : Time) (m : Map State) → IsKeyed m → IsKeyed (ready_loop o now m).1
unfolding ready_loop
ready_loop-IsKeyed o now [] h = tt
ready_loop-IsKeyed o now ((j, st) ∷ m) h =
    let rest = ready_loop-IsKeyed o now m h.3 in
    elim (Bool-cases (closes o now st)) [
      | inl done ↦ rw done rest
      | inr wait ↦ rw wait (h.0, h.1, ready_loop-absent o now m j h.2, rest)
    ]

record_event-key :
    (o : Option State) (key tenant : Str) (e : Event) (now : Time)
    → ((st : State) → o ≡ some st → st.correlation_key ≡ key)
    → (record_event (state_or_fresh o key tenant now) e now).correlation_key ≡ key
unfolding record_event state_or_fresh fresh_state
record_event-key none key tenant e now h = ground arith
record_event-key (some st) key tenant e now h = ground (arith, h st refl)

add-IsKeyed :
    (w : Window) (key tenant : Str) (e : Event) (now : Time)
    → str_eq key [] ≡ false
    → IsKeyed w.states
    → IsKeyed (add w key tenant e now).0.states
unfolding add
add-IsKeyed w key tenant e now named h =
    IsKeyed-put key _ w.states
      (record_event-key (lookup key w.states) key tenant e now
        (λ st found. IsKeyed-lookup w.states key st h found))
      named h

merge_found-IsKeyed :
    (w : Window) (dst src : Str) (o : Option State) (from : State)
    → str_eq dst [] ≡ false
    → ((st : State) → o ≡ some st → st.correlation_key ≡ dst)
    → IsKeyed w.states
    → IsKeyed (merge_found w dst src o from).states
unfolding merge_found merge_states
merge_found-IsKeyed w dst src none from named own h =
    IsKeyed-delete src _ (IsKeyed-put dst _ w.states refl named h)
merge_found-IsKeyed w dst src (some into) from named own h =
    IsKeyed-delete src _ (IsKeyed-put dst _ w.states (own into refl) named h)

merge-IsKeyed :
    (w : Window) (dst src : Str)
    → str_eq dst [] ≡ false
    → IsKeyed w.states
    → IsKeyed (merge w dst src).states
unfolding merge
merge-IsKeyed w dst src named h = elim (Bool-cases (str_eq src dst)) [
  | inl same ↦ rw same h
  | inr differ ↦ rw differ (elim (Option-cases (lookup src w.states)) [
    | inl absent ↦ rw absent h
    | inr (from, found) ↦ rw found (
        merge_found-IsKeyed w dst src (lookup dst w.states) from named
          (λ st e. IsKeyed-lookup w.states dst st h e) h)
  ])
]

-- The key that a call writes to is not empty.
abbrev pub IsNamed : Call → Type 0
IsNamed (adds key tenant e now) = str_eq key [] ≡ false
IsNamed (readies now) = Unit
IsNamed (merges dst src) = str_eq dst [] ≡ false

step-IsKeyed : (w : Window) (c : Call) → IsNamed c → IsKeyed w.states → IsKeyed (step w c).states
unfolding step ready
step-IsKeyed w (adds key tenant e now) named h = add-IsKeyed w key tenant e now named h
step-IsKeyed w (readies now) named h = ready_loop-IsKeyed w.opts now w.states h
step-IsKeyed w (merges dst src) named h = merge-IsKeyed w dst src named h

-- In a window whose states stand under their own keys, no key twice and none empty, they do so after
-- any calls of `add`, `ready` and `merge` that write to keys that are not empty.
pub run-IsKeyed :
    (w : Window) (calls : List Call)
    → All IsNamed calls
    → IsKeyed w.states
    → IsKeyed (run w calls).states
unfolding run
run-IsKeyed w [] named h = h
run-IsKeyed w (c ∷ cs) named h = run-IsKeyed (step w c) cs named.1 (step-IsKeyed w c named.0 h)
