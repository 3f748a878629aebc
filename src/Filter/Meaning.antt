-- ===== src/Filter/Meaning.antt =====
-- What becomes of the rules of a set that compiles, and which sets compile.
use siem_v.Prelude.{
  ℕ, suc, ◌≤◌, ◌≡◌, ◌↔◌, ◌≢◌, refl, Bool, true, not, ◌&&◌, some, List, [], ◌∷◌, any, All, length,
  arith,
}
use siem_v.Prelude.Text.{Str, str_eq, to_lower}
use siem_v.Filter.{
  Rule, Set, Result, ok, err, max_rules, clean, usable, is_field, is_op, add_rule, compile_rule,
  compile_from, compile, op_matches, subject_of, compiled_drops, drops,
}

-- The test of a compiled rule on the values of the rule before it is compiled.
abbrev pub value_matches : Str → Str → Str → Bool
value_matches op subject v = not (str_eq (clean v) []) && op_matches op subject (clean v)

abbrev pub rule_matches : Str → Str → Rule → Bool
rule_matches host path r =
    not (str_eq (subject_of r.field host path) [])
    && any (value_matches r.op (subject_of r.field host path)) r.values

any-usable :
    (op subject : Str) (vs : List Str)
    → any (λ v. op_matches op subject v) (usable vs) ≡ any (value_matches op subject) vs
unfolding usable
any-usable op subject [] = refl
any-usable op subject (v ∷ vs) = ground (arith, any-usable op subject vs)

-- What a rule has to satisfy.
pub record IsRule (r : Rule) : Type 0 where
  pub known_field : is_field r.field ≡ true
  pub known_op : is_op r.op ≡ true
  pub some_value : any (λ v. not (str_eq (clean v) [])) r.values ≡ true

some_value_iff :
    (vs : List Str) → (any (λ v. not (str_eq (clean v) [])) vs ≡ true) ↔ (usable vs ≢ [])
unfolding usable
some_value_iff [] = (λ h. cc, λ h. absurd (h refl))
some_value_iff (v ∷ vs) = ground (arith, some_value_iff vs)

compile_rule-ok :
    (i : ℕ) (r : Rule) (vs : List Str) (rest : Result) (s : Set)
    → compile_rule i r vs rest ≡ ok s
    → (is_field r.field ≡ true)
      × (is_op r.op ≡ true)
      × (vs ≢ [])
      × ((t : Set) × (rest ≡ ok t) × (s ≡ record { field = r.field; op = r.op; values = vs } ∷ t))
unfolding compile_rule add_rule
compile_rule-ok i r [] rest s h = ground arith
compile_rule-ok i r (v ∷ vs) (err e) s h = ground arith
compile_rule-ok i r (v ∷ vs) (ok t) s h =
    (ground arith, ground arith, ground arith, (t, refl, ground arith))

compiled_drops-usable :
    (r : Rule) (host path : Str)
    → compiled_drops host path (record { field = r.field; op = r.op; values = usable r.values })
      ≡ rule_matches host path r
unfolding compiled_drops
compiled_drops-usable r host path =
    ground (arith, any-usable r.op (subject_of r.field host path) r.values)

compile_from-drops :
    (i : ℕ) (rules : List Rule) (s : Set) (host path : Str)
    → compile_from i rules ≡ ok s
    → any (compiled_drops host path) s ≡ any (rule_matches host path) rules
unfolding compile_from
compile_from-drops i [] s host path h = ground arith
compile_from-drops i (r ∷ rules) s host path h =
    let (f, o, v, (t, rest, eq)) =
      compile_rule-ok i r (usable r.values) (compile_from (suc i) rules) s h in
    let later = compile_from-drops (suc i) rules t host path rest in
    let this = compiled_drops-usable r host path in rw eq (ground (arith, later, this))

-- The compiled set tests what its rules test, with their values cleaned.
pub compile-drops :
    (rules : List Rule) (s : Set) (host path : Str)
    → compile rules ≡ ok s
    → drops (some s) host path ≡ any (rule_matches (to_lower host) (to_lower path)) rules
unfolding compile drops
compile-drops rules s host path h =
    compile_from-drops 0 rules s (to_lower host) (to_lower path) (ground arith)

compile_from-IsRule :
    (i : ℕ) (rules : List Rule) (s : Set) → compile_from i rules ≡ ok s → All IsRule rules
unfolding compile_from
compile_from-IsRule i [] s h = tt
compile_from-IsRule i (r ∷ rules) s h =
    let (f, o, v, (t, rest, eq)) =
      compile_rule-ok i r (usable r.values) (compile_from (suc i) rules) s h in
    (
      record { known_field = f; known_op = o; some_value = (some_value_iff r.values).1 v },
      compile_from-IsRule (suc i) rules t rest,
    )

compile_rule_valid :
    (i : ℕ) (r : Rule) (t : Set)
    → IsRule r
    → compile_rule i r (usable r.values) (ok t)
      ≡ ok (record { field = r.field; op = r.op; values = usable r.values } ∷ t)
unfolding compile_rule add_rule
compile_rule_valid i r t h = go (usable r.values) ((some_value_iff r.values).0 h.some_value)
  where
    go :
        (vs : List Str)
        → vs ≢ []
        → compile_rule i r vs (ok t) ≡ ok (record { field = r.field; op = r.op; values = vs } ∷ t)
    go [] n = absurd (n refl)
    go (v ∷ vs) n = ground arith

compile_from_valid :
    (i : ℕ) (rules : List Rule) → All IsRule rules → (s : Set) × (compile_from i rules ≡ ok s)
unfolding compile_from
compile_from_valid i [] h = ([], refl)
compile_from_valid i (r ∷ rules) h =
    let (t, rest) = compile_from_valid (suc i) rules h.1 in
    (
      record { field = r.field; op = r.op; values = usable r.values } ∷ t,
      rw rest (compile_rule_valid i r t h.0),
    )

-- A rule set compiles exactly if it has at most 64 rules, each of a known field and a known operator
-- and with a value that is not blank.
pub compile-ok_iff :
    (rules : List Rule)
    → ((s : Set) × (compile rules ≡ ok s)) ↔ ((length rules ≤ max_rules) × All IsRule rules)
unfolding compile
compile-ok_iff rules = (
  λ h. (ground arith, compile_from-IsRule 0 rules h.0 (ground arith)),
  λ h. let (s, e) = compile_from_valid 0 rules h.1 in (s, ground arith),
)
