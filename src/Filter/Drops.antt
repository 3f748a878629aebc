-- ===== src/Filter/Drops.antt =====
-- Which events a compiled rule set drops, said of the rules as they were written: `Compile` and `Drops`
-- of backend/internal/ingest/filter/filter.go.
use siem_v.Prelude.{
  ◌≡◌, ◌≢◌, ◌↔◌, ◌⊎◌, refl, sym, ap, subst, ◌∙◌, Bool, true, false, some, List, [], ◌∷◌, ◌++◌,
  All-mem, Memᴰ, any-Mem, any-of_Mem, Bool-cases, inl, inr, arith,
}
use siem_v.Prelude.Text.{Str, str, str_eq, str_eq→eq, str_eq_refl, to_lower, trim_space}
use siem_v.Prelude.Search.{has_prefix_iff, has_suffix_iff, contains_iff}
use siem_v.Filter.{
  Rule, Set, ok, field_path, field_host, clean, is_field, op_matches, subject_of, compile, drops,
}
use siem_v.Filter.Meaning.{IsRule, value_matches, rule_matches, compile-drops, compile-ok_iff}

-- What an operator asks of the text and a value.
abbrev pub IsFound : Str → Str → Str → Type 0
IsFound op subject v =
    ((op ≡ str "equals") × (subject ≡ v))
    ⊎ (((op ≡ str "suffix") × ((before : Str) × (subject ≡ before ++ v)))
        ⊎ (((op ≡ str "prefix") × ((rest : Str) × (subject ≡ v ++ rest)))
            ⊎ ((op ≡ str "contains")
                × ((before after : Str) × (subject ≡ before ++ (v ++ after))))))

-- What a rule says of an event: its field, in lower case, is not empty, and one of the values, trimmed
-- and in lower case, is not blank and is found there as the operator asks.
pub record Matches (host path : Str) (r : Rule) : Type 0 where
  pub subject : Str
  pub read :
      ((r.field ≡ str "request_path") × (subject ≡ to_lower path))
      ⊎ ((r.field ≡ str "request_host") × (subject ≡ to_lower host))
  pub filled : subject ≢ []
  pub value : Str
  pub listed : Memᴰ value r.values
  pub not_blank : to_lower (trim_space value) ≢ []
  pub found : IsFound r.op subject (to_lower (trim_space value))

str_eq-empty : (s : Str) → (str_eq s [] ≡ false) ↔ (s ≢ [])
unfolding str_eq
str_eq-empty [] = (λ h. cc, λ n. absurd (n refl))
str_eq-empty (c ∷ s) = (λ h e. cc e, λ n. refl)

op_matches-IsFound : (op subject v : Str) → op_matches op subject v ≡ true → IsFound op subject v
unfolding op_matches
op_matches-IsFound op subject v h = elim (Bool-cases (str_eq op (str "equals"))) [
  | inl q ↦ inl (str_eq→eq op _ q, str_eq→eq subject v (ground arith))
  | inr n1 ↦ elim (Bool-cases (str_eq op (str "suffix"))) [
    | inl q ↦ inr (inl (str_eq→eq op _ q, (has_suffix_iff subject v).0 (ground arith)))
    | inr n2 ↦ elim (Bool-cases (str_eq op (str "prefix"))) [
      | inl q ↦ inr (inr (inl (str_eq→eq op _ q, (has_prefix_iff subject v).0 (ground arith))))
      | inr n3 ↦ elim (Bool-cases (str_eq op (str "contains"))) [
        | inl q ↦ inr (inr (inr (str_eq→eq op _ q, (contains_iff subject v).0 (ground arith))))
        | inr n4 ↦ absurd (ground arith)
      ]
    ]
  ]
]

IsFound-op_matches : (op subject v : Str) → IsFound op subject v → op_matches op subject v ≡ true
unfolding op_matches str_eq
IsFound-op_matches op subject v (inl (q, same)) =
    rw q (subst (λ t. str_eq subject t ≡ true) same (str_eq_refl subject))
IsFound-op_matches op subject v (inr (inl (q, found))) = rw q ((has_suffix_iff subject v).1 found)
IsFound-op_matches op subject v (inr (inr (inl (q, found)))) =
    rw q ((has_prefix_iff subject v).1 found)
IsFound-op_matches op subject v (inr (inr (inr (q, found)))) =
    rw q ((contains_iff subject v).1 found)

path_ne_host : str "request_path" ≢ str "request_host"
unfolding str_eq
path_ne_host e = let t : true ≡ false = ap (λ s. str_eq s (str "request_path")) e in absurd (cc t)

is_field_cases : (f : Str) → is_field f ≡ true → (f ≡ str "request_path") ⊎ (f ≡ str "request_host")
unfolding is_field
is_field_cases f h = elim (Bool-cases (str_eq f field_path)) [
  | inl q ↦ inl (str_eq→eq f field_path q)
  | inr other ↦ inr (str_eq→eq f field_host (ground arith))
]

read_iff :
    (f host path subject : Str)
    → is_field f ≡ true
    → (subject ≡ subject_of f (to_lower host) (to_lower path)) ↔ (
        ((f ≡ str "request_path") × (subject ≡ to_lower path))
        ⊎ ((f ≡ str "request_host") × (subject ≡ to_lower host)))
unfolding subject_of str_eq
read_iff f host path subject h = elim (is_field_cases f h) [
  | inl q ↦ (
    λ e. inl (q, e ∙ rw q refl),
    λ c. elim c [ inl (p, e) ↦ e ∙ rw q refl | inr (p, e) ↦ absurd (path_ne_host (sym q ∙ p)) ],
  )
  | inr q ↦ (
    λ e. inr (q, e ∙ rw q refl),
    λ c. elim c [ inl (p, e) ↦ absurd (path_ne_host (sym p ∙ q)) | inr (p, e) ↦ e ∙ rw q refl ],
  )
]

value_matches_iff :
    (op subject v : Str)
    → (value_matches op subject v ≡ true)
      ↔ ((to_lower (trim_space v) ≢ []) × IsFound op subject (to_lower (trim_space v)))
unfolding clean
value_matches_iff op subject v =
    let c = to_lower (trim_space v) in
    (
      λ h. ((str_eq-empty c).0 (ground arith), op_matches-IsFound op subject c (ground arith)),
      λ h. ground (arith, (str_eq-empty c).1 h.0, IsFound-op_matches op subject c h.1),
    )

rule_matches_iff :
    (host path : Str) (r : Rule)
    → is_field r.field ≡ true
    → (rule_matches (to_lower host) (to_lower path) r ≡ true) ↔ Matches host path r
rule_matches_iff host path r h =
    let subject = subject_of r.field (to_lower host) (to_lower path) in
    let of_value : Str → Bool = value_matches r.op subject in
    (
      λ m.
          let (v, listed, q) = any-Mem of_value r.values (ground arith) in
          let (not_blank, found) = (value_matches_iff r.op subject v).0 q in
          record {
            subject = subject;
            read = (read_iff r.field host path subject h).0 refl;
            filled = (str_eq-empty subject).0 (ground arith);
            value = v;
            listed = listed;
            not_blank = not_blank;
            found = found;
          },
      λ m.
          let same : m.subject ≡ subject = (read_iff r.field host path m.subject h).1 m.read in
          let found = subst (λ t. IsFound r.op t (to_lower (trim_space m.value))) same m.found in
          let filled = subst (λ t. t ≢ []) same m.filled in
          ground (
            arith,
            (str_eq-empty subject).1 filled,
            any-of_Mem of_value r.values m.listed
                ((value_matches_iff r.op subject m.value).1 (m.not_blank, found)),
          ),
    )

-- Where a rule set compiles, the compiled set drops an event exactly if one of its rules matches it: the
-- rule's field of the event, in lower case, is not empty, and one of the rule's values, trimmed and in
-- lower case, is not blank and equals it, ends it, begins it or lies in it, as the operator says.
pub compile-drops_iff :
    (rules : List Rule) (s : Set) (host path : Str)
    → compile rules ≡ ok s
    → (drops (some s) host path ≡ true) ↔ ((r : Rule) × Memᴰ r rules × Matches host path r)
compile-drops_iff rules s host path h =
    let fused = compile-drops rules s host path h in
    let valid = ((compile-ok_iff rules).0 (s, h)).1 in
    let test : Rule → Bool = rule_matches (to_lower host) (to_lower path) in
    (
      λ d.
          let (r, m, q) = any-Mem test rules (sym fused ∙ d) in
          (r, m, (rule_matches_iff host path r (All-mem IsRule valid m).known_field).0 q),
      λ (r, m, q).
          fused
          ∙ any-of_Mem test rules m
              ((rule_matches_iff host path r (All-mem IsRule valid m).known_field).1 q),
    )
