-- ===== src/Filter.antt =====
-- Ingest filter rules: backend/internal/ingest/filter/filter.go.
pub mod Meaning
pub mod Drops
use siem_v.Prelude.{
  ℕ, suc, Bool, true, false, not, ◌&&◌, ◌||◌, Option, none, some, List, [], ◌∷◌, any, length, leb,
  ltb, if◌then◌else◌,
}
use siem_v.Prelude.Text.{Str, str, str_eq, has_prefix, has_suffix, contains, to_lower, trim_space}

abbrev pub max_rules : ℕ
max_rules = 64

pub record Rule : Type 0 where
  pub field : Str
  pub op : Str
  pub values : List Str

abbrev pub field_host : Str
field_host = str "request_host"

abbrev pub field_path : Str
field_path = str "request_path"

abbrev pub valid_ops : List Str
valid_ops = str "equals" ∷ str "suffix" ∷ str "prefix" ∷ str "contains" ∷ []

-- A compiled rule, with its values lowered.
pub record Compiled : Type 0 where
  pub field : Str
  pub op : Str
  pub values : List Str

abbrev pub Set : Type 0
Set = List Compiled

-- The rejections of `Compile`, with the index of the rule.
pub data Error : Type 0 where
  too_many : ℕ → Error
  unknown_field unknown_op : ℕ → Str → Error
  no_usable_values : ℕ → Error

pub data Result : Type 0 where
  ok : Set → Result
  err : Error → Result

unfoldable pub clean : Str → Str
clean v = to_lower (trim_space v)

unfoldable pub usable : List Str → List Str
usable [] = []
usable (v ∷ vs) = let rest = usable vs in if str_eq (clean v) [] then rest else clean v ∷ rest

unfoldable pub is_field : Str → Bool
is_field f = str_eq f field_host || str_eq f field_path

unfoldable pub is_op : Str → Bool
is_op o = any (λ v. str_eq v o) valid_ops

unfoldable pub add_rule : Compiled → Result → Result
add_rule r (err e) = err e
add_rule r (ok s) = ok (r ∷ s)

-- The body of the loop, given the usable values of the rule and what the rules behind it come to.
unfoldable pub compile_rule : ℕ → Rule → List Str → Result → Result
compile_rule i r [] rest =
    if not (is_field r.field)
    then err (unknown_field i r.field)
    else if not (is_op r.op)
    then err (unknown_op i r.op)
    else err (no_usable_values i)
compile_rule i r (v ∷ vs) rest =
    if not (is_field r.field)
    then err (unknown_field i r.field)
    else if not (is_op r.op)
    then err (unknown_op i r.op)
    else add_rule (record { field = r.field; op = r.op; values = v ∷ vs }) rest

unfoldable pub compile_from : ℕ → List Rule → Result
compile_from i [] = ok []
compile_from i (r ∷ rules) = compile_rule i r (usable r.values) (compile_from (suc i) rules)

unfoldable pub compile : List Rule → Result
compile rules =
    if ltb max_rules (length rules) then err (too_many (length rules)) else compile_from 0 rules

-- The switch over the operators; an operator that `compile` would refuse matches nothing.
unfoldable pub op_matches : Str → Str → Str → Bool
op_matches op subject v =
    if str_eq op (str "equals")
    then str_eq subject v
    else if str_eq op (str "suffix")
    then has_suffix subject v
    else if str_eq op (str "prefix")
    then has_prefix subject v
    else if str_eq op (str "contains")
    then contains subject v
    else false

unfoldable pub subject_of : Str → Str → Str → Str
subject_of field host path = if str_eq field field_path then path else host

-- `host` and `path` are lowered already.
unfoldable pub compiled_drops : Str → Str → Compiled → Bool
compiled_drops host path r =
    not (str_eq (subject_of r.field host path) [])
    && any (λ v. op_matches r.op (subject_of r.field host path) v) r.values

-- `none` is the nil set.
unfoldable pub drops : Option Set → Str → Str → Bool
drops none host path = false
drops (some rules) host path = any (compiled_drops (to_lower host) (to_lower path)) rules

unfoldable pub is_empty : Option Set → Bool
is_empty none = true
is_empty (some []) = true
is_empty (some (r ∷ rules)) = false
