-- ===== src/Keys/RoundTrip.antt =====
-- Printing an identifier and parsing it gives the identifier back.
use mathlib.Core.List.{append_assoc, append-nil}
use siem_v.Prelude.{◌≡◌, Bool, false, some, [], ◌∷◌, ◌++◌, any, ◌==◌, arith}
use siem_v.Prelude.Text.{Str, str_eq, trim_space}
use siem_v.Keys.{
  Identifier, to_string, new_identifier, is_absent, split_colon, parsed, parse_identifier,
}

abbrev pub has_colon : Str → Bool
has_colon s = any (λ c. c == b':') s

split_colon-append :
    (seen ns v : Str)
    → has_colon ns ≡ false
    → split_colon seen (ns ++ b':' ∷ v) ≡ some (seen ++ ns, v)
unfolding split_colon
split_colon-append seen [] v h = rw append-nil
split_colon-append seen (c ∷ ns) v h =
    ground (arith, split_colon-append (seen ++ c ∷ []) ns v, append_assoc seen (c ∷ []) ns)

-- `parse_identifier` undoes `to_string` for every namespace without a colon, whatever the value.
pub parse_identifier-to_string :
    (i : Identifier) → has_colon i.namespace ≡ false → parse_identifier (to_string i) ≡ i
unfolding parse_identifier to_string
parse_identifier-to_string i h = rw (split_colon-append [] i.namespace i.value h, parsed)

-- An identifier that `new_identifier` accepts keeps its namespace, and its value is the trimmed one,
-- which is neither empty nor one of the texts for an absent value.
pub new_identifier-some :
    (ns value : Str) (i : Identifier)
    → new_identifier ns value ≡ some i
    → (i.namespace ≡ ns)
      × (i.value ≡ trim_space value)
      × (str_eq i.value [] ≡ false)
      × (is_absent i.value ≡ false)
unfolding new_identifier
new_identifier-some ns value i h = ground arith
