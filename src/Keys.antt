-- ===== src/Keys.antt =====
-- Identifiers and canonical keys: backend/internal/correlate/keys/identifiers.go, and the
-- `parseIdentifier` that backend/internal/biz/flow/pipeline.go and
-- backend/internal/correlate/group/bridge.go share.
pub mod Canonical
pub mod RoundTrip
use siem_v.Prelude.{
  Bool, true, false, ◌||◌, Option, none, some, List, [], ◌∷◌, ◌++◌, map, any, ◌==◌, if◌then◌else◌,
}
use siem_v.Prelude.Text.{Str, str, str_eq, str_lt, trim_space, to_lower}
use siem_v.Prelude.Sort.{sort}

pub data Tier : Type 0 where
  exact heuristic no_tier : Tier
  other_tier : Str → Tier

pub data Signal : Type 0 where
  vendor_request_id ip_host_path_method time_window : Signal
  other_signal : Str → Signal

pub record Key : Type 0 where
  pub value : Str
  pub tier : Tier
  pub signals : List Signal

pub record Identifier : Type 0 where
  pub namespace : Str
  pub value : Str

-- `Identifier.String`: the form "ns:value".
unfoldable pub to_string : Identifier → Str
to_string i = i.namespace ++ b':' ∷ i.value

-- What providers write for an absent value.
abbrev pub absent_values : List Str
absent_values =
    str "-"
    ∷ str "na"
    ∷ str "n/a"
    ∷ str "null"
    ∷ str "nil"
    ∷ str "none"
    ∷ str "unknown"
    ∷ str "0"
    ∷ []

unfoldable pub is_absent : Str → Bool
unfolding str_eq to_lower
is_absent v = any (λ a. str_eq a (to_lower v)) absent_values

unfoldable pub new_identifier : Str → Str → Option Identifier
new_identifier ns value =
    let v = trim_space value in
    if str_eq v []
    then none
    else if is_absent v
    then none
    else some (record { namespace = ns; value = v })

unfoldable pub smallest : List Str → Option Str
smallest [] = none
smallest (s ∷ rest) = some s

-- `Canonical`: the smallest identifier of the set in its text form.
unfoldable pub canonical : List Identifier → Option Str
unfolding smallest sort to_string str_lt
canonical ids = smallest (sort str_lt (map to_string ids))

-- The text up to the first colon, if there is one, and what follows it.
split_colon : Str → Str → Option (Str × Str)
split_colon seen [] = none
split_colon seen (c ∷ s) =
    let rest = split_colon (seen ++ c ∷ []) s in if c == b':' then some (seen, s) else rest

parsed : Str → Option (Str × Str) → Identifier
parsed s none = record { namespace = []; value = s }
parsed s (some (ns, v)) = record { namespace = ns; value = v }

unfoldable pub parse_identifier : Str → Identifier
unfolding split_colon parsed
parse_identifier s = parsed s (split_colon [] s)
