-- ===== src/Pipeline/Correlate.antt =====
-- `Correlate`, `canonicalOf` and `mergeKeyState` of backend/internal/biz/flow/pipeline.go.
pub mod Index
pub mod Placed
pub mod Merging
pub mod Joins
pub mod Batch
use mathlib.Core.List.{map}
use siem_v.Prelude.{
  Bool, true, false, ◌||◌, Option, none, some, List, [], ◌∷◌, ltb, length, if◌then◌else◌,
}
use siem_v.Prelude.Text.{Str, str_eq, str_lt}
use siem_v.Prelude.Time.{Time}
use siem_v.Prelude.Maps.{Map, lookup, put, delete}
use siem_v.Schema.{Event}
use siem_v.Keys.{Identifier, to_string, canonical}
use siem_v.Window.{Window, add, merge}
use siem_v.Pipeline.{Record, Pipeline, member, set_add}

-- A missing entry of `keyIDs` is the empty set.
unfoldable pub set_or_empty : Option (List Str) → List Str
set_or_empty none = []
set_or_empty (some set) = set

abbrev pub ids_of : Map (List Str) → Str → List Str
ids_of key_ids key = set_or_empty (lookup key key_ids)

-- idIndex[s] = key; keyIDs[key][s] = true
unfoldable pub claim : Str → Str → Pipeline → Pipeline
claim key s p = record p {
  id_index = put s key p.id_index;
  key_ids = put key (set_add s (ids_of p.key_ids key)) p.key_ids;
}

unfoldable pub claim_all : Str → List Str → Pipeline → Pipeline
claim_all key [] p = p
claim_all key (s ∷ rest) p = claim_all key rest (claim key s p)

-- `if p.keyIDs[key] == nil { p.keyIDs[key] = map[string]bool{} }`
unfoldable pub ensure_key : Str → Pipeline → Pipeline
ensure_key key p = record p { key_ids = put key (ids_of p.key_ids key) p.key_ids }

unfoldable pub is_bridged : Map Bool → Str → Bool
is_bridged bridged key = elim (lookup key bridged) [ none ↦ false | some b ↦ b ]

unfoldable pub merge_bridged : Str → Str → Map Bool → Map Bool
merge_bridged dst src bridged =
    delete src (if is_bridged bridged src then put dst true bridged else bridged)

unfoldable pub merge_key_state : Str → Str → Pipeline → Pipeline
merge_key_state dst src p =
    let q = claim_all dst (ids_of p.key_ids src) (ensure_key dst p) in
    record q { key_ids = delete src q.key_ids; bridged = merge_bridged dst src q.bridged }

-- The smallest key of a set; the empty text stands for "none chosen yet".
unfoldable pub canonical_from : Str → List Str → Str
canonical_from chosen [] = chosen
canonical_from chosen (k ∷ rest) =
    canonical_from (if str_eq chosen [] || str_lt k chosen then k else chosen) rest

unfoldable pub canonical_of : List Str → Str
canonical_of keys = canonical_from [] keys

-- One window is merged into that of `key`, with its identifiers.
unfoldable pub merge_into : Str → Str → Pipeline → Pipeline
merge_into key k p = merge_key_state key k (record p { window = merge p.window key k })

unfoldable pub merge_one : Str → Str → Pipeline → Pipeline
merge_one key k p = if str_eq k key then p else merge_into key k p

unfoldable pub merge_all : Str → List Str → Pipeline → Pipeline
merge_all key [] p = p
merge_all key (k ∷ rest) p = merge_all key rest (merge_one key k p)

unfoldable pub add_key : Option Str → List Str → List Str
add_key none keys = keys
add_key (some k) keys = set_add k keys

-- The windows that a record's identifiers already belong to.
unfoldable pub existing_keys : Map Str → List Str → List Str → List Str
existing_keys index [] keys = keys
existing_keys index (s ∷ rest) keys = existing_keys index rest (add_key (lookup s index) keys)

unfoldable pub first_or_empty : List Str → Str
first_or_empty [] = []
first_or_empty (s ∷ rest) = s

unfoldable pub key_or_first : Option Str → List Str → Str
key_or_first (some k) strs = k
key_or_first none strs = first_or_empty strs

-- The switch over the number of windows.
unfoldable pub choose_key : List Identifier → List Str → List Str → Str
choose_key ids strs [] = key_or_first (canonical ids) strs
choose_key ids strs (k ∷ []) = k
choose_key ids strs (k ∷ j ∷ rest) = canonical_of (k ∷ j ∷ rest)

unfoldable pub merge_existing : Str → List Str → Pipeline → Pipeline
merge_existing key (k ∷ j ∷ rest) p = merge_all key (k ∷ j ∷ rest) p
merge_existing key _ p = p

unfoldable pub mark_bridged : Str → List Str → List Str → Pipeline → Pipeline
mark_bridged key strs existing p = record p {
  bridged =
      if ltb 1 (length strs) || ltb 1 (length existing) then put key true p.bridged else p.bridged;
}

unfoldable pub add_to_window : Str → Event → Time → Pipeline → Pipeline
add_to_window key e now p = record p { window = (add p.window key e.tenant e now).0 }

-- All but the last loop of the body for a record.
unfoldable pub open_window : Str → List Str → List Str → Event → Time → Pipeline → Pipeline
open_window key strs existing e now p =
    ensure_key key
      (add_to_window key e now (mark_bridged key strs existing (merge_existing key existing p)))

-- The loop body for a record with identifiers whose event is known.
unfoldable pub correlate_event : Time → List Identifier → Event → Pipeline → Pipeline
correlate_event now ids e p =
    let strs = map to_string ids in
    let existing = existing_keys p.id_index strs [] in
    let key = choose_key ids strs existing in
    claim_all key strs (open_window key strs existing e now p)

unfoldable pub correlate_found : Time → List Identifier → Option Event → Pipeline → Pipeline
correlate_found now [] o p = p
correlate_found now (i ∷ ids) none p = p
correlate_found now (i ∷ ids) (some e) p = correlate_event now (i ∷ ids) e p

unfoldable pub correlate_record : Time → Record → Pipeline → Pipeline
correlate_record now r p = correlate_found now r.identifiers (lookup r.event_id p.events) p

unfoldable pub correlate_from : Time → List Record → Pipeline → Pipeline
correlate_from now [] p = p
correlate_from now (r ∷ rest) p = correlate_from now rest (correlate_record now r p)

unfoldable pub correlate : Time → Pipeline → Pipeline
correlate now p = record (correlate_from now p.records p) { records = [] }
