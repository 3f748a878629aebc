-- ===== src/Group.antt =====
-- Grouping of records into request flows: backend/internal/correlate/group.
pub mod UnionFind
pub mod Exact
pub mod Heuristic
use siem_v.Prelude.{Bool, List}
use siem_v.Prelude.Text.{Str, str_lt}
use siem_v.Keys.{Key}

-- `group.Component`.
pub record Component : Type 0 where
  pub key : Key
  pub event_ids : List Str
  pub providers : List Str
  pub is_bridged : Bool

-- The comparison of the last sort of `Exact` and of `Heuristic`.
unfoldable pub component_less : Component → Component → Bool
component_less a b = str_lt a.key.value b.key.value
