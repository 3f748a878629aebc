-- ===== src/Pipeline/Restart.antt =====
-- What survives a restart: `Snapshot`, `Restore`, `RecentKeys`, `RestoreRecentKeys`,
-- `IdentifierIndex` and `RestoreIdentifierIndex` of backend/internal/biz/flow/pipeline.go, as
-- backend/cmd/logproc/main.go calls them. Between the two runs the snapshot is kept outside.
pub mod Resumes
use siem_v.Prelude.{Bool, true, false, ◌&&◌, not, Option, none, some, List, [], ◌∷◌, if◌then◌else◌}
use siem_v.Prelude.Text.{Str}
use siem_v.Prelude.Time.{Time}
use siem_v.Prelude.Maps.{Map, put}
use siem_v.Schema.{Layer}
use siem_v.Window.{State, Window, snapshot, restore}
use siem_v.Pipeline.{Pipeline, set_add}
use siem_v.Pipeline.Correlate.{ids_of, correlate}

-- `Snapshot` of backend/internal/data/valkey/correlation.go.
pub record Snapshot : Type 0 where
  pub window : List State
  pub recent_keys : Map Time
  pub id_index : Map Str
  pub key_ids : Map (List Str)

-- The copy that `IdentifierIndex` returns.
abbrev pub identifier_index : Pipeline → Map Str × Map (List Str)
identifier_index p = (p.id_index, p.key_ids)

-- Waiting events are correlated first.
unfoldable pub snapshot_window : Time → Pipeline → List State × Pipeline
snapshot_window now p = let q = correlate now p in (snapshot q.window, q)

-- The calls of the shutdown, in their order: the index is read before the window.
unfoldable pub shut_down : Time → Pipeline → Snapshot
shut_down now p =
    let (index, rev) = identifier_index p in
    let (states, q) = snapshot_window now p in
    record { window = states; recent_keys = q.recent_keys; id_index = index; key_ids = rev }

-- A `range` over the saved map that writes each entry.
unfoldable pub restore_entries {ℓ} : {V : Type ℓ} → Map V → Map V → Map V
restore_entries [] into = into
restore_entries ((k, v) ∷ saved) into = put k v (restore_entries saved into)

unfoldable pub add_all : List Str → List Str → List Str
add_all [] set = set
add_all (s ∷ rest) set = add_all rest (set_add s set)

unfoldable pub restore_key_ids : Map (List Str) → Map (List Str) → Map (List Str)
restore_key_ids [] into = into
restore_key_ids ((k, ids) ∷ saved) into =
    let others = restore_key_ids saved into in put k (add_all ids (ids_of others k)) others

unfoldable pub restore_identifier_index : Map Str → Map (List Str) → Pipeline → Pipeline
restore_identifier_index index rev p = record p {
  id_index = restore_entries index p.id_index;
  key_ids = restore_key_ids rev p.key_ids;
}

unfoldable pub restore_all : Snapshot → Pipeline → Pipeline
restore_all s p = restore_identifier_index s.id_index s.key_ids (record p {
  window = restore p.window s.window;
  recent_keys = restore_entries s.recent_keys p.recent_keys;
})

-- A snapshot without windows and recent keys is not restored.
unfoldable pub resume : List State → Map Time → Snapshot → Pipeline → Pipeline
resume [] [] s p = p
resume _ _ s p = restore_all s p

unfoldable pub start_up : Snapshot → Pipeline → Pipeline
start_up s p = resume s.window s.recent_keys s p
