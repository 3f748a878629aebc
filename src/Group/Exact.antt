-- ===== src/Group/Exact.antt =====
-- `Exact`: records joined over the identifiers they share,
-- backend/internal/correlate/group/bridge.go.
pub mod Connected
pub mod Gathered
pub mod Mine
pub mod Components
pub mod Covers
use siem_v.Prelude.{
  Bool, true, false, ◌&&◌, ◌||◌, Option, none, some, List, [], ◌∷◌, ◌++◌, length, ltb,
  if◌then◌else◌,
}
use siem_v.Prelude.Text.{Str, str_lt}
use siem_v.Prelude.Maps.{Map, lookup, put, values}
use siem_v.Prelude.Sort.{sort}
use siem_v.Keys.{Identifier, Key, to_string, canonical, exact, vendor_request_id}
use siem_v.Pipeline.{Record, set_add, parse_all}
use siem_v.Group.{Component, component_less}
use siem_v.Group.UnionFind.{UnionFind, new_union_find, add_id, find, link}

-- The record joins its own identifiers, over the first of them.
unfoldable pub link_all : Str → List Identifier → UnionFind → UnionFind
link_all first [] u = u
link_all first (id ∷ ids) u = link_all first ids (link first (to_string id) u)

unfoldable pub link_identifiers : List Identifier → UnionFind → UnionFind
link_identifiers [] u = u
link_identifiers (id ∷ ids) u = link_all (to_string id) ids (add_id (to_string id) u)

unfoldable pub link_records : List Record → UnionFind → UnionFind
link_records [] u = u
link_records (r ∷ records) u = link_records records (link_identifiers r.identifiers u)

-- The local type `acc`; a set of texts is the list of its members.
pub record Acc : Type 0 where
  pub ids : List Str
  pub event_ids : List Str
  pub providers : List Str
  pub has_bridge : Bool

abbrev pub new_acc : Acc
new_acc = record { ids = []; event_ids = []; providers = []; has_bridge = false }

unfoldable pub acc_or_new : Option Acc → Acc
acc_or_new none = new_acc
acc_or_new (some a) = a

unfoldable pub add_ids : List Identifier → List Str → List Str
add_ids [] set = set
add_ids (id ∷ ids) set = add_ids ids (set_add (to_string id) set)

unfoldable pub gather_into : Record → Acc → Acc
gather_into r a = record {
  event_ids = a.event_ids ++ r.event_id ∷ [];
  providers = set_add r.provider a.providers;
  ids = add_ids r.identifiers a.ids;
  has_bridge = a.has_bridge || ltb 1 (length r.identifiers);
}

unfoldable pub gather_at : Record → Str → UnionFind → Map Acc → UnionFind × Map Acc
gather_at r first u by_root =
    let found = find first u in
    (found.1, put found.0 (gather_into r (acc_or_new (lookup found.0 by_root))) by_root)

-- A record without identifiers is passed over.
unfoldable pub gather : Record → List Identifier → UnionFind → Map Acc → UnionFind × Map Acc
gather r [] u by_root = (u, by_root)
gather r (id ∷ ids) u by_root = gather_at r (to_string id) u by_root

unfoldable pub gather_all : List Record → UnionFind → Map Acc → UnionFind × Map Acc
gather_all [] u by_root = (u, by_root)
gather_all (r ∷ records) u by_root =
    let next = gather r r.identifiers u by_root in gather_all records next.0 next.1

unfoldable pub component_of : Acc → Str → Component
component_of a value =
    let providers = sort str_lt a.providers in
    record {
      key = record { value = value; tier = exact; signals = vendor_request_id ∷ [] };
      event_ids = sort str_lt a.event_ids;
      providers = providers;
      is_bridged = a.has_bridge && ltb 1 (length providers);
    }

-- A group without a canonical key is left out.
unfoldable pub component_if : Acc → Option Str → List Component → List Component
component_if a none rest = rest
component_if a (some value) rest = component_of a value ∷ rest

unfoldable pub components_of : List Acc → List Component
components_of [] = []
components_of (a ∷ accs) = component_if a (canonical (parse_all a.ids)) (components_of accs)

unfoldable pub exact_components : List Record → List Component
exact_components records =
    let u = link_records records new_union_find in
    sort component_less (components_of (values (gather_all records u []).1))
