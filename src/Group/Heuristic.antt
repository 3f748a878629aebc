-- ===== src/Group/Heuristic.antt =====
-- `Heuristic`: records joined on their attributes within a time window,
-- backend/internal/correlate/group/heuristic.go.
pub mod Clusters
pub mod Alike
pub mod Judged
use siem_v.Prelude.{
  ◌*◌, Bool, true, false, ◌||◌, Option, none, some, List, [], ◌∷◌, ◌++◌, map, length, ltb, ◌==◌,
  if◌then◌else◌, any,
}
use siem_v.Prelude.Text.{Str, str, str_eq, str_lt, to_upper}
use siem_v.Prelude.Time.{Time, Duration, pos, ltb_ℤ, time_sub, is_zero, second}
use siem_v.Prelude.Maps.{Map, lookup, put}
use siem_v.Prelude.Sort.{sort}
use siem_v.Keys.{heuristic, ip_host_path_method, time_window}
use siem_v.Pipeline.{set_add, member}
use siem_v.Group.{Component, component_less}

pub record HeuristicRecord : Type 0 where
  pub event_id : Str
  pub provider : Str
  pub client_ip : Str
  pub host : Str
  pub path : Str
  pub method : Str
  pub event_time : Time

unfoldable pub attribute_key : HeuristicRecord → Option Str
attribute_key r =
    if str_eq r.client_ip []
      || str_eq r.host []
      || str_eq r.path []
      || str_eq r.method []
      || is_zero r.event_time
    then none
    else some (r.client_ip ++ b'|' ∷ r.host ++ b'|' ∷ r.path ++ b'|' ∷ to_upper r.method)

-- The records by key; one without a key is passed over.
unfoldable pub list_or_empty : Option (List HeuristicRecord) → List HeuristicRecord
list_or_empty none = []
list_or_empty (some l) = l

unfoldable pub add_at :
    HeuristicRecord → Option Str → Map (List HeuristicRecord) → Map (List HeuristicRecord)
add_at r none by_key = by_key
add_at r (some key) by_key = put key (list_or_empty (lookup key by_key) ++ r ∷ []) by_key

unfoldable pub bucket_all :
    List HeuristicRecord → Map (List HeuristicRecord) → Map (List HeuristicRecord)
bucket_all [] by_key = by_key
bucket_all (r ∷ records) by_key = bucket_all records (add_at r (attribute_key r) by_key)

-- The comparison within a bucket.
unfoldable pub record_less : HeuristicRecord → HeuristicRecord → Bool
record_less a b =
    if a.event_time == b.event_time
    then str_lt a.event_id b.event_id
    else ltb a.event_time b.event_time

-- The loop of `clusterByTime`; `last` is the last record of the current run.
unfoldable pub cluster_from :
    Duration
    → List (List HeuristicRecord)
    → List HeuristicRecord
    → HeuristicRecord
    → List HeuristicRecord
    → List (List HeuristicRecord)
cluster_from window out current last [] = out ++ current ∷ []
cluster_from window out current last (r ∷ rest) =
    let far = ltb_ℤ window (time_sub r.event_time last.event_time) in
    cluster_from window (if far then out ++ current ∷ [] else out)
      (if far then r ∷ [] else current ++ r ∷ []) r rest

-- A bucket holds a record at least: the source would panic on an empty one.
unfoldable pub cluster_by_time : Duration → List HeuristicRecord → List (List HeuristicRecord)
cluster_by_time window [] = []
cluster_by_time window (r ∷ rest) = cluster_from window [] (r ∷ []) r rest

unfoldable pub duplicate_from : List Str → List HeuristicRecord → Bool
duplicate_from seen [] = false
duplicate_from seen (r ∷ rest) = member r.provider seen || duplicate_from (r.provider ∷ seen) rest

unfoldable pub has_duplicate_provider : List HeuristicRecord → Bool
has_duplicate_provider cluster = duplicate_from [] cluster

abbrev pub first_or_empty : List Str → Str
first_or_empty [] = []
first_or_empty (s ∷ rest) = s

unfoldable pub provider_set : List HeuristicRecord → List Str → List Str
provider_set [] set = set
provider_set (r ∷ rest) set = provider_set rest (set_add r.provider set)

abbrev pub event_id_of : HeuristicRecord → Str
event_id_of r = r.event_id

unfoldable pub build_heuristic_component : List HeuristicRecord → Component
build_heuristic_component cluster =
    let event_ids = sort str_lt (map event_id_of cluster) in
    record {
      key = record {
        value = str "heur:" ++ first_or_empty event_ids;
        tier = heuristic;
        signals = ip_host_path_method ∷ time_window ∷ [];
      };
      event_ids = event_ids;
      providers = sort str_lt (provider_set cluster []);
      is_bridged = false;
    }

-- The components, and the ids of the records that are ambiguous.
unfoldable pub judge_cluster :
    List HeuristicRecord → List Component × List Str → List Component × List Str
judge_cluster cluster out =
    if ltb (length cluster) 2
    then out
    else if has_duplicate_provider cluster
    then (out.0, out.1 ++ map event_id_of cluster)
    else (out.0 ++ build_heuristic_component cluster ∷ [], out.1)

unfoldable pub judge_all :
    List (List HeuristicRecord) → List Component × List Str → List Component × List Str
judge_all [] out = out
judge_all (c ∷ clusters) out = judge_all clusters (judge_cluster c out)

unfoldable pub judge_buckets :
    Duration
    → Map (List HeuristicRecord)
    → List Str
    → List Component × List Str
    → List Component × List Str
judge_buckets window by_key [] out = out
judge_buckets window by_key (k ∷ keys) out =
    let bucket = sort record_less (list_or_empty (lookup k by_key)) in
    judge_buckets window by_key keys (judge_all (cluster_by_time window bucket) out)

unfoldable pub keys_of : Map (List HeuristicRecord) → List Str
keys_of [] = []
keys_of ((k, l) ∷ m) = k ∷ keys_of m

-- A window that is not positive falls back to five seconds.
unfoldable pub window_or_default : Duration → Duration
window_or_default window = if ltb_ℤ (pos 0) window then window else pos (5 * second)

unfoldable pub heuristic_components : List HeuristicRecord → Duration → List Component × List Str
heuristic_components records window =
    let by_key = bucket_all records [] in
    let out =
      judge_buckets (window_or_default window) by_key (sort str_lt (keys_of by_key)) ([], []) in
    (sort component_less out.0, sort str_lt out.1)
