-- ===== src/Tests/Grouping.antt =====
-- The theorems on grouping, applied to samples.
use siem_v.Prelude.{ℕ, ◌≡◌, ◌↔◌, ◌+◌, refl, some, List, [], ◌∷◌, Memᴰ, All}
use siem_v.Prelude.Text.{Str, str, to_upper}
use siem_v.Prelude.Time.{pos, second}
use siem_v.Prelude.Maps.{lookup}
use siem_v.Keys.{Identifier}
use siem_v.Pipeline.{Record}
use siem_v.Group.UnionFind.{
  Call, add_call, find_call, link_call, climb, compress, fuel, add_id, find,
}
use siem_v.Group.UnionFind.Run.{Linked, after}
use siem_v.Group.UnionFind.Refines.{representatives, find-run_iff, find_ends}
use siem_v.Group.Exact.{exact_components}
use siem_v.Group.Exact.Components.{IsJoin, exact_components-IsJoin}
use siem_v.Group.Exact.Covers.{IsCovered, exact_components-IsCovered}
use siem_v.Group.Heuristic.{HeuristicRecord, heuristic_components, window_or_default}
use siem_v.Group.Heuristic.Alike.{IsPlain}
use siem_v.Group.Heuristic.Judged.{IsUnambiguous, IsAmbiguous, heuristic_components-IsJudged}

abbrev sample_calls : List Call
sample_calls =
    add_call (str "ray:1")
    ∷ link_call (str "ray:1") (str "dd:7")
    ∷ find_call (str "dd:7")
    ∷ link_call (str "dd:7") (str "nginx:3")
    ∷ []

find-run_iff_example :
    ((representatives sample_calls (str "ray:1") (str "nginx:3")).0
      ≡ (representatives sample_calls (str "ray:1") (str "nginx:3")).1)
    ↔ Linked sample_calls (str "ray:1") (str "nginx:3")
find-run_iff_example = find-run_iff sample_calls (str "ray:1") (str "nginx:3")

find_ends_example :
    (climb
        (fuel (add_id (str "nginx:3") (after sample_calls)) + 5)
        (add_id (str "nginx:3") (after sample_calls)).parent
        (str "nginx:3")
      ≡ (find (str "nginx:3") (after sample_calls)).0)
    × (compress
          (fuel (add_id (str "nginx:3") (after sample_calls)) + 5)
          (find (str "nginx:3") (after sample_calls)).0
          (str "nginx:3")
          (add_id (str "nginx:3") (after sample_calls)).parent
        ≡ (find (str "nginx:3") (after sample_calls)).1.parent)
    × (lookup
          (find (str "nginx:3") (after sample_calls)).0
          (find (str "nginx:3") (after sample_calls)).1.parent
        ≡ some (find (str "nginx:3") (after sample_calls)).0)
find_ends_example = find_ends sample_calls (str "nginx:3") 5

abbrev sample_id : Str → Str → Identifier
sample_id ns value = record { namespace = ns; value = value }

abbrev sample_edge : Record
sample_edge = record {
  event_id = str "e1";
  provider = str "cloudflare";
  identifiers = sample_id (str "ray") (str "1") ∷ sample_id (str "dd") (str "7") ∷ [];
}

abbrev sample_shield : Record
sample_shield = record {
  event_id = str "e2";
  provider = str "datadome";
  identifiers = sample_id (str "dd") (str "7") ∷ [];
}

abbrev sample_records : List Record
sample_records = sample_edge ∷ sample_shield ∷ []

exact_components-IsJoin_example : All (IsJoin sample_records) (exact_components sample_records)
exact_components-IsJoin_example = exact_components-IsJoin sample_records

exact_components-IsCovered_example : IsCovered (str "e1") (exact_components sample_records)
exact_components-IsCovered_example =
    exact_components-IsCovered sample_records sample_edge (Memᴰ.head refl) tt

abbrev sample_heuristic : Str → Str → ℕ → HeuristicRecord
sample_heuristic id provider at = record {
  event_id = id;
  provider = provider;
  client_ip = str "192.0.2.7";
  host = str "shop.example";
  path = str "/cart";
  method = str "get";
  event_time = at;
}

abbrev sample_heuristics : List HeuristicRecord
sample_heuristics =
    sample_heuristic (str "h1") (str "nginx") 1_000
    ∷ sample_heuristic (str "h2") (str "f5") 2_000
    ∷ sample_heuristic (str "h3") (str "nginx") 90_000_000_000
    ∷ []

sample-IsPlain : {id provider : Str} {at : ℕ} → IsPlain (sample_heuristic id provider at)
unfolding to_upper
sample-IsPlain = record { plain_client = refl; plain_host = refl; plain_method = refl }

heuristic_components-IsJudged_example :
    All
      (IsUnambiguous sample_heuristics (window_or_default (pos second)))
      (heuristic_components sample_heuristics (pos second)).0
    × All
        (IsAmbiguous sample_heuristics (window_or_default (pos second)))
        (heuristic_components sample_heuristics (pos second)).1
heuristic_components-IsJudged_example =
    heuristic_components-IsJudged sample_heuristics (pos second)
      (sample-IsPlain, (sample-IsPlain, (sample-IsPlain, tt)))
