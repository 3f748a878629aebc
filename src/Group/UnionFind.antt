-- ===== src/Group/UnionFind.antt =====
-- The union-find over identifiers: backend/internal/correlate/group/unionfind.go. A loop of `find`
-- runs on fuel, which is one more than the largest rank.
pub mod Roots
pub mod Ranks
pub mod Find
pub mod Link
pub mod Sound
pub mod Partition
pub mod Run
pub mod Refines
use siem_v.Prelude.{
  ℕ, zero, suc, Bool, true, false, Option, none, some, List, [], ◌∷◌, ltb, ◌==◌, if◌then◌else◌,
}
use siem_v.Prelude.Text.{Str, str_eq}
use siem_v.Prelude.Maps.{Map, lookup, put, values}

pub record UnionFind : Type 0 where
  pub parent : Map Str
  pub rank : Map ℕ

unfoldable pub new_union_find : UnionFind
new_union_find = record { parent = []; rank = [] }

-- A missing key of a Go map reads as the zero value.
abbrev pub str_or_empty : Option Str → Str
str_or_empty none = []
str_or_empty (some s) = s

abbrev pub nat_or_zero : Option ℕ → ℕ
nat_or_zero none = 0
nat_or_zero (some n) = n

unfoldable pub parent_of : Map Str → Str → Str
parent_of p id = str_or_empty (lookup id p)

unfoldable pub rank_of : Map ℕ → Str → ℕ
rank_of ranks id = nat_or_zero (lookup id ranks)

abbrev pub is_some {ℓ} : {A : Type ℓ} → Option A → Bool
is_some none = false
is_some (some a) = true

unfoldable pub add_id : Str → UnionFind → UnionFind
add_id id u = if is_some (lookup id u.parent) then u else record u { parent = put id id u.parent }

-- for u.parent[root] != root { root = u.parent[root] }
unfoldable pub climb : ℕ → Map Str → Str → Str
climb zero p root = root
climb (suc fuel) p root =
    let higher = climb fuel p (parent_of p root) in
    if str_eq (parent_of p root) root then root else higher

-- for u.parent[id] != root { next := u.parent[id]; u.parent[id] = root; id = next }
unfoldable pub compress : ℕ → Str → Str → Map Str → Map Str
compress zero root id p = p
compress (suc fuel) root id p =
    let higher = compress fuel root (parent_of p id) (put id root p) in
    if str_eq (parent_of p id) root then p else higher

unfoldable pub largest : List ℕ → ℕ
largest [] = 0
largest (n ∷ ns) = let m = largest ns in if ltb m n then n else m

unfoldable pub fuel : UnionFind → ℕ
unfolding largest
fuel u = suc (largest (values u.rank))

-- The representative of the identifier, and the structure with the path to it compressed.
unfoldable pub find : Str → UnionFind → Str × UnionFind
find id u =
    let v = add_id id u in
    let root = climb (fuel v) v.parent id in
    (root, record v { parent = compress (fuel v) root id v.parent })

-- rb goes below ra.
unfoldable pub hang : Str → Str → UnionFind → UnionFind
hang rb ra u = record {
  parent = put rb ra u.parent;
  rank =
      if rank_of u.rank ra == rank_of u.rank rb
      then put ra (suc (rank_of u.rank ra)) u.rank
      else u.rank;
}

unfoldable pub link_roots : Str → Str → UnionFind → UnionFind
link_roots ra rb u =
    if str_eq ra rb
    then u
    else if ltb (rank_of u.rank ra) (rank_of u.rank rb)
    then hang ra rb u
    else hang rb ra u

unfoldable pub link : Str → Str → UnionFind → UnionFind
link a b u = let fa = find a u in let fb = find b fa.1 in link_roots fa.0 fb.0 fb.1

-- What a client does with the structure, one call after the other.
pub data Call : Type 0 where
  add_call : Str → Call
  find_call : Str → Call
  link_call : Str → Str → Call

unfoldable pub step : Call → UnionFind → UnionFind
step (add_call id) u = add_id id u
step (find_call id) u = (find id u).1
step (link_call a b) u = link a b u

unfoldable pub run : List Call → UnionFind → UnionFind
run [] u = u
run (c ∷ calls) u = run calls (step c u)
