-- ===== src/Group/UnionFind/Find.antt =====
-- What `find` and `link` do to the partition of the identifiers.
use siem_v.Prelude.{
  ℕ, ◌≤◌, ◌<◌, ◌≡◌, sym, ap, ◌∙◌, ◌⊎◌, inl, inr, none, some, [], ◌∷◌, Option-cases, arith,
}
use siem_v.Prelude.Text.{Str, Str-cases}
use siem_v.Prelude.Maps.{Map, lookup, put, lookup-put, lookup-put_self, values}
use siem_v.Group.UnionFind.{UnionFind, rank_of, add_id, climb, largest, fuel, find}
use siem_v.Group.UnionFind.Roots.{Root, IsHeld, Root-fresh}
use siem_v.Group.UnionFind.Ranks.{IsRanked, climb-Root, compress-IsSame, IsHeld-put}

-- What holds of every union-find: parents are identifiers of it, with a larger rank.
abbrev pub IsForest : UnionFind → Type 0
IsForest u = IsRanked u.parent u.rank

pub largest-bound : (ranks : Map ℕ) (id : Str) → rank_of ranks id ≤ largest (values ranks)
unfolding rank_of lookup largest values
largest-bound [] id = omega arith
largest-bound ((k, n) ∷ ranks) id = ground (arith, largest-bound ranks id)

pub Root-exists :
    (u : UnionFind) {id : Str}
    → IsForest u
    → IsHeld u.parent id
    → Root u.parent (climb (fuel u) u.parent id) id
unfolding fuel
Root-exists u {id} f h =
    climb-Root (fuel u) u.parent u.rank (largest (values u.rank)) id h.next f (largest-bound u.rank)
      (omega arith) h.found

fresh-IsForest :
    (id : Str) (u : UnionFind)
    → lookup id u.parent ≡ none
    → IsForest u
    → IsRanked (put id id u.parent) u.rank
fresh-IsForest id u n f = record { parent = parent }
  where
    parent :
        (x next : Str)
        → lookup x (put id id u.parent) ≡ some next
        → IsHeld (put id id u.parent) next × ((x ≡ next) ⊎ (rank_of u.rank x < rank_of u.rank next))
    parent x next h = elim (Str-cases id x) [
      | inl same ↦
          let own : id ≡ next = ground (arith, lookup-put_self id id u.parent, same, h) in
          (
            record {
              next = id;
              found =
                  ap (λ k. lookup k (put id id u.parent)) (sym own)
                  ∙ lookup-put_self id id u.parent;
            },
            inl (sym same ∙ own),
          )
      | inr differ ↦
          let old = f.parent x next (ground (arith, lookup-put id x id u.parent)) in
          (IsHeld-put id id old.0, old.1)
    ]

-- An operation on the structure: it keeps the invariant and the identifiers.
module _ (id : Str) (u : UnionFind) (f : IsForest u) where
  pub add_id-IsForest : IsForest (add_id id u)
  unfolding add_id
  add_id-IsForest = elim (Option-cases (lookup id u.parent)) [
    | inl unknown ↦ rw unknown (fresh-IsForest id u unknown f)
    | inr known ↦ rw known.1 f
  ]

  pub add_id-IsHeld : IsHeld (add_id id u).parent id
  unfolding add_id
  add_id-IsHeld = elim (Option-cases (lookup id u.parent)) [
    | inl unknown ↦ rw unknown (record { next = id; found = lookup-put_self id id u.parent })
    | inr known ↦ rw known.1 (record { next = known.0; found = known.1 })
  ]

  pub add_id-Root : {r x : Str} → Root u.parent r x → Root (add_id id u).parent r x
  unfolding add_id
  add_id-Root q = elim (Option-cases (lookup id u.parent)) [
    | inl unknown ↦ rw unknown (Root-fresh id unknown q)
    | inr known ↦ rw known.1 q
  ]

  -- The first loop of `find` ends at the representative.
  pub find-Root : Root (find id u).1.parent (find id u).0 id
  unfolding find
  find-Root =
      let root = Root-exists (add_id id u) add_id-IsForest add_id-IsHeld in
      (compress-IsSame (fuel (add_id id u)) add_id-IsForest root).0.roots root

  pub find-IsForest : IsForest (find id u).1
  unfolding find
  find-IsForest =
      let root = Root-exists (add_id id u) add_id-IsForest add_id-IsHeld in
      (compress-IsSame (fuel (add_id id u)) add_id-IsForest root).1

  pub find-keeps : {r x : Str} → Root u.parent r x → Root (find id u).1.parent r x
  unfolding find
  find-keeps q =
      let root = Root-exists (add_id id u) add_id-IsForest add_id-IsHeld in
      (compress-IsSame (fuel (add_id id u)) add_id-IsForest root).0.roots (add_id-Root q)
