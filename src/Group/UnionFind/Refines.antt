-- ===== src/Group/UnionFind/Refines.antt =====
-- The structure refines the equivalence that the links describe, over any sequence of calls.
use siem_v.Prelude.{◌↔◌}
use siem_v.Prelude.{ℕ, ◌+◌, ◌≡◌, sym, ◌∙◌, subst, inl, inr, some, List, arith}
use siem_v.Prelude.Text.{Str}
use siem_v.Prelude.Maps.{lookup, values}
use siem_v.Group.UnionFind.{UnionFind, add_id, climb, compress, largest, fuel, find}
use siem_v.Group.UnionFind.Roots.{Root, Root-steady, Root-unique}
use siem_v.Group.UnionFind.Ranks.{climb-Root, compress-fuel}
use siem_v.Group.UnionFind.Find.{
  Root-exists, largest-bound, add_id-IsForest, add_id-IsHeld, find-Root, find-IsForest, find-keeps,
}
use siem_v.Group.UnionFind.{Call, run, new_union_find}
use siem_v.Group.UnionFind.Sound.{find-IsSound}
use siem_v.Group.UnionFind.Partition.{find-IsJoined}
use siem_v.Group.UnionFind.Run.{
  Linked, back, chain, after, eq, after-IsForest, after-IsSound, Linked-IsJoined,
}

-- The answers to `find` for two identifiers, asked one after the other once the calls are made.
unfoldable pub representatives : List Call → Str → Str → Str × Str
representatives calls x y =
    let u = run calls new_union_find in let first = find x u in (first.0, (find y first.1).0)

module _ (calls : List Call) (x y : Str) where
  abbrev first : UnionFind
  first = (find x (after calls)).1

  first-Root : Root (find y first).1.parent (find x (after calls)).0 x
  first-Root =
      find-keeps y first (find-IsForest x (after calls) (after-IsForest calls))
        (find-Root x (after calls) (after-IsForest calls))

  second-Root : Root (find y first).1.parent (find y first).0 y
  second-Root = find-Root y first (find-IsForest x (after calls) (after-IsForest calls))

  agree : Linked calls x y → (find x (after calls)).0 ≡ (find y first).0
  agree l = elim (Linked-IsJoined calls l) [
    | inl same ↦
        Root-unique first-Root
          (subst (Root (find y first).1.parent (find y first).0) (sym same) second-Root)
    | inr j ↦
        let k =
          find-IsJoined (Linked calls) (eq calls) y first
            (find-IsForest x (after calls) (after-IsForest calls))
            (find-IsJoined (Linked calls) (eq calls) x (after calls) (after-IsForest calls) j) in
        Root-unique first-Root k.left ∙ Root-unique k.right second-Root
  ]

  only : (find x (after calls)).0 ≡ (find y first).0 → Linked calls x y
  only same =
      let one =
        find-IsSound (Linked calls) (eq calls) x (after calls) (after-IsForest calls)
          (after-IsSound calls) in
      let two =
        find-IsSound (Linked calls) (eq calls) y first
          (find-IsForest x (after calls) (after-IsForest calls)) one in
      chain (two.within first-Root)
        (subst (λ r. Linked calls r y) (sym same) (back (two.within second-Root)))

  -- Whatever calls of `add`, `find` and `link` are made of a new structure, `find` then gives two
  -- identifiers the same representative exactly if the links connect them: the path compression
  -- and the ranks make no difference to the partition.
  pub find-run_iff :
      ((representatives calls x y).0 ≡ (representatives calls x y).1) ↔ Linked calls x y
  unfolding representatives
  find-run_iff = (only, agree)

module _ (calls : List Call) (x : Str) where
  -- After any calls the two loops of `find` end within the fuel, so that more of it changes neither
  -- the answer nor the structure, and the answer is its own parent.
  pub find_ends :
      (more : ℕ)
      → (climb (fuel (add_id x (after calls)) + more) (add_id x (after calls)).parent x
          ≡ (find x (after calls)).0)
        × (compress
              (fuel (add_id x (after calls)) + more)
              (find x (after calls)).0
              x
              (add_id x (after calls)).parent
            ≡ (find x (after calls)).1.parent)
        × (lookup (find x (after calls)).0 (find x (after calls)).1.parent
            ≡ some (find x (after calls)).0)
  unfolding find fuel
  find_ends more =
      let u = add_id x (after calls) in
      let f = add_id-IsForest x (after calls) (after-IsForest calls) in
      let h = add_id-IsHeld x (after calls) (after-IsForest calls) in
      let bound = largest (values u.rank) in
      let root = Root-exists u f h in
      let further =
        climb-Root (fuel u + more) u.parent u.rank bound x h.next f (largest-bound u.rank)
          (omega arith) h.found in
      (
        Root-unique further root,
        compress-fuel (fuel u) more u.parent u.rank bound _ x f (largest-bound u.rank) (omega arith)
            root,
        Root-steady (find-Root x (after calls) (after-IsForest calls)),
      )
