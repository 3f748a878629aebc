-- ===== src/Group/UnionFind/Run.antt =====
-- What holds after any sequence of calls.
use siem_v.Prelude.{All, Memᴰ}
use siem_v.Prelude.{◌≡◌, refl, sym, subst, ◌⊎◌, inl, inr, List, [], ◌∷◌}
use siem_v.Prelude.Text.{Str}
use siem_v.Prelude.Maps.{lookup}
use siem_v.Group.UnionFind.{UnionFind, add_id, climb, fuel}
use siem_v.Group.UnionFind.Roots.{Root, top, up, Root-unique}
use siem_v.Group.UnionFind.Find.{
  IsForest, Root-exists, add_id-IsForest, add_id-IsHeld, add_id-Root, find-IsForest,
}
use siem_v.Group.UnionFind.{Call, add_call, find_call, link_call, step, run, new_union_find}
use siem_v.Group.UnionFind.Sound.{IsEquivalence, IsSound, add_id-IsSound, find-IsSound}
use siem_v.Group.UnionFind.Partition.{IsJoined, find-IsJoined, link-IsLink}

-- The equivalence that the calls describe.
pub data Linked (calls : List Call) : Str → Str → Type 0 where
  linked : {x y : Str} → Memᴰ (link_call x y) calls → Linked calls x y
  self : (x : Str) → Linked calls x x
  back : {x y : Str} → Linked calls x y → Linked calls y x
  chain : {x y z : Str} → Linked calls x y → Linked calls y z → Linked calls x z

Linked-IsEquivalence : (calls : List Call) → IsEquivalence (Linked calls)
Linked-IsEquivalence calls = record { self = self; back = back; chain = chain }

-- What has to hold of the calls that are still to come.
abbrev pub IsContained {ℓ} : (Str → Str → Type ℓ) → Call → Type ℓ
IsContained E (add_call id) = Unit
IsContained E (find_call id) = Unit
IsContained E (link_call a b) = E a b

module _ {ℓ} (E : Str → Str → Type ℓ) (eq : IsEquivalence E) where
  step-IsForest : (c : Call) (u : UnionFind) → IsForest u → IsContained E c → IsForest (step c u)
  unfolding step
  step-IsForest (add_call id) u f e = add_id-IsForest id u f
  step-IsForest (find_call id) u f e = find-IsForest id u f
  step-IsForest (link_call a b) u f e = (link-IsLink E eq a b u f e).forest

  step-IsSound :
      (c : Call) (u : UnionFind)
      → IsForest u
      → IsContained E c
      → IsSound E u.parent
      → IsSound E (step c u).parent
  unfolding step
  step-IsSound (add_call id) u f e s = add_id-IsSound E eq id u f s
  step-IsSound (find_call id) u f e s = find-IsSound E eq id u f s
  step-IsSound (link_call a b) u f e s = (link-IsLink E eq a b u f e).sound s

  step-IsJoined :
      (c : Call) (u : UnionFind)
      → IsForest u
      → IsContained E c
      → {x y : Str} → IsJoined u.parent x y
      → IsJoined (step c u).parent x y
  unfolding step
  step-IsJoined (add_call id) u f e j = record {
    root = j.root;
    left = add_id-Root id u f j.left;
    right = add_id-Root id u f j.right;
  }
  step-IsJoined (find_call id) u f e j = find-IsJoined E eq id u f j
  step-IsJoined (link_call a b) u f e j = (link-IsLink E eq a b u f e).keeps j

  run-IsForest :
      (calls : List Call) (u : UnionFind)
      → IsForest u
      → All (IsContained E) calls
      → IsForest (run calls u)
  unfolding run
  run-IsForest [] u f e = f
  run-IsForest (c ∷ calls) u f e = run-IsForest calls (step c u) (step-IsForest c u f e.0) e.1

  run-IsSound :
      (calls : List Call) (u : UnionFind)
      → IsForest u
      → All (IsContained E) calls
      → IsSound E u.parent
      → IsSound E (run calls u).parent
  unfolding run
  run-IsSound [] u f e s = s
  run-IsSound (c ∷ calls) u f e s =
      run-IsSound calls (step c u) (step-IsForest c u f e.0) e.1 (step-IsSound c u f e.0 s)

  run-IsJoined :
      (calls : List Call) (u : UnionFind)
      → IsForest u
      → All (IsContained E) calls
      → {x y : Str} → IsJoined u.parent x y
      → IsJoined (run calls u).parent x y
  unfolding run
  run-IsJoined [] u f e j = j
  run-IsJoined (c ∷ calls) u f e j =
      run-IsJoined calls (step c u) (step-IsForest c u f e.0) e.1 (step-IsJoined c u f e.0 j)

  -- What one of the calls joins stays joined.
  run-joins :
      (calls : List Call) (u : UnionFind) {c : Call} {x y : Str}
      → IsForest u
      → All (IsContained E) calls
      → ((v : UnionFind) → IsForest v → IsContained E c → IsJoined (step c v).parent x y)
      → Memᴰ c calls
      → IsJoined (run calls u).parent x y
  unfolding run
  run-joins [] u f e joins m = elim m [ ]
  run-joins (c ∷ calls) u {c = d} {x} {y} f e joins (Memᴰ.head same) =
      run-IsJoined calls (step c u) (step-IsForest c u f e.0) e.1 (
        subst (λ k. IsJoined (step k u).parent x y) same
          (joins u f (subst (IsContained E) (sym same) e.0)))
  run-joins (c ∷ calls) u f e joins (Memᴰ.tail m) =
      run-joins calls (step c u) (step-IsForest c u f e.0) e.1 joins m

contained :
    (all calls : List Call)
    → ((c : Call) → Memᴰ c calls → Memᴰ c all)
    → All (IsContained (Linked all)) calls
contained all [] m = tt
contained all (add_call id ∷ calls) m = (tt, contained all calls (λ c h. m c (Memᴰ.tail h)))
contained all (find_call id ∷ calls) m = (tt, contained all calls (λ c h. m c (Memᴰ.tail h)))
contained all (link_call a b ∷ calls) m =
    (linked (m (link_call a b) (Memᴰ.head refl)), contained all calls (λ c h. m c (Memᴰ.tail h)))

new-IsForest : IsForest new_union_find
unfolding new_union_find lookup
new-IsForest = record { parent = λ id next h. cc }

new-IsSound {ℓ} : (E : Str → Str → Type ℓ) → IsSound E new_union_find.parent
unfolding new_union_find lookup
new-IsSound E = record { within = λ q. go q }
  where
    go : {r x : Str} → Root [] r x → E x r
    go (top e h) = cc
    go (up next h d q) = cc

module _ (calls : List Call) where
  abbrev pub after : UnionFind
  after = run calls new_union_find

  pub eq : IsEquivalence (Linked calls)
  eq = Linked-IsEquivalence calls

  all : All (IsContained (Linked calls)) calls
  all = contained calls calls (λ c m. m)

  pub after-IsForest : IsForest after
  after-IsForest = run-IsForest (Linked calls) eq calls new_union_find new-IsForest all

  pub after-IsSound : IsSound (Linked calls) after.parent
  after-IsSound =
      run-IsSound (Linked calls) eq calls new_union_find new-IsForest all
        (new-IsSound (Linked calls))

  pub Linked-IsJoined : {s t : Str} → Linked calls s t → (s ≡ t) ⊎ IsJoined after.parent s t
  unfolding step
  Linked-IsJoined (linked {x = a} {y = b} m) = inr (
      run-joins (Linked calls) eq calls new_union_find new-IsForest all
        (λ v f e. (link-IsLink (Linked calls) eq a b v f e).joins) m)
  Linked-IsJoined (self s) = inl refl
  Linked-IsJoined (back l) = elim (Linked-IsJoined l) [
    | inl same ↦ inl (sym same)
    | inr j ↦ inr (record { root = j.root; left = j.right; right = j.left })
  ]
  Linked-IsJoined (chain {x = s} {z = t} l m) =
      let first = Linked-IsJoined l in
      let second = Linked-IsJoined m in
      elim first [
        | inl same ↦ subst (λ k. (k ≡ t) ⊎ IsJoined after.parent k t) (sym same) second
        | inr j ↦ inr (elim second [
          | inl same ↦ subst (IsJoined after.parent s) same j
          | inr k ↦
              let one = Root-unique k.left j.right in
              record {
                root = k.root;
                left = subst (λ r. Root after.parent r s) (sym one) j.left;
                right = k.right;
              }
        ])
      ]

  pub added : {x : Str} → Memᴰ (add_call x) calls → IsJoined after.parent x x
  unfolding step
  added {x} m =
      run-joins (Linked calls) eq calls new_union_find new-IsForest all
        (λ v f e.
          let root = Root-exists (add_id x v) (add_id-IsForest x v f) (add_id-IsHeld x v f) in
          record {
            root = climb (fuel (add_id x v)) (add_id x v).parent x;
            left = root;
            right = root;
          })
        m
