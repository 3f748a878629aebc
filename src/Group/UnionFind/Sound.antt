-- ===== src/Group/UnionFind/Sound.antt =====
-- The structure joins two identifiers only if every equivalence that contains the links does.
use siem_v.Prelude.{◌≡◌, refl, subst, inl, inr, false, none, Option-cases, arith, if◌then◌else◌}
use siem_v.Prelude.Text.{Str, str_eq, str_eq_refl, Str-cases}
use siem_v.Prelude.Maps.{Map, lookup, put, lookup-put, lookup-put_self}
use siem_v.Group.UnionFind.{UnionFind, add_id, climb, fuel, find}
use siem_v.Group.UnionFind.Roots.{Root, top, up, IsHeld, Root-unique, Root-hang, Root-fresh}
use siem_v.Group.UnionFind.Ranks.{IsSame, compress-IsSame, IsHeld-unput}
use siem_v.Group.UnionFind.Find.{IsForest, Root-exists, add_id-IsForest, add_id-IsHeld}

pub record IsEquivalence {ℓ} (E : Str → Str → Type ℓ) : Type ℓ where
  pub self : (x : Str) → E x x
  pub back : {x y : Str} → E x y → E y x
  pub chain : {x y z : Str} → E x y → E y z → E x z

pub Root-IsHeld : {p : Map Str} {r x : Str} → Root p r x → IsHeld p x
Root-IsHeld {p} {r} (top e h) = record { next = r; found = h }
Root-IsHeld (up next h d q) = record { next = next; found = h }

-- Every identifier is equivalent to its representative.
pub record IsSound {ℓ} (E : Str → Str → Type ℓ) (p : Map Str) : Type ℓ where
  pub within : {r x : Str} → Root p r x → E x r

record IsWithin {ℓ} (E : Str → Str → Type ℓ) (p : Map Str) (x : Str) : Type ℓ where
  root : Str
  represents : Root p root x
  equivalent : E x root

module _ {ℓ} (E : Str → Str → Type ℓ) (eq : IsEquivalence E) where
  IsSound-of_IsWithin : {p : Map Str} → ((x : Str) → IsHeld p x → IsWithin E p x) → IsSound E p
  IsSound-of_IsWithin {p} w = record { within = within }
    where
      within : {r x : Str} → Root p r x → E x r
      within {r} {x} q =
          let known = w x (Root-IsHeld q) in
          subst (E x) (Root-unique known.represents q) known.equivalent

  IsSound-of_IsSame :
      (u : UnionFind) {q : Map Str}
      → IsForest u
      → IsSame u.parent q
      → IsSound E u.parent
      → IsSound E q
  IsSound-of_IsSame u {q} f same s = IsSound-of_IsWithin (λ x h.
      let root = Root-exists u f (same.held h) in
      record {
        root = climb (fuel u) u.parent x;
        represents = same.roots root;
        equivalent = s.within root;
      })

  fresh-IsSound :
      (id : Str) (u : UnionFind)
      → IsForest u
      → lookup id u.parent ≡ none
      → IsSound E u.parent
      → IsSound E (put id id u.parent)
  fresh-IsSound id u f unknown s = IsSound-of_IsWithin (λ x h. elim (Str-cases id x) [
    | inl same ↦ subst (IsWithin E (put id id u.parent)) same (record {
      root = id;
      represents = top refl (lookup-put_self id id u.parent);
      equivalent = eq.self id;
    })
    | inr differ ↦
        let root = Root-exists u f (record {
          next = h.next;
          found = ground (arith, h.found, lookup-put id x id u.parent);
        }) in
        record {
          root = climb (fuel u) u.parent x;
          represents = Root-fresh id unknown root;
          equivalent = s.within root;
        }
  ])

  pub add_id-IsSound :
      (id : Str) (u : UnionFind) → IsForest u → IsSound E u.parent → IsSound E (add_id id u).parent
  unfolding add_id
  add_id-IsSound id u f s = elim (Option-cases (lookup id u.parent)) [
    | inl unknown ↦ rw unknown (fresh-IsSound id u f unknown s)
    | inr known ↦ rw known.1 s
  ]

  pub find-IsSound :
      (id : Str) (u : UnionFind) → IsForest u → IsSound E u.parent → IsSound E (find id u).1.parent
  unfolding find
  find-IsSound id u f s =
      let g = add_id-IsForest id u f in
      let root = Root-exists (add_id id u) g (add_id-IsHeld id u f) in
      IsSound-of_IsSame (add_id id u) g (compress-IsSame (fuel (add_id id u)) g root).0
        (add_id-IsSound id u f s)

  pub put-IsSound :
      (rb ra : Str) (u : UnionFind)
      → IsForest u
      → Root u.parent ra ra
      → Root u.parent rb rb
      → str_eq ra rb ≡ false
      → E rb ra
      → IsSound E u.parent
      → IsSound E (put rb ra u.parent)
  put-IsSound rb ra u f qa qb d e s = IsSound-of_IsWithin (λ x h.
      let root = Root-exists u f (IsHeld-unput rb ra (Root-IsHeld qb) h) in
      record {
        root = if str_eq (climb (fuel u) u.parent x) rb then ra else climb (fuel u) u.parent x;
        represents = Root-hang qa qb d root;
        equivalent = elim (Str-cases (climb (fuel u) u.parent x) rb) [
          | inl same ↦ rw (same, str_eq_refl) (eq.chain (subst (E x) same (s.within root)) e)
          | inr differ ↦ rw differ (s.within root)
        ];
      })
