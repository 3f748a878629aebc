-- ===== src/Group/UnionFind/Partition.antt =====
-- The structure implements the finest equivalence that contains the links.
use siem_v.Prelude.{
  ◌≤◌, ◌≡◌, refl, sym, ap, ◌∙◌, subst, inl, inr, false, Bool-cases, arith, if◌then◌else◌, ltb,
}
use siem_v.Prelude.Text.{Str, str_eq, str_eq_refl, Str-cases}
use siem_v.Prelude.Maps.{Map, put}
use siem_v.Group.UnionFind.{UnionFind, rank_of, find, hang, link_roots, link}
use siem_v.Group.UnionFind.Roots.{str_eq_sym, Root, Root-self, Root-hang}
use siem_v.Group.UnionFind.Find.{IsForest, find-Root, find-IsForest, find-keeps}
use siem_v.Group.UnionFind.Link.{hang-IsForest}
use siem_v.Group.UnionFind.Sound.{IsEquivalence, IsSound, find-IsSound, put-IsSound}

-- Two identifiers with one representative.
pub record IsJoined (p : Map Str) (x y : Str) : Type 0 where
  pub root : Str
  pub left : Root p root x
  pub right : Root p root y

hang-IsJoined :
    {p : Map Str} {a b x y : Str}
    → Root p a a
    → Root p b b
    → str_eq a b ≡ false
    → IsJoined p x y
    → IsJoined (put b a p) x y
hang-IsJoined {p} {a} {b} qa qb d j = record {
  root = if str_eq j.root b then a else j.root;
  left = Root-hang qa qb d j.left;
  right = Root-hang qa qb d j.right;
}

link_roots-cases {κ} :
    (P : UnionFind → Type κ) (ra rb : Str) (u : UnionFind)
    → (ra ≡ rb → P u)
    → (str_eq ra rb ≡ false → rank_of u.rank rb ≤ rank_of u.rank ra → P (hang rb ra u))
    → (str_eq rb ra ≡ false → rank_of u.rank ra ≤ rank_of u.rank rb → P (hang ra rb u))
    → P (link_roots ra rb u)
unfolding link_roots
link_roots-cases P ra rb u alike below above = elim (Str-cases ra rb) [
  | inl same ↦ rw (ap (str_eq ra) (sym same) ∙ str_eq_refl ra) (alike same)
  | inr differ ↦ elim (Bool-cases (ltb (rank_of u.rank ra) (rank_of u.rank rb))) [
    | inl less ↦
        rw (differ, less) (above (ground (arith, str_eq_sym ra rb, differ)) (ground (arith, less)))
    | inr more ↦ rw (differ, more) (below differ (ground (arith, more)))
  ]
]

-- What a link makes of a structure `u`.
pub record IsLink {ℓ} (E : Str → Str → Type ℓ) (x y : Str) (u v : UnionFind) : Type ℓ where
  pub forest : IsForest v
  pub joins : IsJoined v.parent x y
  pub keeps : {s t : Str} → IsJoined u.parent s t → IsJoined v.parent s t
  pub sound : IsSound E u.parent → IsSound E v.parent

module _ {ℓ} (E : Str → Str → Type ℓ) (eq : IsEquivalence E) where
  hang-IsLink :
      (ra rb x y : Str) (u : UnionFind)
      → IsForest u
      → Root u.parent ra x
      → Root u.parent rb y
      → E x y
      → str_eq ra rb ≡ false
      → rank_of u.rank rb ≤ rank_of u.rank ra
      → IsLink E x y u (hang rb ra u)
  unfolding hang
  hang-IsLink ra rb x y u f qx qy e d le =
      let qa = Root-self qx in
      let qb = Root-self qy in
      record {
        forest = hang-IsForest rb ra u f qa qb d le;
        joins = record {
          root = ra;
          left = subst (λ z. Root (put rb ra u.parent) z x) (rw d refl) (Root-hang qa qb d qx);
          right =
              subst (λ z. Root (put rb ra u.parent) z y) (rw str_eq_refl refl)
                (Root-hang qa qb d qy);
        };
        keeps = hang-IsJoined qa qb d;
        sound = λ s.
            put-IsSound E eq rb ra u f qa qb d
              (eq.chain (eq.back (s.within qy)) (eq.chain (eq.back e) (s.within qx))) s;
      }

  link_roots-IsLink :
      (ra rb x y : Str) (u : UnionFind)
      → IsForest u
      → Root u.parent ra x
      → Root u.parent rb y
      → E x y
      → IsLink E x y u (link_roots ra rb u)
  link_roots-IsLink ra rb x y u f qx qy e =
      link_roots-cases (IsLink E x y u) ra rb u
        (λ same. record {
          forest = f;
          joins = record {
            root = ra;
            left = qx;
            right = subst (λ z. Root u.parent z y) (sym same) qy;
          };
          keeps = λ j. j;
          sound = λ s. s;
        })
        (λ d le. hang-IsLink ra rb x y u f qx qy e d le)
        (λ d le.
          let turned = hang-IsLink rb ra y x u f qy qx (eq.back e) d le in
          record {
            forest = turned.forest;
            joins = record {
              root = turned.joins.root;
              left = turned.joins.right;
              right = turned.joins.left;
            };
            keeps = turned.keeps;
            sound = turned.sound;
          })

  pub find-IsJoined :
      (id : Str) (u : UnionFind)
      → IsForest u
      → {s t : Str} → IsJoined u.parent s t
      → IsJoined (find id u).1.parent s t
  find-IsJoined id u f j = record {
    root = j.root;
    left = find-keeps id u f j.left;
    right = find-keeps id u f j.right;
  }

  pub link-IsLink : (a b : Str) (u : UnionFind) → IsForest u → E a b → IsLink E a b u (link a b u)
  unfolding link
  link-IsLink a b u f e =
      let fa = find a u in
      let ga = find-IsForest a u f in
      let fb = find b fa.1 in
      let gb = find-IsForest b fa.1 ga in
      let l =
        link_roots-IsLink fa.0 fb.0 a b fb.1 gb (find-keeps b fa.1 ga (find-Root a u f))
          (find-Root b fa.1 ga) e in
      record {
        forest = l.forest;
        joins = l.joins;
        keeps = λ j. l.keeps (find-IsJoined b fa.1 ga (find-IsJoined a u f j));
        sound = λ s. l.sound (find-IsSound E eq b fa.1 ga (find-IsSound E eq a u f s));
      }
