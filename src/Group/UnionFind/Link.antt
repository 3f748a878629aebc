-- ===== src/Group/UnionFind/Link.antt =====
-- What `link` does: the classes of two identifiers become one.
use siem_v.Prelude.{
  suc, ◌≤◌, ◌<◌, ◌≡◌, refl, sym, subst, ◌⊎◌, inl, inr, ◌&&◌, false, some, arith, if◌then◌else◌,
  ◌==◌,
}
use siem_v.Prelude.Text.{Str, str_eq, str_eq_refl, str_eq→eq, Str-cases}
use siem_v.Prelude.Maps.{lookup, put, lookup-put, lookup-put_self}
use siem_v.Group.UnionFind.{UnionFind, rank_of, hang}
use siem_v.Group.UnionFind.Roots.{Root, IsHeld, Root-steady}
use siem_v.Group.UnionFind.Find.{IsForest}
use siem_v.Group.UnionFind.Ranks.{IsHeld-put}

-- One root below another keeps the ranks growing, the rank of the upper one raised on a tie.
module _ (rb ra : Str) (u : UnionFind) (f : IsForest u) (qa : Root u.parent ra ra)
    (qb : Root u.parent rb rb) (d : str_eq ra rb ≡ false)
    (le : rank_of u.rank rb ≤ rank_of u.rank ra) where
  hang-parent : (hang rb ra u).parent ≡ put rb ra u.parent
  unfolding hang
  hang-parent = refl

  hang-rank_of :
      (x : Str)
      → rank_of (hang rb ra u).rank x ≡ (
          if str_eq ra x && (rank_of u.rank ra == rank_of u.rank rb)
          then suc (rank_of u.rank ra)
          else rank_of u.rank x)
  unfolding hang rank_of
  hang-rank_of x = ground (arith, lookup-put ra x (suc (rank_of u.rank ra)) u.rank)

  rank_hang_below : rank_of (hang rb ra u).rank rb < rank_of (hang rb ra u).rank ra
  rank_hang_below = ground (arith, hang-rank_of rb, hang-rank_of ra, d, le, str_eq_refl ra)

  rank_hang_grows :
      (x next : Str)
      → str_eq ra x ≡ false
      → rank_of u.rank x < rank_of u.rank next
      → rank_of (hang rb ra u).rank x < rank_of (hang rb ra u).rank next
  rank_hang_grows x next apart less =
      ground (arith, hang-rank_of x, hang-rank_of next, str_eq→eq ra next, apart, less)

  pub hang-IsForest : IsForest (hang rb ra u)
  hang-IsForest = record { parent = parent }
    where
      parent :
          (x next : Str)
          → lookup x (hang rb ra u).parent ≡ some next
          → IsHeld (hang rb ra u).parent next
            × ((x ≡ next) ⊎ (rank_of (hang rb ra u).rank x < rank_of (hang rb ra u).rank next))
      parent x next h = elim (Str-cases rb x) [
        | inl same ↦
            let found : lookup x (put rb ra u.parent) ≡ some next =
              subst (λ p. lookup x p ≡ some next) hang-parent h in
            let upper : ra ≡ next = ground (arith, lookup-put_self rb ra u.parent, same, found) in
            (
              subst (λ p. IsHeld p next) (sym hang-parent)
                  (subst (IsHeld (put rb ra u.parent)) upper
                    (IsHeld-put rb ra (record { next = ra; found = Root-steady qa }))),
              inr (
                  subst (λ y. rank_of (hang rb ra u).rank x < rank_of (hang rb ra u).rank y) upper
                    (subst (λ y. rank_of (hang rb ra u).rank y < rank_of (hang rb ra u).rank ra)
                      same rank_hang_below)),
            )
        | inr differ ↦
            let found : lookup x u.parent ≡ some next = ground (
              arith,
              subst (λ p. lookup x p ≡ some next) hang-parent h,
              lookup-put rb x ra u.parent,
            ) in
            let old = f.parent x next found in
            (
              subst (λ p. IsHeld p next) (sym hang-parent) (IsHeld-put rb ra old.0),
              elim old.1 [
                | inl same ↦ inl same
                | inr less ↦ elim (Str-cases ra x) [
                  | inl own ↦ inl (ground (arith, Root-steady qa, own, found))
                  | inr apart ↦ inr (rank_hang_grows x next apart less)
                ]
              ],
            )
      ]
