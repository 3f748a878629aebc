-- ===== src/Group/UnionFind/Roots.antt =====
-- Which identifier represents which, as a relation.
use siem_v.Prelude.{◌≡◌, refl, sym, ◌∙◌, subst, inl, inr, false, none, some, arith, if◌then◌else◌}
use siem_v.Prelude.Text.{Str, str_eq, str_eq_refl, str_eq→eq, Str-cases}
use siem_v.Prelude.Maps.{Map, lookup, put, lookup-put, lookup-put_self}

-- Following the parents from the identifier leads to the root.
pub data Root (p : Map Str) (root : Str) : Str → Type 0 where
  top : {id : Str} → id ≡ root → lookup id p ≡ some root → Root p root id
  up :
      {id : Str}
      → (next : Str) → lookup id p ≡ some next
      → str_eq next id ≡ false
      → Root p root next
      → Root p root id

pub Root-steady : {p : Map Str} {root id : Str} → Root p root id → lookup root p ≡ some root
Root-steady {p} {root} (top e h) = subst (λ x. lookup x p ≡ some root) e h
Root-steady (up next h d r) = Root-steady r

pub Root-self : {p : Map Str} {root id : Str} → Root p root id → Root p root root
Root-self r = top refl (Root-steady r)

pub Root-unique : {p : Map Str} {r s id : Str} → Root p r id → Root p s id → r ≡ s
Root-unique (top e h) (top f k) = sym e ∙ f
Root-unique {r} (top {id} e h) (up next k d q) = ground (arith, e, h, k, d, str_eq_refl id)
Root-unique (up {id} next k d q) (top e h) = ground (arith, e, h, k, d, str_eq_refl id)
Root-unique {p} {r} {s} (up {id} n h d q) (up m k c t) =
    let same : n ≡ m = ground arith in Root-unique (subst (Root p r) same q) t

pub str_eq_sym : (s t : Str) → str_eq s t ≡ str_eq t s
str_eq_sym s t = ground (arith, str_eq→eq s t, str_eq→eq t s, str_eq_refl s, str_eq_refl t)

-- A shortcut to the root changes no representative.
module _ {p : Map Str} {r x : Str} (q : Root p r x) (d : str_eq r x ≡ false) where
  Root-put : Root (put x r p) r x
  Root-put =
      up r (lookup-put_self x r p) d
        (top refl (lookup-put x r r p ∙ rw (str_eq_sym x r, d) (Root-steady q)))

  Root-here : {s id : Str} → x ≡ id → Root p s id → Root (put x r p) s id
  Root-here {s} {id} same t =
      let own : Root p s x = subst (Root p s) (sym same) t in
      let agree : r ≡ s = Root-unique q own in
      subst (λ i. Root (put x r p) s i) same (subst (λ z. Root (put x r p) z x) agree Root-put)

  pub Root-shortcut : {s id : Str} → Root p s id → Root (put x r p) s id
  Root-shortcut {s} (top {id} e h) = elim (Str-cases x id) [
    | inl same ↦ Root-here same (top e h)
    | inr differ ↦ top e (lookup-put x id r p ∙ rw differ h)
  ]
  Root-shortcut {s} (up {id} next h c t) =
      let later = Root-shortcut t in
      elim (Str-cases x id) [
        | inl same ↦ Root-here same (up next h c t)
        | inr differ ↦ up next (lookup-put x id r p ∙ rw differ h) c later
      ]

-- The structure knows the identifier.
pub record IsHeld (p : Map Str) (id : Str) : Type 0 where
  pub next : Str
  pub found : lookup id p ≡ some next

-- A root hung below another: its identifiers are represented by the other, all others as before.
module _ {p : Map Str} {a b : Str} (qa : Root p a a) (qb : Root p b b)
    (d : str_eq a b ≡ false) where
  Root-below : Root (put b a p) a b
  Root-below =
      up a (lookup-put_self b a p) d
        (top refl (lookup-put b a a p ∙ rw (str_eq_sym b a, d) (Root-steady qa)))

  Root-hung :
      {s id : Str} → b ≡ id → Root p s id → Root (put b a p) (if str_eq s b then a else s) id
  Root-hung {s} {id} same t =
      let own : Root p s b = subst (Root p s) (sym same) t in
      let agree : s ≡ b = Root-unique own qb in
      let joined : a ≡ (if str_eq s b then a else s) = ground (arith, agree, str_eq_refl b) in
      subst (λ z. Root (put b a p) z id) joined (subst (Root (put b a p) a) same Root-below)

  pub Root-hang : {s id : Str} → Root p s id → Root (put b a p) (if str_eq s b then a else s) id
  Root-hang {s} (top {id} e h) = elim (Str-cases b id) [
    | inl same ↦ Root-hung same (top e h)
    | inr differ ↦
        let apart : s ≡ (if str_eq s b then a else s) =
          ground (arith, e, differ, str_eq_sym b id) in
        subst (λ z. Root (put b a p) z id) apart (top e (lookup-put b id a p ∙ rw differ h))
  ]
  Root-hang {s} (up {id} next h c t) =
      let later = Root-hang t in
      elim (Str-cases b id) [
        | inl same ↦ Root-hung same (up next h c t)
        | inr differ ↦ up next (lookup-put b id a p ∙ rw differ h) c later
      ]

-- A new identifier changes no representative.
pub Root-fresh :
    {p : Map Str} {r x : Str} (id : Str) → lookup id p ≡ none → Root p r x → Root (put id id p) r x
Root-fresh {p} {r} {x} id n (top e h) =
    top e (lookup-put id x id p ∙ ground (arith, n, h, str_eq→eq id x))
Root-fresh {p} {r} {x} id n (up next h d q) =
    up next (lookup-put id x id p ∙ ground (arith, n, h, str_eq→eq id x)) d (Root-fresh id n q)
