-- ===== src/Group/Exact/Mine.antt =====
-- The records that a representative stands for, after the links of `Exact`.
use siem_v.Prelude.{◌≡◌, refl, subst, ◌↔◌, true, List, [], ◌∷◌, map, Memᴰ, inl, inr}
use siem_v.Prelude.Text.{Str, str_eq_refl, str_eq→eq}
use siem_v.Keys.{Identifier, to_string}
use siem_v.Pipeline.{Record}
use siem_v.Group.UnionFind.{UnionFind, Call, add_call}
use siem_v.Group.UnionFind.Roots.{Root, Root-unique}
use siem_v.Group.UnionFind.Find.{IsForest, Root-exists}
use siem_v.Group.UnionFind.Sound.{Root-IsHeld}
use siem_v.Group.UnionFind.Run.{
  Linked, back, chain, after, after-IsForest, after-IsSound, Linked-IsJoined, added,
}
use siem_v.Group.Exact.Connected.{
  Connected, texts, first_of, record_calls, record_calls-mem, Connected-Linked, Connected-carries,
  identifier_calls,
}
use siem_v.Group.Exact.Gathered.{representative, is_mine, IsKnown}

module _ (records : List Record) where
  abbrev pub u : UnionFind
  u = after (record_calls records)

  pub f : IsForest u
  f = after-IsForest (record_calls records)

  pub first-IsHeld : (r : Record) → Memᴰ r records → IsKnown u r.identifiers
  first-IsHeld r m = go r.identifiers (λ c h. record_calls-mem records m h)
    where
      go :
          (ids : List Identifier)
          → ((c : Call) → Memᴰ c (identifier_calls ids) → Memᴰ c (record_calls records))
          → IsKnown u ids
      go [] h = tt
      go (id ∷ ids) h =
          Root-IsHeld
            (added (record_calls records) (h (add_call (to_string id)) (Memᴰ.head refl))).left

  is_mine-Root :
      (root : Str) (r : Record)
      → Memᴰ r records
      → is_mine u root r.identifiers ≡ true
      → Root u.parent root (first_of r.identifiers) × Memᴰ (first_of r.identifiers) (texts r)
  unfolding is_mine representative
  is_mine-Root root r m h = go r.identifiers (first-IsHeld r m) h
    where
      go :
          (ids : List Identifier)
          → IsKnown u ids
          → is_mine u root ids ≡ true
          → Root u.parent root (first_of ids) × Memᴰ (first_of ids) (map to_string ids)
      go [] k h = cc
      go (id ∷ ids) k h = (
        subst (λ r. Root u.parent r (to_string id)) (str_eq→eq _ root h) (Root-exists u f k),
        Memᴰ.head refl,
      )

  Root-is_mine :
      (root : Str) (r : Record)
      → Memᴰ r records
      → Root u.parent root (first_of r.identifiers)
      → Memᴰ (first_of r.identifiers) (texts r)
      → is_mine u root r.identifiers ≡ true
  unfolding is_mine representative
  Root-is_mine root r m q c = go r.identifiers (first-IsHeld r m) q c
    where
      go :
          (ids : List Identifier)
          → IsKnown u ids
          → Root u.parent root (first_of ids)
          → Memᴰ (first_of ids) (map to_string ids)
          → is_mine u root ids ≡ true
      go [] k q c = elim c [ ]
      go (id ∷ ids) k q c = rw (Root-unique (Root-exists u f k) q) (str_eq_refl root)

  Linked-Root :
      {root x y : Str}
      → Root u.parent root x
      → Linked (record_calls records) x y
      → Root u.parent root y
  Linked-Root {root} {x} {y} q l = elim (Linked-IsJoined (record_calls records) l) [
    | inl same ↦ subst (Root u.parent root) same q
    | inr j ↦ subst (λ r. Root u.parent r y) (Root-unique j.left q) j.right
  ]

  pub is_mine-connects :
      (root : Str) (r s : Record)
      → Memᴰ r records
      → Memᴰ s records
      → is_mine u root r.identifiers ≡ true
      → (is_mine u root s.identifiers ≡ true) ↔ Connected records r s
  is_mine-connects root r s a b h =
      let one = is_mine-Root root r a h in
      let sound = after-IsSound (record_calls records) in
      (
        λ k.
            let two = is_mine-Root root s b k in
            (Connected-Linked records a b one.1 two.1).0
              (chain (sound.within one.0) (back (sound.within two.0))),
        λ c.
            let carried = (Connected-carries c).1 in
            Root-is_mine root s b
              (Linked-Root one.0 ((Connected-Linked records a b one.1 carried).1 c)) carried,
      )
