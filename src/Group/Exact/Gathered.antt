-- ===== src/Group/Exact/Gathered.antt =====
-- Which records a group holds.
use siem_v.Prelude.{
  ◌≡◌, refl, sym, ap, ◌∙◌, Bool, false, List, [], ◌∷◌, ◌++◌, map, keep, inl, inr, if◌then◌else◌,
  All, Bool-cases,
}
use mathlib.Core.List.{append-nil, append_assoc}
use siem_v.Prelude.Text.{Str, str_eq, str_eq_refl, Str-cases}
use siem_v.Prelude.Maps.{Map, lookup, lookup-put}
use siem_v.Keys.{Identifier, to_string}
use siem_v.Pipeline.{Record}
use siem_v.Group.UnionFind.{UnionFind, find, climb, fuel}
use siem_v.Group.UnionFind.Roots.{Root, Root-unique, IsHeld}
use siem_v.Group.UnionFind.Find.{IsForest, Root-exists, find-Root, find-IsForest, find-keeps}
use siem_v.Group.Exact.{Acc, acc_or_new, gather_into, gather_at, gather, gather_all}

-- The representative that `find` gives for the identifier.
unfoldable pub representative : UnionFind → Str → Str
representative u id = climb (fuel u) u.parent id

-- The test whether the root represents the record's identifiers.
unfoldable pub is_mine : UnionFind → Str → List Identifier → Bool
is_mine u root [] = false
is_mine u root (id ∷ ids) = str_eq (representative u (to_string id)) root

abbrev pub IsKnown : UnionFind → List Identifier → Type 0
IsKnown u [] = Unit
IsKnown u (id ∷ ids) = IsHeld u.parent (to_string id)

abbrev pub events_at : Str → Map Acc → List Str
events_at root m = (acc_or_new (lookup root m)).event_ids

abbrev pub event_id_of : Record → Str
event_id_of r = r.event_id

-- `u` is the structure after the links, `v` that after some more calls of `find`.
module _ (u : UnionFind) (f : IsForest u) where
  pub record IsLater (v : UnionFind) : Type 0 where
    pub forest : IsForest v
    pub keeps : {r x : Str} → Root u.parent r x → Root v.parent r x

  IsLater-find : {v : UnionFind} (id : Str) → IsLater v → IsLater (find id v).1
  IsLater-find {v} id l = record {
    forest = find-IsForest id v l.forest;
    keeps = λ q. find-keeps id v l.forest (l.keeps q);
  }

  find-representative :
      {v : UnionFind} (id : Str)
      → IsLater v
      → IsHeld u.parent id
      → (find id v).0 ≡ representative u id
  unfolding representative
  find-representative {v} id l h =
      Root-unique (find-Root id v l.forest) (find-keeps id v l.forest (l.keeps (Root-exists u f h)))

  gather-IsLater :
      {v : UnionFind} (r : Record) (ids : List Identifier) (m : Map Acc)
      → IsLater v
      → IsLater (gather r ids v m).0
  unfolding gather gather_at
  gather-IsLater r [] m l = l
  gather-IsLater r (id ∷ ids) m l = IsLater-find (to_string id) l

  events_at-gather :
      {v : UnionFind} (r : Record) (ids : List Identifier) (m : Map Acc) (root : Str)
      → IsLater v
      → IsKnown u ids
      → events_at root (gather r ids v m).1
        ≡ events_at root m ++ (if is_mine u root ids then r.event_id ∷ [] else [])
  unfolding gather gather_at is_mine acc_or_new gather_into
  events_at-gather r [] m root l h = sym (append-nil (events_at root m))
  events_at-gather {v} r (id ∷ ids) m root l h =
      let rep = representative u (to_string id) in
      let acc = gather_into r (acc_or_new (lookup rep m)) in
      let found : (find (to_string id) v).0 ≡ rep = find-representative (to_string id) l h in
      rw found (
        ap (λ o. (acc_or_new o).event_ids) (lookup-put rep root acc m) ∙ elim (Str-cases rep root) [
          | inl same ↦ rw (same, str_eq_refl) refl
          | inr differ ↦ rw differ (sym (append-nil (events_at root m)))
        ])

  -- The group at a representative holds the records it represents, in order.
  pub events_at-gather_all :
      (records : List Record) {v : UnionFind} (m : Map Acc) (root : Str)
      → IsLater v
      → All (λ r. IsKnown u r.identifiers) records
      → events_at root (gather_all records v m).1
        ≡ events_at root m ++ map event_id_of (keep (λ r. is_mine u root r.identifiers) records)
  unfolding gather_all
  events_at-gather_all [] m root l h = sym (append-nil (events_at root m))
  events_at-gather_all (r ∷ records) {v} m root l h =
      let next = gather r r.identifiers v m in
      let later =
        events_at-gather_all records next.1 root (gather-IsLater r r.identifiers m l) h.1 in
      let now = events_at-gather r r.identifiers m root l h.0 in
      elim (Bool-cases (is_mine u root r.identifiers)) [
        | inl mine ↦ rw (mine, later, now, mine, append_assoc (events_at root m)) refl
        | inr other ↦ rw (other, later, now, other, append-nil (events_at root m)) refl
      ]
