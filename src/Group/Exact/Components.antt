-- ===== src/Group/Exact/Components.antt =====
-- A component holds the records that shared identifiers connect, and no other.
use siem_v.Prelude.{
  ◌≡◌, refl, sym, ap, subst, ◌∙◌, ◌↔◌, Bool, true, none, some, List, [], ◌∷◌, map, keep, Memᴰ, inl,
  inr, All, All-perm, All-map, All-of_Mem, arith, Option-cases,
}
use siem_v.Prelude.Text.{Str, str_lt, str_eq_refl, str_eq→eq, Str-cases}
use siem_v.Prelude.Maps.{Map, lookup, put, lookup-put, values}
use siem_v.Prelude.Sort.{sort, sort-permᴰ}
use siem_v.Keys.{Identifier, canonical}
use siem_v.Pipeline.{Record, parse_all}
use siem_v.Group.{Component, component_less}
use siem_v.Group.UnionFind.{UnionFind, new_union_find}
use siem_v.Group.Exact.{
  Acc, acc_or_new, gather_at, gather, gather_all, component_of, component_if, components_of,
  exact_components,
}
use siem_v.Group.Exact.Connected.{Connected, run-record_calls}
use siem_v.Group.Exact.Mine.{u, f, first-IsHeld, is_mine-connects}
use siem_v.Group.Exact.Gathered.{is_mine, IsKnown, events_at, event_id_of, events_at-gather_all}

-- No key stands in the map twice.
abbrev IsDistinct : Map Acc → Type 0
IsDistinct [] = Unit
IsDistinct ((k, a) ∷ m) = (lookup k m ≡ none) × IsDistinct m

put-IsDistinct : (k : Str) (a : Acc) (m : Map Acc) → IsDistinct m → IsDistinct (put k a m)
unfolding put lookup
put-IsDistinct k a [] h = (refl, tt)
put-IsDistinct k a ((j, b) ∷ m) h =
    let rest = put-IsDistinct k a m h.1 in
    elim (Str-cases j k) [
      | inl same ↦ rw (same, str_eq_refl) (ap (λ i. lookup i m) (sym same) ∙ h.0, h.1)
      | inr differ ↦
          rw differ
            (ground (arith, lookup-put k j a m, h.0, str_eq→eq k j, differ, str_eq_refl j), rest)
    ]

gather-IsDistinct :
    (r : Record) (ids : List Identifier) (u : UnionFind) (m : Map Acc)
    → IsDistinct m
    → IsDistinct (gather r ids u m).1
unfolding gather gather_at
gather-IsDistinct r [] u m h = h
gather-IsDistinct r (id ∷ ids) u m h = put-IsDistinct _ _ m h

gather_all-IsDistinct :
    (records : List Record) (u : UnionFind) (m : Map Acc)
    → IsDistinct m
    → IsDistinct (gather_all records u m).1
unfolding gather_all
gather_all-IsDistinct [] u m h = h
gather_all-IsDistinct (r ∷ records) u m h =
    gather_all-IsDistinct records _ _ (gather-IsDistinct r r.identifiers u m h)

pub record IsEntry (m : Map Acc) (a : Acc) : Type 0 where
  pub root : Str
  pub found : lookup root m ≡ some a

values-IsEntry : (m : Map Acc) → IsDistinct m → All (IsEntry m) (values m)
unfolding values lookup
values-IsEntry [] h = tt
values-IsEntry ((k, a) ∷ m) h = (
  record { root = k; found = rw str_eq_refl refl },
  All-map (IsEntry m) (IsEntry ((k, a) ∷ m)) (values m)
      (λ b e. record { root = e.root; found = ground (arith, e.found, h.0, str_eq→eq k e.root) })
      (values-IsEntry m h.1),
)

components_of-All :
    (P : Component → Type 0) (Q : Acc → Type 0)
    → ((a : Acc) (value : Str) → Q a → P (component_of a value))
    → (accs : List Acc) → All Q accs
    → All P (components_of accs)
unfolding components_of component_if
components_of-All P Q f [] h = tt
components_of-All P Q f (a ∷ accs) h =
    let rest = components_of-All P Q f accs h.1 in
    elim (Option-cases (canonical (parse_all a.ids))) [
      | inl missing ↦ rw missing rest
      | inr value ↦ rw value.1 (f a value.0 h.0, rest)
    ]

-- What is claimed of a component: which test its records pass, and that the test is a connection.
pub record IsJoin (records : List Record) (c : Component) : Type 0 where
  pub mine : Record → Bool
  pub events : c.event_ids ≡ sort str_lt (map event_id_of (keep mine records))
  pub connects :
      (r s : Record)
      → Memᴰ r records
      → Memᴰ s records
      → mine r ≡ true
      → (mine s ≡ true) ↔ Connected records r s

module _ (records : List Record) where
  abbrev pub groups : Map Acc
  groups = (gather_all records (u records) []).1

  pub groups-events :
      (root : Str)
      → events_at root groups
        ≡ map event_id_of (keep (λ r. is_mine (u records) root r.identifiers) records)
  unfolding acc_or_new lookup
  groups-events root =
      events_at-gather_all (u records) (f records) records {v = u records} [] root
        (record { forest = f records; keeps = λ q. q })
        (All-of_Mem (λ r. IsKnown (u records) r.identifiers) records (first-IsHeld records))

  component_of-IsJoin :
      (a : Acc) (value : Str) → IsEntry groups a → IsJoin records (component_of a value)
  unfolding component_of acc_or_new
  component_of-IsJoin a value e = record {
    mine = λ r. is_mine (u records) e.root r.identifiers;
    events =
        ap (sort str_lt) (ap (λ o. (acc_or_new o).event_ids) (sym e.found) ∙ groups-events e.root);
    connects = λ r s a b h. is_mine-connects records e.root r s a b h;
  }

-- Each component that `Exact` returns holds the ids, in order, of the records that pass one test,
-- and a record passes it together with another exactly if a chain of records, each sharing an
-- identifier with the next, connects the two.
pub exact_components-IsJoin :
    (records : List Record) → All (IsJoin records) (exact_components records)
unfolding exact_components
exact_components-IsJoin records =
    let m = groups records in
    let distinct = gather_all-IsDistinct records (u records) [] tt in
    let all =
      components_of-All (IsJoin records) (IsEntry m) (component_of-IsJoin records) (values m)
        (values-IsEntry m distinct) in
    subst
      (λ v.
        All (IsJoin records)
          (sort component_less (components_of (values (gather_all records v []).1))))
      (run-record_calls records new_union_find)
      (All-perm (IsJoin records) (sort-permᴰ component_less (components_of (values m))) all)
