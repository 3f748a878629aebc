-- ===== src/Group/Exact/Covers.antt =====
-- `Exact` leaves no record with an identifier out.
use mathlib.Core.List.Memᴰ
use siem_v.Prelude.{
  ◌≡◌, refl, sym, subst, true, some, List, [], ◌∷◌, map, Memᴰ, inl, inr, Mem-perm, Mem-keep, arith,
  Bool-cases, Option-cases,
}
use siem_v.Prelude.Text.{Str, str_eq, str_lt, str_eq_refl}
use siem_v.Prelude.Maps.{Map, AllValues, AllValues-put, AllValues-lookup, lookup, values}
use siem_v.Prelude.Sort.{sort, sort-permᴰ, insert}
use siem_v.Keys.{Identifier, to_string, canonical}
use siem_v.Pipeline.{Record, parse_all, set_add, member}
use siem_v.Group.{Component, component_less}
use siem_v.Group.UnionFind.{UnionFind, new_union_find, find}
use siem_v.Group.Exact.{
  Acc, acc_or_new, gather_at, gather, gather_all, component_of, component_if, components_of,
  exact_components, gather_into, add_ids,
}
use siem_v.Group.Exact.Connected.{run-record_calls}
use siem_v.Group.Exact.Mine.{u}
use siem_v.Group.Exact.Gathered.{representative, is_mine, events_at, event_id_of}
use siem_v.Keys.{smallest, parse_identifier}
use siem_v.Group.Exact.Components.{groups, groups-events}

abbrev pub IsFilled {ℓ} : {A : Type ℓ} → List A → Type 0
IsFilled [] = ⊥
IsFilled (x ∷ xs) = Unit

set_add-IsFilled : (s : Str) (set : List Str) → IsFilled (set_add s set)
unfolding set_add member
set_add-IsFilled s [] = tt
set_add-IsFilled s (x ∷ xs) = elim (Bool-cases (member s (x ∷ xs))) [
  | inl known ↦ rw known tt
  | inr unknown ↦ rw unknown tt
]

add_ids-IsFilled :
    (ids : List Identifier) (set : List Str) → IsFilled set → IsFilled (add_ids ids set)
unfolding add_ids
add_ids-IsFilled [] set h = h
add_ids-IsFilled (id ∷ ids) set h =
    add_ids-IsFilled ids (set_add (to_string id) set) (set_add-IsFilled (to_string id) set)

add_ids-cons :
    (id : Identifier) (ids : List Identifier) (set : List Str) → IsFilled (add_ids (id ∷ ids) set)
unfolding add_ids
add_ids-cons id ids set =
    add_ids-IsFilled ids (set_add (to_string id) set) (set_add-IsFilled (to_string id) set)

-- Every group has an identifier, so that it has a canonical key.
abbrev HasId : Acc → Type 0
HasId a = IsFilled a.ids

gather-HasId :
    (r : Record) (ids : List Identifier) (u : UnionFind) (m : Map Acc)
    → r.identifiers ≡ ids
    → AllValues HasId m
    → AllValues HasId (gather r ids u m).1
unfolding gather gather_at gather_into
gather-HasId r [] u m e h = h
gather-HasId r (id ∷ ids) u m e h =
    AllValues-put HasId _ _ m
      (subst (λ l. IsFilled (add_ids l ((acc_or_new (lookup (find (to_string id) u).0 m)).ids)))
        (sym e) (add_ids-cons id ids _))
      h

gather_all-HasId :
    (records : List Record) (u : UnionFind) (m : Map Acc)
    → AllValues HasId m
    → AllValues HasId (gather_all records u m).1
unfolding gather_all
gather_all-HasId [] u m h = h
gather_all-HasId (r ∷ records) u m h =
    gather_all-HasId records _ _ (gather-HasId r r.identifiers u m refl h)

insert-first : (s : Str) (l : List Str) → (k : Str) × (smallest (insert str_lt s l) ≡ some k)
unfolding insert smallest
insert-first s [] = (s, refl)
insert-first s (x ∷ xs) = elim (Bool-cases (str_lt x s)) [
  | inl less ↦ rw less (x, refl)
  | inr more ↦ rw more (s, refl)
]

canonical-HasId : (ids : List Str) → IsFilled ids → (k : Str) × (canonical (parse_all ids) ≡ some k)
unfolding canonical sort parse_all
canonical-HasId [] h = absurd h
canonical-HasId (s ∷ ids) h =
    insert-first (to_string (parse_identifier s)) (sort str_lt (map to_string (parse_all ids)))

values-mem : (m : Map Acc) (k : Str) (a : Acc) → lookup k m ≡ some a → Memᴰ a (values m)
unfolding values lookup
values-mem [] k a h = cc
values-mem ((j, b) ∷ m) k a h = elim (Bool-cases (str_eq j k)) [
  | inl same ↦ Memᴰ.head (ground arith)
  | inr differ ↦ Memᴰ.tail (values-mem m k a (ground arith))
]

components_of-mem :
    (accs : List Acc) (a : Acc) (value : Str)
    → canonical (parse_all a.ids) ≡ some value
    → Memᴰ a accs
    → Memᴰ (component_of a value) (components_of accs)
unfolding components_of component_if
components_of-mem [] a value h m = elim m [ ]
components_of-mem (b ∷ accs) a value h (Memᴰ.head e) = rw (← e, h) (Memᴰ.head refl)
components_of-mem (b ∷ accs) a value h (Memᴰ.tail m) =
    let rest = components_of-mem accs a value h m in
    elim (Option-cases (canonical (parse_all b.ids))) [
      | inl missing ↦ rw missing rest
      | inr found ↦ rw found.1 (Memᴰ.tail rest)
    ]

-- A component of the list holds the id.
pub record IsCovered (event_id : Str) (components : List Component) : Type 0 where
  pub component : Component
  pub among : Memᴰ component components
  pub holds : Memᴰ event_id component.event_ids

own_root :
    (v : UnionFind) (ids : List Identifier)
    → IsFilled ids
    → (root : Str) × (is_mine v root ids ≡ true)
unfolding is_mine
own_root v [] h = absurd h
own_root v (id ∷ ids) h =
    (representative v (to_string id), str_eq_refl (representative v (to_string id)))

module _ (records : List Record) (r : Record) (m : Memᴰ r records) where
  in_group :
      (root : Str)
      → is_mine (u records) root r.identifiers ≡ true
      → Memᴰ r.event_id (events_at root (groups records))
  in_group root h =
      subst (Memᴰ r.event_id) (sym (groups-events records root))
        (Memᴰ.map event_id_of (Mem-keep (λ s. is_mine (u records) root s.identifiers) records h m))

  group_of :
      (root : Str)
      → is_mine (u records) root r.identifiers ≡ true
      → (a : Acc) × (lookup root (groups records) ≡ some a) × Memᴰ r.event_id a.event_ids
  unfolding acc_or_new
  group_of root h = elim (Option-cases (lookup root (groups records))) [
    | inl missing ↦
        absurd (
          elim (subst (λ o. Memᴰ r.event_id (acc_or_new o).event_ids) missing
            (in_group root h)) [ ])
    | inr found ↦ (
      found.0,
      found.1,
      subst (λ o. Memᴰ r.event_id (acc_or_new o).event_ids) found.1 (in_group root h),
    )
  ]

  covered :
      (root : Str)
      → is_mine (u records) root r.identifiers ≡ true
      → IsCovered r.event_id (exact_components records)
  unfolding exact_components component_of
  covered root h =
      let (a, found, held) = group_of root h in
      let filled = gather_all-HasId records (u records) [] tt in
      let (value, named) =
        canonical-HasId a.ids (AllValues-lookup HasId root (groups records) a filled found) in
      let c = component_of a value in
      let among =
        components_of-mem (values (groups records)) a value named
          (values-mem (groups records) root a found) in
      subst
        (λ v.
          IsCovered r.event_id
            (sort component_less (components_of (values (gather_all records v []).1))))
        (run-record_calls records new_union_find)
        (record {
          component = c;
          among =
              Mem-perm (sort-permᴰ component_less (components_of (values (groups records)))) among;
          holds = Mem-perm (sort-permᴰ str_lt a.event_ids) held;
        })

  -- Every record that carries an identifier stands in a component that `Exact` returns.
  pub exact_components-IsCovered :
      IsFilled r.identifiers → IsCovered r.event_id (exact_components records)
  exact_components-IsCovered h =
      let own = own_root (u records) r.identifiers h in covered own.0 own.1
