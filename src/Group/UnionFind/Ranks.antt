-- ===== src/Group/UnionFind/Ranks.antt =====
-- Ranks grow towards the root, so the loops of `find` end within the fuel and keep all roots.
use siem_v.Prelude.{
  ℕ, zero, suc, ◌+◌, ◌≤◌, ◌<◌, ◌≡◌, refl, ap, ◌∙◌, subst, ◌⊎◌, inl, inr, false, some, Bool-cases,
  arith,
}
use siem_v.Prelude.Text.{Str, str_eq, str_eq_refl, str_eq→eq, Str-cases}
use siem_v.Prelude.Maps.{Map, lookup, put, lookup-put, lookup-put_self}
use siem_v.Group.UnionFind.{parent_of, rank_of, climb, compress}
use siem_v.Group.UnionFind.Roots.{Root, top, up, IsHeld, Root-steady, Root-shortcut}

-- Every parent is an identifier of the structure, and above its child in rank.
pub record IsRanked (p : Map Str) (ranks : Map ℕ) : Type 0 where
  pub parent :
      (id next : Str)
      → lookup id p ≡ some next
      → IsHeld p next × ((id ≡ next) ⊎ (rank_of ranks id < rank_of ranks next))

parent_of-lookup : (p : Map Str) (id next : Str) → lookup id p ≡ some next → parent_of p id ≡ next
unfolding parent_of
parent_of-lookup p id next h = rw h refl

rank_grows :
    {p : Map Str} {ranks : Map ℕ} (id : Str) {next : Str}
    → IsRanked p ranks
    → lookup id p ≡ some next
    → str_eq next id ≡ false
    → rank_of ranks id < rank_of ranks next
rank_grows {p} {ranks} id {next} f h d = elim (f.parent id next h).1 [
  | inl same ↦ ground (arith, same, d, str_eq_refl id)
  | inr less ↦ less
]

-- The first loop ends at the root.
pub climb-Root :
    (fuel : ℕ) (p : Map Str) (ranks : Map ℕ) (bound : ℕ) (id next : Str)
    → IsRanked p ranks
    → ((x : Str) → rank_of ranks x ≤ bound)
    → bound < fuel + rank_of ranks id
    → lookup id p ≡ some next
    → Root p (climb fuel p id) id
unfolding climb
climb-Root zero p ranks bound id next f b m h = let all = b id in absurd (ground arith)
climb-Root (suc fuel) p ranks bound id next f b m h =
    let parent = parent_of-lookup p id next h in
    let held = (f.parent id next h).0 in
    elim (Str-cases next id) [
      | inl same ↦ rw (parent, same, str_eq_refl) (top refl (h ∙ ap some same))
      | inr differ ↦
          let grows = rank_grows id f h differ in
          rw (parent, differ)
            (up next h differ
              (climb-Root fuel p ranks bound next held.next f b (ground arith) held.found))
    ]

pub Root-rank :
    {p : Map Str} {ranks : Map ℕ} {r id : Str}
    → IsRanked p ranks
    → Root p r id
    → (id ≡ r) ⊎ (rank_of ranks id < rank_of ranks r)
Root-rank f (top e h) = inl e
Root-rank {p} {ranks} {r} f (up {id} next h d q) =
    let grows = rank_grows id f h d in
    inr (elim (Root-rank f q) [
      | inl same ↦ subst (λ x. rank_of ranks id < rank_of ranks x) same grows
      | inr less ↦ omega arith
    ])

pub IsHeld-put : {p : Map Str} (k v : Str) {id : Str} → IsHeld p id → IsHeld (put k v p) id
IsHeld-put {p} k v {id} h = elim (Bool-cases (str_eq k id)) [
  | inl same ↦ record { next = v; found = lookup-put k id v p ∙ rw same refl }
  | inr differ ↦ record { next = h.next; found = lookup-put k id v p ∙ rw differ h.found }
]

pub IsHeld-unput :
    {p : Map Str} (k v : Str) {id : Str} → IsHeld p k → IsHeld (put k v p) id → IsHeld p id
IsHeld-unput {p} k v {id} known h = elim (Str-cases k id) [
  | inl same ↦ subst (IsHeld p) same known
  | inr differ ↦ record { next = h.next; found = ground (arith, h.found, lookup-put k id v p) }
]

-- An identifier of the structure gets another parent, above it.
pub put-IsRanked :
    {p : Map Str} {ranks : Map ℕ} (k : Str) {v : Str}
    → IsRanked p ranks
    → IsHeld p v
    → rank_of ranks k < rank_of ranks v
    → IsRanked (put k v p) ranks
put-IsRanked {p} {ranks} k {v} f held less = record { parent = parent }
  where
    parent :
        (id next : Str)
        → lookup id (put k v p) ≡ some next
        → IsHeld (put k v p) next × ((id ≡ next) ⊎ (rank_of ranks id < rank_of ranks next))
    parent id next h = elim (Str-cases k id) [
      | inl same ↦
          let parent : v ≡ next = ground (arith, lookup-put_self k v p, same, h) in
          (
            subst (IsHeld (put k v p)) parent (IsHeld-put k v held),
            inr (
                subst (λ x. rank_of ranks x < rank_of ranks next) same
                  (subst (λ x. rank_of ranks k < rank_of ranks x) parent less)),
          )
      | inr differ ↦
          let old = f.parent id next (ground (arith, lookup-put k id v p)) in
          (IsHeld-put k v old.0, old.1)
    ]

-- The same identifiers, with the same representatives.
pub record IsSame (p q : Map Str) : Type 0 where
  pub roots : {r id : Str} → Root p r id → Root q r id
  pub held : {id : Str} → IsHeld q id → IsHeld p id

pub IsSame-refl : {p : Map Str} → IsSame p p
IsSame-refl = record { roots = λ t. t; held = λ h. h }

pub IsSame-trans : {p q r : Map Str} → IsSame p q → IsSame q r → IsSame p r
IsSame-trans s t = record { roots = λ x. t.roots (s.roots x); held = λ x. s.held (t.held x) }

module _ {p : Map Str} {ranks : Map ℕ} (f : IsRanked p ranks) {root : Str} (id : Str) {next : Str}
    (h : lookup id p ≡ some next) (c : str_eq next id ≡ false) (q : Root p root next) where
  rank_below_root : rank_of ranks id < rank_of ranks root
  rank_below_root =
      let grows = rank_grows id f h c in
      elim (Root-rank f q) [
        | inl same ↦ subst (λ x. rank_of ranks id < rank_of ranks x) same grows
        | inr less ↦ omega arith
      ]

  differs : str_eq root id ≡ false
  differs =
      let steady = Root-steady q in ground (arith, steady, h, c, str_eq→eq root id, str_eq_refl id)

  shortcut-IsRanked : IsRanked (put id root p) ranks
  shortcut-IsRanked =
      put-IsRanked id f (record { next = root; found = Root-steady q }) rank_below_root

  shortcut-IsSame : IsSame p (put id root p)
  shortcut-IsSame = record {
    roots = Root-shortcut (up next h c q) differs;
    held = IsHeld-unput id root (record { next = next; found = h });
  }

-- The second loop changes no representative.
pub compress-IsSame :
    (fuel : ℕ) {p : Map Str} {ranks : Map ℕ} {root id : Str}
    → IsRanked p ranks
    → Root p root id
    → IsSame p (compress fuel root id p) × IsRanked (compress fuel root id p) ranks
unfolding compress
compress-IsSame zero f q = (IsSame-refl, f)
compress-IsSame (suc fuel) {p} {ranks} {root} f (top {id} e h) =
    rw (parent_of-lookup p id root h, str_eq_refl) (IsSame-refl, f)
compress-IsSame (suc fuel) {p} {ranks} {root} f (up {id} next h c q) =
    let later =
      compress-IsSame fuel (shortcut-IsRanked f id h c q) ((shortcut-IsSame f id h c q).roots q) in
    rw (parent_of-lookup p id next h) (elim (Bool-cases (str_eq next root)) [
      | inl same ↦ rw same (IsSame-refl, f)
      | inr differ ↦ rw differ (IsSame-trans (shortcut-IsSame f id h c q) later.0, later.1)
    ])

-- It ends within the fuel: more of it makes no difference.
pub compress-fuel :
    (fuel more : ℕ) (p : Map Str) (ranks : Map ℕ) (bound : ℕ) (root id : Str)
    → IsRanked p ranks
    → ((x : Str) → rank_of ranks x ≤ bound)
    → bound < fuel + rank_of ranks id
    → Root p root id
    → compress (fuel + more) root id p ≡ compress fuel root id p
unfolding compress
compress-fuel zero more p ranks bound root id f b m q = let all = b id in absurd (ground arith)
compress-fuel (suc fuel) more p ranks bound root id f b m (top e h) =
    let step : suc fuel + more ≡ suc (fuel + more) = omega arith in
    rw (step, parent_of-lookup p id root h, str_eq_refl) refl
compress-fuel (suc fuel) more p ranks bound root id f b m (up next h c q) =
    let grows = rank_grows id f h c in
    let later =
      compress-fuel fuel more (put id root p) ranks bound root next (shortcut-IsRanked f id h c q) b
        (ground arith) ((shortcut-IsSame f id h c q).roots q) in
    let step : suc fuel + more ≡ suc (fuel + more) = omega arith in
    rw (step, parent_of-lookup p id next h, later) refl
