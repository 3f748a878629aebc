-- ===== src/Prelude/Maps.antt =====
-- Go maps with string keys, as association lists. The order of the entries stands for the order in
-- which a `range` visits them, which Go leaves open.
use mathlib.Core.Path.{◌≡◌, refl, subst}
use mathlib.Core.Logic.{inl, inr}
use mathlib.Core.Option.{Option, none, some}
use mathlib.Core.List.{List, [], ◌∷◌}
use native.Mathlib.Omega.{arith}
use siem_v.Prelude.Tests.{if◌then◌else◌, Bool-cases}
use siem_v.Prelude.Text.{Str, str_eq, str_eq_refl, str_eq→eq}

abbrev pub Map {ℓ} : Type ℓ → Type ℓ
Map V = List (Str × V)

module _ {ℓ} {V : Type ℓ} where
  -- m[k], with the second result of Go's two-value form as the option.
  unfoldable pub lookup : Str → Map V → Option V
  lookup k [] = none
  lookup k ((j, v) ∷ m) = if str_eq j k then some v else lookup k m

  -- m[k] = v
  unfoldable pub put : Str → V → Map V → Map V
  put k v [] = (k, v) ∷ []
  put k v ((j, w) ∷ m) = if str_eq j k then (k, v) ∷ m else (j, w) ∷ put k v m

  -- delete(m, k)
  unfoldable pub delete : Str → Map V → Map V
  delete k [] = []
  delete k ((j, w) ∷ m) = let rest = delete k m in if str_eq j k then rest else (j, w) ∷ rest

  pub lookup-put :
      (k j : Str) (v : V) (m : Map V)
      → lookup j (put k v m) ≡ (if str_eq k j then some v else lookup j m)
  unfolding lookup put
  lookup-put k j v [] = refl
  lookup-put k j v ((i, w) ∷ m) = ground (
    arith,
    lookup-put k j v m,
    str_eq→eq i k,
    str_eq→eq i j,
    str_eq→eq k j,
    str_eq_refl k,
    str_eq_refl j,
  )

  pub lookup-delete :
      (k j : Str) (m : Map V) → lookup j (delete k m) ≡ (if str_eq k j then none else lookup j m)
  unfolding lookup delete
  lookup-delete k j [] = ground arith
  lookup-delete k j ((i, w) ∷ m) = ground (
    arith,
    lookup-delete k j m,
    str_eq→eq i k,
    str_eq→eq i j,
    str_eq→eq k j,
    str_eq_refl k,
    str_eq_refl j,
  )

  -- What a `range` over the map visits.
  unfoldable pub values : Map V → List V
  values [] = []
  values ((k, v) ∷ m) = v ∷ values m

  pub lookup-delete_self : (k : Str) (m : Map V) → lookup k (delete k m) ≡ none
  lookup-delete_self k m = rw (lookup-delete, str_eq_refl)

  pub lookup-put_self : (k : Str) (v : V) (m : Map V) → lookup k (put k v m) ≡ some v
  lookup-put_self k v m = rw (lookup-put, str_eq_refl)

-- A property of every value of a map.
module _ {ℓ κ} {V : Type ℓ} (P : V → Type κ) where
  abbrev pub AllValues : Map V → Type κ
  AllValues [] = Unit
  AllValues ((k, v) ∷ m) = P v × AllValues m

  pub AllValues-put : (k : Str) (v : V) (m : Map V) → P v → AllValues m → AllValues (put k v m)
  unfolding put
  AllValues-put k v [] p h = (p, tt)
  AllValues-put k v ((j, w) ∷ m) p h =
      let rest = AllValues-put k v m p h.1 in
      elim (Bool-cases (str_eq j k)) [
        | inl same ↦ rw same (p, h.1)
        | inr differ ↦ rw differ (h.0, rest)
      ]

  pub AllValues-delete : (k : Str) (m : Map V) → AllValues m → AllValues (delete k m)
  unfolding delete
  AllValues-delete k [] h = tt
  AllValues-delete k ((j, w) ∷ m) h =
      let rest = AllValues-delete k m h.1 in
      elim (Bool-cases (str_eq j k)) [
        | inl same ↦ rw same rest
        | inr differ ↦ rw differ (h.0, rest)
      ]

  pub AllValues-lookup : (k : Str) (m : Map V) (v : V) → AllValues m → lookup k m ≡ some v → P v
  unfolding lookup
  AllValues-lookup k [] v h e = cc
  AllValues-lookup k ((j, w) ∷ m) v h e = elim (Bool-cases (str_eq j k)) [
    | inl same ↦ let found : w ≡ v = ground arith in subst P found h.0
    | inr differ ↦ AllValues-lookup k m v h.1 (ground arith)
  ]
