-- ===== src/Keys/Canonical.antt =====
-- The canonical key of a set of identifiers is its smallest member, in whatever order they come.
use mathlib.Core.List.Permᴰ
use mathlib.Core.List.Perm
use mathlib.Core.List.{Mem, mem-cons_self}
use siem_v.Prelude.{◌≡◌, ap, false, some, List, [], ◌∷◌, map, All, All-perm, Permᴰ, arith}
use siem_v.Prelude.Text.{Str, str_lt, str_lt_asymm, str_lt_compare, str_lt_total, str_lt_irrefl}
use siem_v.Prelude.Sort.{WeakOrder, IsSorted, sort, sort-IsSorted, sort-permᴰ, sort-eq_of_perm}
use siem_v.Keys.{Identifier, to_string, smallest, canonical}

pub str_lt-WeakOrder : WeakOrder str_lt
str_lt-WeakOrder = record { asymm = str_lt_asymm; compare = str_lt_compare }

trivial : (xs : List Str) → All (λ s. Unit {0}) xs
trivial [] = tt
trivial (x ∷ xs) = (tt, trivial xs)

-- Sets of identifiers that are permutations of one another have one canonical key.
pub canonical-eq_of_perm : (ids js : List Identifier) → Permᴰ ids js → canonical ids ≡ canonical js
unfolding canonical
canonical-eq_of_perm ids js p = ap smallest (
    sort-eq_of_perm str_lt-WeakOrder (λ s. Unit {0}) (λ s t hs ht. str_lt_total s t)
      (Permᴰ.map to_string p) (trivial (map to_string ids)))

-- `k` is in the list, and nothing in the list is smaller.
abbrev pub IsSmallest : Str → List Str → Type 0
IsSmallest k strs = Mem k strs × All (λ s. str_lt s k ≡ false) strs

smallest-IsSmallest :
    (strs sorted : List Str) (k : Str)
    → Permᴰ sorted strs
    → IsSorted str_lt sorted
    → smallest sorted ≡ some k
    → IsSmallest k strs
unfolding smallest
smallest-IsSmallest strs [] k p s e = cc
smallest-IsSmallest strs (x ∷ xs) k p s e =
    let same : x ≡ k = ground arith in
    rw (← same) (
      Perm.subset ∣ p ∣₁ x mem-cons_self,
      All-perm (λ s. str_lt s x ≡ false) p (str_lt_irrefl x, s.0),
    )

-- The canonical key of a set of identifiers is a member of the set in its text form, and no member
-- is smaller.
pub canonical-IsSmallest :
    (ids : List Identifier) (k : Str) → canonical ids ≡ some k → IsSmallest k (map to_string ids)
unfolding canonical
canonical-IsSmallest ids k e =
    smallest-IsSmallest (map to_string ids) (sort str_lt (map to_string ids)) k
      (Permᴰ.symm (sort-permᴰ str_lt (map to_string ids)))
      (sort-IsSorted str_lt-WeakOrder (map to_string ids)) e
