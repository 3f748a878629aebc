-- ===== src/Prelude/Sort.antt =====
-- sort.Slice, sort.SliceStable and sort.Strings as insertion sort: the sorted list in which equal
-- elements keep their order, which is what sort.SliceStable promises.
use mathlib.Core.Path.{◌≡◌, refl, ap₂, ◌∙◌}
use mathlib.Core.Logic.{inl, inr}
use mathlib.Core.Bool.{Bool, true, false}
use mathlib.Core.List.{List, [], ◌∷◌, Permᴰ, Perm}
use mathlib.Core.List.Permᴰ
use native.Mathlib.Omega.{arith}
use siem_v.Prelude.Tests.{if◌then◌else◌, Bool-cases}
use siem_v.Prelude.Lists.{All, All-perm}

-- What a `less` function has to satisfy for a sort by it to mean something.
pub record WeakOrder {ℓ} {A : Type ℓ} (less : A → A → Bool) : Type ℓ where
  pub asymm : (a b : A) → less a b ≡ true → less b a ≡ false
  pub compare : (a b c : A) → less a c ≡ true → less b c ≡ false → less a b ≡ true

module _ {ℓ} {A : Type ℓ} where
  unfoldable pub insert : (A → A → Bool) → A → List A → List A
  insert less x [] = x ∷ []
  insert less x (y ∷ ys) = let rest = insert less x ys in if less y x then y ∷ rest else x ∷ y ∷ ys

  unfoldable pub sort : (A → A → Bool) → List A → List A
  unfolding insert
  sort less [] = []
  sort less (x ∷ xs) = insert less x (sort less xs)

  -- No element is less than one before it.
  abbrev pub IsSorted : (A → A → Bool) → List A → Type ℓ
  IsSorted less [] = Unit
  IsSorted less (x ∷ xs) = All (λ y. less y x ≡ false) xs × IsSorted less xs

  insert-perm : (less : A → A → Bool) (x : A) (xs : List A) → Permᴰ (x ∷ xs) (insert less x xs)
  unfolding insert
  insert-perm less x [] = Permᴰ.cons refl Permᴰ.nil
  insert-perm less x (y ∷ ys) = go (less y x) (insert-perm less x ys)
    where
      go :
          (b : Bool)
          → Permᴰ (x ∷ ys) (insert less x ys)
          → Permᴰ (x ∷ y ∷ ys) (if b then y ∷ insert less x ys else x ∷ y ∷ ys)
      go true p = Permᴰ.trans (Permᴰ.swap refl refl) (Permᴰ.cons refl p)
      go false p = Permᴰ.refl (x ∷ y ∷ ys)

  pub sort-permᴰ : (less : A → A → Bool) (xs : List A) → Permᴰ xs (sort less xs)
  unfolding sort
  sort-permᴰ less [] = Permᴰ.nil
  sort-permᴰ less (x ∷ xs) =
      Permᴰ.trans (Permᴰ.cons refl (sort-permᴰ less xs)) (insert-perm less x (sort less xs))

  pub sort-perm : (less : A → A → Bool) (xs : List A) → Perm (sort less xs) xs
  sort-perm less xs = ∣ Permᴰ.symm (sort-permᴰ less xs) ∣₁

  All-compare :
      {less : A → A → Bool} (w : WeakOrder less) (x y : A) (ys : List A)
      → less y x ≡ false
      → All (λ z. less z y ≡ false) ys
      → All (λ z. less z x ≡ false) ys
  All-compare w x y [] h a = tt
  All-compare {less} w x y (z ∷ ys) h a =
      (ground (arith, w.compare z y x), All-compare w x y ys h a.1)

  insert-IsSorted :
      {less : A → A → Bool} (w : WeakOrder less) (x : A) (ys : List A)
      → IsSorted less ys
      → IsSorted less (insert less x ys)
  unfolding insert
  insert-IsSorted w x [] s = (tt, tt)
  insert-IsSorted {less} w x (y ∷ ys) s = elim (Bool-cases (less y x)) [
    | inl before ↦ rw before (
      All-perm (λ z. less z y ≡ false) (insert-perm less x ys) (w.asymm y x before, s.0),
      insert-IsSorted w x ys s.1,
    )
    | inr after ↦ rw after ((after, All-compare w x y ys after s.0), s)
  ]

  pub sort-IsSorted :
      {less : A → A → Bool} (w : WeakOrder less) (xs : List A) → IsSorted less (sort less xs)
  unfolding sort
  sort-IsSorted w [] = tt
  sort-IsSorted {less} w (x ∷ xs) = insert-IsSorted w x (sort less xs) (sort-IsSorted w xs)

-- Where ties are equal, the order of the input makes no difference. `P` says of which elements
-- this is known.
module _ {ℓ κ} {A : Type ℓ} {less : A → A → Bool} (w : WeakOrder less) (P : A → Type κ)
    (tie : (x y : A) → P x → P y → less x y ≡ false → less y x ≡ false → x ≡ y) where
  insert_comm :
      (x y : A) (zs : List A)
      → P x
      → P y
      → insert less x (insert less y zs) ≡ insert less y (insert less x zs)
  unfolding insert
  insert_comm x y [] px py = ground (arith, w.asymm x y, tie x y px py)
  insert_comm x y (z ∷ zs) px py = ground (
    arith,
    insert_comm x y zs px py,
    w.asymm x y,
    w.asymm y x,
    w.compare z y x,
    w.compare z x y,
    tie x y px py,
  )

  pub sort-eq_of_perm : {xs ys : List A} → Permᴰ xs ys → All P xs → sort less xs ≡ sort less ys
  unfolding sort
  sort-eq_of_perm Permᴰ.nil h = refl
  sort-eq_of_perm (Permᴰ.cons e p) h = ap₂ (insert less) e (sort-eq_of_perm p h.1)
  sort-eq_of_perm (Permᴰ.swap {a} {b} {a'} {b'} {l} e f) h =
      insert_comm a b (sort less l) h.0 h.1.0
      ∙ ap₂ (λ u v. insert less u (insert less v (sort less l))) f e
  sort-eq_of_perm (Permᴰ.trans p q) h = sort-eq_of_perm p h ∙ sort-eq_of_perm q (All-perm P p h)
