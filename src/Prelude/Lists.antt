-- ===== src/Prelude/Lists.antt =====
-- Lists measured by native numbers, and predicates on their elements.
use Prim.Native.Nat.{ℕ, suc, ◌+◌}
use mathlib.Core.Path.{◌≡◌, refl, ap, ◌∙◌, subst, sym}
use mathlib.Core.Logic.{inl, inr}
use mathlib.Core.Bool.{Bool, true, false, ◌||◌}
use mathlib.Core.List.{List, [], ◌∷◌, ◌++◌, Perm, Permᴰ, Memᴰ, append_assoc, perm_append_comm}
use mathlib.Core.List.Perm
use native.Mathlib.Omega.{arith}
use siem_v.Prelude.Tests.{if◌then◌else◌, Bool-cases}

module _ {ℓ} {A : Type ℓ} where
  abbrev pub length : List A → ℕ
  length [] = 0
  length (x ∷ xs) = suc (length xs)

  pub length-append : (xs ys : List A) → length (xs ++ ys) ≡ length xs + length ys
  length-append [] ys = omega arith
  length-append (x ∷ xs) ys = omega (arith, length-append xs ys)

  -- The elements that pass a test, in order.
  abbrev pub keep : (A → Bool) → List A → List A
  keep p [] = []
  keep p (x ∷ xs) = let rest = keep p xs in if p x then x ∷ rest else rest

  abbrev pub any : (A → Bool) → List A → Bool
  any p [] = false
  any p (x ∷ xs) = p x || any p xs

module _ {ℓ κ} {A : Type ℓ} where
  abbrev pub All : (A → Type κ) → List A → Type κ
  All P [] = Unit
  All P (x ∷ xs) = P x × All P xs

module _ {ℓ κ} {A : Type ℓ} (P : A → Type κ) where
  pub All-append : (xs ys : List A) → All P xs → All P ys → All P (xs ++ ys)
  All-append [] ys hx hy = hy
  All-append (x ∷ xs) ys hx hy = (hx.0, All-append xs ys hx.1 hy)

  pub All-perm : {xs ys : List A} → Permᴰ xs ys → All P xs → All P ys
  All-perm Permᴰ.nil h = h
  All-perm (Permᴰ.cons e p) h = (subst P e h.0, All-perm p h.1)
  All-perm (Permᴰ.swap e f) h = (subst P f h.1.0, (subst P e h.0, h.1.1))
  All-perm (Permᴰ.trans p q) h = All-perm q (All-perm p h)

pub perm_exchange {ℓ} :
    {A : Type ℓ} (xs ys zs : List A) → Perm (xs ++ (ys ++ zs)) (ys ++ (xs ++ zs))
perm_exchange xs ys zs =
    rw (← append_assoc xs ys zs, ← append_assoc ys xs zs)
      (Perm.append_right zs (perm_append_comm xs ys))

module _ {ℓ κ ι} {A : Type ℓ} (P : A → Type κ) (Q : A → Type ι) where
  pub All-map : (xs : List A) → ((x : A) → P x → Q x) → All P xs → All Q xs
  All-map [] f h = tt
  All-map (x ∷ xs) f h = (f x h.0, All-map xs f h.1)

pub All-mem {ℓ κ} : {A : Type ℓ} (P : A → Type κ) {x : A} {xs : List A} → All P xs → Memᴰ x xs → P x
All-mem P h (Memᴰ.head e) = subst P (sym e) h.0
All-mem P h (Memᴰ.tail m) = All-mem P h.1 m

-- A test that some element passes does not depend on the order.
pub any-perm {ℓ} : {A : Type ℓ} (p : A → Bool) {xs ys : List A} → Permᴰ xs ys → any p xs ≡ any p ys
any-perm p Permᴰ.nil = refl
any-perm p (Permᴰ.cons e q) = ground (arith, ap p e, any-perm p q)
any-perm p (Permᴰ.swap e f) = ground (arith, ap p e, ap p f)
any-perm p (Permᴰ.trans q r) = any-perm p q ∙ any-perm p r

pub All-of_Mem {ℓ κ} :
    {A : Type ℓ} (P : A → Type κ) (xs : List A) → ((x : A) → Memᴰ x xs → P x) → All P xs
All-of_Mem P [] f = tt
All-of_Mem P (x ∷ xs) f = (f x (Memᴰ.head refl), All-of_Mem P xs (λ y m. f y (Memᴰ.tail m)))

pub Mem-perm {ℓ} : {A : Type ℓ} {x : A} {xs ys : List A} → Permᴰ xs ys → Memᴰ x xs → Memᴰ x ys
Mem-perm Permᴰ.nil m = m
Mem-perm (Permᴰ.cons e p) (Memᴰ.head f) = Memᴰ.head (f ∙ e)
Mem-perm (Permᴰ.cons e p) (Memᴰ.tail m) = Memᴰ.tail (Mem-perm p m)
Mem-perm (Permᴰ.swap e f) (Memᴰ.head g) = Memᴰ.tail (Memᴰ.head (g ∙ e))
Mem-perm (Permᴰ.swap e f) (Memᴰ.tail (Memᴰ.head g)) = Memᴰ.head (g ∙ f)
Mem-perm (Permᴰ.swap e f) (Memᴰ.tail (Memᴰ.tail m)) = Memᴰ.tail (Memᴰ.tail m)
Mem-perm (Permᴰ.trans p q) m = Mem-perm q (Mem-perm p m)

pub perm_symm {ℓ} : {A : Type ℓ} {xs ys : List A} → Permᴰ xs ys → Permᴰ ys xs
perm_symm Permᴰ.nil = Permᴰ.nil
perm_symm (Permᴰ.cons e p) = Permᴰ.cons (sym e) (perm_symm p)
perm_symm (Permᴰ.swap e f) = Permᴰ.swap (sym f) (sym e)
perm_symm (Permᴰ.trans p q) = Permᴰ.trans (perm_symm q) (perm_symm p)

pub Mem-keep {ℓ} :
    {A : Type ℓ} (p : A → Bool) {x : A} (xs : List A) → p x ≡ true → Memᴰ x xs → Memᴰ x (keep p xs)
Mem-keep p [] h m = elim m [ ]
Mem-keep p {x} (y ∷ ys) h (Memᴰ.head e) = rw (← e, h) (Memᴰ.head refl)
Mem-keep p {x} (y ∷ ys) h (Memᴰ.tail m) =
    let rest = Mem-keep p ys h m in
    elim (Bool-cases (p y)) [ inl kept ↦ rw kept (Memᴰ.tail rest) | inr out ↦ rw out rest ]

-- Membership in what a test keeps, and the element that passes a test.
pub Mem-of_keep {ℓ} :
    {A : Type ℓ} (p : A → Bool) {x : A} (xs : List A)
    → Memᴰ x (keep p xs)
    → Memᴰ x xs × (p x ≡ true)
Mem-of_keep p [] m = elim m [ ]
Mem-of_keep {A} p {x} (y ∷ ys) m = go (p y) refl (Mem-of_keep p ys) m
  where
    go :
        (b : Bool)
        → p y ≡ b
        → (Memᴰ x (keep p ys) → Memᴰ x ys × (p x ≡ true))
        → Memᴰ x (if b then y ∷ keep p ys else keep p ys)
        → Memᴰ x (y ∷ ys) × (p x ≡ true)
    go true h later (Memᴰ.head e) = (Memᴰ.head e, ap p e ∙ h)
    go true h later (Memᴰ.tail n) = let rest = later n in (Memᴰ.tail rest.0, rest.1)
    go false h later n = let rest = later n in (Memᴰ.tail rest.0, rest.1)

pub any-Mem {ℓ} :
    {A : Type ℓ} (p : A → Bool) (xs : List A) → any p xs ≡ true → (x : A) × Memᴰ x xs × (p x ≡ true)
any-Mem p [] h = cc
any-Mem p (y ∷ ys) h = elim (Bool-cases (p y)) [
  | inl passes ↦ (y, Memᴰ.head refl, passes)
  | inr fails ↦ let rest = any-Mem p ys (ground arith) in (rest.0, Memᴰ.tail rest.1, rest.2)
]

pub any-of_Mem {ℓ} :
    {A : Type ℓ} (p : A → Bool) {x : A} (xs : List A) → Memᴰ x xs → p x ≡ true → any p xs ≡ true
any-of_Mem p [] m h = elim m [ ]
any-of_Mem p (y ∷ ys) (Memᴰ.head e) h = ground (arith, ap p e)
any-of_Mem p (y ∷ ys) (Memᴰ.tail m) h = ground (arith, any-of_Mem p ys m h)
