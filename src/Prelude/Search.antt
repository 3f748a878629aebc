-- ===== src/Prelude/Search.antt =====
-- What the searches of Go's strings package find.
use mathlib.Core.Path.{◌≡◌, refl, sym, ap, ◌∙◌}
use mathlib.Core.Logic.{◌↔◌, inl, inr}
use mathlib.Core.Bool.{true, ◌||◌}
use mathlib.Core.List.{[], ◌∷◌, ◌++◌, reverse, reverse-append, reverse-reverse}
use native.Mathlib.Omega.{arith}
use siem_v.Prelude.Tests.{Bool-cases}
use siem_v.Prelude.Text.{Str, has_prefix, has_suffix, contains}

pub has_prefix_iff : (s p : Str) → (has_prefix s p ≡ true) ↔ ((rest : Str) × (s ≡ p ++ rest))
unfolding has_prefix
has_prefix_iff s [] = (λ h. (s, refl), λ h. refl)
has_prefix_iff [] (b ∷ p) = (λ h. cc, λ h. cc (h.1))
has_prefix_iff (a ∷ s) (b ∷ p) =
    let later = has_prefix_iff s p in
    (
      λ h.
          let (rest, same) = later.0 (ground arith) in
          let first : a ≡ b = ground arith in (rest, cc (first, same)),
      λ (rest, same). ground (arith, later.1 (rest, ground (arith, same)), same),
    )

pub has_suffix_iff : (s p : Str) → (has_suffix s p ≡ true) ↔ ((before : Str) × (s ≡ before ++ p))
unfolding has_suffix
has_suffix_iff s p = (
  λ h.
      let (rest, same) = (has_prefix_iff (reverse s) (reverse p)).0 h in
      (
        reverse rest,
        sym (reverse-reverse s)
            ∙ ap reverse same
            ∙ reverse-append (reverse p) rest
            ∙ rw (reverse-reverse p) refl,
      ),
  λ (before, same).
      (has_prefix_iff (reverse s) (reverse p)).1
        (reverse before, ap reverse same ∙ reverse-append before p),
)

pub contains_iff :
    (s p : Str) → (contains s p ≡ true) ↔ ((before after : Str) × (s ≡ before ++ (p ++ after)))
unfolding contains
contains_iff [] p = (
  λ h. let (rest, same) = (has_prefix_iff [] p).0 h in ([], rest, same),
  λ (before, after, same). go before after same,
)
  where
    go : (before after : Str) → [] ≡ before ++ (p ++ after) → has_prefix [] p ≡ true
    go [] after same = (has_prefix_iff [] p).1 (after, same)
    go (b ∷ before) after same = cc same
contains_iff (a ∷ s) p =
    let later = contains_iff s p in
    (
      λ h. elim (Bool-cases (has_prefix (a ∷ s) p)) [
        | inl here ↦ let (rest, same) = (has_prefix_iff (a ∷ s) p).0 here in ([], rest, same)
        | inr further ↦
            let (before, after, same) = later.0 (ground arith) in (a ∷ before, after, cc same)
      ],
      λ (before, after, same). go (later.1) before after same,
    )
  where
    go :
        (((before after : Str) × (s ≡ before ++ (p ++ after))) → contains s p ≡ true)
        → (before after : Str) → a ∷ s ≡ before ++ (p ++ after)
        → (has_prefix (a ∷ s) p || contains s p) ≡ true
    go later [] after same = ground (arith, (has_prefix_iff (a ∷ s) p).1 (after, same))
    go later (b ∷ before) after same = ground (arith, later (before, after, ground (arith, same)))
