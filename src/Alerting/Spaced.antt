-- ===== src/Alerting/Spaced.antt =====
-- Deliveries of one condition are a window apart, and every firing is counted.
use siem_v.Prelude.{
  not, ◌&&◌, subst, ℕ, suc, ◌+◌, ◌≡◌, sym, ap, ◌∙◌, true, false, Option, none, some, List, [], ◌∷◌,
  Bool-cases, inl, inr, arith, if◌then◌else◌,
}
use siem_v.Prelude.Text.{Str, str_eq, str_eq_refl, Str-cases}
use siem_v.Prelude.Time.{Time, Duration, ltb_ℤ, time_sub}
use siem_v.Prelude.Maps.{lookup, lookup-put}
use siem_v.Alerting.{Alert, Suppressor, count_or_zero, counted, is_repeat, admit}

abbrev pub Firing : Type 0
Firing = Alert × Time

unfoldable pub admit_all : List Firing → Suppressor → Suppressor
admit_all [] s = s
admit_all ((a, now) ∷ rest) s = admit_all rest (admit s a now).2

-- The times at which alerts with the key are delivered.
unfoldable pub deliveries : Str → List Firing → Suppressor → List Time
deliveries key [] s = []
deliveries key ((a, now) ∷ rest) s =
    let later = deliveries key rest (admit s a now).2 in
    if str_eq a.grouping_key key then (if (admit s a now).1 then now ∷ later else later) else later

-- Each time is at least the window behind the one before it.
abbrev pub IsSpaced : Duration → Option Time → List Time → Type 0
IsSpaced window last [] = Unit
IsSpaced window none (t ∷ ts) = IsSpaced window (some t) ts
IsSpaced window (some last) (t ∷ ts) =
    (ltb_ℤ (time_sub t last) window ≡ false) × IsSpaced window (some t) ts

abbrev pub firings : Str → List Firing → ℕ
firings key [] = 0
firings key ((a, now) ∷ rest) =
    let later = firings key rest in if str_eq a.grouping_key key then suc later else later

admit-window : (s : Suppressor) (a : Alert) (now : Time) → (admit s a now).2.window ≡ s.window
unfolding admit counted
admit-window s a now = ground arith

counted-counts :
    (s : Suppressor) (k key : Str)
    → count_or_zero (lookup key (counted s k).counts)
      ≡ (if str_eq k key then 1 else 0) + count_or_zero (lookup key s.counts)
unfolding counted
counted-counts s k key =
    ap count_or_zero (lookup-put k key (suc (count_or_zero (lookup k s.counts))) s.counts)
    ∙ elim (Str-cases k key) [
      | inl same ↦ rw (← same, str_eq_refl) (unfold count_or_zero in (omega arith))
      | inr differ ↦ rw differ (omega arith)
    ]

admit-counts :
    (s : Suppressor) (a : Alert) (now : Time)
    → (admit s a now).2.counts ≡ (counted s a.grouping_key).counts
unfolding admit
admit-counts s a now = ground arith

admit-is_repeat :
    (s : Suppressor) (a : Alert) (now : Time)
    → (admit s a now).1 ≡ not (is_repeat s.window (lookup a.grouping_key s.last_fired) now)
unfolding admit
admit-is_repeat s a now = ground arith

admit-last_fired :
    (s : Suppressor) (a : Alert) (now : Time) (key : Str)
    → lookup key (admit s a now).2.last_fired ≡ (
        if (admit s a now).1 && str_eq a.grouping_key key
        then some now
        else lookup key s.last_fired)
unfolding admit counted
admit-last_fired s a now key = ground (arith, lookup-put a.grouping_key key now s.last_fired)

admit_all-counts :
    (key : Str) (calls : List Firing) (s : Suppressor)
    → count_or_zero (lookup key (admit_all calls s).counts)
      ≡ firings key calls + count_or_zero (lookup key s.counts)
unfolding admit_all
admit_all-counts key [] s = omega arith
admit_all-counts key ((a, now) ∷ rest) s =
    let later = admit_all-counts key rest (admit s a now).2 in
    let step = ap (λ m. count_or_zero (lookup key m)) (admit-counts s a now) in
    ground (arith, later, step, counted-counts s a.grouping_key key)

IsSpaced-cons :
    (window : Duration) (last : Option Time) (now : Time) (ts : List Time)
    → is_repeat window last now ≡ false
    → IsSpaced window (some now) ts
    → IsSpaced window last (now ∷ ts)
unfolding is_repeat
IsSpaced-cons window none now ts h later = later
IsSpaced-cons window (some t) now ts h later = (h, later)

spaced :
    (key : Str) (calls : List Firing) (s : Suppressor)
    → IsSpaced s.window (lookup key s.last_fired) (deliveries key calls s)
unfolding deliveries
spaced key [] s = tt
spaced key ((a, now) ∷ rest) s =
    let next = (admit s a now).2 in
    let later : IsSpaced s.window (lookup key next.last_fired) (deliveries key rest next) =
      subst (λ w. IsSpaced w (lookup key next.last_fired) (deliveries key rest next))
        (admit-window s a now) (spaced key rest next) in
    let last = admit-last_fired s a now key in
    let at : (o : Option Time)
        → lookup key next.last_fired ≡ o
        → IsSpaced s.window o (deliveries key rest next) =
      λ o e. subst (λ x. IsSpaced s.window x (deliveries key rest next)) e later in
    elim (Str-cases a.grouping_key key) [
      | inl same ↦
          let own : str_eq a.grouping_key key ≡ true =
            ap (str_eq a.grouping_key) (sym same) ∙ str_eq_refl a.grouping_key in
          let here : lookup a.grouping_key s.last_fired ≡ lookup key s.last_fired =
            ap (λ k. lookup k s.last_fired) same in
          elim (Bool-cases (admit s a now).1) [
            | inl sent ↦
                let due : is_repeat s.window (lookup key s.last_fired) now ≡ false =
                  ap (λ o. is_repeat s.window o now) (sym here)
                  ∙ ground (arith, sent, admit-is_repeat s a now) in
                rw (own, sent)
                  (IsSpaced-cons s.window (lookup key s.last_fired) now _ due
                    (at (some now) (ground (arith, last))))
            | inr held ↦ rw (own, held) (at (lookup key s.last_fired) (ground (arith, last)))
          ]
      | inr differ ↦ rw differ (at (lookup key s.last_fired) (ground (arith, last)))
    ]

-- Whatever alerts fire and whenever, the deliveries of one condition are at least the window of the
-- suppressor apart, beginning with the last one before, and each firing of the condition, delivered
-- or not, is counted.
pub deliveries-IsSpaced :
    (key : Str) (calls : List Firing) (s : Suppressor)
    → IsSpaced s.window (lookup key s.last_fired) (deliveries key calls s)
      × (count_or_zero (lookup key (admit_all calls s).counts)
          ≡ firings key calls + count_or_zero (lookup key s.counts))
deliveries-IsSpaced key calls s = (spaced key calls s, admit_all-counts key calls s)
