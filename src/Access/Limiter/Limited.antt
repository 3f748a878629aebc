-- ===== src/Access/Limiter/Limited.antt =====
-- The limiter against a record of everything it has allowed.
use siem_v.Prelude.{
  ℕ, ◌+◌, ◌≤◌, ◌≡◌, refl, sym, ap, subst, ◌∙◌, Bool, true, false, Option, some, List, [], ◌∷◌, ◌++◌,
  keep, length, length-append, ltb, leb, if◌then◌else◌, Bool-cases, inl, inr, arith,
}
use siem_v.Prelude.Text.{Str, str_eq, str_eq_refl, Str-cases}
use siem_v.Prelude.Time.{Time, Duration}
use siem_v.Prelude.Maps.{lookup, lookup-put}
use siem_v.Access.Limiter.{RateLimiter, times_or_empty, recent, allow, new_rate_limiter}

abbrev pub Attempt : Type 0
Attempt = Str × Time

unfoldable pub after : List Attempt → RateLimiter → RateLimiter
after [] rl = rl
after ((k, t) ∷ rest) rl = after rest (allow rl k t).1

-- The times at which the key was allowed, added to the earlier ones.
unfoldable pub allowed : Str → List Attempt → RateLimiter → List Time → List Time
allowed key [] rl history = history
allowed key ((k, t) ∷ rest) rl history =
    allowed key rest (allow rl k t).1
      (if str_eq k key then (if (allow rl k t).0 then history ++ t ∷ [] else history) else history)

-- The clock does not run backwards.
abbrev pub IsForward : Time → List Attempt → Time → Type 0
IsForward last [] now = last ≤ now
IsForward last ((k, t) ∷ rest) now = (last ≤ t) × IsForward t rest now

keep-append : (p : Time → Bool) (xs ys : List Time) → keep p (xs ++ ys) ≡ keep p xs ++ keep p ys
keep-append p [] ys = refl
keep-append p (x ∷ xs) ys = ground (arith, keep-append p xs ys)

recent-append :
    (w : ℕ) (now : Time) (xs ys : List Time)
    → recent w now (xs ++ ys) ≡ recent w now xs ++ recent w now ys
unfolding recent
recent-append w now xs ys = keep-append (λ t. ltb now (t + w)) xs ys

-- What is recent later was recent before.
recent-recent :
    (w : ℕ) (t now : Time) (xs : List Time)
    → t ≤ now
    → recent w now (recent w t xs) ≡ recent w now xs
unfolding recent
recent-recent w t now [] le = refl
recent-recent w t now (x ∷ xs) le =
    let rest = recent-recent w t now xs le in
    elim (Bool-cases (ltb t (x + w))) [
      | inl young ↦ rw (young, rest) refl
      | inr old ↦ let older : ltb now (x + w) ≡ false = ground arith in rw (old, older, rest) refl
    ]

abbrev times_of : RateLimiter → Str → List Time
times_of rl key = times_or_empty (lookup key rl.seen)

read :
    (b : Bool) (l : List Time) (o : Option (List Time))
    → times_or_empty (if b then some l else o) ≡ (if b then l else times_or_empty o)
unfolding times_or_empty
read true l o = refl
read false l o = refl

-- The limiter remembers of its history what still counts.
record IsFaithful (key : Str) (rl : RateLimiter) (history : List Time) (last : Time) : Type 0 where
  remembers :
      (now : Time)
      → last ≤ now
      → recent rl.window now history ≡ recent rl.window now (times_of rl key)
  bounded : length (times_of rl key) ≤ rl.limit

module _ (key : Str) (rl : RateLimiter) (k : Str) (t : Time) where
  abbrev kept : List Time
  kept = recent rl.window t (times_of rl k)

  allow-times : times_of (allow rl k t).1 key ≡ (
      if str_eq k key then (if (allow rl k t).0 then kept ++ t ∷ [] else kept) else times_of rl key)
  unfolding allow
  allow-times = elim (Bool-cases (leb rl.limit (length kept))) [
    | inl full ↦ rw full (
        ap times_or_empty (lookup-put k key kept rl.seen)
        ∙ read (str_eq k key) kept (lookup key rl.seen))
    | inr room ↦ rw room (
        ap times_or_empty (lookup-put k key (kept ++ t ∷ []) rl.seen)
        ∙ read (str_eq k key) (kept ++ t ∷ []) (lookup key rl.seen))
  ]

  allow-window : (allow rl k t).1.window ≡ rl.window
  unfolding allow
  allow-window = ground arith

  allow-limit : (allow rl k t).1.limit ≡ rl.limit
  unfolding allow
  allow-limit = ground arith

  allow-test : (allow rl k t).0 ≡ ltb (length kept) rl.limit
  unfolding allow
  allow-test = ground arith

length-keep : (p : Time → Bool) (xs : List Time) → length (keep p xs) ≤ length xs
length-keep p [] = omega arith
length-keep p (x ∷ xs) = ground (arith, length-keep p xs)

length-recent : (w : ℕ) (now : Time) (xs : List Time) → length (recent w now xs) ≤ length xs
unfolding recent
length-recent w now xs = length-keep (λ t. ltb now (t + w)) xs

module _ (key : Str) (rl : RateLimiter) (history : List Time) (last t : Time) (le : last ≤ t)
    (f : IsFaithful key rl history last) where
  history-kept :
      (now : Time)
      → t ≤ now
      → recent rl.window now history ≡ recent rl.window now (kept key rl key t)
  history-kept now later =
      f.remembers now (omega arith) ∙ sym (recent-recent rl.window t now (times_of rl key) later)

  own-IsFaithful :
      IsFaithful key
        (allow rl key t).1
        (if (allow rl key t).0 then history ++ t ∷ [] else history)
        t
  own-IsFaithful =
      let times = allow-times key rl key t in
      let few = length-recent rl.window t (times_of rl key) in
      let test = allow-test key rl key t in
      elim (Bool-cases (allow rl key t).0) [
        | inl granted ↦
            let now_times : times_of (allow rl key t).1 key ≡ kept key rl key t ++ t ∷ [] =
              times ∙ rw (str_eq_refl key, granted) refl in
            record {
              remembers = λ now later.
                  rw (granted, allow-window key rl key t, now_times)
                    (recent-append rl.window now history (t ∷ [])
                      ∙ ap (λ l. l ++ recent rl.window now (t ∷ [])) (history-kept now later)
                      ∙ sym (recent-append rl.window now (kept key rl key t) (t ∷ [])));
              bounded =
                  rw (allow-limit key rl key t, now_times, length-append)
                    (ground (arith, f.bounded));
            }
        | inr denied ↦
            let now_times : times_of (allow rl key t).1 key ≡ kept key rl key t =
              times ∙ rw (str_eq_refl key, denied) refl in
            record {
              remembers = λ now later.
                  rw (denied, allow-window key rl key t, now_times) (history-kept now later);
              bounded = rw (allow-limit key rl key t, now_times) (ground (arith, f.bounded));
            }
      ]

  other-IsFaithful : (k : Str) → str_eq k key ≡ false → IsFaithful key (allow rl k t).1 history t
  other-IsFaithful k differ =
      let times : times_of (allow rl k t).1 key ≡ times_of rl key =
        allow-times key rl k t ∙ rw differ refl in
      record {
        remembers =
            λ now later. rw (allow-window key rl k t, times) (f.remembers now (omega arith));
        bounded = rw (allow-limit key rl k t, times) f.bounded;
      }

  allow-IsFaithful :
      (k : Str)
      → IsFaithful key
          (allow rl k t).1
          (if str_eq k key
            then (if (allow rl k t).0 then history ++ t ∷ [] else history)
            else history)
          t
  allow-IsFaithful k = elim (Str-cases k key) [
    | inl same ↦
        subst
          (λ i.
            IsFaithful key (allow rl i t).1
              (if str_eq i key
                then (if (allow rl i t).0 then history ++ t ∷ [] else history)
                else history)
              t)
          (sym same) (rw str_eq_refl own-IsFaithful)
    | inr differ ↦ rw differ (other-IsFaithful k differ)
  ]

new-IsFaithful :
    (key : Str) (limit window : Duration) → IsFaithful key (new_rate_limiter limit window) [] 0
unfolding new_rate_limiter lookup times_or_empty
new-IsFaithful key limit window = record { remembers = λ now later. refl; bounded = omega arith }

after-IsFaithful :
    (key : Str) (attempts : List Attempt) (rl : RateLimiter) (history : List Time) (last now : Time)
    → IsForward last attempts now
    → IsFaithful key rl history last
    → IsFaithful key (after attempts rl) (allowed key attempts rl history) now
unfolding after allowed
after-IsFaithful key [] rl history last now le f = record {
  remembers = λ t later. f.remembers t (omega arith);
  bounded = f.bounded;
}
after-IsFaithful key ((k, t) ∷ rest) rl history last now h f =
    after-IsFaithful key rest (allow rl k t).1 _ t now h.1
      (allow-IsFaithful key rl history last t h.0 f k)

after-fixed :
    (attempts : List Attempt) (rl : RateLimiter)
    → ((after attempts rl).limit ≡ rl.limit) × ((after attempts rl).window ≡ rl.window)
unfolding after
after-fixed [] rl = (refl, refl)
after-fixed ((k, t) ∷ rest) rl =
    let later = after-fixed rest (allow rl k t).1 in
    (later.0 ∙ allow-limit k rl k t, later.1 ∙ allow-window k rl k t)

-- After any attempts in the order of the clock, a key is allowed exactly if fewer than the limit of
-- its earlier attempts were allowed within the window, and at no time are more than the limit
-- within it.
pub allow_limited :
    (limit window : Duration) (attempts : List Attempt) (key : Str) (now : Time)
    → IsForward 0 attempts now
    → ((allow (after attempts (new_rate_limiter limit window)) key now).0
        ≡ ltb
            (length (
              recent
                (new_rate_limiter limit window).window
                now
                (allowed key attempts (new_rate_limiter limit window) [])))
            (new_rate_limiter limit window).limit)
      × (length (
            recent
              (new_rate_limiter limit window).window
              now
              (allowed key attempts (new_rate_limiter limit window) []))
          ≤ (new_rate_limiter limit window).limit)
allow_limited limit window attempts key now h =
    let rl = new_rate_limiter limit window in
    let f = after-IsFaithful key attempts rl [] 0 now h (new-IsFaithful key limit window) in
    let fixed = after-fixed attempts rl in
    let same =
      subst
        (λ w.
          recent w now (allowed key attempts rl [])
          ≡ recent w now (times_of (after attempts rl) key))
        fixed.1 (f.remembers now (omega arith)) in
    let test = allow-test key (after attempts rl) key now in
    let few = length-recent rl.window now (times_of (after attempts rl) key) in
    (test ∙ rw (same, fixed.0, fixed.1) refl, rw same (ground (arith, few, f.bounded, fixed.0)))
