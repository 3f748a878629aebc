-- ===== src/Health/History.antt =====
-- What a registry of health is told, and what it should know then.
use siem_v.Prelude.{
  ◌≡◌, refl, sym, ap, Bool, true, false, ◌&&◌, Option, none, some, List, [], ◌∷◌, arith,
  if◌then◌else◌,
}
use siem_v.Prelude.Text.{Str, str_eq}
use siem_v.Prelude.Time.{Time, Duration, ℤ, pos, ltb_ℤ}

abbrev pub is_known : Option Duration → Bool
is_known none = false
is_known (some c) = true

abbrev pub time_or_zero : Option (Duration × Time) → Time
time_or_zero none = 0
time_or_zero (some p) = p.1

abbrev pub moved : Time → Option (Duration × Time) → Option (Duration × Time)
moved at none = none
moved at (some p) = some (p.0, at)

abbrev pub declared : Option Duration → Time → Option (Duration × Time)
declared none t = none
declared (some c) t = some (c, t)

time_or_zero-declared :
    (o : Option Duration) (t : Time) → (o ≡ none → t ≡ 0) → time_or_zero (declared o t) ≡ t
time_or_zero-declared none t h = sym (h refl)
time_or_zero-declared (some c) t h = refl

module _ (F : Type 0) where
  -- What the registry is told.
  pub data Call : Type 0 where
    register : Str → Str → Duration → Call
    deliver : Str → ℤ → Time → Call
    fail_rate : Str → F → Call
    stage : Str → F → F → ℤ → F → Call
    check_silence : Time → Call

module _ {F : Type 0} where
  -- The cadence that the last registration declares; the newest call comes first.
  abbrev pub cadence_of : Str → List (Call F) → Option Duration
  cadence_of name [] = none
  cadence_of name (register id provider cadence ∷ earlier) =
      if str_eq id name then some cadence else cadence_of name earlier
  cadence_of name (deliver id count at ∷ earlier) = cadence_of name earlier
  cadence_of name (fail_rate id rate ∷ earlier) = cadence_of name earlier
  cadence_of name (stage id input output backlog latency ∷ earlier) = cadence_of name earlier
  cadence_of name (check_silence now ∷ earlier) = cadence_of name earlier

  -- The time of the last delivery with records since the source is known, or the zero time.
  abbrev pub delivery_of : Str → List (Call F) → Time
  delivery_of name [] = 0
  delivery_of name (register id provider cadence ∷ earlier) = delivery_of name earlier
  delivery_of name (deliver id count at ∷ earlier) =
      if (str_eq id name && ltb_ℤ (pos 0) count) && is_known (cadence_of name earlier)
      then at
      else delivery_of name earlier
  delivery_of name (fail_rate id rate ∷ earlier) = delivery_of name earlier
  delivery_of name (stage id input output backlog latency ∷ earlier) = delivery_of name earlier
  delivery_of name (check_silence now ∷ earlier) = delivery_of name earlier

  -- What a call does to what silence is judged by.
  abbrev pub told : Str → Call F → Option (Duration × Time) → Option (Duration × Time)
  told name (register id provider cadence) o =
      if str_eq id name then some (cadence, time_or_zero o) else o
  told name (deliver id count at) o =
      if str_eq id name && ltb_ℤ (pos 0) count then moved at o else o
  told name (fail_rate id rate) o = o
  told name (stage id input output backlog latency) o = o
  told name (check_silence now) o = o

  zero_unless_known :
      (name : Str) (calls : List (Call F))
      → cadence_of name calls ≡ none
      → delivery_of name calls ≡ 0
  zero_unless_known name [] h = refl
  zero_unless_known name (register id provider cadence ∷ earlier) h =
      zero_unless_known name earlier (kept (str_eq id name) h)
    where
      kept :
          (b : Bool)
          → (if b then some cadence else cadence_of name earlier) ≡ none
          → cadence_of name earlier ≡ none
      kept true q = ground arith
      kept false q = q
  zero_unless_known name (deliver id count at ∷ earlier) h =
      ground (arith, ap is_known h, zero_unless_known name earlier h)
  zero_unless_known name (fail_rate id rate ∷ earlier) h = zero_unless_known name earlier h
  zero_unless_known name (stage id input output backlog latency ∷ earlier) h =
      zero_unless_known name earlier h
  zero_unless_known name (check_silence now ∷ earlier) h = zero_unless_known name earlier h

  pub told-declared :
      (name : Str) (c : Call F) (earlier : List (Call F))
      → told name c (declared (cadence_of name earlier) (delivery_of name earlier))
        ≡ declared (cadence_of name (c ∷ earlier)) (delivery_of name (c ∷ earlier))
  told-declared name (register id provider cadence) earlier =
      go (str_eq id name) (cadence_of name earlier) (delivery_of name earlier)
        (zero_unless_known name earlier)
    where
      go :
          (b : Bool) (o : Option Duration) (t : Time)
          → (o ≡ none → t ≡ 0)
          → (if b then some (cadence, time_or_zero (declared o t)) else declared o t)
            ≡ declared (if b then some cadence else o) t
      go true o t h = ap (λ u. some (cadence, u)) (time_or_zero-declared o t h)
      go false o t h = refl
  told-declared name (deliver id count at) earlier =
      go (str_eq id name && ltb_ℤ (pos 0) count) (cadence_of name earlier)
        (delivery_of name earlier)
    where
      go :
          (b : Bool) (o : Option Duration) (t : Time)
          → (if b then moved at (declared o t) else declared o t)
            ≡ declared o (if b && is_known o then at else t)
      go true none t = refl
      go true (some c) t = refl
      go false none t = refl
      go false (some c) t = refl
  told-declared name (fail_rate id rate) earlier = refl
  told-declared name (stage id input output backlog latency) earlier = refl
  told-declared name (check_silence now) earlier = refl
