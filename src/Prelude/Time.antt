-- ===== src/Prelude/Time.antt =====
-- time.Time as the nanoseconds since the zero time (so IsZero is 0), and time.Duration as a signed
-- number. `Time.Sub` saturates at the bounds of an int64, as in Go.
use Prim.Native.Nat.{ℕ, zero, suc, ◌+◌, ◌-◌, ◌*◌, ◌/◌, ◌%◌, ◌≤◌, min}
use mathlib.Core.Path.{◌≡◌}
use mathlib.Core.Logic.{◌↔◌}
use mathlib.Core.Bool.{Bool, false}
use native.Mathlib.Omega.{arith}
use siem_v.Prelude.Tests.{ltb, leb, ◌==◌, if◌then◌else◌}

pub data ℤ : Type 0 where
  pos : ℕ → ℤ
  negsuc : ℕ → ℤ

abbrev pub pos_part : ℤ → ℕ
pos_part (pos n) = n
pos_part (negsuc n) = 0

abbrev pub neg_part : ℤ → ℕ
neg_part (pos n) = 0
neg_part (negsuc n) = suc n

abbrev pub ltb_ℤ : ℤ → ℤ → Bool
ltb_ℤ a b = ltb (pos_part a + neg_part b) (pos_part b + neg_part a)

abbrev pub Time : Type 0
Time = ℕ

abbrev pub zero_time : Time
zero_time = 0

abbrev pub is_zero : Time → Bool
is_zero t = t == 0

abbrev pub Duration : Type 0
Duration = ℤ

abbrev pub second : ℕ
second = 1_000_000_000

abbrev pub minute : ℕ
minute = 60_000_000_000

abbrev pub hour : ℕ
hour = 3_600_000_000_000

abbrev pub max_duration : ℕ
max_duration = 9_223_372_036_854_775_807

-- a.Sub(b)
unfoldable pub time_sub : Time → Time → Duration
time_sub a b =
    if leb b a then pos (min (a - b) max_duration) else negsuc (min (b - a - 1) max_duration)

-- A wait of `d` has passed, as a test on the duration and on the times themselves.
pub time_sub-ge_iff :
    (a b d : ℕ) → d ≤ max_duration → (ltb_ℤ (time_sub a b) (pos d) ≡ false) ↔ (b + d ≤ a)
unfolding time_sub
time_sub-ge_iff a b d q = (λ h. ground arith, λ h. ground arith)

negate : ℕ → ℤ
negate zero = pos 0
negate (suc m) = negsuc m

-- d.Milliseconds(), truncated towards zero.
unfoldable pub milliseconds : Duration → ℤ
unfolding negate
milliseconds (pos n) = pos (n / 1_000_000)
milliseconds (negsuc n) = negate ((n + 1) / 1_000_000)

abbrev pub sub_ℕ : ℕ → ℕ → ℤ
sub_ℕ a b = if leb b a then pos (a - b) else negsuc (b - a - 1)

infixl 65 ◌+ℤ◌
unfoldable pub ◌+ℤ◌ : ℤ → ℤ → ℤ
a +ℤ b = sub_ℕ (pos_part a + pos_part b) (neg_part a + neg_part b)

-- n times a, for a number n.
unfoldable pub scale : ℕ → ℤ → ℤ
unfolding negate
scale n (pos a) = pos (n * a)
scale n (negsuc a) = negate (n * (a + 1))

from_word : ℕ → ℤ
from_word m =
    if ltb m 9_223_372_036_854_775_808 then pos m else negsuc (18_446_744_073_709_551_615 - m)

-- The int64 that an integer wraps round to.
unfoldable pub wrap64 : ℤ → ℤ
unfolding from_word
wrap64 (pos n) = from_word (n % 18_446_744_073_709_551_616)
wrap64 (negsuc n) = from_word (18_446_744_073_709_551_615 - n % 18_446_744_073_709_551_616)

pub wrap64_small : (n : ℕ) → n ≤ max_duration → wrap64 (pos n) ≡ pos n
unfolding wrap64 from_word
wrap64_small n h = ground arith
