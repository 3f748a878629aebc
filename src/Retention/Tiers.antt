-- ===== src/Retention/Tiers.antt =====
-- How a partition moves through the tiers as time passes.
use siem_v.Prelude.{ℕ, ◌+◌, ◌*◌, ◌≤◌, ◌<◌, ◌≡◌, ◌↔◌, true, false, none, arith}
use siem_v.Prelude.Time.{
  Time, ℤ, pos, ltb_ℤ, time_sub, max_duration, time_sub-ge_iff, wrap64_small, scale, ◌+ℤ◌,
}
use siem_v.Retention.{
  Policy, Tier, hot, warm, cold, gone, day, hot_window, warm_window, cold_window, tier_for,
  validate,
}

abbrev pub rank : Tier → ℕ
rank hot = 0
rank warm = 1
rank cold = 2
rank gone = 3

time_sub_mono :
    (a b d : Time) (w : ℤ) → a ≤ b → ltb_ℤ (time_sub b d) w ≡ true → ltb_ℤ (time_sub a d) w ≡ true
unfolding time_sub
time_sub_mono a b d w h k = ground arith

-- As time passes a partition never goes back to an earlier tier, whatever the policy.
pub tier_for_mono :
    (p : Policy) (date now later : Time)
    → now ≤ later
    → rank (tier_for p date now) ≤ rank (tier_for p date later)
unfolding tier_for
tier_for_mono p date now later h = ground (
  arith,
  time_sub_mono now later date (hot_window p),
  time_sub_mono now later date (warm_window p),
  time_sub_mono now later date (cold_window p),
)

module _ (p : Policy) (h w c : ℕ) (hot_is : p.hot_days ≡ pos h) (warm_is : p.warm_days ≡ pos w)
    (cold_is : p.cold_months ≡ pos c) (warm_fits : (h + w) * day ≤ max_duration)
    (cold_fits : c * (30 * day) ≤ max_duration) where
  hot_window_days : hot_window p ≡ pos (h * day)
  unfolding hot_window scale
  hot_window_days = rw hot_is (ground (arith, wrap64_small (day * h)))

  warm_window_days : warm_window p ≡ pos ((h + w) * day)
  unfolding warm_window scale ◌+ℤ◌
  warm_window_days =
      rw (hot_is, warm_is) (ground (arith, wrap64_small (h + w), wrap64_small (day * (h + w))))

  cold_window_months : cold_window p ≡ pos (c * (30 * day))
  unfolding cold_window scale
  cold_window_months = rw cold_is (ground (arith, wrap64_small (30 * day * c)))

  ordered_windows : validate p ≡ none → 0 < w → 0 < c → (h + w) * day ≤ c * (30 * day)
  unfolding validate
  ordered_windows valid has_warm has_cold =
      ground (arith, hot_is, warm_is, cold_is, warm_window_days, cold_window_months)

  gone_of_tests :
      (date now : Time)
      → (tier_for p date now ≡ gone) ↔ (
          (ltb_ℤ (time_sub now date) (hot_window p) ≡ false)
          × (ltb_ℤ (time_sub now date) (warm_window p) ≡ false)
          × (ltb_ℤ (time_sub now date) (cold_window p) ≡ false))
  unfolding tier_for
  gone_of_tests date now = ground arith

  -- Under a policy that was validated, with a warm and a cold window, whose windows fit a duration, a
  -- partition expires exactly when it is as old as the cold window.
  pub validated-gone_iff :
      (date now : Time)
      → validate p ≡ none
      → 0 < w
      → 0 < c
      → (tier_for p date now ≡ gone) ↔ (date + c * (30 * day) ≤ now)
  validated-gone_iff date now valid has_warm has_cold =
      let tests = gone_of_tests date now in
      let ordered = ordered_windows valid has_warm has_cold in
      let hot_age = time_sub-ge_iff now date (h * day) (omega arith) in
      let warm_age = time_sub-ge_iff now date ((h + w) * day) warm_fits in
      let cold_age = time_sub-ge_iff now date (c * (30 * day)) cold_fits in
      (
        λ g. cold_age.0 (rw cold_window_months at (tests.0 g).2),
        λ old. tests.1 (
          rw hot_window_days (hot_age.1 (omega (arith, old, ordered))),
          rw warm_window_days (warm_age.1 (omega (arith, old, ordered))),
          rw cold_window_months (cold_age.1 old),
        ),
      )
