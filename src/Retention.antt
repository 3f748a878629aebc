-- ===== src/Retention.antt =====
-- Legal holds and retention policies: backend/internal/biz/retention/hold.go. What
-- `time.Parse(time.RFC3339, …)` makes of a text is the parameter `parse_rfc3339`.
pub mod Apply
pub mod Holds
pub mod Tiers
use siem_v.Prelude.{
  ℕ, ◌*◌, Bool, true, false, not, ◌&&◌, ◌||◌, Option, none, some, List, ltb, if◌then◌else◌,
}
use siem_v.Prelude.Text.{Str, str, str_eq}
use siem_v.Prelude.Time.{Time, ℤ, pos, ltb_ℤ, time_sub, ◌+ℤ◌, scale, wrap64, hour}
use siem_v.Prelude.Maps.{Map, lookup}
use siem_v.Schema.{Any}

pub record Hold : Type 0 where
  pub id : Str
  pub tenant_id : Str
  pub scope_filter : Map Any
  pub reason : Str
  pub placed_by : Str
  pub placed_at : Time
  pub released_at : Option Time
  pub released_by : Str
  pub preserved_refs : List Str

unfoldable pub is_open : Hold → Bool
is_open h = elim h.released_at [ none ↦ true | some t ↦ false ]

module _ (parse_rfc3339 : Str → Option Time) where
  unfoldable pub date_of : Option Any → Option Time
  date_of none = none
  date_of (some (Any.time t)) = some t
  date_of (some (Any.text s)) = parse_rfc3339 s
  date_of (some Any.opaque) = none

  unfoldable pub date_from : Map Any → Str → Option Time
  date_from filter key = date_of (lookup key filter)

  unfoldable pub too_early : Option Time → Time → Bool
  too_early none date = false
  too_early (some from) date = ltb date from

  unfoldable pub too_late : Option Time → Time → Bool
  too_late none date = false
  too_late (some to) date = ltb to date

  unfoldable pub covers : Hold → Str → Time → Bool
  covers h tenant_id date =
      if not (is_open h) || not (str_eq h.tenant_id tenant_id)
      then false
      else if too_early (date_from h.scope_filter (str "from")) date
      then false
      else not (too_late (date_from h.scope_filter (str "to")) date)

-- Days and months are Go ints.
pub record Policy : Type 0 where
  pub id : Str
  pub tenant_id : Str
  pub name : Str
  pub data_category : Str
  pub hot_days : ℤ
  pub warm_days : ℤ
  pub cold_months : ℤ

pub data Tier : Type 0 where
  hot warm cold gone : Tier

abbrev pub day : ℕ
day = 24 * hour

unfoldable pub hot_window : Policy → ℤ
hot_window p = wrap64 (scale day p.hot_days)

unfoldable pub warm_window : Policy → ℤ
warm_window p = wrap64 (scale day (wrap64 (p.hot_days +ℤ p.warm_days)))

unfoldable pub cold_window : Policy → ℤ
cold_window p = wrap64 (scale (30 * day) p.cold_months)

unfoldable pub tier_for : Policy → Time → Time → Tier
tier_for p date now =
    if ltb_ℤ (time_sub now date) (hot_window p)
    then hot
    else if ltb_ℤ (time_sub now date) (warm_window p)
    then warm
    else if ltb_ℤ (time_sub now date) (cold_window p)
    then cold
    else gone

pub data PolicyError : Type 0 where
  hot_not_positive negative_tier cold_before_warm : PolicyError

unfoldable pub validate : Policy → Option PolicyError
validate p =
    if not (ltb_ℤ (pos 0) p.hot_days)
    then some hot_not_positive
    else if ltb_ℤ p.warm_days (pos 0) || ltb_ℤ p.cold_months (pos 0)
    then some negative_tier
    else if (ltb_ℤ (pos 0) p.warm_days && ltb_ℤ (pos 0) p.cold_months)
        && ltb_ℤ (cold_window p) (warm_window p)
    then some cold_before_warm
    else none
