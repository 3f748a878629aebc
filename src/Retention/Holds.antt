-- ===== src/Retention/Holds.antt =====
-- Which partitions a hold covers.
use siem_v.Prelude.{◌≤◌, ◌≡◌, ◌↔◌, refl, true, false, Option, none, some, arith}
use siem_v.Prelude.Text.{Str, str, str_eq_refl, str_eq→eq}
use siem_v.Prelude.Time.{Time}
use siem_v.Retention.{Hold, is_open, date_from, too_early, too_late, covers}

-- A bound of the scope, if there is one.
abbrev pub AtLeast : Option Time → Time → Type 0
AtLeast none date = Unit {0}
AtLeast (some from) date = from ≤ date

abbrev pub AtMost : Option Time → Time → Type 0
AtMost none date = Unit {0}
AtMost (some to) date = date ≤ to

module _ (parse_rfc3339 : Str → Option Time) where
  too_early_iff :
      (o : Option Time) (date : Time) → (too_early parse_rfc3339 o date ≡ false) ↔ AtLeast o date
  unfolding too_early
  too_early_iff none date = (λ h. tt, λ h. refl)
  too_early_iff (some from) date = ground arith

  too_late_iff :
      (o : Option Time) (date : Time) → (too_late parse_rfc3339 o date ≡ false) ↔ AtMost o date
  unfolding too_late
  too_late_iff none date = (λ h. tt, λ h. refl)
  too_late_iff (some to) date = ground arith

  -- A hold covers a partition exactly if it has not been released, is the tenant's, and the
  -- partition's date lies within those bounds of its scope that are there and can be read.
  pub covers_iff :
      (h : Hold) (tenant_id : Str) (date : Time)
      → (covers parse_rfc3339 h tenant_id date ≡ true) ↔ (
          (h.released_at ≡ none)
          × (h.tenant_id ≡ tenant_id)
          × AtLeast (date_from parse_rfc3339 h.scope_filter (str "from")) date
          × AtMost (date_from parse_rfc3339 h.scope_filter (str "to")) date)
  unfolding covers is_open
  covers_iff h tenant_id date =
      let early = too_early_iff (date_from parse_rfc3339 h.scope_filter (str "from")) date in
      let late = too_late_iff (date_from parse_rfc3339 h.scope_filter (str "to")) date in
      let same = str_eq→eq h.tenant_id tenant_id in
      (
        λ c. (ground arith, same (ground arith), early.0 (ground arith), late.0 (ground arith)),
        λ c. ground (arith, early.1 c.2, late.1 c.3, str_eq_refl h.tenant_id),
      )
