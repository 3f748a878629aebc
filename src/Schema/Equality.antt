-- ===== src/Schema/Equality.antt =====
-- The texts with named constants of backend/internal/normalize/schema/event.go, with their equality.
use siem_v.Prelude.{ℕ, ◌≡◌, refl, ap, Bool, true, false, arith, ◌==◌}
use siem_v.Prelude.Text.{Str, str_eq, str_eq_refl, str_eq→eq}

pub data Layer : Type 0 where
  edge bot_management app_firewall origin : Layer
  other : Str → Layer

pub data Action : Type 0 where
  allowed logged rate_limited challenged challenge_passed challenge_failed blocked unknown : Action
  other_action : Str → Action

pub data QualityFlag : Type 0 where
  clock_skew implausible_time body_truncated fields_masked unmapped_values : QualityFlag
  heuristic_correlation bridged_correlation no_correlation_key : QualityFlag
  datadome_fields_absent : QualityFlag

unfoldable pub layer_eq : Layer → Layer → Bool
layer_eq edge edge = true
layer_eq bot_management bot_management = true
layer_eq app_firewall app_firewall = true
layer_eq origin origin = true
layer_eq (other s) (other t) = str_eq s t
layer_eq _ _ = false

pub layer_eq_refl : (l : Layer) → layer_eq l l ≡ true
unfolding layer_eq
layer_eq_refl edge = refl
layer_eq_refl bot_management = refl
layer_eq_refl app_firewall = refl
layer_eq_refl origin = refl
layer_eq_refl (other s) = str_eq_refl s

pub layer_eq→eq : (k l : Layer) → layer_eq k l ≡ true → k ≡ l
unfolding layer_eq
layer_eq→eq (other s) (other t) h = ap other (str_eq→eq s t h)
layer_eq→eq edge l h = ground arith
layer_eq→eq bot_management l h = ground arith
layer_eq→eq app_firewall l h = ground arith
layer_eq→eq origin l h = ground arith
layer_eq→eq (other s) _ h = cc

flag_code : QualityFlag → ℕ
flag_code clock_skew = 0
flag_code implausible_time = 1
flag_code body_truncated = 2
flag_code fields_masked = 3
flag_code unmapped_values = 4
flag_code heuristic_correlation = 5
flag_code bridged_correlation = 6
flag_code no_correlation_key = 7
flag_code datadome_fields_absent = 8

unfoldable pub flag_eq : QualityFlag → QualityFlag → Bool
unfolding flag_code
flag_eq f g = flag_code f == flag_code g

pub flag_eq_refl : (f : QualityFlag) → flag_eq f f ≡ true
unfolding flag_eq
flag_eq_refl f = ground arith

pub flag_eq→eq : (f g : QualityFlag) → flag_eq f g ≡ true → f ≡ g
unfolding flag_eq
flag_eq→eq clock_skew g h = ground arith
flag_eq→eq _ g h = ground arith
