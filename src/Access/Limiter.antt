-- ===== src/Access/Limiter.antt =====
-- The rate limiter of backend/internal/server/authz_middleware.go.
pub mod Limited
use siem_v.Prelude.{
  ℕ, ◌+◌, Bool, true, false, not, Option, none, some, List, [], ◌∷◌, ◌++◌, keep, length, ltb, leb,
  if◌then◌else◌,
}
use siem_v.Prelude.Text.{Str}
use siem_v.Prelude.Time.{Time, Duration, pos, negsuc, minute}
use siem_v.Prelude.Maps.{Map, lookup, put}

-- The window is positive, so it is kept as a number.
pub record RateLimiter : Type 0 where
  pub limit : ℕ
  pub window : ℕ
  pub seen : Map (List Time)

-- A limit or a window that is not positive falls back to 100 and to a minute.
unfoldable pub positive_or : ℕ → Duration → ℕ
positive_or default (pos n) = if ltb 0 n then n else default
positive_or default (negsuc n) = default

unfoldable pub new_rate_limiter : Duration → Duration → RateLimiter
new_rate_limiter limit window = record {
  limit = positive_or 100 limit;
  window = positive_or minute window;
  seen = [];
}

unfoldable pub times_or_empty : Option (List Time) → List Time
times_or_empty none = []
times_or_empty (some l) = l

-- t.After(now.Add(-window))
unfoldable pub recent : ℕ → Time → List Time → List Time
recent window now times = keep (λ t. ltb now (t + window)) times

-- `Allow`
unfoldable pub allow : RateLimiter → Str → Time → Bool × RateLimiter
allow rl key now =
    let kept = recent rl.window now (times_or_empty (lookup key rl.seen)) in
    if leb rl.limit (length kept)
    then (false, record rl { seen = put key kept rl.seen })
    else (true, record rl { seen = put key (kept ++ now ∷ []) rl.seen })
