-- ===== src/Analytics/RateLimit.antt =====
-- frontend/src/lib/analyticsSecurity.ts: `createRateLimiter`. Times are milliseconds of a clock.
pub mod Bursts
use accord_protocol.Prelude.{ℕ, ◌+◌, ◌-◌, Bool, true, false, List, [], ◌∷◌, leb, if◌then◌else◌}

-- `ANALYTICS_LIMITS.requestsPerMinute`, and the length of a window.
abbrev pub requests_per_minute : ℕ
requests_per_minute = 60

abbrev pub window_ms : ℕ
window_ms = 60000

-- The variables of the limiter.
pub record RateLimiter : Type 0 where
  pub window_start : ℕ
  pub requests : ℕ

unfoldable pub create_rate_limiter : (now : ℕ) → RateLimiter
create_rate_limiter now = record { window_start = now; requests = 0 }

-- `current - windowStart >= 60_000`, and the reset.
unfoldable pub renewed : (current : ℕ) → RateLimiter → RateLimiter
renewed current r =
    if leb (r.window_start + window_ms) current
    then record { window_start = current; requests = 0 }
    else r

-- A call at the time `current`: whether it is let through, or throws `AnalyticsRateLimitError`.
unfoldable pub call : (limit current : ℕ) → RateLimiter → RateLimiter × Bool
unfolding renewed
call limit current r =
    let r' = renewed current r in
    if leb limit r'.requests then (r', false) else (record r' { requests = r'.requests + 1 }, true)

-- How many of the calls at the given times, first to last, are let through.
unfoldable pub passed : (limit : ℕ) → List ℕ → RateLimiter → ℕ
unfolding call
passed limit [] r = 0
passed limit (t ∷ ts) r =
    let (r', through) = call limit t r in
    let rest = passed limit ts r' in if through then rest + 1 else rest
