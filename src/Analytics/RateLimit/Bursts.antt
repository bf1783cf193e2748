-- ===== src/Analytics/RateLimit/Bursts.antt =====
-- How many calls a window and a burst let through.
use accord_protocol.Prelude.{
  ℕ, ◌+◌, ◌-◌, ◌*◌, ◌≤◌, ◌<◌, ◌≡◌, false, List, [], ◌∷◌, All, length, min, leb, le→leb, leb→le,
  arith, Bool-cases, inl, inr,
}
use accord_protocol.Analytics.RateLimit.{
  RateLimiter, window_ms, create_rate_limiter, renewed, call, passed,
}

early : (start t : ℕ) → t < start + window_ms → leb (start + window_ms) t ≡ false
early start t h = ground arith

above : (limit n : ℕ) → n < limit → leb limit n ≡ false
above limit n h = ground arith

before_end :
    (start t : ℕ) (ts : List ℕ)
    → start ≤ t
    → All (λ u. (start ≤ u) × (u < start + window_ms)) ts
    → All (λ u. u < t + window_ms) ts
before_end start t [] h k = tt
before_end start t (u ∷ us) h k = (omega arith, before_end start t us h k.1)

-- One more call within a window.
abbrev counted : RateLimiter → RateLimiter
counted r = record r { requests = r.requests + 1 }

module _ (limit t : ℕ) (ts : List ℕ) (r : RateLimiter) where
  passed-refused :
      t < r.window_start + window_ms
      → limit ≤ r.requests
      → passed limit (t ∷ ts) r ≡ passed limit ts r
  unfolding passed call renewed
  passed-refused h k = rw (early r.window_start t h) (rw (le→leb _ _ k))

  passed-through :
      t < r.window_start + window_ms
      → r.requests < limit
      → passed limit (t ∷ ts) r ≡ passed limit ts (counted r) + 1
  unfolding passed call renewed
  passed-through h k = rw (early r.window_start t h) (rw (above limit r.requests k))

  -- A call after the end of the window starts one.
  passed-renewed :
      r.window_start + window_ms ≤ t
      → passed limit (t ∷ ts) r ≡ passed limit (t ∷ ts) (record { window_start = t; requests = 0 })
  unfolding passed call renewed
  passed-renewed h = rw (le→leb _ _ h) (rw (early t t (omega arith)))

  -- Within the window, if a bound holds for what follows, it holds for the call.
  passed-step :
      (more : ℕ)
      → t < r.window_start + window_ms
      → passed limit ts r ≤ limit - r.requests + more
      → passed limit ts (counted r) ≤ limit - (r.requests + 1) + more
      → passed limit (t ∷ ts) r ≤ limit - r.requests + more
  passed-step more h kept next = elim (Bool-cases (leb limit r.requests)) [
    | inl full ↦ omega (arith, passed-refused h (leb→le _ _ full))
    | inr room ↦ let k : r.requests < limit = ground arith in omega (arith, passed-through h k)
  ]

-- While no window ends, the calls let through are at most what the limit leaves.
passed-le :
    (limit : ℕ) (ts : List ℕ) (r : RateLimiter)
    → All (λ t. t < r.window_start + window_ms) ts
    → passed limit ts r ≤ limit - r.requests + 0
unfolding passed
passed-le limit [] r h = omega arith
passed-le limit (t ∷ ts) r h =
    passed-step limit t ts r 0 h.0 (passed-le limit ts r h.1) (passed-le limit ts (counted r) h.1)

passed-burst_le :
    (limit start : ℕ) (ts : List ℕ) (r : RateLimiter)
    → All (λ t. (start ≤ t) × (t < start + window_ms)) ts
    → passed limit ts r ≤ limit - r.requests + limit
unfolding passed
passed-burst_le limit start [] r h = omega arith
passed-burst_le limit start (t ∷ ts) r h = elim (Bool-cases (leb (r.window_start + window_ms) t)) [
  | inl ended ↦
      let fresh : RateLimiter = record { window_start = t; requests = 0 } in
      omega (
        arith,
        passed-renewed limit t ts r (leb→le _ _ ended),
        passed-le limit (t ∷ ts) (record { window_start = t; requests = 0 })
            (omega arith, before_end start t ts h.0.0 h.1),
      )
  | inr lasts ↦
      passed-step limit t ts r limit (ground arith) (passed-burst_le limit start ts r h.1)
        (passed-burst_le limit start ts (counted r) h.1)
]

-- Of calls within less than a minute, whatever came before them, at most twice the limit are let
-- through: those of the window that was open and those of the next.
pub passed-burst :
    (limit start : ℕ) (ts : List ℕ) (r : RateLimiter)
    → All (λ t. (start ≤ t) × (t < start + window_ms)) ts
    → passed limit ts r ≤ 2 * limit
passed-burst limit start ts r h = omega (arith, passed-burst_le limit start ts r h)

passed_min :
    (limit : ℕ) (ts : List ℕ) (r : RateLimiter)
    → All (λ t. t < r.window_start + window_ms) ts
    → passed limit ts r ≡ min (limit - r.requests) (length ts)
unfolding passed
passed_min limit [] r h = omega arith
passed_min limit (t ∷ ts) r h = elim (Bool-cases (leb limit r.requests)) [
  | inl full ↦ omega (
    arith,
    passed-refused limit t ts r h.0 (leb→le _ _ full),
    passed_min limit ts r h.1,
    leb→le _ _ full,
  )
  | inr room ↦
      let k : r.requests < limit = ground arith in
      omega (arith, passed-through limit t ts r h.0 k, passed_min limit ts (counted r) h.1)
]

-- Of calls within a minute of its creation, a limiter lets all through if they are no more than the
-- limit, and as many as the limit otherwise.
pub passed-create :
    (limit now : ℕ) (ts : List ℕ)
    → All (λ t. t < now + window_ms) ts
    → passed limit ts (create_rate_limiter now) ≡ min limit (length ts)
unfolding create_rate_limiter
passed-create limit now ts h =
    omega (arith, passed_min limit ts (record { window_start = now; requests = 0 }) h)
