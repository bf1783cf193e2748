-- ===== src/Analytics/Flow/Covered.antt =====
-- The loop over the buckets reaches each bucket between the bounds.
use accord_protocol.Prelude.{
  ℕ, zero, suc, ◌+◌, ◌-◌, ◌/◌, ◌≤◌, ◌<◌, ◌≡◌, ◌≢◌, refl, sym, ap, ◌∙◌, inl, inr, arith, leb, ltb,
  true, false, some, List, [], ◌∷◌, ◌++◌, map, le→leb, Bool-cases, ◌==◌, ==_iff,
}
use mathlib.Core.List.{append_assoc}
use accord_protocol.Prelude.Text.{Text}
use accord_protocol.Analytics.Range.{AnalyticsGranularity}
use accord_protocol.Prelude.Sort.{sort}
use accord_protocol.Analytics.Js.{Js}
use accord_protocol.Analytics.Query.{
  ParsedAnalyticsQuery, Params, success, non_empty, parse_and_validate_analytics_query,
}
use accord_protocol.Analytics.Endpoints.{AnalyticsContext, ok, ms_per_day}
use accord_protocol.Analytics.Flow.{
  Event, Sums, TreasuryFlowBucket, bucket_day, next_bucket, bucket_rows, flow_loop, flow_events,
  flow_tokens, flow_sums, bound, least, greatest, or_day, handle_get_treasury_flow,
}
use accord_protocol.Analytics.Flow.Months.{IsLate, IsLate-mono}
use accord_protocol.Analytics.Flow.Buckets.{at-IsBucket, bucket_day-same}

-- `ys` stands in `xs` in one piece.
pub record Holds {ℓ} {A : Type ℓ} (xs ys : List A) : Type ℓ where
  pub before : List A
  pub after : List A
  pub split : xs ≡ before ++ (ys ++ after)

Holds-later {ℓ} : {A : Type ℓ} (ws xs ys : List A) → Holds xs ys → Holds (ws ++ xs) ys
Holds-later ws xs ys h = record {
  before = ws ++ h.before;
  after = h.after;
  split = ap (λ l. ws ++ l) h.split ∙ sym (append_assoc ws h.before (ys ++ h.after));
}

Holds-first {ℓ} : {A : Type ℓ} (xs ys : List A) → Holds (xs ++ ys) xs
Holds-first xs ys = record { before = []; after = ys; split = refl }

apart : (a b : ℕ) → (a == b) ≡ false → a ≢ b
apart a b h = ground arith

not_yet : (start last : ℕ) → last < start → leb start last ≡ false
not_yet start last h = ground arith

bucket_day_mono :
    (g : AnalyticsGranularity) (c n : ℕ) → IsLate c → c ≤ n → bucket_day g c ≤ bucket_day g n
bucket_day_mono g c n l h =
    let k = IsLate-mono c n h l in
    let b = at-IsBucket g n k in
    let a = at-IsBucket g c l in grind (arith, bucket_day-same g n c k l, b.from, b.until, a.from)

-- A later bucket begins after the start of the next one.
next-le :
    (g : AnalyticsGranularity) (c n : ℕ)
    → IsLate c
    → c ≤ n
    → bucket_day g c ≢ bucket_day g n
    → next_bucket g (bucket_day g c) ≤ n
next-le g c n l h differ =
    let k = IsLate-mono c n h l in
    let a = at-IsBucket g c l in grind (arith, bucket_day-same g c n l k, a.from)

module _ {Amount : Type 0} (js : Js Amount) (g : AnalyticsGranularity)
    (sums : List (Text × Sums Amount)) (tokens : List Text) where
  flow_loop-Holds :
      (fuel c n last : ℕ)
      → IsLate c
      → c ≤ n
      → bucket_day g n ≤ last
      → last < bucket_day g c + fuel
      → Holds
          (flow_loop js g sums tokens fuel (bucket_day g c) last)
          (bucket_rows js sums tokens (bucket_day g n))
  unfolding flow_loop
  flow_loop-Holds zero c n last l h k m = absurd (omega (arith, bucket_day_mono g c n l h))
  flow_loop-Holds (suc fuel) c n last l h k m =
      let b = at-IsBucket g c l in
      let enters : leb (bucket_day g c) last ≡ true =
        le→leb _ _ (omega (arith, bucket_day_mono g c n l h)) in
      elim (Bool-cases (bucket_day g c == bucket_day g n)) [
        | inl here ↦ rw (enters, flow_loop) (rw (sym ((==_iff _ _).0 here)) (Holds-first _ _))
        | inr further ↦
            let e = next-le g c n l h (apart _ _ further) in
            let next = next_bucket g (bucket_day g c) in
            rw (enters, flow_loop)
              (Holds-later (bucket_rows js sums tokens (bucket_day g c)) _ _ (
                rw b.again at (
                  flow_loop-Holds fuel (next_bucket g (bucket_day g c)) n last
                    (IsLate-mono c _ (omega (arith, b.until)) l) e k
                    (rw b.again (omega (arith, b.from, b.until))))))
      ]

  flow_loop-done :
      (fuel start last : ℕ) → last < start → flow_loop js g sums tokens fuel start last ≡ []
  unfolding flow_loop
  flow_loop-done zero start last h = refl
  flow_loop-done (suc fuel) start last h = rw (not_yet start last h, flow_loop)

  -- With fuel past the last bucket, more fuel changes nothing: the loop ends by its own test. The
  -- first bucket is that of a day from the year 100 on.
  pub flow_loop-enough :
      (fuel more c last : ℕ)
      → IsLate c
      → last < bucket_day g c + fuel
      → flow_loop js g sums tokens (fuel + more) (bucket_day g c) last
        ≡ flow_loop js g sums tokens fuel (bucket_day g c) last
  unfolding flow_loop
  flow_loop-enough zero more c last l h =
      flow_loop-done (0 + more) (bucket_day g c) last (omega arith)
  flow_loop-enough (suc fuel) more c last l h =
      let b = at-IsBucket g c l in
      let e : suc fuel + more ≡ suc (fuel + more) = omega arith in
      let rest =
        flow_loop-enough fuel more (next_bucket g (bucket_day g c)) last
          (IsLate-mono c _ (omega (arith, b.until)) l)
          (rw b.again (omega (arith, b.from, b.until))) in
      rw e (elim (Bool-cases (leb (bucket_day g c) last)) [
        | inl inside ↦
            rw (inside, flow_loop)
              (ap
                (λ (rows : List TreasuryFlowBucket).
                  bucket_rows js sums tokens (bucket_day g c) ++ rows)
                (rw b.again at rest))
        | inr done ↦ rw (done, flow_loop) refl
      ])

-- An accepted query's rows hold, for each instant between the first and the last that count, one
-- row for each token, in order, of the bucket that the instant is in: windows with no activity are
-- filled in. There is a token, and the first instant is not before the year 100.
pub handle_get_treasury_flow-Holds :
    {Amount : Type 0} (js : Js Amount) (params : Params) (context : AnalyticsContext)
    (query : ParsedAnalyticsQuery) (t : Text) (ts : List Text) (from ms to : ℕ)
    → parse_and_validate_analytics_query js params ≡ success query
    → flow_tokens js query (flow_events js query context) ≡ t ∷ ts
    → bound js
        (non_empty query.start_date)
        (least (map (λ (e : Event Amount). e.ms) (flow_events js query context)))
      ≡ some from
    → bound js
        (non_empty query.end_date)
        (greatest (map (λ (e : Event Amount). e.ms) (flow_events js query context)))
      ≡ some to
    → from ≤ ms
    → ms ≤ to
    → IsLate (from / ms_per_day)
    → (rows : List TreasuryFlowBucket) × (handle_get_treasury_flow js params context ≡ ok rows)
      × Holds rows (
          bucket_rows js
            (flow_sums js (or_day query.granularity) (flow_events js query context) [])
            (sort (λ a b. js.code_before b a) (t ∷ ts))
            (bucket_day (or_day query.granularity) (ms / ms_per_day)))
unfolding handle_get_treasury_flow
handle_get_treasury_flow-Holds js params context query t ts from ms to h tokens starts ends h1 h2
      late =
    let g = or_day query.granularity in
    let sums = flow_sums js g (flow_events js query context) [] in
    let in_range : ltb to from ≡ false = ground arith in
    (
      flow_loop js g sums (sort (λ a b. js.code_before b a) (t ∷ ts))
          (bucket_day g (to / ms_per_day) + 1 - bucket_day g (from / ms_per_day))
          (bucket_day g (from / ms_per_day)) (bucket_day g (to / ms_per_day)),
      rw h (rw tokens (rw starts (rw ends (rw in_range)))),
      flow_loop-Holds js g sums _ _ (from / ms_per_day) (ms / ms_per_day)
          (bucket_day g (to / ms_per_day)) late (omega arith)
          (bucket_day_mono g (ms / ms_per_day) (to / ms_per_day)
            (IsLate-mono (from / ms_per_day) (ms / ms_per_day) (omega arith) late) (omega arith))
          (omega arith),
    )
