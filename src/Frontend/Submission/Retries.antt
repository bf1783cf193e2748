-- ===== src/Frontend/Submission/Retries.antt =====
-- When a submission is tried again.
use accord_protocol.Prelude.{
  ℕ, zero, suc, ◌+◌, ◌-◌, ◌*◌, ◌^◌, ◌≤◌, ◌<◌, max, ◌≡◌, refl, ap, subst, ◌∙◌, true, false, ◌⊎◌, inl,
  inr, Option, List, [], ◌∷◌, Bool-cases, arith,
}
use accord_protocol.Prelude.Text.{Text}
use accord_protocol.Frontend.Submission.{
  Outcome, returned, threw, Retried, turn, retry_from, with_submission_retry,
  is_network_submission_error, map_submission_error, or_default,
}

-- The number of calls that the options allow.
abbrev pub allowed : Option ℕ → ℕ
allowed max_attempts = max 1 (or_default max_attempts 3)

module _ {A : Type 0} (operation : ℕ → Outcome A) (delay_ms : ℕ) where
  -- Calls from `first` to `last`, and why a failure was the end.
  pub record IsExplained (first last : ℕ) (r : Retried A) : Type 0 where
    pub least : first ≤ r.calls
    pub most : r.calls ≤ last
    pub answer :
        ((a : A) × (operation r.calls ≡ returned a) × (r.result ≡ inl a))
        ⊎ ((e : Text) × (operation r.calls ≡ threw e)
            × (r.result ≡ inr (map_submission_error e))
            × ((r.calls ≡ last) ⊎ (is_network_submission_error e ≡ false)))

  turn-IsExplained :
      (left k : ℕ) (o : Outcome A) (rest : Retried A)
      → operation k ≡ o
      → (0 < left → IsExplained (k + 1) (k + left) rest)
      → IsExplained k (k + left) (turn operation delay_ms left k o rest)
  turn-IsExplained left k (returned a) rest e h = record {
    least = omega arith;
    most = omega arith;
    answer = inl (a, e, refl);
  }
  turn-IsExplained zero k (threw x) rest e h = record {
    least = omega arith;
    most = omega arith;
    answer = inr (x, e, refl, inl (omega arith));
  }
  turn-IsExplained (suc left) k (threw x) rest e h =
      elim (Bool-cases (is_network_submission_error x)) [
        | inl again ↦
            let s = h (omega arith) in
            rw again (record { least = omega (arith, s.least); most = s.most; answer = s.answer })
        | inr other ↦ rw other (record {
          least = omega arith;
          most = omega arith;
          answer = inr (x, e, refl, inr other);
        })
      ]

  retry_from-IsExplained :
      (left k : ℕ) → IsExplained k (k + left) (retry_from operation delay_ms left k)
  unfolding retry_from
  retry_from-IsExplained zero k =
      turn-IsExplained zero k (operation k) _ refl λ n. absurd (omega (arith, n))
  retry_from-IsExplained (suc left) k = turn-IsExplained (suc left) k (operation k) _ refl λ n.
      subst (λ m. IsExplained (k + 1) m (retry_from operation delay_ms left (k + 1))) (omega arith)
        (retry_from-IsExplained left (k + 1))

  -- The waits before each further attempt: each is twice the one before.
  unfoldable pub backoff : (attempt n : ℕ) → List ℕ
  backoff attempt zero = []
  backoff attempt (suc n) = delay_ms * 2 ^ (attempt - 1) ∷ backoff (attempt + 1) n

  none_left : (k : ℕ) → 0 ≡ k - k
  none_left k = omega arith

  turn-backoff :
      (left k : ℕ) (o : Outcome A) (rest : Retried A)
      → (0 < left → (k < rest.calls) × (rest.waits ≡ backoff (k + 1) (rest.calls - (k + 1))))
      → (turn operation delay_ms left k o rest).waits
        ≡ backoff k ((turn operation delay_ms left k o rest).calls - k)
  unfolding backoff
  turn-backoff left k (returned a) rest h = ap (backoff k) (none_left k)
  turn-backoff zero k (threw x) rest h = ap (backoff k) (none_left k)
  turn-backoff (suc left) k (threw x) rest h = elim (Bool-cases (is_network_submission_error x)) [
    | inl again ↦
        let (lt, ws) = h (omega arith) in
        let count : suc (rest.calls - (k + 1)) ≡ rest.calls - k = omega (arith, lt) in
        rw again (ap (λ ms. delay_ms * 2 ^ (k - 1) ∷ ms) ws ∙ ap (backoff k) count)
    | inr other ↦ rw other (ap (backoff k) (none_left k))
  ]

  retry_from-backoff :
      (left k : ℕ)
      → (retry_from operation delay_ms left k).waits
        ≡ backoff k ((retry_from operation delay_ms left k).calls - k)
  unfolding retry_from
  retry_from-backoff zero k = turn-backoff zero k (operation k) _ λ n. absurd (omega (arith, n))
  retry_from-backoff (suc left) k =
      turn-backoff (suc left) k (operation k) (retry_from operation delay_ms left (k + 1)) λ n. (
        let s = retry_from-IsExplained left (k + 1) in omega (arith, s.least),
        retry_from-backoff left (k + 1),
      )

  -- The attempts before the one numbered `n` failed for the network, from `k` on.
  abbrev pub Failing : (k n : ℕ) → Type 0
  Failing k zero = Unit
  Failing k (suc n) =
      ((e : Text) × (operation k ≡ threw e) × (is_network_submission_error e ≡ true))
      × Failing (k + 1) n

  -- The loop ends with a value after a number of calls.
  abbrev pub IsReturned : A → ℕ → Retried A → Type 0
  IsReturned a n r = (r.result ≡ inl a) × (r.calls ≡ n)

  turn-here :
      (left k : ℕ) (o : Outcome A) (rest : Retried A) (a : A)
      → o ≡ returned a
      → IsReturned a k (turn operation delay_ms left k o rest)
  turn-here left k o rest a e = rw e (refl, refl)

  turn-again :
      (left k n : ℕ) (o : Outcome A) (rest : Retried A) (a : A)
      → (e : Text) × (o ≡ threw e) × (is_network_submission_error e ≡ true)
      → IsReturned a n rest
      → IsReturned a n (turn operation delay_ms (suc left) k o rest)
  turn-again left k n o rest a (x, e, net) h = rw (e, net) h

  retry_from-returned :
      (left k n : ℕ) (a : A)
      → n ≤ left
      → Failing k n
      → operation (k + n) ≡ returned a
      → IsReturned a (k + n) (retry_from operation delay_ms left k)
  unfolding retry_from
  retry_from-returned zero k zero a le f r =
      let at : k ≡ k + 0 = omega arith in
      subst (λ m. IsReturned a m (retry_from operation delay_ms zero k)) at
        (turn-here zero k (operation k) _ a (ap operation at ∙ r))
  retry_from-returned (suc left) k zero a le f r =
      let at : k ≡ k + 0 = omega arith in
      subst (λ m. IsReturned a m (retry_from operation delay_ms (suc left) k)) at
        (turn-here (suc left) k (operation k) _ a (ap operation at ∙ r))
  retry_from-returned zero k (suc n) a le f r = absurd (omega (arith, le))
  retry_from-returned (suc left) k (suc n) a le (failed, f) r =
      let at : k + 1 + n ≡ k + suc n = omega arith in
      subst (λ m. IsReturned a m (retry_from operation delay_ms (suc left) k)) at
        (turn-again left k (k + 1 + n) (operation k) (retry_from operation delay_ms left (k + 1)) a
          failed (retry_from-returned left (k + 1) n a (omega (arith, le)) f (ap operation at ∙ r)))

module _ {A : Type 0} (operation : ℕ → Outcome A) (max_attempts delay_ms : Option ℕ) where
  -- A submission is tried at least once and at most as often as allowed. It gives what its last
  -- call returned, or the text for the error that its last call threw, which was no network error
  -- unless no more calls were allowed.
  pub with_submission_retry-IsExplained :
      IsExplained operation
        (or_default delay_ms 1000)
        1
        (allowed max_attempts)
        (with_submission_retry operation max_attempts delay_ms)
  unfolding with_submission_retry
  with_submission_retry-IsExplained =
      subst
        (λ m.
          IsExplained operation (or_default delay_ms 1000) 1 m
            (retry_from operation (or_default delay_ms 1000) (allowed max_attempts - 1) 1))
        (omega arith)
        (retry_from-IsExplained operation (or_default delay_ms 1000) (allowed max_attempts - 1) 1)

  -- It waits between its calls only, and doubles the wait each time.
  pub with_submission_retry-backoff :
      (with_submission_retry operation max_attempts delay_ms).waits
      ≡ backoff operation
          (or_default delay_ms 1000)
          1
          ((with_submission_retry operation max_attempts delay_ms).calls - 1)
  unfolding with_submission_retry
  with_submission_retry-backoff = retry_from-backoff operation (or_default delay_ms 1000) _ 1

  -- When the first `n` calls fail for the network and the next one returns a value, within the
  -- number of calls that is allowed, that value is the result, after exactly those calls.
  pub with_submission_retry-IsReturned :
      (n : ℕ) (a : A)
      → n < allowed max_attempts
      → Failing operation (or_default delay_ms 1000) 1 n
      → operation (1 + n) ≡ returned a
      → IsReturned operation
          (or_default delay_ms 1000)
          a
          (1 + n)
          (with_submission_retry operation max_attempts delay_ms)
  unfolding with_submission_retry
  with_submission_retry-IsReturned n a lt f r =
      retry_from-returned operation (or_default delay_ms 1000) (allowed max_attempts - 1) 1 n a
        (omega (arith, lt)) f r
