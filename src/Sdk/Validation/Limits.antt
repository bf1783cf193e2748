-- ===== src/Sdk/Validation/Limits.antt =====
-- What the checks of texts and numbers accept.
use mathlib.Core.List.{reverse, reverse-cons, reverse-reverse}
use native.Mathlib.Nat.{div-add-mod'}
use accord_protocol.Prelude.{
  All-append, ℕ, String, zero, suc, ◌*◌, ◌/◌, ◌%◌, ◌≤◌, ◌≡◌, refl, ◌↔◌, true, inl, inr, [], ◌∷◌,
  arith, All, Bool-cases, length, ap,
}
use accord_protocol.Prelude.Int.{ℤ, pos, negsuc}
use accord_protocol.Prelude.Number.{Number, nan, infinity, neg_infinity, ratio}
use accord_protocol.Prelude.Text.{Text, is_space, drop_while, trim}
use accord_protocol.Sdk.Failure.{ok}
use accord_protocol.Sdk.Validation.{
  is_empty, validate_description, validate_positive_amount, validate_deadline, validate_weight,
}

abbrev pub IsBlank : Text → Type 0
IsBlank s = All (λ c. is_space c ≡ true) s

IsBlank-reverse : (s : Text) → IsBlank s → IsBlank (reverse s)
IsBlank-reverse [] h = tt
IsBlank-reverse (c ∷ s) h =
    rw (reverse-cons c s) (All-append _ (reverse s) (c ∷ []) (IsBlank-reverse s h.1) (h.0, tt))

drop_while-IsBlank : (s : Text) → IsBlank s → drop_while is_space s ≡ []
unfolding drop_while
drop_while-IsBlank [] h = refl
drop_while-IsBlank (c ∷ s) h = rw h.0 (drop_while-IsBlank s h.1)

IsBlank-of_drop_while : (s : Text) → IsBlank (drop_while is_space s) → IsBlank s
unfolding drop_while
IsBlank-of_drop_while [] h = tt
IsBlank-of_drop_while (c ∷ s) h = elim (Bool-cases (is_space c)) [
  | inl space ↦ (space, IsBlank-of_drop_while s (rw space at h))
  | inr other ↦ rw (other, drop_while) at h
]

is_empty-nil : (s : Text) → is_empty s ≡ true → s ≡ []
is_empty-nil [] h = refl
is_empty-nil (c ∷ s) h = cc

reverse-nil : (s : Text) → reverse s ≡ [] → IsBlank s
reverse-nil s h = rw (← reverse-reverse s) (rw h tt)

-- A text is blank exactly when nothing is left after trimming.
trim_iff : (s : Text) → (is_empty (trim s) ≡ true) ↔ IsBlank s
unfolding trim drop_while
trim_iff s = (
  λ h.
      let t = drop_while is_space s in
      let u = drop_while is_space (reverse t) in
      let inner : IsBlank (reverse t) =
        IsBlank-of_drop_while (reverse t) (reverse-nil u (is_empty-nil (reverse u) h)) in
      IsBlank-of_drop_while s (rw (← reverse-reverse t) (IsBlank-reverse (reverse t) inner)),
  λ h. rw (drop_while-IsBlank s h) refl,
)

-- A description is accepted exactly when it is not blank and has at most 300 code units.
pub validate_description_iff :
    (s : Text) → (validate_description s ≡ ok tt) ↔ ((¬ IsBlank s) × (length s ≤ 300))
unfolding validate_description
validate_description_iff s = (
  λ h. (λ b. ground (arith, (trim_iff s).1 b), ground arith),
  λ (nb, short). elim (Bool-cases (is_empty (trim s))) [
    | inl empty ↦ absurd (nb ((trim_iff s).0 empty))
    | inr full ↦ rw full (ground arith)
  ],
)

-- The number is the natural number k.
abbrev pub Denotes : Number → ℕ → Type 0
Denotes (ratio n d) k = n ≡ pos (k * suc d)
Denotes _ k = ⊥

whole_part : (m d : ℕ) → m % suc d ≡ 0 → m ≡ m / suc d * suc d
whole_part m d h = omega (arith, div-add-mod' m (suc d))

-- The tests of a weight that is a ratio of natural numbers, without division.
weight_ratio :
    (m d : ℕ)
    → (validate_weight (ratio (pos m) d) ≡ ok tt)
      ↔ ((m % suc d ≡ 0) × (suc d ≤ m) × (m ≤ 100000 * suc d))
unfolding validate_weight
weight_ratio m d = (λ h. ground arith, λ h. ground arith)

whole_bounds : (m d k : ℕ) → m ≡ k * suc d → suc d ≤ m → m ≤ 100000 * suc d → (1 ≤ k) × (k ≤ 100000)
whole_bounds m d k e lo hi = grind arith

whole_multiple :
    (m d k : ℕ)
    → m ≡ k * suc d
    → 1 ≤ k
    → k ≤ 100000
    → (m % suc d ≡ 0) × (suc d ≤ m) × (m ≤ 100000 * suc d)
whole_multiple m d k e lo hi = grind arith

-- A weight is accepted exactly when it is a whole number from 1 to 100000.

pub validate_weight_iff :
    (w : Number) → (validate_weight w ≡ ok tt) ↔ ((k : ℕ) × Denotes w k × (1 ≤ k) × (k ≤ 100000))
unfolding validate_weight
validate_weight_iff nan = (λ h. cc, λ (k, d, _, _). absurd d)
validate_weight_iff infinity = (λ h. cc, λ (k, d, _, _). absurd d)
validate_weight_iff neg_infinity = (λ h. cc, λ (k, d, _, _). absurd d)
validate_weight_iff (ratio (negsuc n) d) = (λ h. ground arith, λ (k, e, _, _). cc)
validate_weight_iff (ratio (pos m) d) = (
  λ h.
      let (whole, lo, hi) = (weight_ratio m d).0 h in
      let e = whole_part m d whole in
      let (one, most) = whole_bounds m d (m / suc d) e lo hi in (m / suc d, ap pos e, one, most),
  λ (k, e, lo, hi). (weight_ratio m d).1 (whole_multiple m d k (ground arith) lo hi),
)

-- An amount is accepted exactly when it is positive, whatever name it is reported under.
pub validate_positive_amount_iff :
    (amount : ℤ) (name : String)
    → (validate_positive_amount amount name ≡ ok tt) ↔ ((k : ℕ) × (amount ≡ pos (suc k)))
unfolding validate_positive_amount
validate_positive_amount_iff (pos zero) name = (λ h. cc, λ (j, e). cc)
validate_positive_amount_iff (pos (suc k)) name = (λ h. (k, refl), λ h. ground arith)
validate_positive_amount_iff (negsuc k) name = (λ h. ground arith, λ (j, e). cc)

pub validate_deadline_iff : (t : ℤ) → (validate_deadline t ≡ ok tt) ↔ ((k : ℕ) × (t ≡ pos (suc k)))
unfolding validate_deadline
validate_deadline_iff (pos zero) = (λ h. cc, λ (j, e). cc)
validate_deadline_iff (pos (suc k)) = (λ h. (k, refl), λ h. ground arith)
validate_deadline_iff (negsuc k) = (λ h. ground arith, λ (j, e). cc)
