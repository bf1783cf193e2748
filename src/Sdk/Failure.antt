-- ===== src/Sdk/Failure.antt =====
-- packages/sdk/src/errors.ts: the classes of the errors that the SDK throws. The text of a
-- validation error is kept as a reason with the values that the text shows.
use accord_protocol.Prelude.{ℕ, String, ◌≡◌, refl, ◌⊎◌, inl, inr}
use accord_protocol.Prelude.Int.{ℤ}
use accord_protocol.Prelude.Number.{Number}
use accord_protocol.Prelude.Text.{Text}

-- The `field` of a validation error: a name, or `${name}[${i}]`.
pub data Field : Type 0 where
  named : String → Field
  element : String → ℕ → Field

-- The messages of packages/sdk/src/validation.ts and client.ts.
pub data Reason : Type 0 where
  address_empty addresses_empty description_empty deadline_not_positive : Reason
  threshold_not_positive weight_not_positive weight_too_large max_pct_out_of_range : Reason
  rpc_url_empty passphrase_empty signing_missing : Reason
  address_invalid duplicate_address : String → Reason
  amount_not_positive : ℤ → Reason
  description_too_long : ℕ → Reason
  threshold_exceeds : Number → Number → Reason

-- `AccordValidationError`, `AccordContractError` with its code, and `AccordRpcError` with its text
-- are subclasses of `AccordError`.
pub data AccordError : Type 0 where
  validation : Field → Reason → AccordError
  contract : Number → AccordError
  rpc : Text → AccordError

-- What a `throw` can carry: an `AccordError`, or another value with its `String(…)`.
pub data Thrown : Type 0 where
  accord : AccordError → Thrown
  foreign : Text → Thrown

pub data Result {ℓ} (A : Type ℓ) : Type ℓ where
  ok : A → Result A
  err : Thrown → Result A

infixl 5 ◌>>=◌ ◌>>◌
abbrev pub ◌>>=◌ {ℓ κ} : {A : Type ℓ} {B : Type κ} → Result A → (A → Result B) → Result B
ok a >>= k = k a
err t >>= k = err t

abbrev pub ◌>>◌ {ℓ} : {B : Type ℓ} → Result (Unit {0}) → Result B → Result B
m >> n = m >>= λ _. n

abbrev pub reject : Field → Reason → Result (Unit {0})
reject field reason = err (accord (validation field reason))

pub Result-cases {ℓ} :
    {A : Type ℓ} (r : Result A) → ((a : A) × (r ≡ ok a)) ⊎ ((t : Thrown) × (r ≡ err t))
Result-cases (ok a) = inl (a, refl)
Result-cases (err t) = inr (t, refl)

-- Inversion of a check that the rest follows.
pub >>=-eq-ok_tt {ℓ} :
    {B : Type ℓ} (m : Result (Unit {0})) (f : Unit {0} → Result B) {b : B}
    → (m >>= f) ≡ ok b
    → (m ≡ ok tt) × (f tt ≡ ok b)
>>=-eq-ok_tt (ok tt) f h = (refl, h)
>>=-eq-ok_tt (err t) f h = cc
