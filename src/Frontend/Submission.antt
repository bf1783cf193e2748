-- ===== src/Frontend/Submission.antt =====
-- frontend/src/lib/submit.ts: the retries of a submission and the texts of its errors. An error is
-- given by its text, which is empty for a value that is neither an `Error` nor a string.
pub mod Retries
pub mod Texts
use accord_protocol.Prelude.{
  ℕ, zero, suc, ◌+◌, ◌-◌, ◌*◌, ◌^◌, max, String, Bool, true, false, not, ◌||◌, ◌⊎◌, inl, inr,
  Option, none, some, List, [], ◌∷◌, map, any, str_eq, if◌then◌else◌,
}
use accord_protocol.Prelude.Text.{Text, codes, includes, to_upper}
use accord_protocol.Frontend.ContractErrors.{contract_error_message, fallback}

-- A pattern of words between bars, with the flag `i`.
abbrev matches : List String → Text → Bool
matches words s = any (λ w. includes (map to_upper (codes w)) (map to_upper s)) words

unfoldable pub is_wallet_rejection : Text → Bool
unfolding includes
is_wallet_rejection = matches ("reject" ∷ "denied" ∷ "cancelled" ∷ "canceled" ∷ "declined" ∷ [])

unfoldable pub is_network_submission_error : Text → Bool
unfolding includes
is_network_submission_error = matches (
    "network" ∷ "offline" ∷ "fetch" ∷ "timeout" ∷ "timed out" ∷ "connection" ∷ "socket" ∷ "503"
    ∷ "502" ∷ "504" ∷ [])

unfoldable pub is_failed_on_chain : Text → Bool
unfolding includes
is_failed_on_chain = matches ("transaction failed on-chain" ∷ [])

abbrev pub network_submission_error : String
network_submission_error = "Unable to connect to the network. Check your connection and try again."

abbrev pub rejection_submission_error : String
rejection_submission_error = "Transaction was rejected in your wallet."

abbrev pub failed_on_chain_error : String
failed_on_chain_error = "The transaction failed on-chain. Please review the proposal and try again."

-- `FALLBACK_SUBMISSION_ERROR` is the fallback of `contractErrorMessage`.
unfoldable pub map_submission_error : Text → String
unfolding is_wallet_rejection is_network_submission_error is_failed_on_chain contract_error_message
map_submission_error error =
    if is_wallet_rejection error
    then rejection_submission_error
    else (if not (str_eq (contract_error_message error) fallback)
        then contract_error_message error
        else (if is_network_submission_error error
            then network_submission_error
            else (if is_failed_on_chain error then failed_on_chain_error else fallback)))

-- What one call of the operation gives.
pub data Outcome (A : Type 0) : Type 0 where
  returned : A → Outcome A
  threw : Text → Outcome A

-- What the caller gets, with the number of calls and the waits between them, first to last.
pub record Retried (A : Type 0) : Type 0 where
  pub result : A ⊎ String
  pub calls : ℕ
  pub waits : List ℕ

module _ {A : Type 0} (operation : ℕ → Outcome A) (delay_ms : ℕ) where
  abbrev waited : ℕ → Retried A → Retried A
  waited ms r = record r { waits = ms ∷ r.waits }

  -- One turn of the loop at `attempt`, and the rest of it when the loop goes on.
  abbrev pub turn : (left attempt : ℕ) → Outcome A → Retried A → Retried A
  turn left attempt (returned a) rest = record { result = inl a; calls = attempt; waits = [] }
  turn zero attempt (threw e) rest = record {
    result = inr (map_submission_error e);
    calls = attempt;
    waits = [];
  }
  turn (suc left) attempt (threw e) rest =
      if not (is_network_submission_error e)
      then record { result = inr (map_submission_error e); calls = attempt; waits = [] }
      else waited (delay_ms * 2 ^ (attempt - 1)) rest

  -- The loop at `attempt`, which may be followed by `left` more.
  unfoldable pub retry_from : (left attempt : ℕ) → Retried A
  retry_from zero attempt =
      turn zero attempt (operation attempt)
        (record { result = inr fallback; calls = attempt; waits = [] })
  retry_from (suc left) attempt =
      turn (suc left) attempt (operation attempt) (retry_from left (attempt + 1))

abbrev or_default : Option ℕ → ℕ → ℕ
or_default none d = d
or_default (some n) d = n

-- `withSubmissionRetry`; its last `throw` is never reached, since there is a last attempt.
unfoldable pub with_submission_retry :
    {A : Type 0} (operation : ℕ → Outcome A) (max_attempts delay_ms : Option ℕ) → Retried A
unfolding retry_from
with_submission_retry operation max_attempts delay_ms =
    retry_from operation (or_default delay_ms 1000) (max 1 (or_default max_attempts 3) - 1) 1
