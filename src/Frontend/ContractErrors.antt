-- ===== src/Frontend/ContractErrors.antt =====
-- frontend/src/lib/soroban.ts: the texts that the front end shows for the contract's errors.
pub mod Known
use accord_protocol.Prelude.{
  ℕ, String, Bool, true, false, ◌&&◌, Option, none, some, List, [], ◌∷◌, ◌==◌, if◌then◌else◌,
}
use accord_protocol.Prelude.Text.{Text, codes}
use accord_protocol.ContractPattern.{find_code}

-- `CONTRACT_ERRORS`.
abbrev pub contract_errors : List (String × String)
contract_errors =
    ("1", "Contract is already initialized.")
    ∷ ("2", "Contract has not been initialized.")
    ∷ ("3", "Unauthorized. Make sure you are using the correct account.")
    ∷ ("4", "Invalid threshold value.")
    ∷ ("5", "Invalid list of owners.")
    ∷ ("6", "Proposal not found. Please refresh and try again.")
    ∷ ("7", "This proposal is no longer active.")
    ∷ ("8", "You have already approved this proposal.")
    ∷ ("9", "You have not approved this proposal.")
    ∷ ("10", "Approval threshold has not been met.")
    ∷ ("11", "This proposal has expired.")
    ∷ ("12", "Invalid amount specified.")
    ∷ ("13", "Invalid deadline.")
    ∷ ("14", "Invalid token selected.")
    ∷ ("15", "Token transfer failed. Check the contract balance.")
    ∷ ("16", "Proposal description cannot be empty.")
    ∷ ("17", "Proposal description is too long.")
    ∷ ("18", "Too many active proposals. Try again later.")
    ∷ ("19", "Duplicate owner address detected.")
    ∷ ("20", "Arithmetic error occurred during calculation.")
    ∷ ("21", "Invalid duration for the proposal.")
    ∷ ("22", "Invalid recipient address.")
    ∷ ("23", "Time lock is still active. Please wait.")
    ∷ ("24", "Removing this owner would break the required threshold.")
    ∷ ("25", "Owner not found.")
    ∷ ("26", "Contract is frozen.")
    ∷ ("27", "No guardian has been configured.")
    ∷ ("28", "Invalid recurring interval.")
    ∷ ("29", "Invalid recurring schedule dates.")
    ∷ ("30", "Recurring cap must be at least the payment amount.")
    ∷ ("31", "This proposal exceeds the current spending limit.")
    ∷ ("32", "Recurring payment not found.")
    ∷ ("33", "Recurring payment is not due yet.")
    ∷ ("34", "Recurring payment has completed or reached its cap.")
    ∷ ("35", "Recurring payment is inactive.")
    ∷ ("36", "Recurring payment interval has not elapsed yet.")
    ∷ ("37", "Too many active recurring payments. Try again later.")
    ∷ ("38", "Recurring schedule is already cancelled.")
    ∷ ("39", "Recurring schedule is already paused.")
    ∷ ("40", "Recurring schedule is not paused.")
    ∷ ("41", "Recurring schedule has reached a terminal state and cannot be modified.")
    ∷ ("42", "Invalid weights list length.")
    ∷ ("43", "Owner weight is below the minimum required.")
    ∷ ("44", "Invalid owner weight.")
    ∷ ("45", "Contract has already been migrated to weighted governance.")
    ∷ ("46", "Single owner weight exceeds the configured weight cap.")
    ∷ ("47", "Target owner no longer exists.")
    ∷ ("48", "Action would break the required quorum.")
    ∷ ("49", "Cannot remove the last remaining owner.")
    ∷ ("50", "Threshold exceeds the total number of owners.")
    ∷ ("51", "Recurring schedule is not active.")
    ∷ ("52", "Action requires a role that this account does not hold.")
    ∷ ("53", "Role is already granted to this account.")
    ∷ ("54", "Role is not granted to this account.")
    ∷ ("55", "Specified role is not valid for this context.")
    ∷ ("56", "This entrypoint is deprecated and can no longer be called directly.")
    ∷ ("57", "Account recovery is currently active.")
    ∷ []

abbrev pub fallback : String
fallback = "Something went wrong while processing the transaction. Please try again."

abbrev same_text : Text → Text → Bool
same_text [] [] = true
same_text (a ∷ s) (b ∷ t) = a == b && same_text s t
same_text _ _ = false

-- `CONTRACT_ERRORS[code] || fallback`; no text of the table is empty.
unfoldable pub message_of : List (String × String) → Text → String
message_of [] code = fallback
message_of ((key, text) ∷ rest) code = elim (same_text (codes key) code) [
  | true ↦ text
  | false ↦ message_of rest code
]

abbrev message_or_fallback : Option Text → String
message_or_fallback none = fallback
message_or_fallback (some code) = message_of contract_errors code

-- `contractErrorMessage`: `#` must be there and case does not count. An empty text has no match.
unfoldable pub contract_error_message : Text → String
unfolding find_code message_of
contract_error_message error = message_or_fallback (find_code true false error)
