-- ===== src/Frontend/Submission/Texts.antt =====
-- The texts that the user sees for a failed submission.
use accord_protocol.Prelude.{◌≡◌, ◌++◌, All, false, Bool-cases, inl, inr, str_eq, eq_iff}
use accord_protocol.Prelude.Text.{Text, decimal}
use accord_protocol.ContractPattern.Found.{HasNoParen, IsSpace, spelled}
use accord_protocol.Sdk.Errors.{ContractError, error_code}
use accord_protocol.Frontend.ContractErrors.{
  contract_errors, message_of, contract_error_message, fallback,
}
use accord_protocol.Frontend.ContractErrors.Known.{contract_error_message-known}
use accord_protocol.Frontend.Submission.{is_wallet_rejection, map_submission_error}

-- An error that names a contract error of the SDK's enum in the form `Error(Contract, #n)`, with no
-- opening parenthesis before it and without a word of rejection, is shown as that error's entry of
-- the table.
pub map_submission_error-known :
    (e : ContractError) (before spaces rest : Text)
    → HasNoParen before
    → All IsSpace spaces
    → is_wallet_rejection (before ++ spelled spaces (decimal (error_code e)) rest) ≡ false
    → map_submission_error (before ++ spelled spaces (decimal (error_code e)) rest)
      ≡ message_of contract_errors (decimal (error_code e))
unfolding map_submission_error
map_submission_error-known e before spaces rest h hs accepted =
    let (shown, other) = contract_error_message-known e before spaces rest h hs in
    let text = before ++ spelled spaces (decimal (error_code e)) rest in
    elim (Bool-cases (str_eq (contract_error_message text) fallback)) [
      | inl same ↦ absurd (other ((eq_iff (contract_error_message text) fallback).0 same))
      | inr differs ↦ rw (accepted, differs) shown
    ]
