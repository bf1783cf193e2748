-- ===== src/Frontend/ContractErrors/Known.antt =====
-- The errors that the front end has a text for.
use accord_protocol.Prelude.{◌≡◌, ◌≢◌, refl, sym, ap, ◌∙◌, ◌++◌, All, true, false, str_eq, eq_iff}
use accord_protocol.Prelude.Text.{Text, decimal, decimal-All, decimal-ne}
use accord_protocol.ContractPattern.Found.{HasNoParen, IsSpace, spelled, find_code-digits}
use accord_protocol.Sdk.Errors.{ContractError, error_code}
use accord_protocol.Frontend.ContractErrors.{
  contract_errors, message_of, message_or_fallback, contract_error_message, fallback,
}

message_of-known :
    (e : ContractError)
    → str_eq (message_of contract_errors (decimal (error_code e))) fallback ≡ false
unfolding message_of decimal
message_of-known ContractError.already_initialized = refl
message_of-known _ = refl

message_of-ne : (e : ContractError) → message_of contract_errors (decimal (error_code e)) ≢ fallback
message_of-ne e h = let same = (eq_iff _ fallback).1 h in absurd (cc (message_of-known e, same))

-- For every error of the SDK's enum, a text that has its code in the form `Error(Contract, #n)`,
-- with no opening parenthesis before it, is shown by the front end as that code's entry of its
-- table, which is not the fallback.
pub contract_error_message-known :
    (e : ContractError) (before spaces rest : Text)
    → HasNoParen before
    → All IsSpace spaces
    → (contract_error_message (before ++ spelled spaces (decimal (error_code e)) rest)
        ≡ message_of contract_errors (decimal (error_code e)))
      × (contract_error_message (before ++ spelled spaces (decimal (error_code e)) rest) ≢ fallback)
unfolding contract_error_message
contract_error_message-known e before spaces rest h hs =
    let shown = ap message_or_fallback (
      find_code-digits true false before spaces _ rest h hs (decimal-ne (error_code e))
        (decimal-All (error_code e))) in
    (shown, λ f. message_of-ne e (sym shown ∙ f))
