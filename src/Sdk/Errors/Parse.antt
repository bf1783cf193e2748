-- ===== src/Sdk/Errors/Parse.antt =====
-- packages/sdk/src/errors.ts: the text of a contract error, and `parseContractError`.
use accord_protocol.Prelude.{
  ℕ, ◌<◌, ◌^◌, ◌≡◌, true, false, Option, none, some, [], ◌∷◌, ◌++◌, All, ap, ◌∙◌,
}
use accord_protocol.Prelude.Text.{
  Text, codes, decimal, decimal_value, decimal-All, decimal-ne, decimal_value-decimal,
}
use accord_protocol.Prelude.Number.{nat}
use accord_protocol.Prelude.Double.{parse_int, to_number, to_number-exact}
use accord_protocol.ContractPattern.{find_code}
use accord_protocol.ContractPattern.Found.{HasNoParen, IsSpace, spelled, find_code-digits}
use accord_protocol.Sdk.Failure.{AccordError, contract, rpc, Thrown, accord, foreign}
use accord_protocol.Sdk.Errors.{ContractError, contract_error}
use accord_protocol.Sdk.Errors.Messages.{code_name, error_message}

abbrev name_or_unknown : ℕ → Option ContractError → Text
name_or_unknown n none = codes "UnknownError_" ++ decimal n
name_or_unknown n (some e) = codes (code_name e)

abbrev message_or_unknown : ℕ → Option ContractError → Text
message_or_unknown n none =
    codes "Contract invocation failed with error code " ++ (decimal n ++ codes ".")
message_or_unknown n (some e) = codes (error_message e)

-- The texts of an error are modelled for codes that are printed without an exponent, below 10 ^ 21.
-- `codeName` of an `AccordContractError`.
unfoldable pub contract_code_name : ℕ → Text
unfolding contract_error
contract_code_name n = name_or_unknown n (contract_error n)

abbrev with_details : Text → Option Text → Text
with_details base none = base
with_details base (some []) = base
with_details base (some (c ∷ details)) = base ++ (codes " (" ++ (c ∷ details ++ codes ")"))

-- `message` of an `AccordContractError`, built by its constructor.
unfoldable pub contract_full_message : ℕ → Option Text → Text
unfolding contract_error contract_code_name decimal
contract_full_message n details =
    codes "["
    ++ (contract_code_name n
        ++ (codes " (#"
            ++ (decimal n
                ++ (codes ")] "
                    ++ with_details (message_or_unknown n (contract_error n)) details))))

abbrev by_code : Text → Option Text → AccordError
by_code text none = rpc text
by_code text (some digits) = contract (parse_int digits)

-- `parseContractError`: `#` may be left out and case counts.
unfoldable pub parse_contract_error : Thrown → AccordError
unfolding find_code parse_int
parse_contract_error (accord e) = e
parse_contract_error (foreign text) = by_code text (find_code false true text)

parse_int-decimal : (n : ℕ) → parse_int (decimal n) ≡ to_number n
unfolding parse_int decimal_value
parse_int-decimal n = ap to_number (decimal_value-decimal n)

-- A code that the host reports in the form `Error(Contract, #n)` is the number that stands for it,
-- whatever text without an opening parenthesis stands before it and whatever text follows.
pub parse_contract_error-rounded :
    (before spaces rest : Text) (n : ℕ)
    → HasNoParen before
    → All IsSpace spaces
    → parse_contract_error (foreign (before ++ spelled spaces (decimal n) rest))
      ≡ contract (to_number n)
unfolding parse_contract_error
parse_contract_error-rounded before spaces rest n h hs =
    ap (by_code _) (
      find_code-digits false true before spaces (decimal n) rest h hs (decimal-ne n)
        (decimal-All n))
    ∙ ap contract (parse_int-decimal n)

-- Any code below 2 ^ 53 that the host reports in the form `Error(Contract, #n)`, with or without
-- spaces before the number sign, is recovered exactly, whatever text without an opening parenthesis
-- stands before it and whatever text follows.
pub parse_contract_error-spelled :
    (before spaces rest : Text) (n : ℕ)
    → HasNoParen before
    → All IsSpace spaces
    → n < 2 ^ 53
    → parse_contract_error (foreign (before ++ spelled spaces (decimal n) rest)) ≡ contract (nat n)
parse_contract_error-spelled before spaces rest n h hs b =
    parse_contract_error-rounded before spaces rest n h hs ∙ ap contract (to_number-exact n b)
