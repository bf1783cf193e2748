-- ===== src/Sdk/Examples.antt =====
-- The SDK's theorems at concrete inputs, over a Stellar SDK and a network that are written out here.
use accord_protocol.Prelude.{
  ◌^◌, none, ℕ, suc, String, ◌≡◌, refl, Bool, ◌||◌, some, List, [], ◌∷◌, ◌++◌, str_eq, eq_iff,
  arith, ◌↔◌, All, ◌≢◌,
}
use accord_protocol.Prelude.Int.{ℤ, pos}
use accord_protocol.Prelude.Double.{to_number, rounded, halvings}
use accord_protocol.Prelude.Number.{nat, infinity, Number}
use accord_protocol.Prelude.Text.{Text, codes, decimal, drop_while, is_space}
use accord_protocol.ContractPattern.Found.{spelled, IsSpace, HasNoParen}
use accord_protocol.Sdk.Failure.{ok, err, accord, foreign, contract}
use accord_protocol.Sdk.Stellar.{Stellar}
use accord_protocol.Sdk.Types.{Transfer, ProposalCategory}
use accord_protocol.Sdk.Errors.Parse.{parse_contract_error, parse_contract_error-spelled}
use accord_protocol.Sdk.Validation.{
  validate_address, validate_addresses, validate_description, validate_deadline,
  validate_positive_amount,
}
use accord_protocol.Sdk.Validation.Addresses.{IsAddress, IsDistinct, validate_addresses_iff}
use accord_protocol.Sdk.Client.Call.{Call}
use accord_protocol.Sdk.Client.Request.{Request, create_proposal, prepare, proposal_text}
use accord_protocol.Sdk.Client.Governance.{validate_transfers}
use accord_protocol.Sdk.Client.Checked.{prepare-IsAddress}
use accord_protocol.Sdk.Client.Proposed.{
  IsTextChecked, IsPayable, prepare-IsTextChecked, create_proposal-IsPayable,
}
use accord_protocol.Sdk.Client.Transaction.{
  fetched, simulated, signed, sent, success, failure, hash, Host, execute_transaction, submit,
}
use accord_protocol.Sdk.Client.Transaction.Protocol.{Protocol, execute_transaction-Protocol}
use accord_protocol.Sdk.Client.Transaction.Outcome.{
  IsAccord, Delivery, execute_transaction-IsAccord, execute_transaction-ok,
  execute_transaction-contract,
}
use accord_protocol.Sdk.Client.Transaction.Submission.{IsSendable, submit-IsSendable}
use accord_protocol.Sdk.Client.View.{Reader, simulate_view}
use accord_protocol.Sdk.Client.View.Reading.{IsReading, simulate_view-IsReading}

-- Contract values as sequences of tokens.
data Token : Type 0 where
  account : String → Token
  int64 int128 : ℤ → Token
  uint32 : Number → Token
  symbol : String → Token
  text : Text → Token
  boolean : Bool → Token
  binary : List ℕ → Token
  unit opening closing : Token

abbrev flat : List (List Token) → List Token
flat [] = []
flat (v ∷ vs) = v ++ flat vs

abbrev flat_pairs : List (List Token × List Token) → List Token
flat_pairs [] = []
flat_pairs ((k, v) ∷ vs) = k ++ (v ++ flat_pairs vs)

abbrev sdk : Stellar
sdk = record {
  is_valid_account = λ a. str_eq a "GALICE" || str_eq a "GBOB";
  is_valid_contract = λ a. str_eq a "CTOKEN";
  ScVal = List Token;
  address = λ a. ok (account a ∷ []);
  native_u64 = λ n. ok (int64 n ∷ []);
  native_i128 = λ n. ok (int128 n ∷ []);
  scv_u32 = λ n. uint32 n ∷ [];
  scv_symbol = λ s. symbol s ∷ [];
  scv_string = λ s. text s ∷ [];
  scv_bool = λ b. boolean b ∷ [];
  scv_bytes = λ b. binary b ∷ [];
  scv_void = unit ∷ [];
  scv_vec = λ vs. opening ∷ (flat vs ++ (closing ∷ []));
  scv_map = λ vs. opening ∷ (flat_pairs vs ++ (closing ∷ []));
  hex_bytes = λ s. s;
}

-- Transactions are numbered by how far they have come.
abbrev network : Host (List Token)
network = record {
  Account = String;
  Tx = ℕ;
  Simulation = Bool;
  get_account = λ l a. ok a;
  simulate = λ l tx. ok (success Bool.true);
  send = λ l tx. ok (hash "abc");
  build = λ a call. ok 1;
  assemble = λ tx sim. ok (suc tx);
  sign = some (λ l tx. ok (suc tx));
}

-- The simulation reports the contract error 13.
abbrev report : Text
report = codes "HostError: " ++ spelled (codes " ") (decimal 13) (codes " in approve")

abbrev refusing : Host (List Token)
refusing = record {
  Account = String;
  Tx = ℕ;
  Simulation = Bool;
  get_account = λ l a. ok a;
  simulate = λ l tx. ok (failure (some report));
  send = λ l tx. ok (hash "abc");
  build = λ a call. ok 1;
  assemble = λ tx sim. ok (suc tx);
  sign = some (λ l tx. ok (suc tx));
}

abbrev approval : Call (List Token)
approval = record { fn_name = "approve"; args = []; caller = "GALICE" }

abbrev owners : List String
owners = "GALICE" ∷ "GBOB" ∷ []

abbrev payment : Transfer
payment = record { to = "GBOB"; token = "CTOKEN"; amount = pos 5 }

abbrev proposal : Request
proposal =
    create_proposal "GALICE" (payment ∷ []) (codes "Rent") (pos 1000) ProposalCategory.transfer

test_delivered :
    execute_transaction sdk network approval []
    ≡ (ok "abc", sent 3 ∷ signed 2 ∷ simulated 1 ∷ fetched "GALICE" ∷ [])
unfolding execute_transaction validate_address
test_delivered = refl

test_prepared : (c : Call (List Token)) × (prepare sdk proposal ≡ ok c)
unfolding prepare validate_address validate_description validate_deadline validate_positive_amount
    drop_while is_space validate_transfers
test_prepared = (_, refl)

test_submitted :
    submit sdk network proposal []
    ≡ (ok "abc", sent 3 ∷ signed 2 ∷ simulated 1 ∷ fetched "GALICE" ∷ [])
unfolding submit execute_transaction prepare validate_address validate_description validate_deadline
    validate_positive_amount drop_while is_space validate_transfers
test_submitted = refl

submitted_log : (submit sdk network proposal []).1 ≢ []
submitted_log = rw test_submitted (ground arith)

test_caller : IsAddress sdk "GALICE"
test_caller = (
  λ e. let same : str_eq "GALICE" "" ≡ Bool.true = (eq_iff "GALICE" "").1 e in absurd (cc same),
  refl,
)

test_spaces : All IsSpace (codes " ")
unfolding is_space
test_spaces = ground arith

test_before : HasNoParen (codes "HostError: ")
test_before = ground arith

execute_transaction-Protocol_example :
    Protocol sdk network approval [] (execute_transaction sdk network approval []).1
execute_transaction-Protocol_example = execute_transaction-Protocol sdk network approval []

execute_transaction-IsAccord_example : IsAccord (execute_transaction sdk network approval []).0
execute_transaction-IsAccord_example = execute_transaction-IsAccord sdk network approval []

execute_transaction-ok_example :
    Delivery sdk network approval [] "abc" (sent 3 ∷ signed 2 ∷ simulated 1 ∷ fetched "GALICE" ∷ [])
execute_transaction-ok_example =
    execute_transaction-ok sdk network approval [] "abc"
      (sent 3 ∷ signed 2 ∷ simulated 1 ∷ fetched "GALICE" ∷ []) test_delivered

execute_transaction-contract_example :
    execute_transaction sdk refusing approval []
    ≡ (err (accord (contract (nat 13))), simulated 1 ∷ fetched "GALICE" ∷ [])
execute_transaction-contract_example =
    execute_transaction-contract sdk refusing approval [] (λ l tx. ok (suc tx)) "GALICE" 1
      (codes "HostError: ") (codes " ") (codes " in approve") 13 test_caller refl refl refl refl
      test_before test_spaces

submit-IsSendable_example : IsSendable sdk network proposal []
submit-IsSendable_example = submit-IsSendable sdk network proposal [] submitted_log

prepare-IsAddress_example : IsAddress sdk test_prepared.0.caller
prepare-IsAddress_example = prepare-IsAddress sdk proposal test_prepared.1

prepare-IsTextChecked_example : IsTextChecked (proposal_text proposal)
prepare-IsTextChecked_example = prepare-IsTextChecked sdk proposal test_prepared.1

create_proposal-IsPayable_example : All (IsPayable sdk) (payment ∷ [])
create_proposal-IsPayable_example =
    create_proposal-IsPayable sdk "GALICE" (payment ∷ []) (codes "Rent") (pos 1000)
      ProposalCategory.transfer test_prepared.1

validate_addresses_iff_example :
    (validate_addresses sdk owners "approvers" ≡ ok tt)
    ↔ ((owners ≢ []) × All (IsAddress sdk) owners × IsDistinct owners)
validate_addresses_iff_example = validate_addresses_iff sdk owners "approvers"

parse_contract_error-spelled_example : parse_contract_error (foreign report) ≡ contract (nat 13)
parse_contract_error-spelled_example =
    parse_contract_error-spelled (codes "HostError: ") (codes " ") (codes " in approve") 13
      test_before test_spaces (omega arith)

-- The account cannot be fetched, and the simulation has no value.
abbrev reader : Reader (List Token)
reader = record {
  Account = String;
  Tx = ℕ;
  Simulation = Bool;
  source_account = none;
  random_key = "GRANDOM";
  get_account = λ l a. err (foreign (codes "offline"));
  new_account = λ a. ok a;
  build = λ a fn args. ok 1;
  simulate = λ l tx. ok (success Bool.true);
  retval = λ sim. none;
}

simulate_view-IsReading_example :
    IsReading sdk reader "get_owners" [] [] (simulate_view sdk reader "get_owners" [] []).1
    × IsAccord (simulate_view sdk reader "get_owners" [] []).0
simulate_view-IsReading_example = simulate_view-IsReading sdk reader "get_owners" [] []

-- Codes that no double denotes are rounded.
test_tie : to_number 9007199254740993 ≡ nat 9007199254740992
unfolding rounded halvings
test_tie = refl

test_up : to_number 9007199254740995 ≡ nat 9007199254740996
unfolding rounded halvings
test_up = refl

test_infinity : to_number (2 ^ 1024) ≡ infinity
unfolding rounded halvings
test_infinity = refl
