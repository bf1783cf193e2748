-- ===== src/Sdk/Client/Governance.antt =====
-- packages/sdk/src/client.ts: the proposals that move funds or change the owners.
use accord_protocol.Prelude.{String, Option, none, List, [], ◌∷◌}
use accord_protocol.Prelude.Int.{ℤ}
use accord_protocol.Prelude.Number.{Number}
use accord_protocol.Prelude.Text.{Text}
use accord_protocol.Sdk.Failure.{Result, ok, named, ◌>>=◌, ◌>>◌}
use accord_protocol.Sdk.Stellar.{Stellar}
use accord_protocol.Sdk.Validation.{
  validate_address, validate_positive_amount, validate_description, validate_deadline,
  validate_threshold, validate_weight,
}
use accord_protocol.Sdk.Types.{ProposalCategory, Transfer, AssetTransfer, big, Hash}
use accord_protocol.Sdk.Conversion.{
  address_to_sc_val, u64_to_sc_val, i128_to_sc_val, optional_bytes32_to_sc_val, category_to_sc_val,
  transfers_to_sc_val, asset_transfers_to_sc_val,
}
use accord_protocol.Sdk.Client.Call.{Call}

module _ (st : Stellar) where
  open st use {ScVal, scv_u32, scv_symbol, scv_string, scv_vec}

  -- The loop over the transfers.
  unfoldable pub validate_transfers : List Transfer → Result (Unit {0})
  validate_transfers [] = ok tt
  validate_transfers (t ∷ ts) = do
    validate_address st t.to (named "transfer.to")
    validate_address st t.token (named "transfer.token")
    validate_positive_amount t.amount "transfer.amount"
    validate_transfers ts

  unfoldable pub create_proposal :
      String → List Transfer → Text → ℤ → ProposalCategory → Result (Call ScVal)
  create_proposal proposer transfers description deadline category = do
    validate_address st proposer (named "proposer")
    validate_description description
    validate_deadline deadline
    validate_transfers transfers
    sender ← address_to_sc_val st proposer
    payments ← transfers_to_sc_val st transfers
    due ← u64_to_sc_val st (big deadline)
    ok (record {
      fn_name = "create_proposal";
      args = sender ∷ payments ∷ scv_string description ∷ due ∷ category_to_sc_val st category ∷ [];
      caller = proposer;
    })

  unfoldable pub create_proposal_with_attachment :
      String → List Transfer → Text → ℤ → ProposalCategory → Option Hash → Result (Call ScVal)
  create_proposal_with_attachment proposer transfers description deadline category attachment_hash =
      do
        validate_address st proposer (named "proposer")
        validate_description description
        validate_deadline deadline
        sender ← address_to_sc_val st proposer
        payments ← transfers_to_sc_val st transfers
        due ← u64_to_sc_val st (big deadline)
        attachment ← optional_bytes32_to_sc_val st attachment_hash
        ok (record {
          fn_name = "create_proposal_with_attachment";
          args =
              sender
              ∷ payments
              ∷ scv_string description
              ∷ due
              ∷ category_to_sc_val st category
              ∷ attachment
              ∷ [];
          caller = proposer;
        })

  unfoldable pub create_asset_proposal :
      String → List AssetTransfer → Text → ℤ → ProposalCategory → Result (Call ScVal)
  create_asset_proposal proposer transfers description deadline category = do
    validate_address st proposer (named "proposer")
    validate_description description
    validate_deadline deadline
    sender ← address_to_sc_val st proposer
    payments ← asset_transfers_to_sc_val st transfers
    due ← u64_to_sc_val st (big deadline)
    ok (record {
      fn_name = "create_asset_proposal";
      args = sender ∷ payments ∷ scv_string description ∷ due ∷ category_to_sc_val st category ∷ [];
      caller = proposer;
    })

  unfoldable pub create_add_owner_proposal :
      String → String → Number → Text → ℤ → ProposalCategory → Result (Call ScVal)
  create_add_owner_proposal proposer new_owner weight description deadline category = do
    validate_address st proposer (named "proposer")
    validate_address st new_owner (named "newOwner")
    validate_weight weight
    validate_description description
    validate_deadline deadline
    sender ← address_to_sc_val st proposer
    owner ← address_to_sc_val st new_owner
    due ← u64_to_sc_val st (big deadline)
    ok (record {
      fn_name = "create_add_owner_proposal";
      args =
          sender
          ∷ owner
          ∷ scv_u32 weight
          ∷ scv_string description
          ∷ due
          ∷ category_to_sc_val st category
          ∷ [];
      caller = proposer;
    })

  unfoldable pub create_remove_owner_proposal :
      String → String → Text → ℤ → ProposalCategory → Result (Call ScVal)
  create_remove_owner_proposal proposer owner_to_remove description deadline category = do
    validate_address st proposer (named "proposer")
    validate_address st owner_to_remove (named "ownerToRemove")
    validate_description description
    validate_deadline deadline
    sender ← address_to_sc_val st proposer
    owner ← address_to_sc_val st owner_to_remove
    due ← u64_to_sc_val st (big deadline)
    ok (record {
      fn_name = "create_remove_owner_proposal";
      args = sender ∷ owner ∷ scv_string description ∷ due ∷ category_to_sc_val st category ∷ [];
      caller = proposer;
    })

  unfoldable pub create_change_threshold_proposal :
      String → Number → Text → ℤ → ProposalCategory → Result (Call ScVal)
  create_change_threshold_proposal proposer new_threshold description deadline category = do
    validate_address st proposer (named "proposer")
    validate_threshold new_threshold none
    validate_description description
    validate_deadline deadline
    sender ← address_to_sc_val st proposer
    due ← u64_to_sc_val st (big deadline)
    ok (record {
      fn_name = "create_change_threshold_proposal";
      args =
          sender
          ∷ scv_u32 new_threshold
          ∷ scv_string description
          ∷ due
          ∷ category_to_sc_val st category
          ∷ [];
      caller = proposer;
    })

  unfoldable pub create_change_weight_proposal :
      String → String → Number → Text → ℤ → ProposalCategory → Result (Call ScVal)
  create_change_weight_proposal proposer target_owner new_weight description deadline category = do
    validate_address st proposer (named "proposer")
    validate_address st target_owner (named "targetOwner")
    validate_weight new_weight
    validate_description description
    validate_deadline deadline
    sender ← address_to_sc_val st proposer
    owner ← address_to_sc_val st target_owner
    due ← u64_to_sc_val st (big deadline)
    ok (record {
      fn_name = "create_change_weight_proposal";
      args =
          sender
          ∷ owner
          ∷ scv_u32 new_weight
          ∷ scv_string description
          ∷ due
          ∷ category_to_sc_val st category
          ∷ [];
      caller = proposer;
    })

  unfoldable pub create_spending_limit_proposal :
      String → String → String → ℤ → Text → ℤ → ProposalCategory → Result (Call ScVal)
  create_spending_limit_proposal proposer owner token limit description deadline category = do
    validate_address st proposer (named "proposer")
    validate_address st owner (named "owner")
    validate_address st token (named "token")
    validate_description description
    validate_deadline deadline
    sender ← address_to_sc_val st proposer
    spender ← address_to_sc_val st owner
    asset ← address_to_sc_val st token
    most ← i128_to_sc_val st (big limit)
    due ← u64_to_sc_val st (big deadline)
    ok (record {
      fn_name = "create_spending_limit_proposal";
      args =
          sender
          ∷ spender
          ∷ asset
          ∷ most
          ∷ scv_string description
          ∷ due
          ∷ category_to_sc_val st category
          ∷ [];
      caller = proposer;
    })

  unfoldable pub create_spending_window_proposal :
      String → String → String → ℤ → ℤ → Text → ℤ → ProposalCategory → Result (Call ScVal)
  create_spending_window_proposal proposer owner token limit window_secs description deadline
        category =
      do
        validate_address st proposer (named "proposer")
        validate_address st owner (named "owner")
        validate_address st token (named "token")
        validate_description description
        validate_deadline deadline
        sender ← address_to_sc_val st proposer
        spender ← address_to_sc_val st owner
        asset ← address_to_sc_val st token
        most ← i128_to_sc_val st (big limit)
        window ← u64_to_sc_val st (big window_secs)
        due ← u64_to_sc_val st (big deadline)
        ok (record {
          fn_name = "create_spending_window_proposal";
          args =
              sender
              ∷ spender
              ∷ asset
              ∷ most
              ∷ window
              ∷ scv_string description
              ∷ due
              ∷ category_to_sc_val st category
              ∷ [];
          caller = proposer;
        })
