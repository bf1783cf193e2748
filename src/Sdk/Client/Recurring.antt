-- ===== src/Sdk/Client/Recurring.antt =====
-- packages/sdk/src/client.ts: the proposals about recurring payments and roles.
use accord_protocol.Prelude.{String, [], ◌∷◌}
use accord_protocol.Prelude.Int.{ℤ}
use accord_protocol.Prelude.Text.{Text}
use accord_protocol.Sdk.Failure.{Result, ok, named, ◌>>=◌, ◌>>◌}
use accord_protocol.Sdk.Stellar.{Stellar}
use accord_protocol.Sdk.Validation.{
  validate_address, validate_positive_amount, validate_description, validate_deadline,
}
use accord_protocol.Sdk.Types.{
  Role, ProposalCategory, CreateRecurringParams, ModifyRecurringParams, Integer, big,
}
use accord_protocol.Sdk.Conversion.{
  address_to_sc_val, u64_to_sc_val, category_to_sc_val, role_to_sc_val,
  create_recurring_params_to_sc_val, modify_recurring_params_to_sc_val,
}
use accord_protocol.Sdk.Client.Call.{Call}

module _ (st : Stellar) where
  open st use {ScVal, scv_u32, scv_symbol, scv_string, scv_vec}

  unfoldable pub create_recurring_proposal :
      String → CreateRecurringParams → Text → ℤ → ProposalCategory → Result (Call ScVal)
  create_recurring_proposal proposer params description deadline category = do
    validate_address st proposer (named "proposer")
    validate_address st params.recipient (named "params.recipient")
    validate_address st params.token (named "params.token")
    validate_positive_amount params.amount "params.amount"
    validate_description description
    validate_deadline deadline
    sender ← address_to_sc_val st proposer
    schedule ← create_recurring_params_to_sc_val st params
    due ← u64_to_sc_val st (big deadline)
    ok (record {
      fn_name = "create_recurring_proposal";
      args = sender ∷ schedule ∷ scv_string description ∷ due ∷ category_to_sc_val st category ∷ [];
      caller = proposer;
    })

  unfoldable pub create_cancel_recurring_proposal :
      String → Integer → Text → ℤ → ProposalCategory → Result (Call ScVal)
  create_cancel_recurring_proposal proposer schedule_id description deadline category = do
    validate_address st proposer (named "proposer")
    validate_description description
    validate_deadline deadline
    sender ← address_to_sc_val st proposer
    schedule ← u64_to_sc_val st schedule_id
    due ← u64_to_sc_val st (big deadline)
    ok (record {
      fn_name = "create_cancel_recurring_proposal";
      args = sender ∷ schedule ∷ scv_string description ∷ due ∷ category_to_sc_val st category ∷ [];
      caller = proposer;
    })

  unfoldable pub create_pause_recurring_proposal :
      String → Integer → Text → ℤ → ProposalCategory → Result (Call ScVal)
  create_pause_recurring_proposal proposer schedule_id description deadline category = do
    validate_address st proposer (named "proposer")
    validate_description description
    validate_deadline deadline
    sender ← address_to_sc_val st proposer
    schedule ← u64_to_sc_val st schedule_id
    due ← u64_to_sc_val st (big deadline)
    ok (record {
      fn_name = "create_pause_recurring_proposal";
      args = sender ∷ schedule ∷ scv_string description ∷ due ∷ category_to_sc_val st category ∷ [];
      caller = proposer;
    })

  unfoldable pub create_resume_recurring_proposal :
      String → Integer → Text → ℤ → ProposalCategory → Result (Call ScVal)
  create_resume_recurring_proposal proposer schedule_id description deadline category = do
    validate_address st proposer (named "proposer")
    validate_description description
    validate_deadline deadline
    sender ← address_to_sc_val st proposer
    schedule ← u64_to_sc_val st schedule_id
    due ← u64_to_sc_val st (big deadline)
    ok (record {
      fn_name = "create_resume_recurring_proposal";
      args = sender ∷ schedule ∷ scv_string description ∷ due ∷ category_to_sc_val st category ∷ [];
      caller = proposer;
    })

  unfoldable pub create_modify_recurring_proposal :
      String → ModifyRecurringParams → Text → ℤ → ProposalCategory → Result (Call ScVal)
  create_modify_recurring_proposal proposer params description deadline category = do
    validate_address st proposer (named "proposer")
    validate_description description
    validate_deadline deadline
    sender ← address_to_sc_val st proposer
    changes ← modify_recurring_params_to_sc_val st params
    due ← u64_to_sc_val st (big deadline)
    ok (record {
      fn_name = "create_modify_recurring_proposal";
      args = sender ∷ changes ∷ scv_string description ∷ due ∷ category_to_sc_val st category ∷ [];
      caller = proposer;
    })

  unfoldable pub create_grant_role_proposal :
      String → String → Role → Text → ℤ → ProposalCategory → Result (Call ScVal)
  create_grant_role_proposal proposer target role description deadline category = do
    validate_address st proposer (named "proposer")
    validate_address st target (named "target")
    validate_description description
    validate_deadline deadline
    sender ← address_to_sc_val st proposer
    holder ← address_to_sc_val st target
    due ← u64_to_sc_val st (big deadline)
    ok (record {
      fn_name = "create_grant_role_proposal";
      args =
          sender
          ∷ holder
          ∷ role_to_sc_val st role
          ∷ scv_string description
          ∷ due
          ∷ category_to_sc_val st category
          ∷ [];
      caller = proposer;
    })

  unfoldable pub create_revoke_role_proposal :
      String → String → Role → Text → ℤ → ProposalCategory → Result (Call ScVal)
  create_revoke_role_proposal proposer target role description deadline category = do
    validate_address st proposer (named "proposer")
    validate_address st target (named "target")
    validate_description description
    validate_deadline deadline
    sender ← address_to_sc_val st proposer
    holder ← address_to_sc_val st target
    due ← u64_to_sc_val st (big deadline)
    ok (record {
      fn_name = "create_revoke_role_proposal";
      args =
          sender
          ∷ holder
          ∷ role_to_sc_val st role
          ∷ scv_string description
          ∷ due
          ∷ category_to_sc_val st category
          ∷ [];
      caller = proposer;
    })
