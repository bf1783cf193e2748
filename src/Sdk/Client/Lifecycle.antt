-- ===== src/Sdk/Client/Lifecycle.antt =====
-- packages/sdk/src/client.ts: what a single caller does to proposals, schedules and the treasury.
use accord_protocol.Prelude.{String, List, [], ◌∷◌}
use accord_protocol.Sdk.Failure.{Result, ok, named, ◌>>=◌, ◌>>◌}
use accord_protocol.Sdk.Stellar.{Stellar}
use accord_protocol.Sdk.Validation.{validate_address}
use accord_protocol.Sdk.Types.{Integer}
use accord_protocol.Sdk.Conversion.{traverse, address_to_sc_val, u64_to_sc_val}
use accord_protocol.Sdk.Client.Call.{Call}

module _ (st : Stellar) where
  open st use {ScVal, scv_u32, scv_symbol, scv_string, scv_vec}

  unfoldable pub approve : String → Integer → Result (Call ScVal)
  approve approver proposal_id = do
    validate_address st approver (named "approver")
    sender ← address_to_sc_val st approver
    proposal ← u64_to_sc_val st proposal_id
    ok (record { fn_name = "approve"; args = sender ∷ proposal ∷ []; caller = approver })

  unfoldable pub revoke : String → Integer → Result (Call ScVal)
  revoke approver proposal_id = do
    validate_address st approver (named "approver")
    sender ← address_to_sc_val st approver
    proposal ← u64_to_sc_val st proposal_id
    ok (record { fn_name = "revoke"; args = sender ∷ proposal ∷ []; caller = approver })

  unfoldable pub execute : String → Integer → Result (Call ScVal)
  execute executor proposal_id = do
    validate_address st executor (named "executor")
    sender ← address_to_sc_val st executor
    proposal ← u64_to_sc_val st proposal_id
    ok (record { fn_name = "execute"; args = sender ∷ proposal ∷ []; caller = executor })

  unfoldable pub cancel_expired : String → List Integer → Result (Call ScVal)
  cancel_expired caller ids = do
    validate_address st caller (named "caller")
    sender ← address_to_sc_val st caller
    proposals ← traverse (u64_to_sc_val st) ids
    ok (record {
      fn_name = "cancel_expired";
      args = sender ∷ scv_vec proposals ∷ [];
      caller = caller;
    })

  unfoldable pub disburse_recurring : String → Integer → Result (Call ScVal)
  disburse_recurring caller schedule_id = do
    validate_address st caller (named "caller")
    sender ← address_to_sc_val st caller
    schedule ← u64_to_sc_val st schedule_id
    ok (record { fn_name = "disburse_recurring"; args = sender ∷ schedule ∷ []; caller = caller })

  unfoldable pub freeze : String → Result (Call ScVal)
  freeze guardian = do
    validate_address st guardian (named "guardian")
    sender ← address_to_sc_val st guardian
    ok (record { fn_name = "freeze"; args = sender ∷ []; caller = guardian })

  unfoldable pub enter_recovery : String → Result (Call ScVal)
  enter_recovery guardian = do
    validate_address st guardian (named "guardian")
    sender ← address_to_sc_val st guardian
    ok (record { fn_name = "enter_recovery"; args = sender ∷ []; caller = guardian })
