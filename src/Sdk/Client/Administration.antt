-- ===== src/Sdk/Client/Administration.antt =====
-- packages/sdk/src/client.ts: initialisation, and what a list of approvers does at once.
use accord_protocol.Prelude.{
  String, Option, none, some, List, [], ◌∷◌, ◌||◌, not, if◌then◌else◌, map,
}
use accord_protocol.Prelude.Int.{ℤ}
use accord_protocol.Prelude.Number.{Number, nat, is_integer, ltb_number}
use accord_protocol.Sdk.Failure.{Result, ok, named, reject, max_pct_out_of_range, ◌>>=◌, ◌>>◌}
use accord_protocol.Sdk.Stellar.{Stellar}
use accord_protocol.Sdk.Validation.{validate_address, validate_addresses, validate_threshold}
use accord_protocol.Sdk.Types.{OwnerWeight, big, Hash}
use accord_protocol.Sdk.Conversion.{
  address_to_sc_val, addresses_to_sc_val, u64_to_sc_val, bytes32_to_sc_val, owner_weights_to_sc_val,
}
use accord_protocol.Sdk.Client.Call.{Call}

-- `approvers[0]`; the list is not empty where this is read.
abbrev pub first : List String → String
first [] = ""
first (a ∷ rest) = a

unfoldable pub validate_max_pct : Number → Result (Unit {0})
validate_max_pct p =
    if not (is_integer p) || ltb_number p (nat 1) || ltb_number (nat 50) p
    then reject (named "maxPct") max_pct_out_of_range
    else ok tt

module _ (st : Stellar) where
  open st use {ScVal, scv_u32, scv_symbol, scv_string, scv_vec}

  abbrev weight_args : Option (List Number) → List ScVal
  weight_args none = []
  weight_args (some ws) = scv_vec (map scv_u32 ws) ∷ []

  unfoldable pub initialize :
      String → List String → Number → ℤ → Option (List Number) → Result (Call ScVal)
  initialize caller owners threshold time_lock weights = do
    validate_address st caller (named "caller")
    validate_addresses st owners "owners"
    validate_threshold threshold none
    members ← addresses_to_sc_val st owners
    delay ← u64_to_sc_val st (big time_lock)
    ok (record {
      fn_name = "initialize";
      args = members ∷ scv_u32 threshold ∷ delay ∷ weight_args weights;
      caller = caller;
    })

  unfoldable pub set_guardian : List String → String → Result (Call ScVal)
  set_guardian approvers new_guardian = do
    validate_addresses st approvers "approvers"
    validate_address st new_guardian (named "newGuardian")
    signers ← addresses_to_sc_val st approvers
    guardian ← address_to_sc_val st new_guardian
    ok (record {
      fn_name = "set_guardian";
      args = signers ∷ guardian ∷ [];
      caller = (first approvers);
    })

  unfoldable pub unfreeze : List String → Result (Call ScVal)
  unfreeze approvers = do
    validate_addresses st approvers "approvers"
    signers ← addresses_to_sc_val st approvers
    ok (record { fn_name = "unfreeze"; args = signers ∷ []; caller = (first approvers) })

  unfoldable pub exit_recovery : List String → Result (Call ScVal)
  exit_recovery approvers = do
    validate_addresses st approvers "approvers"
    signers ← addresses_to_sc_val st approvers
    ok (record { fn_name = "exit_recovery"; args = signers ∷ []; caller = (first approvers) })

  unfoldable pub set_classic_asset : List String → String → String → Result (Call ScVal)
  set_classic_asset approvers identifier sac = do
    validate_addresses st approvers "approvers"
    validate_address st sac (named "sac")
    signers ← addresses_to_sc_val st approvers
    asset ← address_to_sc_val st sac
    ok (record {
      fn_name = "set_classic_asset";
      args = signers ∷ scv_symbol identifier ∷ asset ∷ [];
      caller = (first approvers);
    })

  unfoldable pub set_max_single_owner_weight_pct : List String → Number → Result (Call ScVal)
  set_max_single_owner_weight_pct approvers max_pct = do
    validate_addresses st approvers "approvers"
    validate_max_pct max_pct
    signers ← addresses_to_sc_val st approvers
    ok (record {
      fn_name = "set_max_single_owner_weight_pct";
      args = signers ∷ scv_u32 max_pct ∷ [];
      caller = (first approvers);
    })

  unfoldable pub upgrade : List String → Hash → Result (Call ScVal)
  upgrade approvers new_wasm_hash = do
    validate_addresses st approvers "approvers"
    signers ← addresses_to_sc_val st approvers
    wasm ← bytes32_to_sc_val st new_wasm_hash
    ok (record { fn_name = "upgrade"; args = signers ∷ wasm ∷ []; caller = (first approvers) })

  unfoldable pub migrate_to_weighted_governance :
      List String → List OwnerWeight → Result (Call ScVal)
  migrate_to_weighted_governance approvers weights = do
    validate_addresses st approvers "approvers"
    signers ← addresses_to_sc_val st approvers
    table ← owner_weights_to_sc_val st weights
    ok (record {
      fn_name = "migrate_to_weighted_governance";
      args = signers ∷ table ∷ [];
      caller = (first approvers);
    })

  unfoldable pub migrate_to_rbac : List String → Result (Call ScVal)
  migrate_to_rbac approvers = do
    validate_addresses st approvers "approvers"
    signers ← addresses_to_sc_val st approvers
    ok (record { fn_name = "migrate_to_rbac"; args = signers ∷ []; caller = (first approvers) })
