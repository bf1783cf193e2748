-- ===== src/Sdk/Client/Checked.antt =====
-- What every request has been checked for when it reaches `executeTransaction`.
use accord_protocol.Prelude.{String, ◌≡◌, refl, List, [], ◌∷◌, arith}
use accord_protocol.Sdk.Failure.{ok, named}
use accord_protocol.Sdk.Stellar.{Stellar}
use accord_protocol.Sdk.Validation.{validate_address, validate_addresses}
use accord_protocol.Sdk.Validation.Addresses.{
  IsAddress, validate_address_iff, validate_addresses_iff,
}
use accord_protocol.Sdk.Client.Call.{Call}
use accord_protocol.Sdk.Client.Administration.{first}
use accord_protocol.Sdk.Client.Request.{
  Request, prepare, create_proposal, create_proposal_with_attachment, create_asset_proposal,
  create_add_owner_proposal, create_remove_owner_proposal, create_change_threshold_proposal,
  create_change_weight_proposal, create_spending_limit_proposal, create_spending_window_proposal,
  create_recurring_proposal, create_cancel_recurring_proposal, create_pause_recurring_proposal,
  create_resume_recurring_proposal, create_modify_recurring_proposal, create_grant_role_proposal,
  create_revoke_role_proposal, approve, revoke, execute, cancel_expired, disburse_recurring, freeze,
  enter_recovery, initialize, set_guardian, unfreeze, exit_recovery, set_classic_asset,
  set_max_single_owner_weight_pct, upgrade, migrate_to_weighted_governance, migrate_to_rbac,
}

module _ (st : Stellar) where
  IsAddress-of_check :
      (a : String) (name : String) → validate_address st a (named name) ≡ ok tt → IsAddress st a
  IsAddress-of_check a name h = (validate_address_iff st a _).0 h

  first-IsAddress :
      (xs : List String) → validate_addresses st xs "approvers" ≡ ok tt → IsAddress st (first xs)
  first-IsAddress [] h = absurd (((validate_addresses_iff st [] _).0 h).0 refl)
  first-IsAddress (a ∷ rest) h = ((validate_addresses_iff st (a ∷ rest) _).0 h).1.0

  -- Whatever the request, the account that signs it is a valid address.
  pub prepare-IsAddress :
      (r : Request) {c : Call st.ScVal} → prepare st r ≡ ok c → IsAddress st c.caller
  unfolding prepare
  prepare-IsAddress (create_proposal proposer transfers description deadline category) h =
      ground (arith, IsAddress-of_check proposer "proposer")
  prepare-IsAddress
        (create_proposal_with_attachment proposer transfers description deadline category
          attachment_hash)
        h =
      ground (arith, IsAddress-of_check proposer "proposer")
  prepare-IsAddress (create_asset_proposal proposer transfers description deadline category) h =
      ground (arith, IsAddress-of_check proposer "proposer")
  prepare-IsAddress
        (create_add_owner_proposal proposer new_owner weight description deadline category) h =
      ground (arith, IsAddress-of_check proposer "proposer")
  prepare-IsAddress
        (create_remove_owner_proposal proposer owner_to_remove description deadline category) h =
      ground (arith, IsAddress-of_check proposer "proposer")
  prepare-IsAddress
        (create_change_threshold_proposal proposer new_threshold description deadline category) h =
      ground (arith, IsAddress-of_check proposer "proposer")
  prepare-IsAddress
        (create_change_weight_proposal proposer target_owner new_weight description deadline
          category)
        h =
      ground (arith, IsAddress-of_check proposer "proposer")
  prepare-IsAddress
        (create_spending_limit_proposal proposer owner token limit description deadline category)
        h =
      ground (arith, IsAddress-of_check proposer "proposer")
  prepare-IsAddress
        (create_spending_window_proposal proposer owner token limit window_secs description deadline
          category)
        h =
      ground (arith, IsAddress-of_check proposer "proposer")
  prepare-IsAddress (create_recurring_proposal proposer params description deadline category) h =
      ground (arith, IsAddress-of_check proposer "proposer")
  prepare-IsAddress
        (create_cancel_recurring_proposal proposer schedule_id description deadline category) h =
      ground (arith, IsAddress-of_check proposer "proposer")
  prepare-IsAddress
        (create_pause_recurring_proposal proposer schedule_id description deadline category) h =
      ground (arith, IsAddress-of_check proposer "proposer")
  prepare-IsAddress
        (create_resume_recurring_proposal proposer schedule_id description deadline category) h =
      ground (arith, IsAddress-of_check proposer "proposer")
  prepare-IsAddress (create_modify_recurring_proposal proposer params description deadline category)
        h =
      ground (arith, IsAddress-of_check proposer "proposer")
  prepare-IsAddress (create_grant_role_proposal proposer target role description deadline category)
        h =
      ground (arith, IsAddress-of_check proposer "proposer")
  prepare-IsAddress (create_revoke_role_proposal proposer target role description deadline category)
        h =
      ground (arith, IsAddress-of_check proposer "proposer")
  prepare-IsAddress (approve approver proposal_id) h =
      ground (arith, IsAddress-of_check approver "approver")
  prepare-IsAddress (revoke approver proposal_id) h =
      ground (arith, IsAddress-of_check approver "approver")
  prepare-IsAddress (execute executor proposal_id) h =
      ground (arith, IsAddress-of_check executor "executor")
  prepare-IsAddress (cancel_expired caller ids) h =
      ground (arith, IsAddress-of_check caller "caller")
  prepare-IsAddress (disburse_recurring caller schedule_id) h =
      ground (arith, IsAddress-of_check caller "caller")
  prepare-IsAddress (freeze guardian) h = ground (arith, IsAddress-of_check guardian "guardian")
  prepare-IsAddress (enter_recovery guardian) h =
      ground (arith, IsAddress-of_check guardian "guardian")
  prepare-IsAddress (initialize caller owners threshold time_lock weights) h =
      ground (arith, IsAddress-of_check caller "caller")
  prepare-IsAddress (set_guardian approvers new_guardian) h =
      ground (arith, first-IsAddress approvers)
  prepare-IsAddress (unfreeze approvers) h = ground (arith, first-IsAddress approvers)
  prepare-IsAddress (exit_recovery approvers) h = ground (arith, first-IsAddress approvers)
  prepare-IsAddress (set_classic_asset approvers identifier sac) h =
      ground (arith, first-IsAddress approvers)
  prepare-IsAddress (set_max_single_owner_weight_pct approvers max_pct) h =
      ground (arith, first-IsAddress approvers)
  prepare-IsAddress (upgrade approvers new_wasm_hash) h = ground (arith, first-IsAddress approvers)
  prepare-IsAddress (migrate_to_weighted_governance approvers weights) h =
      ground (arith, first-IsAddress approvers)
  prepare-IsAddress (migrate_to_rbac approvers) h = ground (arith, first-IsAddress approvers)
