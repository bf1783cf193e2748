-- ===== src/Sdk/Client/Request.antt =====
-- packages/sdk/src/client.ts: the state-changing methods as one type of requests.
use accord_protocol.Prelude.{String, Option, some, none, List}
use accord_protocol.Prelude.Int.{ℤ}
use accord_protocol.Prelude.Number.{Number}
use accord_protocol.Prelude.Text.{Text}
use accord_protocol.Sdk.Failure.{Result}
use accord_protocol.Sdk.Stellar.{Stellar}
use accord_protocol.Sdk.Types.{
  Role, ProposalCategory, Transfer, AssetTransfer, OwnerWeight, CreateRecurringParams,
  ModifyRecurringParams, Integer, Hash,
}
use accord_protocol.Sdk.Client.Call.{Call}
use accord_protocol.Sdk.Client.Governance
use accord_protocol.Sdk.Client.Recurring
use accord_protocol.Sdk.Client.Lifecycle
use accord_protocol.Sdk.Client.Administration

pub data Request : Type 0 where
  create_proposal :
      (proposer : String)
      → (transfers : List Transfer) → (description : Text) → (deadline : ℤ)
      → (category : ProposalCategory) → Request
  create_proposal_with_attachment :
      (proposer : String)
      → (transfers : List Transfer) → (description : Text) → (deadline : ℤ)
      → (category : ProposalCategory) → (attachment_hash : Option Hash) → Request
  create_asset_proposal :
      (proposer : String)
      → (transfers : List AssetTransfer) → (description : Text) → (deadline : ℤ)
      → (category : ProposalCategory) → Request
  create_add_owner_proposal :
      (proposer : String)
      → (new_owner : String) → (weight : Number) → (description : Text) → (deadline : ℤ)
      → (category : ProposalCategory) → Request
  create_remove_owner_proposal :
      (proposer : String)
      → (owner_to_remove : String) → (description : Text) → (deadline : ℤ)
      → (category : ProposalCategory) → Request
  create_change_threshold_proposal :
      (proposer : String)
      → (new_threshold : Number) → (description : Text) → (deadline : ℤ)
      → (category : ProposalCategory) → Request
  create_change_weight_proposal :
      (proposer : String)
      → (target_owner : String) → (new_weight : Number) → (description : Text) → (deadline : ℤ)
      → (category : ProposalCategory) → Request
  create_spending_limit_proposal :
      (proposer : String)
      → (owner : String) → (token : String) → (limit : ℤ) → (description : Text) → (deadline : ℤ)
      → (category : ProposalCategory) → Request
  create_spending_window_proposal :
      (proposer : String)
      → (owner : String) → (token : String) → (limit : ℤ) → (window_secs : ℤ) → (description : Text)
      → (deadline : ℤ) → (category : ProposalCategory) → Request
  create_recurring_proposal :
      (proposer : String)
      → (params : CreateRecurringParams) → (description : Text) → (deadline : ℤ)
      → (category : ProposalCategory) → Request
  create_cancel_recurring_proposal :
      (proposer : String)
      → (schedule_id : Integer) → (description : Text) → (deadline : ℤ)
      → (category : ProposalCategory) → Request
  create_pause_recurring_proposal :
      (proposer : String)
      → (schedule_id : Integer) → (description : Text) → (deadline : ℤ)
      → (category : ProposalCategory) → Request
  create_resume_recurring_proposal :
      (proposer : String)
      → (schedule_id : Integer) → (description : Text) → (deadline : ℤ)
      → (category : ProposalCategory) → Request
  create_modify_recurring_proposal :
      (proposer : String)
      → (params : ModifyRecurringParams) → (description : Text) → (deadline : ℤ)
      → (category : ProposalCategory) → Request
  create_grant_role_proposal :
      (proposer : String)
      → (target : String) → (role : Role) → (description : Text) → (deadline : ℤ)
      → (category : ProposalCategory) → Request
  create_revoke_role_proposal :
      (proposer : String)
      → (target : String) → (role : Role) → (description : Text) → (deadline : ℤ)
      → (category : ProposalCategory) → Request
  approve : (approver : String) → (proposal_id : Integer) → Request
  revoke : (approver : String) → (proposal_id : Integer) → Request
  execute : (executor : String) → (proposal_id : Integer) → Request
  cancel_expired : (caller : String) → (ids : List Integer) → Request
  disburse_recurring : (caller : String) → (schedule_id : Integer) → Request
  freeze : (guardian : String) → Request
  enter_recovery : (guardian : String) → Request
  initialize :
      (caller : String)
      → (owners : List String) → (threshold : Number) → (time_lock : ℤ)
      → (weights : Option (List Number)) → Request
  set_guardian : (approvers : List String) → (new_guardian : String) → Request
  unfreeze : (approvers : List String) → Request
  exit_recovery : (approvers : List String) → Request
  set_classic_asset : (approvers : List String) → (identifier : String) → (sac : String) → Request
  set_max_single_owner_weight_pct : (approvers : List String) → (max_pct : Number) → Request
  upgrade : (approvers : List String) → (new_wasm_hash : Hash) → Request
  migrate_to_weighted_governance :
      (approvers : List String) → (weights : List OwnerWeight) → Request
  migrate_to_rbac : (approvers : List String) → Request

-- Each request runs its method up to the call of `executeTransaction`.
unfoldable pub prepare : (st : Stellar) → Request → Result (Call st.ScVal)
unfolding Governance.create_proposal Governance.create_proposal_with_attachment
    Governance.create_asset_proposal Governance.create_add_owner_proposal
    Governance.create_remove_owner_proposal Governance.create_change_threshold_proposal
    Governance.create_change_weight_proposal Governance.create_spending_limit_proposal
    Governance.create_spending_window_proposal Recurring.create_recurring_proposal
    Recurring.create_cancel_recurring_proposal Recurring.create_pause_recurring_proposal
    Recurring.create_resume_recurring_proposal Recurring.create_modify_recurring_proposal
    Recurring.create_grant_role_proposal Recurring.create_revoke_role_proposal Lifecycle.approve
    Lifecycle.revoke Lifecycle.execute Lifecycle.cancel_expired Lifecycle.disburse_recurring
    Lifecycle.freeze Lifecycle.enter_recovery Administration.initialize Administration.set_guardian
    Administration.unfreeze Administration.exit_recovery Administration.set_classic_asset
    Administration.set_max_single_owner_weight_pct Administration.upgrade
    Administration.migrate_to_weighted_governance Administration.migrate_to_rbac
prepare st (create_proposal proposer transfers description deadline category) =
    Governance.create_proposal st proposer transfers description deadline category
prepare st
      (create_proposal_with_attachment proposer transfers description deadline category
        attachment_hash) =
    Governance.create_proposal_with_attachment st proposer transfers description deadline category
      attachment_hash
prepare st (create_asset_proposal proposer transfers description deadline category) =
    Governance.create_asset_proposal st proposer transfers description deadline category
prepare st (create_add_owner_proposal proposer new_owner weight description deadline category) =
    Governance.create_add_owner_proposal st proposer new_owner weight description deadline category
prepare st (create_remove_owner_proposal proposer owner_to_remove description deadline category) =
    Governance.create_remove_owner_proposal st proposer owner_to_remove description deadline
      category
prepare st (create_change_threshold_proposal proposer new_threshold description deadline category) =
    Governance.create_change_threshold_proposal st proposer new_threshold description deadline
      category
prepare st
      (create_change_weight_proposal proposer target_owner new_weight description deadline
        category) =
    Governance.create_change_weight_proposal st proposer target_owner new_weight description
      deadline category
prepare st
      (create_spending_limit_proposal proposer owner token limit description deadline category) =
    Governance.create_spending_limit_proposal st proposer owner token limit description deadline
      category
prepare st
      (create_spending_window_proposal proposer owner token limit window_secs description deadline
        category) =
    Governance.create_spending_window_proposal st proposer owner token limit window_secs description
      deadline category
prepare st (create_recurring_proposal proposer params description deadline category) =
    Recurring.create_recurring_proposal st proposer params description deadline category
prepare st (create_cancel_recurring_proposal proposer schedule_id description deadline category) =
    Recurring.create_cancel_recurring_proposal st proposer schedule_id description deadline category
prepare st (create_pause_recurring_proposal proposer schedule_id description deadline category) =
    Recurring.create_pause_recurring_proposal st proposer schedule_id description deadline category
prepare st (create_resume_recurring_proposal proposer schedule_id description deadline category) =
    Recurring.create_resume_recurring_proposal st proposer schedule_id description deadline category
prepare st (create_modify_recurring_proposal proposer params description deadline category) =
    Recurring.create_modify_recurring_proposal st proposer params description deadline category
prepare st (create_grant_role_proposal proposer target role description deadline category) =
    Recurring.create_grant_role_proposal st proposer target role description deadline category
prepare st (create_revoke_role_proposal proposer target role description deadline category) =
    Recurring.create_revoke_role_proposal st proposer target role description deadline category
prepare st (approve approver proposal_id) = Lifecycle.approve st approver proposal_id
prepare st (revoke approver proposal_id) = Lifecycle.revoke st approver proposal_id
prepare st (execute executor proposal_id) = Lifecycle.execute st executor proposal_id
prepare st (cancel_expired caller ids) = Lifecycle.cancel_expired st caller ids
prepare st (disburse_recurring caller schedule_id) =
    Lifecycle.disburse_recurring st caller schedule_id
prepare st (freeze guardian) = Lifecycle.freeze st guardian
prepare st (enter_recovery guardian) = Lifecycle.enter_recovery st guardian
prepare st (initialize caller owners threshold time_lock weights) =
    Administration.initialize st caller owners threshold time_lock weights
prepare st (set_guardian approvers new_guardian) =
    Administration.set_guardian st approvers new_guardian
prepare st (unfreeze approvers) = Administration.unfreeze st approvers
prepare st (exit_recovery approvers) = Administration.exit_recovery st approvers
prepare st (set_classic_asset approvers identifier sac) =
    Administration.set_classic_asset st approvers identifier sac
prepare st (set_max_single_owner_weight_pct approvers max_pct) =
    Administration.set_max_single_owner_weight_pct st approvers max_pct
prepare st (upgrade approvers new_wasm_hash) = Administration.upgrade st approvers new_wasm_hash
prepare st (migrate_to_weighted_governance approvers weights) =
    Administration.migrate_to_weighted_governance st approvers weights
prepare st (migrate_to_rbac approvers) = Administration.migrate_to_rbac st approvers

-- The description and the deadline of a request that creates a proposal.
abbrev pub proposal_text : Request → Option (Text × ℤ)
proposal_text (create_proposal _ _ description deadline _) = some (description, deadline)
proposal_text (create_proposal_with_attachment _ _ description deadline _ _) =
    some (description, deadline)
proposal_text (create_asset_proposal _ _ description deadline _) = some (description, deadline)
proposal_text (create_add_owner_proposal _ _ _ description deadline _) =
    some (description, deadline)
proposal_text (create_remove_owner_proposal _ _ description deadline _) =
    some (description, deadline)
proposal_text (create_change_threshold_proposal _ _ description deadline _) =
    some (description, deadline)
proposal_text (create_change_weight_proposal _ _ _ description deadline _) =
    some (description, deadline)
proposal_text (create_spending_limit_proposal _ _ _ _ description deadline _) =
    some (description, deadline)
proposal_text (create_spending_window_proposal _ _ _ _ _ description deadline _) =
    some (description, deadline)
proposal_text (create_recurring_proposal _ _ description deadline _) = some (description, deadline)
proposal_text (create_cancel_recurring_proposal _ _ description deadline _) =
    some (description, deadline)
proposal_text (create_pause_recurring_proposal _ _ description deadline _) =
    some (description, deadline)
proposal_text (create_resume_recurring_proposal _ _ description deadline _) =
    some (description, deadline)
proposal_text (create_modify_recurring_proposal _ _ description deadline _) =
    some (description, deadline)
proposal_text (create_grant_role_proposal _ _ _ description deadline _) =
    some (description, deadline)
proposal_text (create_revoke_role_proposal _ _ _ description deadline _) =
    some (description, deadline)
proposal_text _ = none
