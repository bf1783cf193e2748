-- ===== src/Sdk/Errors/Messages.antt =====
-- packages/sdk/src/errors.ts: the names and the messages of the contract's errors.
use Prim.Native.String.{String}
use accord_protocol.Sdk.Errors.{
  ContractError, already_initialized, not_initialized, unauthorized, invalid_threshold,
  invalid_owners, proposal_not_found, proposal_not_active, already_approved, not_approved,
  threshold_not_met, proposal_expired, invalid_amount, invalid_deadline, invalid_token,
  transfer_failed, empty_description, description_too_long, too_many_active_proposals,
  duplicate_owner, arithmetic_error, invalid_duration, invalid_recipient, time_lock_active,
  would_break_threshold, owner_not_found, contract_frozen, no_guardian, invalid_interval,
  invalid_schedule, invalid_cap, spending_limit_exceeded, recurring_payment_not_found,
  recurring_payment_not_due, recurring_payment_complete, recurring_payment_inactive,
  recurring_interval_not_elapsed, too_many_active_recurring, schedule_already_cancelled,
  schedule_already_paused, schedule_not_paused, schedule_terminal, invalid_weights_length,
  weight_below_minimum, invalid_weight, already_migrated, single_owner_weight_cap_exceeded,
  target_owner_no_longer_exists, would_break_quorum, cannot_remove_last_owner,
  threshold_exceeds_owner_count, schedule_not_active, missing_role, role_already_granted,
  role_not_granted, invalid_role, deprecated_entrypoint, recovery_active,
}

-- The name of a member, as `ContractError[n]` gives it.
abbrev pub code_name : ContractError → String
code_name already_initialized = "AlreadyInitialized"
code_name not_initialized = "NotInitialized"
code_name unauthorized = "Unauthorized"
code_name invalid_threshold = "InvalidThreshold"
code_name invalid_owners = "InvalidOwners"
code_name proposal_not_found = "ProposalNotFound"
code_name proposal_not_active = "ProposalNotActive"
code_name already_approved = "AlreadyApproved"
code_name not_approved = "NotApproved"
code_name threshold_not_met = "ThresholdNotMet"
code_name proposal_expired = "ProposalExpired"
code_name invalid_amount = "InvalidAmount"
code_name invalid_deadline = "InvalidDeadline"
code_name invalid_token = "InvalidToken"
code_name transfer_failed = "TransferFailed"
code_name empty_description = "EmptyDescription"
code_name description_too_long = "DescriptionTooLong"
code_name too_many_active_proposals = "TooManyActiveProposals"
code_name duplicate_owner = "DuplicateOwner"
code_name arithmetic_error = "ArithmeticError"
code_name invalid_duration = "InvalidDuration"
code_name invalid_recipient = "InvalidRecipient"
code_name time_lock_active = "TimeLockActive"
code_name would_break_threshold = "WouldBreakThreshold"
code_name owner_not_found = "OwnerNotFound"
code_name contract_frozen = "ContractFrozen"
code_name no_guardian = "NoGuardian"
code_name invalid_interval = "InvalidInterval"
code_name invalid_schedule = "InvalidSchedule"
code_name invalid_cap = "InvalidCap"
code_name spending_limit_exceeded = "SpendingLimitExceeded"
code_name recurring_payment_not_found = "RecurringPaymentNotFound"
code_name recurring_payment_not_due = "RecurringPaymentNotDue"
code_name recurring_payment_complete = "RecurringPaymentComplete"
code_name recurring_payment_inactive = "RecurringPaymentInactive"
code_name recurring_interval_not_elapsed = "RecurringIntervalNotElapsed"
code_name too_many_active_recurring = "TooManyActiveRecurring"
code_name schedule_already_cancelled = "ScheduleAlreadyCancelled"
code_name schedule_already_paused = "ScheduleAlreadyPaused"
code_name schedule_not_paused = "ScheduleNotPaused"
code_name schedule_terminal = "ScheduleTerminal"
code_name invalid_weights_length = "InvalidWeightsLength"
code_name weight_below_minimum = "WeightBelowMinimum"
code_name invalid_weight = "InvalidWeight"
code_name already_migrated = "AlreadyMigrated"
code_name single_owner_weight_cap_exceeded = "SingleOwnerWeightCapExceeded"
code_name target_owner_no_longer_exists = "TargetOwnerNoLongerExists"
code_name would_break_quorum = "WouldBreakQuorum"
code_name cannot_remove_last_owner = "CannotRemoveLastOwner"
code_name threshold_exceeds_owner_count = "ThresholdExceedsOwnerCount"
code_name schedule_not_active = "ScheduleNotActive"
code_name missing_role = "MissingRole"
code_name role_already_granted = "RoleAlreadyGranted"
code_name role_not_granted = "RoleNotGranted"
code_name invalid_role = "InvalidRole"
code_name deprecated_entrypoint = "DeprecatedEntrypoint"
code_name recovery_active = "RecoveryActive"

-- `ERROR_MESSAGES`.
abbrev pub error_message : ContractError → String
error_message already_initialized = "Contract has already been initialized."
error_message not_initialized = "Contract has not been initialized."
error_message unauthorized = "Caller is unauthorized or not a registered owner/role holder."
error_message invalid_threshold = "Threshold must be at least 1 and not exceed total voting weight."
error_message invalid_owners =
    "Invalid owners configuration: must contain between 1 and 20 distinct owners."
error_message proposal_not_found = "Proposal not found."
error_message proposal_not_active = "Proposal is not in an active state (must be Pending or Ready)."
error_message already_approved = "Caller has already approved this proposal."
error_message not_approved = "Caller has not approved this proposal."
error_message threshold_not_met = "Approval threshold weight has not been reached."
error_message proposal_expired = "Proposal deadline has passed."
error_message invalid_amount =
    "Invalid amount: must be positive and within valid transfer constraints."
error_message invalid_deadline = "Invalid deadline: must be strictly in the future."
error_message invalid_token = "Invalid token address or unsupported classic asset symbol."
error_message transfer_failed = "Token transfer failed or returned a non-unit result."
error_message empty_description = "Proposal description cannot be empty."
error_message description_too_long = "Proposal description exceeds 300 characters."
error_message too_many_active_proposals = "Maximum active proposal cap (50) reached."
error_message duplicate_owner = "Duplicate owner address provided."
error_message arithmetic_error = "Arithmetic overflow or underflow occurred."
error_message invalid_duration = "Invalid duration parameter."
error_message invalid_recipient = "Invalid recipient address."
error_message time_lock_active = "Proposal time-lock delay has not elapsed."
error_message would_break_threshold =
    "Operation would cause remaining owner count or weight to fall below threshold."
error_message owner_not_found = "Owner address not found in current owner registry."
error_message contract_frozen = "Contract is currently frozen by the guardian."
error_message no_guardian = "No guardian address is configured."
error_message invalid_interval = "Recurring interval must be between 60 seconds and 365 days."
error_message invalid_schedule = "Invalid recurring schedule parameters."
error_message invalid_cap =
    "Total cap must be non-negative and greater than or equal to interval amount."
error_message spending_limit_exceeded =
    "Transfer amount exceeds the owner's configured spending limit."
error_message recurring_payment_not_found = "Recurring payment schedule not found."
error_message recurring_payment_not_due =
    "Disbursement is not yet due (cliff or start time not reached)."
error_message recurring_payment_complete =
    "Recurring payment schedule has completed all occurrences or reached its cap."
error_message recurring_payment_inactive = "Recurring payment schedule is not active."
error_message recurring_interval_not_elapsed =
    "Minimum interval has not elapsed since the last disbursement."
error_message too_many_active_recurring =
    "Maximum concurrent active recurring schedules (20) reached."
error_message schedule_already_cancelled = "Recurring payment schedule is already cancelled."
error_message schedule_already_paused = "Recurring payment schedule is already paused."
error_message schedule_not_paused = "Recurring payment schedule is not paused."
error_message schedule_terminal =
    "Schedule is terminal (completed or cancelled) and cannot be modified."
error_message invalid_weights_length = "Weights vector length does not match owner count."
error_message weight_below_minimum = "Owner voting weight is below the minimum allowed (1)."
error_message invalid_weight = "Invalid weight parameter."
error_message already_migrated =
    "Contract has already been migrated to this schema/governance mode."
error_message single_owner_weight_cap_exceeded =
    "Owner voting weight exceeds the 50% single-owner cap."
error_message target_owner_no_longer_exists = "Target owner address no longer exists."
error_message would_break_quorum = "Operation would break the required governance quorum."
error_message cannot_remove_last_owner = "Cannot remove the last remaining multisig owner."
error_message threshold_exceeds_owner_count = "Threshold cannot exceed total owner count."
error_message schedule_not_active = "Recurring payment schedule is not in Active status."
error_message missing_role = "Caller does not hold the required operational role."
error_message role_already_granted = "Address already holds the specified role."
error_message role_not_granted = "Address does not hold the specified role."
error_message invalid_role = "Invalid role symbol provided."
error_message deprecated_entrypoint =
    "This entrypoint is deprecated in the current contract version."
error_message recovery_active = "Contract is in recovery mode: treasury outflows are blocked."
