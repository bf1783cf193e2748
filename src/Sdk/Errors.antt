-- ===== src/Sdk/Errors.antt =====
-- packages/sdk/src/errors.ts: the contract's error codes, their names, and the SDK's error classes.
-- The messages are in `Messages`, the pattern that finds a code in a text in `Parse`.
pub mod Messages
pub mod Codes
pub mod Parse
use accord_protocol.Prelude.{ℕ, String, Option, none, some, List, [], ◌∷◌, ◌==◌, if◌then◌else◌}
use accord_protocol.Prelude.Int.{ℤ}
use accord_protocol.Prelude.Number.{Number}
use accord_protocol.Prelude.Text.{Text}

-- `enum ContractError`.
pub data ContractError : Type 0 where
  already_initialized not_initialized unauthorized invalid_threshold : ContractError
  invalid_owners proposal_not_found proposal_not_active already_approved : ContractError
  not_approved threshold_not_met proposal_expired invalid_amount : ContractError
  invalid_deadline invalid_token transfer_failed empty_description : ContractError
  description_too_long too_many_active_proposals duplicate_owner arithmetic_error : ContractError
  invalid_duration invalid_recipient time_lock_active would_break_threshold : ContractError
  owner_not_found contract_frozen no_guardian invalid_interval : ContractError
  invalid_schedule invalid_cap spending_limit_exceeded recurring_payment_not_found : ContractError
  recurring_payment_not_due recurring_payment_complete recurring_payment_inactive
        recurring_interval_not_elapsed :
      ContractError
  too_many_active_recurring schedule_already_cancelled schedule_already_paused schedule_not_paused :
      ContractError
  schedule_terminal invalid_weights_length weight_below_minimum invalid_weight : ContractError
  already_migrated single_owner_weight_cap_exceeded target_owner_no_longer_exists
        would_break_quorum :
      ContractError
  cannot_remove_last_owner threshold_exceeds_owner_count schedule_not_active missing_role :
      ContractError
  role_already_granted role_not_granted invalid_role deprecated_entrypoint : ContractError
  recovery_active : ContractError

-- The number of a member.
abbrev pub error_code : ContractError → ℕ
error_code already_initialized = 1
error_code not_initialized = 2
error_code unauthorized = 3
error_code invalid_threshold = 4
error_code invalid_owners = 5
error_code proposal_not_found = 6
error_code proposal_not_active = 7
error_code already_approved = 8
error_code not_approved = 9
error_code threshold_not_met = 10
error_code proposal_expired = 11
error_code invalid_amount = 12
error_code invalid_deadline = 13
error_code invalid_token = 14
error_code transfer_failed = 15
error_code empty_description = 16
error_code description_too_long = 17
error_code too_many_active_proposals = 18
error_code duplicate_owner = 19
error_code arithmetic_error = 20
error_code invalid_duration = 21
error_code invalid_recipient = 22
error_code time_lock_active = 23
error_code would_break_threshold = 24
error_code owner_not_found = 25
error_code contract_frozen = 26
error_code no_guardian = 27
error_code invalid_interval = 28
error_code invalid_schedule = 29
error_code invalid_cap = 30
error_code spending_limit_exceeded = 31
error_code recurring_payment_not_found = 32
error_code recurring_payment_not_due = 33
error_code recurring_payment_complete = 34
error_code recurring_payment_inactive = 35
error_code recurring_interval_not_elapsed = 36
error_code too_many_active_recurring = 37
error_code schedule_already_cancelled = 38
error_code schedule_already_paused = 39
error_code schedule_not_paused = 40
error_code schedule_terminal = 41
error_code invalid_weights_length = 42
error_code weight_below_minimum = 43
error_code invalid_weight = 44
error_code already_migrated = 45
error_code single_owner_weight_cap_exceeded = 46
error_code target_owner_no_longer_exists = 47
error_code would_break_quorum = 48
error_code cannot_remove_last_owner = 49
error_code threshold_exceeds_owner_count = 50
error_code schedule_not_active = 51
error_code missing_role = 52
error_code role_already_granted = 53
error_code role_not_granted = 54
error_code invalid_role = 55
error_code deprecated_entrypoint = 56
error_code recovery_active = 57

-- The members in the order of the declaration.
abbrev pub all_errors : List ContractError
all_errors =
    already_initialized ∷ not_initialized ∷ unauthorized ∷ invalid_threshold ∷ invalid_owners
    ∷ proposal_not_found ∷ proposal_not_active ∷ already_approved ∷ not_approved ∷ threshold_not_met
    ∷ proposal_expired ∷ invalid_amount ∷ invalid_deadline ∷ invalid_token ∷ transfer_failed
    ∷ empty_description ∷ description_too_long ∷ too_many_active_proposals ∷ duplicate_owner
    ∷ arithmetic_error ∷ invalid_duration ∷ invalid_recipient ∷ time_lock_active
    ∷ would_break_threshold ∷ owner_not_found ∷ contract_frozen ∷ no_guardian ∷ invalid_interval
    ∷ invalid_schedule ∷ invalid_cap ∷ spending_limit_exceeded ∷ recurring_payment_not_found
    ∷ recurring_payment_not_due ∷ recurring_payment_complete ∷ recurring_payment_inactive
    ∷ recurring_interval_not_elapsed ∷ too_many_active_recurring ∷ schedule_already_cancelled
    ∷ schedule_already_paused ∷ schedule_not_paused ∷ schedule_terminal ∷ invalid_weights_length
    ∷ weight_below_minimum ∷ invalid_weight ∷ already_migrated ∷ single_owner_weight_cap_exceeded
    ∷ target_owner_no_longer_exists ∷ would_break_quorum ∷ cannot_remove_last_owner
    ∷ threshold_exceeds_owner_count ∷ schedule_not_active ∷ missing_role ∷ role_already_granted
    ∷ role_not_granted ∷ invalid_role ∷ deprecated_entrypoint ∷ recovery_active ∷ []

find_error : ℕ → List ContractError → Option ContractError
find_error n [] = none
find_error n (e ∷ es) = if error_code e == n then some e else find_error n es

-- `ContractError[n]`, the reverse mapping of the enum.
unfoldable pub contract_error : ℕ → Option ContractError
unfolding find_error
contract_error n = find_error n all_errors
