-- ===== src/Proposals.antt =====
-- frontend/src/lib/proposalStateMachine.ts: the life of a proposal as the user interface sees it.
pub mod Edges
pub mod Examples
pub mod Traces
use accord_protocol.Prelude.{Bool, true, false, ◌||◌, if◌then◌else◌}
use accord_protocol.Prelude.Number.{Number, leb_number, ltb_number}

-- `ProposalStatus` and `ProposalKind` of frontend/src/types/accord.ts.
pub data Status : Type 0 where
  pending ready executed expired revoked : Status

pub data Kind : Type 0 where
  transfer add_owner remove_owner change_threshold set_spending_limit change_owner_weight : Kind
  grant_role revoke_role recurring : Kind

-- `TERMINAL_STATUSES.includes(status)`.
abbrev pub is_terminal : Status → Bool
is_terminal executed = true
is_terminal expired = true
is_terminal revoked = true
is_terminal _ = false

-- `current === "ready"`, and the test on both live statuses.
abbrev pub is_ready : Status → Bool
is_ready ready = true
is_ready _ = false

abbrev pub is_active : Status → Bool
is_active pending = true
is_active s = is_ready s

pub data TransitionEvent : Type 0 where
  approve revoke_approval : (approval_weight quorum_weight : Number) → TransitionEvent
  execute : TransitionEvent
  expire : (now_ts deadline_ts : Number) → TransitionEvent
  revoke_proposal : TransitionEvent

-- The `reason` texts; each names the status that stands beside it in the result.
pub data Reason : Type 0 where
  terminal cannot_approve cannot_revoke_approval cannot_execute cannot_expire : Reason
  deadline_ahead cannot_revoke_proposal : Reason

pub data TransitionResult : Type 0 where
  accepted : Status → TransitionResult
  refused : Status → Reason → TransitionResult

abbrev quorum_status : Number → Number → Status
quorum_status weight quorum = if leb_number quorum weight then ready else pending

-- The `switch` on the event.
handle : Status → TransitionEvent → TransitionResult
handle s (approve w q) =
    if is_active s then accepted (quorum_status w q) else refused s cannot_approve
handle s (revoke_approval w q) =
    if is_active s then accepted (quorum_status w q) else refused s cannot_revoke_approval
handle s execute = if is_ready s then accepted executed else refused s cannot_execute
handle s (expire now deadline) =
    if is_active s
    then (if ltb_number now deadline then refused s deadline_ahead else accepted expired)
    else refused s cannot_expire
handle s revoke_proposal =
    if is_active s then accepted revoked else refused s cannot_revoke_proposal

-- `kind` is accepted and not read.
unfoldable pub apply_proposal_transition : Kind → Status → TransitionEvent → TransitionResult
unfolding handle
apply_proposal_transition kind s e = if is_terminal s then refused s terminal else handle s e

abbrev pub status_of : TransitionResult → Status
status_of (accepted s) = s
status_of (refused s r) = s
