-- ===== src/Proposals/Edges.antt =====
-- The transitions that are allowed, as a relation, and the guard of each.
use accord_protocol.Prelude.{◌≡◌, refl, ◌↔◌, true, false, arith}
use accord_protocol.Prelude.Number.{Number, leb_number, ltb_number}
use accord_protocol.Proposals.{
  Status, pending, ready, executed, expired, revoked, Kind, TransitionEvent, approve,
  revoke_approval, execute, expire, revoke_proposal, accepted, refused, Reason,
  apply_proposal_transition,
}

pub data IsLive : Status → Type 0 where
  live_pending : IsLive pending
  live_ready : IsLive ready

-- How a change of the approvals moves a live proposal.
pub data Counted : Number → Number → Status → Type 0 where
  met : {w q : Number} → leb_number q w ≡ true → Counted w q ready
  unmet : {w q : Number} → leb_number q w ≡ false → Counted w q pending

pub data Allowed : Status → TransitionEvent → Status → Type 0 where
  approving : {s t : Status} {w q : Number} → IsLive s → Counted w q t → Allowed s (approve w q) t
  withdrawing :
      {s t : Status} {w q : Number} → IsLive s → Counted w q t → Allowed s (revoke_approval w q) t
  executing : Allowed ready execute executed
  expiring :
      {s : Status} {now deadline : Number}
      → IsLive s
      → ltb_number now deadline ≡ false
      → Allowed s (expire now deadline) expired
  revoking : {s : Status} → IsLive s → Allowed s revoke_proposal revoked

ruleset edges =
    (live_pending, live_ready, met, unmet, approving, withdrawing, executing, expiring, revoking)

sound :
    (k : Kind) (s : Status) (e : TransitionEvent) (t : Status)
    → apply_proposal_transition k s e ≡ accepted t
    → Allowed s e t
unfolding apply_proposal_transition
sound k s e t h = grind (arith, edges)

complete :
    (k : Kind) {s : Status} {e : TransitionEvent} {t : Status}
    → Allowed s e t
    → apply_proposal_transition k s e ≡ accepted t
unfolding apply_proposal_transition
complete k (approving live_pending (met h)) = ground arith
complete k (approving live_pending (unmet h)) = ground arith
complete k (approving live_ready (met h)) = ground arith
complete k (approving live_ready (unmet h)) = ground arith
complete k (withdrawing live_pending (met h)) = ground arith
complete k (withdrawing live_pending (unmet h)) = ground arith
complete k (withdrawing live_ready (met h)) = ground arith
complete k (withdrawing live_ready (unmet h)) = ground arith
complete k executing = refl
complete k (expiring live_pending h) = ground arith
complete k (expiring live_ready h) = ground arith
complete k (revoking live_pending) = refl
complete k (revoking live_ready) = refl

-- Whatever the proposal's kind, a transition is accepted with a new status exactly when the
-- relation of allowed transitions has it. In that relation a live proposal can expire as soon as
-- the deadline is not ahead, so also at the very second of the deadline.
pub transition_iff :
    (k : Kind) (s : Status) (e : TransitionEvent) (t : Status)
    → (apply_proposal_transition k s e ≡ accepted t) ↔ Allowed s e t
transition_iff k s e t = (sound k s e t, complete k)

status_of_refused :
    (k : Kind) (s t : Status) (e : TransitionEvent) (r : Reason)
    → apply_proposal_transition k s e ≡ refused t r
    → t ≡ s
unfolding apply_proposal_transition
status_of_refused k s t e r h = ground arith

-- A refused transition reports the status that the proposal already had, and to no status would
-- the relation of allowed transitions let the event move the proposal.
pub refused-Allowed :
    (k : Kind) (s t u : Status) (e : TransitionEvent) (r : Reason)
    → apply_proposal_transition k s e ≡ refused t r
    → (t ≡ s) × (¬ Allowed s e u)
refused-Allowed k s t u e r h =
    (status_of_refused k s t e r h, λ a. let c = complete k a in ground (arith, c, h))
