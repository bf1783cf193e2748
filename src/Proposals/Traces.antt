-- ===== src/Proposals/Traces.antt =====
-- Sequences of transitions.
use accord_protocol.Prelude.{◌≡◌, refl, Bool, true, false, ◌⊎◌, inl, inr, List, [], ◌∷◌, arith}
use accord_protocol.Prelude.Number.{leb_number}
use accord_protocol.Proposals.{
  Status, pending, ready, executed, is_terminal, Kind, TransitionEvent, approve, revoke_approval,
  status_of, apply_proposal_transition,
}

-- The status after a list of events, each applied to the status that the one before left.
unfoldable pub run : Kind → Status → List TransitionEvent → Status
run k s [] = s
run k s (e ∷ es) = run k (status_of (apply_proposal_transition k s e)) es

step_of_terminal :
    (k : Kind) (s : Status) (e : TransitionEvent)
    → is_terminal s ≡ true
    → status_of (apply_proposal_transition k s e) ≡ s
unfolding apply_proposal_transition
step_of_terminal k s e h = ground arith

-- Executed, expired and revoked are final: no list of events leaves them.
pub run-terminal :
    (k : Kind) (s : Status) (es : List TransitionEvent) → is_terminal s ≡ true → run k s es ≡ s
unfolding run
run-terminal k s [] h = refl
run-terminal k s (e ∷ es) h = rw (step_of_terminal k s e h) (run-terminal k s es h)

-- An event that reports a weight of approvals that meets the quorum.
abbrev pub MeetsQuorum : TransitionEvent → Type 0
MeetsQuorum (approve w q) = leb_number q w ≡ true
MeetsQuorum (revoke_approval w q) = leb_number q w ≡ true
MeetsQuorum _ = ⊥

abbrev pub QuorumSeen : List TransitionEvent → Type 0
QuorumSeen [] = ⊥
QuorumSeen (e ∷ es) = MeetsQuorum e ⊎ QuorumSeen es

-- Neither ready nor executed.
abbrev is_unmet : Status → Bool
is_unmet ready = false
is_unmet executed = false
is_unmet _ = true

step_unmet :
    (k : Kind) (s : Status) (e : TransitionEvent)
    → is_unmet s ≡ true
    → MeetsQuorum e ⊎ (is_unmet (status_of (apply_proposal_transition k s e)) ≡ true)
unfolding apply_proposal_transition
step_unmet k s (approve w q) h = ground arith
step_unmet k s (revoke_approval w q) h = ground arith
step_unmet k s _ h = ground arith

unmet_needs_quorum :
    (k : Kind) (s : Status) (es : List TransitionEvent)
    → is_unmet s ≡ true
    → run k s es ≡ executed
    → QuorumSeen es
unfolding run
unmet_needs_quorum k s [] h e = ground arith
unmet_needs_quorum k s (x ∷ xs) h e = elim (step_unmet k s x h) [
  | inl q ↦ inl q
  | inr u ↦ inr (unmet_needs_quorum k (status_of (apply_proposal_transition k s x)) xs u e)
]

-- A proposal that starts pending is executed only after an event whose approval weight met its
-- quorum weight.
pub executed_needs_quorum :
    (k : Kind) (es : List TransitionEvent) → run k pending es ≡ executed → QuorumSeen es
executed_needs_quorum k es h = unmet_needs_quorum k pending es refl h
