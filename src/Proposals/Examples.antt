-- ===== src/Proposals/Examples.antt =====
-- The theorems on proposals at concrete statuses and events.
use accord_protocol.Prelude.{◌≡◌, refl, ◌↔◌, List, [], ◌∷◌}
use accord_protocol.Prelude.Number.{nat}
use accord_protocol.Proposals.{
  pending, ready, executed, transfer, TransitionEvent, approve, execute, accepted, refused,
  cannot_execute, apply_proposal_transition,
}
use accord_protocol.Proposals.Edges.{Allowed, transition_iff}
use accord_protocol.Proposals.Traces.{run, QuorumSeen, executed_needs_quorum}

abbrev events : List TransitionEvent
events = approve (nat 1) (nat 3) ∷ approve (nat 3) (nat 3) ∷ execute ∷ []

test_refused : apply_proposal_transition transfer pending execute ≡ refused pending cannot_execute
unfolding apply_proposal_transition
test_refused = refl

test_run : run transfer pending events ≡ executed
unfolding run apply_proposal_transition
test_run = refl

transition_iff_example :
    (apply_proposal_transition transfer ready execute ≡ accepted executed)
    ↔ Allowed ready execute executed
transition_iff_example = transition_iff transfer ready execute executed

executed_needs_quorum_example : QuorumSeen events
executed_needs_quorum_example = executed_needs_quorum transfer events test_run
