-- ===== src/Governance/Admission/Audit.antt =====
-- Every call on an admission is a transition of its lifecycle.
use concierge.Prelude.{List, [], ◌∷◌, arith}
use concierge.Prelude.Int.{ℤ}
use concierge.Text.{Text}
use concierge.Governance.ProposalState.{ProposalState}
use concierge.Governance.GovernanceEvent.{GovernanceEvent}
use concierge.Governance.AdmissionVote.{AdmissionVote}
use concierge.Governance.Peer.{UserId}
use concierge.Governance.Lifecycle.Transitions.{
  Transition, of_peer, by_expiry, by_cancelling, Reach, here, prepend,
}
use concierge.Governance.Lifecycle.Moves.{
  AnswerMoves, AnswerMoves-Transition, CloseMoves, CloseMoves-Transition, VoidMoves,
  VoidMoves-Transition, ExecuteMoves, ExecuteMoves-Transition,
}
use concierge.Governance.Removal.{lost_seat}
use concierge.Governance.Admission.{
  OwnerAdmission, vote, cancel, expire, execute, void_proposal, seat_taken,
}
use concierge.Governance.Admission.Steps.{Call, votes, cancels, expires, executes, voids, step, run}

vote_moves :
    (a : OwnerAdmission) (voter : UserId) (v : AdmissionVote) (now : ℤ)
    → AnswerMoves GovernanceEvent.peer_voted now a.life (step a (now, votes voter v)).life
unfolding step vote
vote_moves a voter v now = ground arith

cancel_moves :
    (a : OwnerAdmission) (by : UserId) (now : ℤ)
    → CloseMoves ProposalState.cancelled GovernanceEvent.cancelled now a.life
        (step a (now, cancels by)).life
unfolding step cancel
cancel_moves a by now = ground arith

expire_moves :
    (a : OwnerAdmission) (now : ℤ)
    → CloseMoves ProposalState.expired GovernanceEvent.expired now a.life
        (step a (now, expires)).life
unfolding step expire
expire_moves a now = ground arith

execute_moves :
    (a : OwnerAdmission) (owners : List UserId) (now : ℤ)
    → ExecuteMoves lost_seat seat_taken now a.life (step a (now, executes owners)).life
unfolding step execute
execute_moves a owners now = ground arith

void_moves :
    (a : OwnerAdmission) (reason : Text) (now : ℤ)
    → VoidMoves reason now a.life (step a (now, voids reason)).life
unfolding step void_proposal
void_moves a reason now = ground arith

step-Transition : (a : OwnerAdmission) (c : ℤ × Call) → Transition a.life (step a c).life
step-Transition a (now, votes voter v) =
    AnswerMoves-Transition _ _ _ _ of_peer (vote_moves a voter v now)
step-Transition a (now, cancels by) =
    CloseMoves-Transition _ _ _ _ _ by_cancelling (cancel_moves a by now)
step-Transition a (now, expires) = CloseMoves-Transition _ _ _ _ _ by_expiry (expire_moves a now)
step-Transition a (now, executes owners) =
    ExecuteMoves-Transition lost_seat seat_taken _ _ _ (execute_moves a owners now)
step-Transition a (now, voids reason) = VoidMoves-Transition _ _ _ _ (void_moves a reason now)

-- A history of calls on an admission is a history of its lifecycle.
pub run-Reach : (a : OwnerAdmission) (cs : List (ℤ × Call)) → Reach a.life (run a cs).life
unfolding run
run-Reach a [] = here
run-Reach a (c ∷ cs) = prepend (step-Transition a c) (run-Reach (step a c) cs)
