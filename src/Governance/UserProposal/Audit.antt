-- ===== src/Governance/UserProposal/Audit.antt =====
-- Every call on a user proposal is a transition of its lifecycle.
use concierge.Prelude.{List, [], ◌∷◌, arith}
use concierge.Prelude.Int.{ℤ}
use concierge.Text.{Text}
use concierge.Governance.ProposalState.{ProposalState}
use concierge.Governance.GovernanceEvent.{GovernanceEvent}
use concierge.Governance.ProposalVote.{ProposalVote}
use concierge.Governance.Peer.{UserId}
use concierge.Governance.Lifecycle.Transitions.{
  Transition, of_peer, by_expiry, by_cancelling, Reach, here, prepend,
}
use concierge.Governance.Lifecycle.Moves.{
  AnswerMoves, AnswerMoves-Transition, CloseMoves, CloseMoves-Transition, VoidMoves,
  VoidMoves-Transition, ExecuteMoves, ExecuteMoves-Transition,
}
use concierge.Governance.Removal.{lost_seat}
use concierge.Governance.UserProposal.{UserProposal, vote, cancel, expire, execute, void_proposal}
use concierge.Governance.UserProposal.Steps.{
  Call, votes, cancels, expires, executes, voids, step, run,
}

vote_moves :
    (p : UserProposal) (voter : UserId) (v : ProposalVote) (now : ℤ)
    → AnswerMoves GovernanceEvent.peer_voted now p.life (step p (now, votes voter v)).life
unfolding step vote
vote_moves p voter v now = ground arith

cancel_moves :
    (p : UserProposal) (by : UserId) (now : ℤ)
    → CloseMoves ProposalState.cancelled GovernanceEvent.cancelled now p.life
        (step p (now, cancels by)).life
unfolding step cancel
cancel_moves p by now = ground arith

expire_moves :
    (p : UserProposal) (now : ℤ)
    → CloseMoves ProposalState.expired GovernanceEvent.expired now p.life
        (step p (now, expires)).life
unfolding step expire
expire_moves p now = ground arith

execute_moves :
    (p : UserProposal) (owners : List UserId) (now : ℤ)
    → ExecuteMoves lost_seat lost_seat now p.life (step p (now, executes owners)).life
unfolding step execute
execute_moves p owners now = ground arith

void_moves :
    (p : UserProposal) (reason : Text) (now : ℤ)
    → VoidMoves reason now p.life (step p (now, voids reason)).life
unfolding step void_proposal
void_moves p reason now = ground arith

step-Transition : (p : UserProposal) (c : ℤ × Call) → Transition p.life (step p c).life
step-Transition p (now, votes voter v) =
    AnswerMoves-Transition _ _ _ _ of_peer (vote_moves p voter v now)
step-Transition p (now, cancels by) =
    CloseMoves-Transition _ _ _ _ _ by_cancelling (cancel_moves p by now)
step-Transition p (now, expires) = CloseMoves-Transition _ _ _ _ _ by_expiry (expire_moves p now)
step-Transition p (now, executes owners) =
    ExecuteMoves-Transition lost_seat lost_seat _ _ _ (execute_moves p owners now)
step-Transition p (now, voids reason) = VoidMoves-Transition _ _ _ _ (void_moves p reason now)

-- A history of calls on a user proposal is a history of its lifecycle.
pub run-Reach : (p : UserProposal) (cs : List (ℤ × Call)) → Reach p.life (run p cs).life
unfolding run
run-Reach p [] = here
run-Reach p (c ∷ cs) = prepend (step-Transition p c) (run-Reach (step p c) cs)
