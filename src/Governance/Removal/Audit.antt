-- ===== src/Governance/Removal/Audit.antt =====
-- Every call on a removal is a transition of its lifecycle.
use concierge.Prelude.{List, [], ◌∷◌, refl, arith}
use concierge.Prelude.Int.{ℤ}
use concierge.Text.{Text}
use concierge.Governance.ProposalState.{ProposalState}
use concierge.Governance.GovernanceEvent.{GovernanceEvent}
use concierge.Governance.Vote.{Vote}
use concierge.Governance.Peer.{UserId}
use concierge.Governance.Lifecycle.Transitions.{
  Transition, idle, of_peer, of_target, by_expiry, by_cancelling, Reach, here, prepend,
}
use concierge.Governance.Lifecycle.Moves.{
  AnswerMoves, AnswerMoves-Transition, CloseMoves, CloseMoves-Transition, VoidMoves,
  VoidMoves-Transition, ExecuteMoves, ExecuteMoves-Transition,
}
use concierge.Governance.Removal.{
  OwnerRemoval, peer_vote, target_decision, cancel, expire, execute, void_proposal,
  mark_target_notified, lost_seat, below_floor,
}
use concierge.Governance.Removal.Steps.{
  Call, votes, answers, cancels, expires, executes, voids, notifies, step, run,
}

vote_moves :
    (r : OwnerRemoval) (voter : UserId) (v : Vote) (now : ℤ)
    → AnswerMoves GovernanceEvent.peer_voted now r.life (step r (now, votes voter v)).life
unfolding step peer_vote
vote_moves r voter v now = ground arith

target_decision_moves :
    (r : OwnerRemoval) (vote : Vote) (now : ℤ)
    → AnswerMoves GovernanceEvent.target_decided now r.life (step r (now, answers vote)).life
unfolding step target_decision
target_decision_moves r vote now = ground arith

cancel_moves :
    (r : OwnerRemoval) (by : UserId) (now : ℤ)
    → CloseMoves ProposalState.cancelled GovernanceEvent.cancelled now r.life
        (step r (now, cancels by)).life
unfolding step cancel
cancel_moves r by now = ground arith

expire_moves :
    (r : OwnerRemoval) (now : ℤ)
    → CloseMoves ProposalState.expired GovernanceEvent.expired now r.life
        (step r (now, expires)).life
unfolding step expire
expire_moves r now = ground arith

execute_moves :
    (r : OwnerRemoval) (owners : List UserId) (now : ℤ)
    → ExecuteMoves lost_seat below_floor now r.life (step r (now, executes owners)).life
unfolding step execute
execute_moves r owners now = ground arith

void_moves :
    (r : OwnerRemoval) (reason : Text) (now : ℤ)
    → VoidMoves reason now r.life (step r (now, voids reason)).life
unfolding step void_proposal
void_moves r reason now = ground arith

step-Transition : (r : OwnerRemoval) (c : ℤ × Call) → Transition r.life (step r c).life
unfolding step mark_target_notified
step-Transition r (now, votes voter v) =
    AnswerMoves-Transition _ _ _ _ of_peer (vote_moves r voter v now)
step-Transition r (now, answers vote) =
    AnswerMoves-Transition _ _ _ _ of_target (target_decision_moves r vote now)
step-Transition r (now, cancels by) =
    CloseMoves-Transition _ _ _ _ _ by_cancelling (cancel_moves r by now)
step-Transition r (now, expires) = CloseMoves-Transition _ _ _ _ _ by_expiry (expire_moves r now)
step-Transition r (now, executes owners) =
    ExecuteMoves-Transition lost_seat below_floor _ _ _ (execute_moves r owners now)
step-Transition r (now, voids reason) = VoidMoves-Transition _ _ _ _ (void_moves r reason now)
step-Transition r (now, notifies) = idle refl

-- A history of calls on a removal is a history of its lifecycle.
pub run-Reach : (r : OwnerRemoval) (cs : List (ℤ × Call)) → Reach r.life (run r cs).life
unfolding run
run-Reach r [] = here
run-Reach r (c ∷ cs) = prepend (step-Transition r c) (run-Reach (step r c) cs)
