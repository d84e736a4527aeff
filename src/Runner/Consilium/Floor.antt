-- ===== src/Runner/Consilium/Floor.antt =====
-- The floor of the roster: no transaction of runner/src/infrastructure/governance.rs leaves a fund of
-- two owners with fewer.
pub mod Removing
pub mod Seating
pub mod Admitting
pub mod Proposing
use concierge.Prelude.{ℕ, ◌≤◌, String, List, [], ◌∷◌}
use concierge.Prelude.Int.{ℤ}
use concierge.Text.{Text}
use concierge.Governance.Vote.{Vote}
use concierge.Governance.AdmissionVote.{AdmissionVote}
use concierge.Governance.ProposalVote.{ProposalVote}
use concierge.Governance.UserProposalKind.{UserProposalKind}
use concierge.Governance.Peer.{UserId}
use concierge.Runner.Consilium.{Registry, Audit}
use concierge.Runner.Consilium.Seats.{Minted}
use concierge.Runner.Consilium.Calls.{
  Call, opens_removal, votes_removal, cancels_removal, answers, resigns, opens_admission,
  votes_admission, cancels_admission, opens_proposal, votes_proposal, cancels_proposal, step, run,
}
use concierge.Runner.Consilium.Roster.{AboveFloor}
use concierge.Runner.Consilium.Floor.Removing.{
  peer_vote_floor, cancel_removal_floor, self_decision_floor,
}
use concierge.Runner.Consilium.Floor.Seating.{open_removal_floor, resign_floor}
use concierge.Runner.Consilium.Floor.Admitting.{
  open_admission_floor, admission_vote_floor, cancel_admission_floor,
}
use concierge.Runner.Consilium.Floor.Proposing.{
  open_user_proposal_floor, user_proposal_vote_floor, cancel_user_proposal_floor,
}

module _ (digest : String → Text) where
  step-AboveFloor :
      (reg : Registry) (call : Call)
      → AboveFloor reg.accounts
      → AboveFloor (step digest reg call).accounts
  unfolding step
  step-AboveFloor reg (opens_removal minted target initiator reason now) k =
      open_removal_floor digest reg minted target initiator reason now k
  step-AboveFloor reg (votes_removal id voter vote now audit) k =
      peer_vote_floor reg id voter vote now audit k
  step-AboveFloor reg (cancels_removal id by now) k = cancel_removal_floor reg id by now k
  step-AboveFloor reg (answers token code vote now audit) k =
      self_decision_floor digest reg token code vote now audit k
  step-AboveFloor reg (resigns who now) k = resign_floor reg who now k
  step-AboveFloor reg (opens_admission id candidate initiator reason now) k =
      open_admission_floor reg id candidate initiator reason now k
  step-AboveFloor reg (votes_admission id voter vote now audit) k =
      admission_vote_floor reg id voter vote now audit k
  step-AboveFloor reg (cancels_admission id by now) k = cancel_admission_floor reg id by now k
  step-AboveFloor reg (opens_proposal id kind subject initiator reason now) k =
      open_user_proposal_floor reg id kind subject initiator reason now k
  step-AboveFloor reg (votes_proposal id voter vote now audit) k =
      user_proposal_vote_floor reg id voter vote now audit k
  step-AboveFloor reg (cancels_proposal id by now) k = cancel_user_proposal_floor reg id by now k

  -- A fund that has two owners keeps at least two through any sequence of calls on the consilia:
  -- removals, the answers of their targets, resignations, admissions and proposals about users, each
  -- of them at any time and by anybody, whatever the digest of the tokens.
  pub run-AboveFloor :
      (reg : Registry) (calls : List Call)
      → AboveFloor reg.accounts
      → AboveFloor (run digest reg calls).accounts
  unfolding run
  run-AboveFloor reg [] k = k
  run-AboveFloor reg (call ∷ calls) k =
      run-AboveFloor (step digest reg call) calls (step-AboveFloor reg call k)
