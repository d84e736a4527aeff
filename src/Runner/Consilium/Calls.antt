-- ===== src/Runner/Consilium/Calls.antt =====
-- The transactions of runner/src/infrastructure/governance.rs as calls, and the registry through a
-- sequence of them.
use concierge.Prelude.{ℕ, String, List, [], ◌∷◌}
use concierge.Prelude.Int.{ℤ}
use concierge.Text.{Text}
use concierge.Governance.Vote.{Vote}
use concierge.Governance.AdmissionVote.{AdmissionVote}
use concierge.Governance.ProposalVote.{ProposalVote}
use concierge.Governance.UserProposalKind.{UserProposalKind}
use concierge.Governance.Peer.{UserId}
use concierge.Runner.Consilium.{Registry, Audit}
use concierge.Runner.Consilium.Removals.{peer_vote, cancel_removal}
use concierge.Runner.Consilium.Seats.{Minted, open_removal, resign}
use concierge.Runner.Consilium.Codes.{self_decision}
use concierge.Runner.Consilium.Admissions.{open_admission, admission_vote, cancel_admission}
use concierge.Runner.Consilium.Proposals.{user_proposal_vote, cancel_user_proposal}
use concierge.Runner.Consilium.Proposals.Opening.{open_user_proposal}

pub data Call : Type 0 where
  opens_removal : Minted → UserId → UserId → Text → ℤ → Call
  votes_removal : ℕ → UserId → Vote → ℤ → Audit → Call
  cancels_removal : ℕ → UserId → ℤ → Call
  answers : String → String → Vote → ℤ → Audit → Call
  resigns : UserId → ℤ → Call
  opens_admission : ℕ → UserId → UserId → Text → ℤ → Call
  votes_admission : ℕ → UserId → AdmissionVote → ℤ → Audit → Call
  cancels_admission : ℕ → UserId → ℤ → Call
  opens_proposal : ℕ → UserProposalKind → UserId → UserId → Text → ℤ → Call
  votes_proposal : ℕ → UserId → ProposalVote → ℤ → Audit → Call
  cancels_proposal : ℕ → UserId → ℤ → Call

module _ (digest : String → Text) where
  unfoldable pub step : Registry → Call → Registry
  unfolding open_removal peer_vote cancel_removal self_decision resign open_admission admission_vote
      cancel_admission open_user_proposal user_proposal_vote cancel_user_proposal
  step reg (opens_removal minted target initiator reason now) =
      (open_removal digest reg minted target initiator reason now).0
  step reg (votes_removal id voter vote now audit) = (peer_vote reg id voter vote now audit).0
  step reg (cancels_removal id by now) = (cancel_removal reg id by now).0
  step reg (answers token code vote now audit) =
      (self_decision digest reg token code vote now audit).0
  step reg (resigns who now) = (resign reg who now).0
  step reg (opens_admission id candidate initiator reason now) =
      (open_admission reg id candidate initiator reason now).0
  step reg (votes_admission id voter vote now audit) =
      (admission_vote reg id voter vote now audit).0
  step reg (cancels_admission id by now) = (cancel_admission reg id by now).0
  step reg (opens_proposal id kind subject initiator reason now) =
      (open_user_proposal reg id kind subject initiator reason now).0
  step reg (votes_proposal id voter vote now audit) =
      (user_proposal_vote reg id voter vote now audit).0
  step reg (cancels_proposal id by now) = (cancel_user_proposal reg id by now).0

  unfoldable pub run : Registry → List Call → Registry
  unfolding step
  run reg [] = reg
  run reg (call ∷ calls) = run (step reg call) calls
