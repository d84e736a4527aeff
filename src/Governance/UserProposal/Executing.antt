-- ===== src/Governance/UserProposal/Executing.antt =====
-- When a user proposal's verdict is carried, and what its bar says of the votes.
use concierge.Prelude.{◌*◌, ◌≤◌, ◌<◌, List, true, false, contains, length, ◌≡◌, ◌↔◌, arith}
use concierge.Prelude.Int.{ℤ}
use concierge.Errors.{is_ok}
use concierge.Governance.Ballot.{Outcome}
use concierge.Governance.ProposalState.{ProposalState}
use concierge.Governance.ProposalVote.{ProposalVote}
use concierge.Governance.Peer.{UserId, seated}
use concierge.Governance.Rules.{needed_votes}
use concierge.Governance.Rules.Majority.{majority_counts}
use concierge.Governance.UserProposal.{UserProposal, outcome_now, proposal_ballots, execute}
use concierge.Governance.UserProposal.Steps.{executes, step}
use concierge.Governance.UserProposal.Opening.{
  IsSound, answers, proposal_ballots-counts, length-user_ids,
}

-- The consilium stands behind a proposal on a roster: more than half of the voters still seated are
-- for it.
abbrev pub Carried : UserProposal → List UserId → Type 0
Carried p owners =
    length (seated owners p.peers) < 2 * answers ProposalVote.for (seated owners p.peers)

-- Executing an open user proposal carries the verdict exactly when more than half of the voters still
-- seated are for it and the initiator still holds a seat. It voids the proposal exactly when they are
-- and the initiator lost the seat, and it fails exactly when they are not.
pub execute_open_proposal :
    (p : UserProposal) (owners : List UserId) (now : ℤ)
    → p.life.state ≡ ProposalState.open_state
    → (((step p (now, executes owners)).life.state ≡ ProposalState.executed)
        ↔ (Carried p owners × (contains owners p.initiator ≡ true)))
      × (((step p (now, executes owners)).life.state ≡ ProposalState.void_state)
          ↔ (Carried p owners × (contains owners p.initiator ≡ false)))
      × ((is_ok (execute p owners now) ≡ true) ↔ Carried p owners)
unfolding step execute
execute_open_proposal p owners now h = ground (
  arith,
  majority_counts (proposal_ballots (seated owners p.peers)),
  proposal_ballots-counts (seated owners p.peers),
)

-- With fewer than 2^32 voters, the votes of the whole snapshot pass exactly when those for the
-- proposal reach the frozen bar.
pub outcome-threshold :
    (p : UserProposal)
    → IsSound p
    → length p.peers < 4294967296
    → (outcome_now p ≡ Outcome.passes) ↔ (p.threshold ≤ answers ProposalVote.for p.peers)
unfolding needed_votes
outcome-threshold p s h = ground (
  arith,
  majority_counts (proposal_ballots p.peers),
  proposal_ballots-counts p.peers,
  length-user_ids p.peers,
)
