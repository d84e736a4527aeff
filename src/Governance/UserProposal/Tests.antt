-- ===== src/Governance/UserProposal/Tests.antt =====
-- A suspension in a fund of five owners: the first proposes it for the ninth user.
use concierge.Prelude.{List, [], ◌∷◌, true, false, contains, ◌≡◌, ◌↔◌, refl}
use concierge.Prelude.Int.{ℤ, pos, saturating_add}
use concierge.Errors.{ok, is_ok}
use concierge.Text.{codes, trim, is_whitespace}
use concierge.Governance.ProposalState.{ProposalState}
use concierge.Governance.GovernanceEvent.{GovernanceEvent}
use concierge.Governance.UserProposalKind.{UserProposalKind}
use concierge.Governance.ProposalVote.{ProposalVote}
use concierge.Governance.Peer.{UserId, pending_proposal_peer}
use concierge.Governance.Lifecycle.{removal_ttl_secs, validate_reason}
use concierge.Governance.Lifecycle.Transitions.{IsAudited}
use concierge.Governance.Rules.{needed_votes}
use concierge.Governance.UserProposal.{UserProposal, open_proposal, snapshot, execute}
use concierge.Governance.UserProposal.Steps.{Call, votes, executes, step, run}
use concierge.Governance.UserProposal.Opening.{IsSound, run-open_proposal}
use concierge.Governance.UserProposal.Executing.{Carried, execute_open_proposal}

abbrev owners : List UserId
owners = 1 ∷ 2 ∷ 3 ∷ 4 ∷ 5 ∷ []

abbrev proposal : UserProposal
proposal = record {
  id = 9;
  kind = UserProposalKind.suspension;
  subject = 9;
  initiator = 1;
  reason = codes "fraud";
  owner_count = 5;
  threshold = 3;
  peers =
      pending_proposal_peer 2
      ∷ pending_proposal_peer 3
      ∷ pending_proposal_peer 4
      ∷ pending_proposal_peer 5
      ∷ [];
  life = record {
    state = ProposalState.open_state;
    created_at = pos 1000;
    expires_at = pos 260200;
    decided_at = pos 0;
    void_reason = [];
    version = 1;
    pending = GovernanceEvent.opened ∷ [];
  };
}

proposal_opens :
    open_proposal 9 UserProposalKind.suspension 9 1
      (codes "fraud")
      owners
      (pos 1000)
      removal_ttl_secs
    ≡ ok proposal
unfolding open_proposal validate_reason snapshot trim is_whitespace saturating_add needed_votes
proposal_opens = refl

abbrev history : List (ℤ × Call)
history =
    (pos 1010, votes 2 ProposalVote.for)
    ∷ (pos 1020, votes 3 ProposalVote.for)
    ∷ (pos 1030, votes 4 ProposalVote.for)
    ∷ (pos 1040, executes owners)
    ∷ []

run-open_proposal_example : IsSound (run proposal history) × IsAudited (run proposal history).life
run-open_proposal_example =
    run-open_proposal 9 UserProposalKind.suspension 9 1 (codes "fraud") owners (pos 1000)
      removal_ttl_secs proposal history proposal_opens

execute_open_proposal_example :
    (((step proposal (pos 1040, executes owners)).life.state ≡ ProposalState.executed)
      ↔ (Carried proposal owners × (contains owners 1 ≡ true)))
    × (((step proposal (pos 1040, executes owners)).life.state ≡ ProposalState.void_state)
        ↔ (Carried proposal owners × (contains owners 1 ≡ false)))
    × ((is_ok (execute proposal owners (pos 1040)) ≡ true) ↔ Carried proposal owners)
execute_open_proposal_example = execute_open_proposal proposal owners (pos 1040) refl
