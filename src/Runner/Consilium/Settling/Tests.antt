-- ===== src/Runner/Consilium/Settling/Tests.antt =====
-- A removal and a suspension that pass in a fund of three owners, as they are settled.
use concierge.Runner.Consilium.Tests.{fund, open_row}
use concierge.Governance.Rules.{needed_votes}
use concierge.Governance.UserProposal.Opening.{IsSound}
use concierge.Runner.Genesis.{loaded}
use concierge.Runner.Consilium.Proposals.{write_user, apply_effect}
use concierge.Runner.Consilium.Settling.Verdicts
use concierge.Runner.Consilium.Settling.Granting
use concierge.Runner.Consilium.Settling.Admissions.{settle_admission}
use concierge.Runner.Consilium.Admissions
use concierge.Runner.Consilium.{grant_seat}
use concierge.Governance.Admission.{OwnerAdmission}
use concierge.Governance.AdmissionVote
use concierge.Governance.AdmissionVote.{AdmissionVote}
use concierge.Runner.Consilium.Settling.Proposals.{settle_proposal}
use concierge.Governance.Removal.{OwnerRemoval}
use concierge.Runner.Genesis.{find_user}
use concierge.Errors.{Result, ok, err}
use concierge.Governance.GovernanceEvent
use concierge.Governance.Lifecycle.{close}
use concierge.Governance.ProposalVote
use concierge.Governance.ProposalVote.{ProposalVote}
use concierge.Governance.UserProposalKind.{UserProposalKind}
use concierge.Governance.UserProposal.{UserProposal}
use concierge.Runner.Genesis.{Store}
use concierge.Runner.Consilium.{take_seat}
use concierge.Runner.Consilium.Removals
use concierge.Runner.Consilium.Proposals
use concierge.Runner.Consilium.Settling.Removing
use concierge.Prelude.{some, [], ◌∷◌, inl, inr, ◌≡◌, refl, arith}
use concierge.Prelude.Int.{pos}
use concierge.Text.{codes}
use concierge.Authz.Role.{investor}
use concierge.Governance.Vote
use concierge.Governance.Vote.{Vote}
use concierge.Governance.ProposalState.{ProposalState}
use concierge.Governance.Removal.{OwnerRemoval}
use concierge.Governance.Rules
use concierge.Runner.Genesis.Tests.{founder}
use concierge.Runner.Consilium.Removals.{find_removal, peer_vote, cancel_removal}

-- The second owner has agreed.
abbrev voted_row : OwnerRemoval
voted_row = record open_row {
  peers = record { user_id = 2; vote = Vote.remove; voted_at = pos 1001 } ∷ [];
}

abbrev carried_row : OwnerRemoval
carried_row = record voted_row {
  life = close voted_row.life ProposalState.executed GovernanceEvent.executed (pos 1002);
}

abbrev given_up : Result Store → Store
given_up (ok after) = after
given_up (err e) = fund.accounts

voted_row_settles :
    Removals.settle fund.accounts voted_row (pos 1002)
    ≡ Removing.done (given_up (take_seat fund.accounts 3)) carried_row
unfolding Removals.settle Rules.outcome Rules.unanimity Vote.ballot
voted_row_settles = refl

-- Both of the voters are for suspending a client.
abbrev proposal_row : UserProposal
proposal_row = record {
  id = 9;
  kind = UserProposalKind.suspension;
  subject = 9;
  initiator = 1;
  reason = codes "fraud";
  owner_count = 3;
  threshold = 2;
  peers =
      record { user_id = 2; vote = ProposalVote.for; voted_at = pos 1001 }
      ∷ record { user_id = 3; vote = ProposalVote.for; voted_at = pos 1001 }
      ∷ [];
  life = open_row.life;
}

proposal_row-IsSound : IsSound proposal_row
unfolding needed_votes Rules.majority ProposalVote.ballot
proposal_row-IsSound = record {
  no_initiator = refl;
  somebody = omega arith;
  bar = refl;
  over_half = inr (omega arith);
  open_undecided = inr (λ e. ground (arith, e));
  rejected_failed = inl (λ e. ground (arith, e));
}

abbrev with_client : Store
with_client = record fund.accounts {
  users = founder 9 (codes "zed@x") investor 2 ∷ fund.accounts.users;
}

abbrev suspended_row : UserProposal
suspended_row = record proposal_row {
  life = close proposal_row.life ProposalState.executed GovernanceEvent.executed (pos 1002);
}

abbrev without_client : Store
without_client = write_user with_client (
    apply_effect (loaded (founder 9 (codes "zed@x") investor 2)) UserProposalKind.suspension
      (pos 1002))

proposal_row_settles :
    Proposals.settle with_client proposal_row (pos 1002)
    ≡ Verdicts.done without_client suspended_row
unfolding Proposals.settle Rules.majority ProposalVote.ballot
proposal_row_settles = refl

client_stands : find_user 9 with_client.users ≡ some (founder 9 (codes "zed@x") investor 2)
unfolding find_user
client_stands = refl

settle_proposal_example :
    (after : Store) × (q : UserProposal) × (Proposals.settle with_client proposal_row (pos 1002)
      ≡ Verdicts.done after q)
    × Verdicts.Verdict with_client after proposal_row q (pos 1002)
settle_proposal_example =
    settle_proposal with_client proposal_row (founder 9 (codes "zed@x") investor 2) (pos 1002)
      proposal_row-IsSound (omega arith) refl client_stands

-- Both voters admit the client, and the second loses the seat before the verdict.
abbrev admission_row : OwnerAdmission
admission_row = record {
  id = 8;
  candidate = 9;
  initiator = 1;
  reason = codes "partner";
  owner_count = 4;
  peers =
      record { user_id = 2; vote = AdmissionVote.admit; voted_at = pos 1001 }
      ∷ record { user_id = 4; vote = AdmissionVote.admit; voted_at = pos 1001 }
      ∷ [];
  life = open_row.life;
}

abbrev admitted_row : OwnerAdmission
admitted_row = record admission_row {
  life = close admission_row.life ProposalState.executed GovernanceEvent.executed (pos 1002);
}

admission_row_settles :
    Admissions.settle with_client admission_row (pos 1002)
    ≡ Granting.done (given_up (grant_seat with_client 9)) admitted_row
unfolding Admissions.settle Rules.unanimity AdmissionVote.ballot
admission_row_settles = refl

settle_admission_example :
    (after : Store) × (b : OwnerAdmission) × (Admissions.settle with_client admission_row (pos 1002)
      ≡ Granting.done after b)
    × Granting.Verdict with_client after admission_row b
settle_admission_example =
    settle_admission with_client admission_row (founder 9 (codes "zed@x") investor 2) (pos 1002)
      refl client_stands
