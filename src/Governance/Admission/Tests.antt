-- ===== src/Governance/Admission/Tests.antt =====
-- An admission in a fund of three owners: the first proposes the ninth user.
use concierge.Prelude.{List, [], ◌∷◌, true, false, contains, ◌≡◌, ◌↔◌, ◌⊎◌, refl}
use concierge.Prelude.Int.{ℤ, pos, saturating_add}
use concierge.Errors.{ok, is_ok}
use concierge.Text.{codes, trim, is_whitespace}
use concierge.Governance.ProposalState.{ProposalState}
use concierge.Governance.GovernanceEvent.{GovernanceEvent}
use concierge.Governance.AdmissionVote.{AdmissionVote}
use concierge.Governance.Peer.{UserId, pending_admission_peer}
use concierge.Governance.Lifecycle.{removal_ttl_secs, validate_reason}
use concierge.Governance.Lifecycle.Transitions.{IsAudited}
use concierge.Governance.Admission.{OwnerAdmission, open_admission, snapshot, execute}
use concierge.Governance.Admission.Steps.{Call, votes, executes, step, run}
use concierge.Governance.Admission.Opening.{
  IsSound, Carried, run-open_admission, execute_open_admission,
}

abbrev owners : List UserId
owners = 1 ∷ 2 ∷ 3 ∷ []

abbrev admission : OwnerAdmission
admission = record {
  id = 8;
  candidate = 9;
  initiator = 1;
  reason = codes "partner";
  owner_count = 3;
  peers = pending_admission_peer 2 ∷ pending_admission_peer 3 ∷ [];
  life = record {
    state = ProposalState.open_state;
    created_at = pos 1000;
    expires_at = pos 260200;
    decided_at = pos 0;
    void_reason = [];
    version = 1;
    pending = GovernanceEvent.opened ∷ [];
  };
}

admission_opens :
    open_admission 8 9 1 (codes "partner") owners (pos 1000) removal_ttl_secs ≡ ok admission
unfolding open_admission validate_reason snapshot trim is_whitespace saturating_add
admission_opens = refl

abbrev history : List (ℤ × Call)
history =
    (pos 1010, votes 2 AdmissionVote.admit)
    ∷ (pos 1020, votes 3 AdmissionVote.admit)
    ∷ (pos 1030, executes owners)
    ∷ []

run-open_admission_example :
    IsSound (run admission history) × IsAudited (run admission history).life
run-open_admission_example =
    run-open_admission 8 9 1 (codes "partner") owners (pos 1000) removal_ttl_secs admission history
      admission_opens

execute_open_admission_example :
    (((step admission (pos 1030, executes owners)).life.state ≡ ProposalState.executed)
      ↔ (Carried admission owners × (contains owners 1 ≡ true) × (contains owners 9 ≡ false)))
    × (((step admission (pos 1030, executes owners)).life.state ≡ ProposalState.void_state)
        ↔ (Carried admission owners × ((contains owners 1 ≡ false) ⊎ (contains owners 9 ≡ true))))
    × ((is_ok (execute admission owners (pos 1030)) ≡ true) ↔ Carried admission owners)
execute_open_admission_example = execute_open_admission admission owners (pos 1030) refl
