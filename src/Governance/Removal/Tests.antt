-- ===== src/Governance/Removal/Tests.antt =====
-- A removal in a fund of four owners: the first asks to remove the second, and the third and the
-- fourth vote.
use concierge.Prelude.{
  ◌≤◌, List, [], ◌∷◌, true, false, some, contains, length, ◌≡◌, ◌↔◌, ◌⊎◌, refl, arith,
}
use concierge.Prelude.Int.{ℤ, pos, saturating_add}
use concierge.Errors.{ok, is_ok}
use concierge.Text.{codes, trim, is_whitespace}
use concierge.Governance.ProposalState.{ProposalState}
use concierge.Governance.GovernanceEvent.{GovernanceEvent}
use concierge.Governance.Vote
use concierge.Governance.Vote.{Vote}
use concierge.Governance.Peer.{UserId, pending_peer, find_peer, record_vote}
use concierge.Governance.Lifecycle.{removal_ttl_secs, validate_reason}
use concierge.Governance.Lifecycle.Transitions.{IsAudited}
use concierge.Governance.Rules.{outcome, unanimity}
use concierge.Governance.Removal.{OwnerRemoval, open_removal, snapshot, peer_vote, execute}
use concierge.Governance.Removal.Steps.{Call, executes, step, run, votes as votes_call}
use concierge.Governance.Removal.Snapshot.{run_cast, IsSound}
use concierge.Governance.Removal.Opening.{run-open_removal}
use concierge.Governance.Removal.Executing.{Carried, Executed, run_executed, execute_open_removal}

abbrev owners : List UserId
owners = 1 ∷ 2 ∷ 3 ∷ 4 ∷ []

abbrev removal : OwnerRemoval
removal = record {
  id = 7;
  target = 2;
  initiator = 1;
  reason = codes "breach";
  owner_count = 4;
  peers = pending_peer 3 ∷ pending_peer 4 ∷ [];
  decision = Vote.pending;
  decided_as_target_at = pos 0;
  target_notified = false;
  life = record {
    state = ProposalState.open_state;
    created_at = pos 1000;
    expires_at = pos 260200;
    decided_at = pos 0;
    void_reason = [];
    version = 1;
    pending = GovernanceEvent.opened ∷ [];
  };
}

removal_opens :
    open_removal 7 2 1 (codes " breach ") owners (pos 1000) removal_ttl_secs ≡ ok removal
unfolding open_removal validate_reason snapshot trim is_whitespace saturating_add
removal_opens = refl

-- Both peers vote to remove, and the seat is taken.
abbrev history : List (ℤ × Call)
history =
    (pos 1010, votes_call 3 Vote.remove)
    ∷ (pos 1020, votes_call 4 Vote.remove)
    ∷ (pos 1030, executes owners)
    ∷ []

history_executes : (run removal history).life.state ≡ ProposalState.executed
unfolding run step peer_vote execute find_peer outcome record_vote unanimity Vote.ballot
history_executes = refl

run_executed_example : Executed removal history
run_executed_example = run_executed removal history (λ e. ground arith) history_executes

execute_open_removal_example :
    (((step removal (pos 1030, executes owners)).life.state ≡ ProposalState.executed)
      ↔ (Carried removal owners × (contains owners 1 ≡ true) × (3 ≤ length owners)))
    × (((step removal (pos 1030, executes owners)).life.state ≡ ProposalState.void_state)
        ↔ (Carried removal owners × ((contains owners 1 ≡ false) ⊎ (length owners ≤ 2))))
    × ((is_ok (execute removal owners (pos 1030)) ≡ true) ↔ Carried removal owners)
execute_open_removal_example = execute_open_removal removal owners (pos 1030) refl

run-open_removal_example : IsSound (run removal history) × IsAudited (run removal history).life
run-open_removal_example =
    run-open_removal 7 2 1 (codes " breach ") owners (pos 1000) removal_ttl_secs removal history
      removal_opens

-- The third owner keeps the target, so the removal is rejected; the others come too late.
abbrev kept : OwnerRemoval
kept = record {
  id = 7;
  target = 2;
  initiator = 1;
  reason = codes "breach";
  owner_count = 4;
  peers = record { user_id = 3; vote = Vote.keep; voted_at = pos 1010 } ∷ pending_peer 4 ∷ [];
  decision = Vote.pending;
  decided_as_target_at = pos 0;
  target_notified = false;
  life = record {
    state = ProposalState.rejected;
    created_at = pos 1000;
    expires_at = pos 260200;
    decided_at = pos 1010;
    void_reason = [];
    version = 3;
    pending = GovernanceEvent.opened ∷ GovernanceEvent.peer_voted ∷ GovernanceEvent.rejected ∷ [];
  };
}

kept_of_vote : step removal (pos 1010, votes_call 3 Vote.keep) ≡ kept
unfolding step peer_vote find_peer outcome record_vote
kept_of_vote = refl

run_cast_example :
    find_peer 3 (run kept history).peers
    ≡ some (record { user_id = 3; vote = Vote.keep; voted_at = pos 1010 })
run_cast_example =
    run_cast kept history 3 (record { user_id = 3; vote = Vote.keep; voted_at = pos 1010 })
      (unfold find_peer in refl) (unfold Vote.is_cast in refl)
