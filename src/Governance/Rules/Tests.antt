-- ===== src/Governance/Rules/Tests.antt =====
-- The passing rules on small sets of ballots.
use concierge.Prelude.{◌*◌, ◌≤◌, ◌<◌, List, [], ◌∷◌, ◌≡◌, ◌≢◌, ◌↔◌, ◌⊎◌, refl, length}
use concierge.Governance.Ballot.{Ballot, Outcome}
use concierge.Governance.Vote.{Vote}
use concierge.Governance.Peer.{Peer, pending_peer}
use concierge.Prelude.Int.{pos}
use concierge.Governance.Rules.{majority, unanimity, outcome}
use concierge.Governance.Rules.Counts.{for_count, against_count}
use concierge.Governance.Rules.Unanimity.{unanimity_counts}
use concierge.Governance.Rules.Majority.{majority_counts}
use concierge.Governance.Rules.Removal.{votes, outcome-votes}

-- Two of three are for, and the third is pending.
abbrev two_of_three : List Ballot
two_of_three = Ballot.for ∷ Ballot.pending ∷ Ballot.for ∷ []

-- One against fails a unanimity, and nobody does.
unanimity_lone : unanimity (Ballot.against ∷ []) ≡ Outcome.fails
unfolding unanimity
unanimity_lone = refl

unanimity_nobody : unanimity [] ≡ Outcome.fails
unfolding unanimity
unanimity_nobody = refl

unanimity_counts_example :
    ((unanimity two_of_three ≡ Outcome.passes) ↔ ((0 < 3) × (for_count two_of_three ≡ 3)))
    × ((unanimity two_of_three ≡ Outcome.fails)
        ↔ ((length two_of_three ≡ 0) ⊎ (0 < against_count two_of_three)))
unanimity_counts_example = unanimity_counts two_of_three

majority_counts_example :
    ((majority two_of_three ≡ Outcome.passes) ↔ (3 < 2 * for_count two_of_three))
    × ((majority two_of_three ≡ Outcome.fails) ↔ (3 ≤ 2 * against_count two_of_three))
majority_counts_example = majority_counts two_of_three

abbrev peers : List (Peer Vote)
peers = record { user_id = 3; vote = Vote.remove; voted_at = pos 10 } ∷ pending_peer 4 ∷ []

outcome-votes_example :
    ((outcome Vote.keep peers ≡ Outcome.passes) ↔ (
      (Vote.keep ≡ Vote.remove) ⊎ ((0 < length peers) × (votes Vote.remove peers ≡ length peers))))
    × ((outcome Vote.keep peers ≡ Outcome.fails) ↔ (
        (Vote.keep ≢ Vote.remove)
        × ((0 < votes Vote.keep peers) ⊎ ((length peers ≡ 0) × (Vote.keep ≡ Vote.keep)))))
outcome-votes_example = outcome-votes Vote.keep peers
