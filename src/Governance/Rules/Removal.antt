-- ===== src/Governance/Rules/Removal.antt =====
-- The removal's passing rule, `outcome`, against the answers of the target and the peers.
use concierge.Prelude.{ℕ, ◌<◌, List, [], ◌∷◌, true, any, ◌≡◌, ◌≢◌, ◌↔◌, ◌⊎◌, arith, length, count_p}
use concierge.Governance.Ballot.{Outcome}
use concierge.Governance.Vote
use concierge.Governance.Vote.{Vote}
use concierge.Governance.Peer.{Peer}
use concierge.Governance.Rules.{outcome, vote_ballots}
use concierge.Governance.Rules.Counts.{for_count, against_count, length-counts}
use concierge.Governance.Rules.Unanimity.{unanimity_counts}

-- How many peers answered with a given vote.
abbrev pub votes : Vote → List (Peer Vote) → ℕ
votes v peers = count_p (λ p. Vote.same p.vote v) peers

vote_ballots-counts :
    (peers : List (Peer Vote))
    → (for_count (vote_ballots peers) ≡ votes Vote.remove peers)
      × (against_count (vote_ballots peers) ≡ votes Vote.keep peers)
      × (length (vote_ballots peers) ≡ length peers)
unfolding Vote.same Vote.ballot
vote_ballots-counts [] = omega arith
vote_ballots-counts (p ∷ peers) = ground (arith, vote_ballots-counts peers)

any-votes :
    (v : Vote) (peers : List (Peer Vote))
    → (any (λ p. Vote.same p.vote v) peers ≡ true) ↔ (0 < votes v peers)
any-votes v [] = ground arith
any-votes v (p ∷ peers) = ground (arith, any-votes v peers)

-- A removal passes exactly when the target accepted it, or there is a peer and every peer votes to
-- remove. It fails exactly when the target has not accepted and either a peer votes to keep, or
-- there is no peer and the target refused.
pub outcome-votes :
    (target : Vote) (peers : List (Peer Vote))
    → ((outcome target peers ≡ Outcome.passes) ↔ (
        (target ≡ Vote.remove) ⊎ ((0 < length peers) × (votes Vote.remove peers ≡ length peers))))
      × ((outcome target peers ≡ Outcome.fails) ↔ (
          (target ≢ Vote.remove)
          × ((0 < votes Vote.keep peers) ⊎ ((length peers ≡ 0) × (target ≡ Vote.keep)))))
unfolding outcome
outcome-votes target peers = ground (
  arith,
  vote_ballots-counts peers,
  any-votes Vote.keep peers,
  unanimity_counts (vote_ballots peers),
  length-counts (vote_ballots peers),
)
