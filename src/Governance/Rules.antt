-- ===== src/Governance/Rules.antt =====
-- domain/src/governance.rs: the passing rules, `unanimity`, `majority` and the removal's `outcome`.
-- An iterator of ballots is the list of what it yields. The counters of `majority` are usize and
-- count elements in memory, so they are left unbounded.
pub mod Counts
pub mod Unanimity
pub mod Majority
pub mod Earliest
pub mod Removal
mod Tests
use concierge.Prelude.{
  ℕ, suc, ◌+◌, ◌-◌, ◌/◌, List, [], ◌∷◌, Bool, true, false, map, any, ltb, leb, ◌==◌, if◌then◌else◌,
}
use concierge.Governance.Ballot.{Ballot, Outcome}
use concierge.Governance.Vote
use concierge.Governance.Vote.{Vote}
use concierge.Governance.Peer.{Peer}

-- The final `match (any, all_for)` of `unanimity`.
unanimity_verdict : Bool → Bool → Outcome
unanimity_verdict true true = Outcome.passes
unanimity_verdict true false = Outcome.pending
unanimity_verdict false _ = Outcome.fails

-- The loop of `unanimity` over its variables `any` and `all_for`.
unanimity_loop : Bool → Bool → List Ballot → Outcome
unfolding unanimity_verdict
unanimity_loop any_seen all_for [] = unanimity_verdict any_seen all_for
unanimity_loop any_seen all_for (Ballot.against ∷ bs) = Outcome.fails
unanimity_loop any_seen all_for (Ballot.pending ∷ bs) = unanimity_loop true false bs
unanimity_loop any_seen all_for (Ballot.for ∷ bs) = unanimity_loop true all_for bs

unfoldable pub unanimity : List Ballot → Outcome
unfolding unanimity_loop
unanimity bs = unanimity_loop false true bs

-- How many of `peers` must agree: floor(n/2) + 1.
unfoldable pub needed_votes : ℕ → ℕ
needed_votes peers = peers / 2 + 1

pub record Tally : Type 0 where
  pub total : ℕ
  pub for_ : ℕ
  pub against : ℕ

-- The loop of `majority` over its three counters.
pub tally_loop : Tally → List Ballot → Tally
tally_loop t [] = t
tally_loop t (Ballot.for ∷ bs) = tally_loop (record t { total = t.total + 1; for_ = t.for_ + 1 }) bs
tally_loop t (Ballot.against ∷ bs) =
    tally_loop (record t { total = t.total + 1; against = t.against + 1 }) bs
tally_loop t (Ballot.pending ∷ bs) = tally_loop (record t { total = t.total + 1 }) bs

-- What `majority` returns at the counters that its loop leaves.
pub majority_verdict : Tally → Outcome
unfolding needed_votes
majority_verdict t =
    if t.total == 0
    then Outcome.fails
    else if leb (needed_votes t.total) t.for_
    then Outcome.passes
    else if ltb (t.total - needed_votes t.total) t.against
    then Outcome.fails
    else Outcome.pending

unfoldable pub majority : List Ballot → Outcome
unfolding tally_loop majority_verdict
majority bs = majority_verdict (tally_loop (record { total = 0; for_ = 0; against = 0 }) bs)

-- The ballots that a removal's peers cast.
abbrev pub vote_ballots : List (Peer Vote) → List Ballot
vote_ballots peers = map (λ p. Vote.ballot p.vote) peers

-- The last `match` of `outcome`, on the verdict of the peers.
outcome_match : Vote → Outcome → Outcome
outcome_match target Outcome.passes = Outcome.passes
outcome_match target Outcome.fails =
    if Vote.same target Vote.keep then Outcome.fails else Outcome.pending
outcome_match target Outcome.pending = Outcome.pending

-- A removal's passing rule.
unfoldable pub outcome : Vote → List (Peer Vote) → Outcome
unfolding outcome_match Vote.same
outcome target peers =
    if Vote.same target Vote.remove
    then Outcome.passes
    else if any (λ p. Vote.same p.vote Vote.keep) peers
    then Outcome.fails
    else outcome_match target (unanimity (vote_ballots peers))
