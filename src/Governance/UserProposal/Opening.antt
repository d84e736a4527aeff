-- ===== src/Governance/UserProposal/Opening.antt =====
-- When a user proposal opens and when its verdict is carried.
use concierge.Prelude.{
  ℕ, ◌*◌, ◌≤◌, ◌<◌, List, [], ◌∷◌, true, false, not, ◌&&◌, map, filter, contains, length, count_p,
  Distinct, is_empty, ◌==◌, ◌≡◌, ◌≢◌, ◌↔◌, ◌⊎◌, refl, arith,
}
use concierge.Prelude.Int.{ℤ}
use concierge.Errors.{ok, is_ok}
use concierge.Text.{Text, trim}
use concierge.Governance.Ballot.{Outcome}
use concierge.Governance.ProposalState.{ProposalState}
use concierge.Governance.UserProposalKind.{UserProposalKind}
use concierge.Governance.ProposalVote
use concierge.Governance.ProposalVote.{ProposalVote}
use concierge.Governance.Peer.{UserId, ProposalPeer, pending_proposal_peer, user_ids}
use concierge.Governance.Peer.Laws.{
  user_ids-map, contains-filter, user_ids-record_vote, length-filter_one,
}
use concierge.Governance.Lifecycle.{validate_reason, as_u32}
use concierge.Governance.Lifecycle.Transitions.{IsAudited, opened-IsAudited, Reach-IsAudited}
use concierge.Governance.Rules.{majority, needed_votes}
use concierge.Governance.Rules.Counts.{for_count, against_count}
use concierge.Governance.Rules.Majority.{majority_counts}
use concierge.Governance.UserProposal.{
  UserProposal, open_proposal, snapshot, outcome_now, proposal_ballots, vote, cancel, expire,
  execute, void_proposal,
}
use concierge.Governance.UserProposal.Steps.{
  Call, votes, cancels, expires, executes, voids, step, run,
}
use concierge.Governance.UserProposal.Audit.{run-Reach}

-- How many voters gave an answer.
abbrev pub answers : ProposalVote → List ProposalPeer → ℕ
answers v peers = count_p (λ p. ProposalVote.same p.vote v) peers

pub proposal_ballots-counts :
    (peers : List ProposalPeer)
    → (for_count (proposal_ballots peers) ≡ answers ProposalVote.for peers)
      × (against_count (proposal_ballots peers) ≡ answers ProposalVote.against peers)
      × (length (proposal_ballots peers) ≡ length peers)
unfolding ProposalVote.same ProposalVote.ballot
proposal_ballots-counts [] = omega arith
proposal_ballots-counts (p ∷ peers) = ground (arith, proposal_ballots-counts peers)

pending-counts :
    (xs : List UserId)
    → (length (map pending_proposal_peer xs) ≡ length xs)
      × (answers ProposalVote.against (map pending_proposal_peer xs) ≡ 0)
unfolding ProposalVote.same
pending-counts [] = omega arith
pending-counts (x ∷ xs) = ground (arith, pending-counts xs)

-- The voters of a new user proposal are exactly the owners other than the initiator.
pub snapshot_voters :
    (i v : UserId) (owners : List UserId)
    → contains (user_ids (snapshot i owners)) v ≡ (contains owners v && not (v == i))
unfolding snapshot
snapshot_voters i v owners =
    rw (user_ids-map pending_proposal_peer (filter (λ o. not (o == i)) owners) (λ x. refl))
      (contains-filter _ v owners)

is_empty-snapshot :
    (i : UserId) (owners : List UserId)
    → is_empty (snapshot i owners) ≡ is_empty (filter (λ o. not (o == i)) owners)
unfolding snapshot
is_empty-snapshot i owners = is_empty-map (filter (λ o. not (o == i)) owners)
  where
    is_empty-map : (xs : List UserId) → is_empty (map pending_proposal_peer xs) ≡ is_empty xs
    is_empty-map [] = refl
    is_empty-map (x ∷ xs) = refl

-- A user proposal opens, over a roster without doubles, exactly when the trimmed reason has 1 to
-- 500 characters, the initiator holds a seat and is not the subject, and there is another owner.
pub open_proposal_iff :
    (id : ℕ) (kind : UserProposalKind) (subject initiator : UserId) (reason : Text)
    (owners : List UserId) (now ttl : ℤ)
    → Distinct owners
    → (is_ok (open_proposal id kind subject initiator reason owners now ttl) ≡ true) ↔ (
        (0 < length (trim reason))
        × (length (trim reason) ≤ 500)
        × (contains owners initiator ≡ true)
        × (subject ≢ initiator)
        × (2 ≤ length owners))
unfolding open_proposal validate_reason
open_proposal_iff id kind subject initiator reason owners now ttl d =
    ground (arith, is_empty-snapshot initiator owners, length-filter_one initiator owners d)

-- What holds of a user proposal between two calls.
pub record IsSound (p : UserProposal) : Type 0 where
  -- The initiator has no vote, and somebody has.
  pub no_initiator : contains (user_ids p.peers) p.initiator ≡ false
  pub somebody : 0 < length (user_ids p.peers)
  -- The bar is a majority of the voters that were snapshotted, as the u32 that is stored.
  pub bar : p.threshold ≡ as_u32 (needed_votes (length (user_ids p.peers)))
  -- It is more than half of them, where that does not wrap.
  pub over_half :
      (8589934590 ≤ length (user_ids p.peers)) ⊎ (length (user_ids p.peers) < 2 * p.threshold)
  -- An open proposal is not decided against, and a rejected one is.
  pub open_undecided : (p.life.state ≢ ProposalState.open_state) ⊎ (outcome_now p ≢ Outcome.fails)
  pub rejected_failed : (p.life.state ≢ ProposalState.rejected) ⊎ (outcome_now p ≡ Outcome.fails)

step-IsSound : (p : UserProposal) (c : ℤ × Call) → IsSound p → IsSound (step p c)
unfolding step vote cancel expire execute void_proposal
step-IsSound p (now, votes voter v) s = ground (arith, user_ids-record_vote voter v now p.peers)
step-IsSound p (now, cancels by) s = ground arith
step-IsSound p (now, expires) s = ground arith
step-IsSound p (now, executes owners) s = ground arith
step-IsSound p (now, voids reason) s = ground arith

pub run-IsSound : (p : UserProposal) (cs : List (ℤ × Call)) → IsSound p → IsSound (run p cs)
unfolding run
run-IsSound p [] s = s
run-IsSound p (c ∷ cs) s = run-IsSound (step p c) cs (step-IsSound p c s)

snapshot_undecided :
    (i : UserId) (owners : List UserId)
    → 0 < length (snapshot i owners)
    → majority (proposal_ballots (snapshot i owners)) ≢ Outcome.fails
unfolding snapshot
snapshot_undecided i owners h e =
    let xs : List UserId = filter (λ o. not (o == i)) owners in
    ground (
      arith,
      majority_counts (proposal_ballots (map pending_proposal_peer xs)),
      proposal_ballots-counts (map pending_proposal_peer xs),
      pending-counts xs,
    )

pub length-user_ids : (ps : List ProposalPeer) → length (user_ids ps) ≡ length ps
length-user_ids [] = refl
length-user_ids (p ∷ ps) = omega (arith, length-user_ids ps)

pos_of_is_empty : (ps : List ProposalPeer) → is_empty ps ≡ false → 0 < length ps
pos_of_is_empty [] h = ground arith
pos_of_is_empty (p ∷ ps) h = omega arith

over_half_votes : (n : ℕ) → (8589934590 ≤ n) ⊎ (n < 2 * as_u32 (needed_votes n))
unfolding needed_votes
over_half_votes n = ground arith

open_proposal-IsSound :
    (id : ℕ) (kind : UserProposalKind) (subject initiator : UserId) (reason : Text)
    (owners : List UserId) (now ttl : ℤ) (p : UserProposal)
    → open_proposal id kind subject initiator reason owners now ttl ≡ ok p
    → IsSound p × IsAudited p.life
unfolding open_proposal validate_reason
open_proposal-IsSound id kind subject initiator reason owners now ttl p h = ground (
  arith,
  snapshot_voters initiator initiator owners,
  snapshot_undecided initiator owners,
  pos_of_is_empty (snapshot initiator owners),
  length-user_ids (snapshot initiator owners),
  over_half_votes (length (snapshot initiator owners)),
  opened-IsAudited now ttl,
)

-- Whatever is called on a user proposal that was opened, the initiator is not among its voters and
-- somebody is, its bar is half of them rounded down, plus one, cut to 32 bits, which is more than half
-- of them where they are fewer than 2^33 - 2, it is not open while its votes decide against it,
-- it is rejected only when they do, its events replay to its state and its version counts them
-- modulo 2^64.
pub run-open_proposal :
    (id : ℕ) (kind : UserProposalKind) (subject initiator : UserId) (reason : Text)
    (owners : List UserId) (now ttl : ℤ) (p : UserProposal) (cs : List (ℤ × Call))
    → open_proposal id kind subject initiator reason owners now ttl ≡ ok p
    → IsSound (run p cs) × IsAudited (run p cs).life
run-open_proposal id kind subject initiator reason owners now ttl p cs h =
    let (s, t) = open_proposal-IsSound id kind subject initiator reason owners now ttl p h in
    (run-IsSound p cs s, Reach-IsAudited (run-Reach p cs) t)
