-- ===== src/Governance/Removal/Opening.antt =====
-- When a removal opens, and what it freezes.
use concierge.Prelude.{
  ℕ, ◌+◌, ◌≤◌, ◌<◌, List, [], ◌∷◌, true, not, ◌&&◌, map, filter, contains, length, Distinct, ◌==◌,
  ◌≡◌, ◌≢◌, ◌↔◌, refl, arith, if◌then◌else◌,
}
use concierge.Prelude.Int.{ℤ}
use concierge.Errors.{ok, is_ok}
use concierge.Text.{Text, trim}
use concierge.Governance.Ballot.{Outcome}
use concierge.Governance.Vote
use concierge.Governance.Vote.{Vote}
use concierge.Governance.Peer.{UserId, pending_peer, user_ids}
use concierge.Governance.Peer.Laws.{user_ids-map, contains-filter}
use concierge.Governance.Lifecycle.{validate_reason}
use concierge.Governance.Rules.{outcome}
use concierge.Governance.Rules.Removal.{votes, outcome-votes}
use concierge.Governance.Removal.{OwnerRemoval, open_removal, snapshot}
use concierge.Governance.Lifecycle.Transitions.{IsAudited, opened-IsAudited, Reach-IsAudited}
use concierge.Governance.Removal.Audit.{run-Reach}
use concierge.Governance.Removal.Steps.{Call, run}
use concierge.Governance.Removal.Snapshot.{IsSound, run-IsSound}

length-map_pending : (xs : List UserId) → length (map pending_peer xs) ≡ length xs
length-map_pending [] = refl
length-map_pending (x ∷ xs) = omega (arith, length-map_pending xs)

-- A list without doubles loses one element for each of two different ids that it holds.
length-filter_two :
    (t i : UserId) (xs : List UserId)
    → t ≢ i
    → Distinct xs
    → length (filter (λ o. not (o == t) && not (o == i)) xs)
        + (if contains xs t then 1 else 0)
        + (if contains xs i then 1 else 0)
      ≡ length xs
length-filter_two t i [] n d = omega arith
length-filter_two t i (x ∷ xs) n d = ground (arith, length-filter_two t i xs n d.1)

pub user_ids-snapshot :
    (t i : UserId) (owners : List UserId)
    → user_ids (snapshot t i owners) ≡ filter (λ o. not (o == t) && not (o == i)) owners
unfolding snapshot
user_ids-snapshot t i owners = user_ids-map pending_peer _ (λ x. refl)

-- The voters of a new removal are exactly the owners other than the target and the initiator.
pub snapshot_voters :
    (t i v : UserId) (owners : List UserId)
    → contains (user_ids (snapshot t i owners)) v
      ≡ (contains owners v && (not (v == t) && not (v == i)))
snapshot_voters t i v owners = rw (user_ids-snapshot t i owners) (contains-filter _ v owners)

votes-pending : (v : Vote) (xs : List UserId) → v ≢ Vote.pending → votes v (map pending_peer xs) ≡ 0
unfolding Vote.same
votes-pending v [] h = refl
votes-pending v (x ∷ xs) h = ground (arith, votes-pending v xs)

-- A removal opens exactly when the trimmed reason has 1 to 500 characters, the target is not the
-- initiator, both hold a seat and the roster has at least three entries.
pub open_removal_iff :
    (id : ℕ) (target initiator : UserId) (reason : Text) (owners : List UserId) (now ttl : ℤ)
    → (is_ok (open_removal id target initiator reason owners now ttl) ≡ true) ↔ (
        (0 < length (trim reason))
        × (length (trim reason) ≤ 500)
        × (target ≢ initiator)
        × (contains owners initiator ≡ true)
        × (contains owners target ≡ true)
        × (3 ≤ length owners))
unfolding open_removal validate_reason
open_removal_iff id target initiator reason owners now ttl = ground arith

-- Over a roster without doubles a new removal has a voter for each owner but two, so at least one.
pub open_removal-voters :
    (id : ℕ) (target initiator : UserId) (reason : Text) (owners : List UserId) (now ttl : ℤ)
    (r : OwnerRemoval)
    → Distinct owners
    → open_removal id target initiator reason owners now ttl ≡ ok r
    → (length r.peers + 2 ≡ length owners) × (0 < length r.peers)
unfolding open_removal validate_reason snapshot
open_removal-voters id target initiator reason owners now ttl r d h = ground (
  arith,
  length-filter_two target initiator owners,
  length-map_pending (filter (λ o. not (o == target) && not (o == initiator)) owners),
)

snapshot_undecided :
    (t i : UserId) (owners : List UserId)
    → outcome Vote.pending (snapshot t i owners) ≢ Outcome.fails
unfolding snapshot
snapshot_undecided t i owners e =
    let xs : List UserId = filter (λ o. not (o == t) && not (o == i)) owners in
    ground (arith, outcome-votes Vote.pending (map pending_peer xs), votes-pending Vote.keep xs)

open_removal-IsSound :
    (id : ℕ) (target initiator : UserId) (reason : Text) (owners : List UserId) (now ttl : ℤ)
    (r : OwnerRemoval)
    → open_removal id target initiator reason owners now ttl ≡ ok r
    → IsSound r × IsAudited r.life
unfolding open_removal validate_reason
open_removal-IsSound id target initiator reason owners now ttl r h = ground (
  arith,
  snapshot_voters target initiator target owners,
  snapshot_voters target initiator initiator owners,
  snapshot_undecided target initiator owners,
  opened-IsAudited now ttl,
)

-- Whatever is called on a removal that was opened, neither the target nor the initiator is among
-- its voters, it is not open while its votes decide against it, it is rejected only when they do,
-- its events replay to its state and its version counts them modulo 2^64.
pub run-open_removal :
    (id : ℕ) (target initiator : UserId) (reason : Text) (owners : List UserId) (now ttl : ℤ)
    (r : OwnerRemoval) (cs : List (ℤ × Call))
    → open_removal id target initiator reason owners now ttl ≡ ok r
    → IsSound (run r cs) × IsAudited (run r cs).life
run-open_removal id target initiator reason owners now ttl r cs h =
    let (s, a) = open_removal-IsSound id target initiator reason owners now ttl r h in
    (run-IsSound r cs s, Reach-IsAudited (run-Reach r cs) a)
