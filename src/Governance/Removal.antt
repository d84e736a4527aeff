-- ===== src/Governance/Removal.antt =====
-- domain/src/governance.rs: `OwnerRemoval`, the proposal to take one owner's seat. The source's
-- getters are the fields.
pub mod Steps
pub mod Opening
pub mod Executing
pub mod Snapshot
pub mod Audit
mod Tests
use concierge.Prelude.{
  ℕ, ◌-◌, String, List, [], ◌∷◌, Bool, true, false, not, ◌&&◌, map, filter, length, contains, ltb,
  ◌==◌, if◌then◌else◌,
}
use concierge.Prelude.Int.{ℤ, pos}
use concierge.Errors.{
  DomainError, conflict, validation, forbidden, say, Result, ok, err, ◌>>=◌, ◌>>◌, ensure, ok_or,
}
use concierge.Text.{Text, codes}
use concierge.Governance.Ballot.{Outcome}
use concierge.Governance.ProposalState
use concierge.Governance.ProposalState.{ProposalState}
use concierge.Governance.GovernanceEvent
use concierge.Governance.Vote
use concierge.Governance.Vote.{Vote}
use concierge.Governance.Peer.{UserId, Peer, pending_peer, find_peer, record_vote, seated}
use concierge.Governance.Lifecycle
use concierge.Governance.Lifecycle.{
  Lifecycle, bump_and_emit, close, close_void, is_cancelled, is_void, is_settled, check_floor,
  validate_reason, min_owners, as_u32,
}
use concierge.Governance.Rules.{outcome}

pub record OwnerRemoval : Type 0 where
  pub id : ℕ
  pub target : UserId
  pub initiator : UserId
  pub reason : Text
  pub owner_count : ℕ
  pub peers : List (Peer Vote)
  pub decision : Vote
  pub decided_as_target_at : ℤ
  pub target_notified : Bool
  pub life : Lifecycle

-- `owners.filter(|o| o != target && o != initiator).map(Peer::pending)`.
unfoldable pub snapshot : UserId → UserId → List UserId → List (Peer Vote)
snapshot target initiator owners =
    map pending_peer (filter (λ o. not (o == target) && not (o == initiator)) owners)

unfoldable pub open_removal : ℕ → UserId → UserId → Text → List UserId → ℤ → ℤ → Result OwnerRemoval
unfolding bump_and_emit Lifecycle.opened check_floor
open_removal id target initiator raw_reason owners now ttl_secs = do
  reason ← validate_reason raw_reason
  ensure (not (target == initiator))
      (conflict (say "resign your own seat rather than proposing your own removal"))
  ensure (contains owners initiator) (forbidden (say "only a fund owner may open a removal"))
  ensure (contains owners target) (validation (say "the target does not hold an owner seat"))
  check_floor (length owners)
  ok (record {
    id = id;
    target = target;
    initiator = initiator;
    reason = reason;
    owner_count = as_u32 (length owners);
    peers = snapshot target initiator owners;
    decision = Vote.pending;
    decided_as_target_at = pos 0;
    target_notified = false;
    life = bump_and_emit (Lifecycle.opened now ttl_secs) GovernanceEvent.opened;
  })

unfoldable pub rehydrate :
    ℕ
    → UserId
    → UserId
    → Text
    → ProposalState
    → ℕ
    → List (Peer Vote)
    → Vote
    → ℤ
    → Bool
    → ℤ
    → ℤ
    → ℤ
    → Text
    → ℕ
    → OwnerRemoval
rehydrate id target initiator reason state owner_count peers decision decided_as_target_at
      target_notified created_at expires_at decided_at void_reason version =
    record {
      id = id;
      target = target;
      initiator = initiator;
      reason = reason;
      owner_count = owner_count;
      peers = peers;
      decision = decision;
      decided_as_target_at = decided_as_target_at;
      target_notified = target_notified;
      life = Lifecycle.rehydrate state created_at expires_at decided_at void_reason version;
    }

unfoldable pub require_open : OwnerRemoval → Result (Unit {0})
unfolding Lifecycle.require_open
require_open r = Lifecycle.require_open r.life "removal"

unfoldable pub require_cast : Vote → Result (Unit {0})
unfolding Vote.is_cast
require_cast vote = ensure (Vote.is_cast vote) (validation (say "a vote must be REMOVE or KEEP"))

-- `self.outcome()`.
abbrev pub outcome_now : OwnerRemoval → Outcome
outcome_now r = outcome r.decision r.peers

-- The verdict counting only the peers who still hold a seat.
abbrev pub outcome_among : OwnerRemoval → List UserId → Outcome
outcome_among r owners_now = outcome r.decision (seated owners_now r.peers)

abbrev pub is_fails : Outcome → Bool
is_fails Outcome.fails = true
is_fails _ = false

abbrev pub is_passes : Outcome → Bool
is_passes Outcome.passes = true
is_passes _ = false

unfoldable pub resolve : OwnerRemoval → ℤ → OwnerRemoval
unfolding close ProposalState.is_open
resolve r now =
    if ProposalState.is_open r.life.state && is_fails (outcome_now r)
    then record r { life = close r.life ProposalState.rejected GovernanceEvent.rejected now }
    else r

unfoldable pub peer_vote : OwnerRemoval → UserId → Vote → ℤ → Result OwnerRemoval
unfolding require_open require_cast bump_and_emit resolve Vote.same Vote.is_cast
peer_vote r voter vote now = do
  require_open r
  require_cast vote
  peer ←
      ok_or (find_peer voter r.peers)
        (forbidden (say "you are not an eligible peer on this removal"))
  if Vote.same peer.vote vote
      then ok r
      else if Vote.is_cast peer.vote
      then err (conflict (say "a cast vote is final"))
      else ok (
          resolve
            (record r {
              peers = record_vote voter vote now r.peers;
              life = bump_and_emit r.life GovernanceEvent.peer_voted;
            })
            now)

-- The target's own answer, from their mailbox.
unfoldable pub target_decision : OwnerRemoval → Vote → ℤ → Result OwnerRemoval
unfolding require_open require_cast bump_and_emit resolve Vote.same Vote.is_cast
target_decision r vote now = do
  require_open r
  require_cast vote
  if Vote.same r.decision vote
      then ok r
      else if Vote.is_cast r.decision
      then err (conflict (say "this invitation was already answered"))
      else ok (
          resolve
            (record r {
              decision = vote;
              decided_as_target_at = now;
              life = bump_and_emit r.life GovernanceEvent.target_decided;
            })
            now)

unfoldable pub cancel : OwnerRemoval → UserId → ℤ → Result OwnerRemoval
unfolding require_open close
cancel r by now = do
  ensure (by == r.initiator) (forbidden (say "only the initiator may withdraw a removal"))
  if is_cancelled r.life.state then ok r else do
    require_open r
    ok (record r { life = close r.life ProposalState.cancelled GovernanceEvent.cancelled now })

unfoldable pub expire : OwnerRemoval → ℤ → Result OwnerRemoval
unfolding Lifecycle.expire
expire r now = do life ← Lifecycle.expire r.life "removal" now; ok (record r { life = life })

abbrev pub lost_seat : Text
lost_seat = codes "the initiator no longer holds an owner seat"

abbrev pub below_floor : Text
below_floor = codes "the fund would be left below the owner floor"

-- The three ways in which `execute` closes a removal that passed.
unfoldable pub carry : OwnerRemoval → List UserId → ℤ → Lifecycle
unfolding close close_void
carry r owners_now now =
    if not (contains owners_now r.initiator)
    then close_void r.life lost_seat now
    else if ltb (length owners_now - 1) min_owners
    then close_void r.life below_floor now
    else close r.life ProposalState.executed GovernanceEvent.executed now

-- Take the seat, deciding again against the roster of the moment. The state that results tells the
-- adapter whether to change the role.
unfoldable pub execute : OwnerRemoval → List UserId → ℤ → Result (OwnerRemoval × ProposalState)
unfolding require_open carry
execute r owners_now now = if is_settled r.life.state then ok (r, r.life.state) else do
  require_open r
  ensure (is_passes (outcome_among r owners_now))
      (conflict (say "the consilium has not passed against the current roster"))
  let life = carry r owners_now now
  ok (record r { life = life }, life.state)

-- Close a proposal that passed and cannot be carried.
unfoldable pub void_proposal : OwnerRemoval → Text → ℤ → Result OwnerRemoval
unfolding require_open close_void
void_proposal r reason now =
    if is_void r.life.state
    then ok r
    else do require_open r; ok (record r { life = close_void r.life reason now })

unfoldable pub mark_target_notified : OwnerRemoval → OwnerRemoval
mark_target_notified r = record r { target_notified = true }
