-- ===== src/Governance/UserProposal.antt =====
-- domain/src/governance.rs: `UserProposal`, the owners' verdict over one person's standing. The
-- source's getters are the fields.
pub mod Steps
pub mod Audit
pub mod Opening
pub mod Executing
mod Tests
use concierge.Prelude.{
  ℕ, String, List, [], ◌∷◌, Bool, true, false, not, ◌&&◌, map, filter, length, contains, is_empty,
  ◌==◌, if◌then◌else◌,
}
use concierge.Prelude.Int.{ℤ, pos}
use concierge.Errors.{
  DomainError, conflict, validation, forbidden, say, Result, ok, err, ◌>>=◌, ◌>>◌, ensure, ok_or,
}
use concierge.Text.{Text}
use concierge.Governance.Ballot.{Ballot, Outcome}
use concierge.Governance.ProposalState
use concierge.Governance.ProposalState.{ProposalState}
use concierge.Governance.GovernanceEvent
use concierge.Governance.ProposalVote
use concierge.Governance.ProposalVote.{ProposalVote}
use concierge.Governance.UserProposalKind.{UserProposalKind}
use concierge.Governance.Peer.{
  UserId, ProposalPeer, pending_proposal_peer, find_peer, record_vote, seated,
}
use concierge.Governance.Lifecycle
use concierge.Governance.Lifecycle.{
  Lifecycle, bump_and_emit, close, close_void, is_cancelled, is_void, is_settled, validate_reason,
  as_u32,
}
use concierge.Governance.Rules.{majority, needed_votes}
use concierge.Governance.Removal.{is_fails, is_passes, lost_seat}

pub record UserProposal : Type 0 where
  pub id : ℕ
  pub kind : UserProposalKind
  pub subject : UserId
  pub initiator : UserId
  pub reason : Text
  pub owner_count : ℕ
  -- The bar, frozen at open.
  pub threshold : ℕ
  pub peers : List ProposalPeer
  pub life : Lifecycle

-- `owners.filter(|o| o != initiator).map(ProposalPeer::pending)`.
unfoldable pub snapshot : UserId → List UserId → List ProposalPeer
snapshot initiator owners = map pending_proposal_peer (filter (λ o. not (o == initiator)) owners)

unfoldable pub open_proposal :
    ℕ → UserProposalKind → UserId → UserId → Text → List UserId → ℤ → ℤ → Result UserProposal
unfolding bump_and_emit Lifecycle.opened
open_proposal id kind subject initiator raw_reason owners now ttl_secs = do
  reason ← validate_reason raw_reason
  ensure (contains owners initiator) (forbidden (say "only a fund owner may open a user proposal"))
  ensure (not (subject == initiator))
      (conflict (say "you cannot open a user proposal about yourself"))
  let peers = snapshot initiator owners
  ensure (not (is_empty peers)) (
      conflict (
        say
          "a user proposal needs at least one other owner to agree, and there is none — one owner may not decide alone"))
  ok (record {
    id = id;
    kind = kind;
    subject = subject;
    initiator = initiator;
    reason = reason;
    owner_count = as_u32 (length owners);
    threshold = as_u32 (needed_votes (length peers));
    peers = peers;
    life = bump_and_emit (Lifecycle.opened now ttl_secs) GovernanceEvent.opened;
  })

unfoldable pub rehydrate :
    ℕ
    → UserProposalKind
    → UserId
    → UserId
    → Text
    → ProposalState
    → ℕ
    → ℕ
    → List ProposalPeer
    → ℤ
    → ℤ
    → ℤ
    → Text
    → ℕ
    → UserProposal
rehydrate id kind subject initiator reason state owner_count threshold peers created_at expires_at
      decided_at void_reason version =
    record {
      id = id;
      kind = kind;
      subject = subject;
      initiator = initiator;
      reason = reason;
      owner_count = owner_count;
      threshold = threshold;
      peers = peers;
      life = Lifecycle.rehydrate state created_at expires_at decided_at void_reason version;
    }

unfoldable pub require_open : UserProposal → Result (Unit {0})
unfolding Lifecycle.require_open
require_open p = Lifecycle.require_open p.life "proposal"

-- The ballots that a proposal's peers cast.
abbrev pub proposal_ballots : List ProposalPeer → List Ballot
proposal_ballots peers = map (λ p. ProposalVote.ballot p.vote) peers

-- `self.outcome()`.
abbrev pub outcome_now : UserProposal → Outcome
outcome_now p = majority (proposal_ballots p.peers)

-- The verdict counting only the voters who still hold a seat.
abbrev pub outcome_among : UserProposal → List UserId → Outcome
outcome_among p owners_now = majority (proposal_ballots (seated owners_now p.peers))

-- The end of `vote`: a proposal that can no longer pass is rejected.
unfoldable pub resolve : UserProposal → ℤ → UserProposal
unfolding close ProposalState.is_open
resolve p now =
    if ProposalState.is_open p.life.state && is_fails (outcome_now p)
    then record p { life = close p.life ProposalState.rejected GovernanceEvent.rejected now }
    else p

unfoldable pub vote : UserProposal → UserId → ProposalVote → ℤ → Result UserProposal
unfolding require_open bump_and_emit resolve ProposalVote.same ProposalVote.is_cast
vote p voter v now = do
  require_open p
  ensure (ProposalVote.is_cast v) (validation (say "a vote must be FOR or AGAINST"))
  peer ←
      ok_or (find_peer voter p.peers)
        (forbidden (say "you are not an eligible voter on this proposal"))
  if ProposalVote.same peer.vote v
      then ok p
      else if ProposalVote.is_cast peer.vote
      then err (conflict (say "a cast vote is final"))
      else ok (
          resolve
            (record p {
              peers = record_vote voter v now p.peers;
              life = bump_and_emit p.life GovernanceEvent.peer_voted;
            })
            now)

unfoldable pub cancel : UserProposal → UserId → ℤ → Result UserProposal
unfolding require_open close
cancel p by now = do
  ensure (by == p.initiator) (forbidden (say "only the initiator may withdraw a proposal"))
  if is_cancelled p.life.state then ok p else do
    require_open p
    ok (record p { life = close p.life ProposalState.cancelled GovernanceEvent.cancelled now })

unfoldable pub expire : UserProposal → ℤ → Result UserProposal
unfolding Lifecycle.expire
expire p now = do life ← Lifecycle.expire p.life "proposal" now; ok (record p { life = life })

-- The two ways in which `execute` closes a proposal that passed.
unfoldable pub carry : UserProposal → List UserId → ℤ → Lifecycle
unfolding close close_void
carry p owners_now now =
    if contains owners_now p.initiator
    then close p.life ProposalState.executed GovernanceEvent.executed now
    else close_void p.life lost_seat now

-- Carry the verdict, deciding again against the roster of the moment.
unfoldable pub execute : UserProposal → List UserId → ℤ → Result (UserProposal × ProposalState)
unfolding require_open carry
execute p owners_now now = if is_settled p.life.state then ok (p, p.life.state) else do
  require_open p
  ensure (is_passes (outcome_among p owners_now))
      (conflict (say "the consilium has not passed against the current roster"))
  let life = carry p owners_now now
  ok (record p { life = life }, life.state)

unfoldable pub void_proposal : UserProposal → Text → ℤ → Result UserProposal
unfolding require_open close_void
void_proposal p reason now =
    if is_void p.life.state
    then ok p
    else do require_open p; ok (record p { life = close_void p.life reason now })
