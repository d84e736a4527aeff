-- ===== src/Governance/Admission.antt =====
-- domain/src/governance.rs: `OwnerAdmission`, the proposal to grant a seat. The source's getters
-- are the fields.
pub mod Steps
pub mod Audit
pub mod Opening
mod Tests
use concierge.Prelude.{
  ℕ, String, List, [], ◌∷◌, Bool, true, false, not, ◌&&◌, map, filter, length, contains, is_empty,
  ◌==◌, if◌then◌else◌,
}
use concierge.Prelude.Int.{ℤ, pos}
use concierge.Errors.{
  DomainError, conflict, validation, forbidden, say, Result, ok, err, ◌>>=◌, ◌>>◌, ensure, ok_or,
}
use concierge.Text.{Text, codes}
use concierge.Governance.Ballot.{Ballot, Outcome}
use concierge.Governance.ProposalState
use concierge.Governance.ProposalState.{ProposalState}
use concierge.Governance.GovernanceEvent
use concierge.Governance.AdmissionVote
use concierge.Governance.AdmissionVote.{AdmissionVote}
use concierge.Governance.Peer.{
  UserId, AdmissionPeer, pending_admission_peer, find_peer, record_vote, seated,
}
use concierge.Governance.Lifecycle
use concierge.Governance.Lifecycle.{
  Lifecycle, bump_and_emit, close, close_void, is_cancelled, is_void, is_settled, validate_reason,
  as_u32,
}
use concierge.Governance.Rules.{unanimity}
use concierge.Governance.Removal.{is_fails, is_passes, lost_seat}

pub record OwnerAdmission : Type 0 where
  pub id : ℕ
  pub candidate : UserId
  pub initiator : UserId
  pub reason : Text
  pub owner_count : ℕ
  pub peers : List AdmissionPeer
  pub life : Lifecycle

-- `owners.filter(|o| o != initiator).map(AdmissionPeer::pending)`.
unfoldable pub snapshot : UserId → List UserId → List AdmissionPeer
snapshot initiator owners = map pending_admission_peer (filter (λ o. not (o == initiator)) owners)

unfoldable pub open_admission :
    ℕ → UserId → UserId → Text → List UserId → ℤ → ℤ → Result OwnerAdmission
unfolding bump_and_emit Lifecycle.opened
open_admission id candidate initiator raw_reason owners now ttl_secs = do
  reason ← validate_reason raw_reason
  ensure (not (candidate == initiator)) (conflict (say "you cannot propose your own admission"))
  ensure (contains owners initiator) (forbidden (say "only a fund owner may open an admission"))
  ensure (not (contains owners candidate))
      (conflict (say "the candidate already holds an owner seat"))
  let peers = snapshot initiator owners
  ensure (not (is_empty peers)) (
      conflict (
        say
          "an admission needs at least one other owner to agree, and there is none — a lone owner cannot mint a second"))
  ok (record {
    id = id;
    candidate = candidate;
    initiator = initiator;
    reason = reason;
    owner_count = as_u32 (length owners);
    peers = peers;
    life = bump_and_emit (Lifecycle.opened now ttl_secs) GovernanceEvent.opened;
  })

unfoldable pub rehydrate :
    ℕ
    → UserId
    → UserId
    → Text
    → ProposalState
    → ℕ
    → List AdmissionPeer
    → ℤ
    → ℤ
    → ℤ
    → Text
    → ℕ
    → OwnerAdmission
rehydrate id candidate initiator reason state owner_count peers created_at expires_at decided_at
      void_reason version =
    record {
      id = id;
      candidate = candidate;
      initiator = initiator;
      reason = reason;
      owner_count = owner_count;
      peers = peers;
      life = Lifecycle.rehydrate state created_at expires_at decided_at void_reason version;
    }

unfoldable pub require_open : OwnerAdmission → Result (Unit {0})
unfolding Lifecycle.require_open
require_open a = Lifecycle.require_open a.life "admission"

-- The ballots that an admission's peers cast.
abbrev pub admission_ballots : List AdmissionPeer → List Ballot
admission_ballots peers = map (λ p. AdmissionVote.ballot p.vote) peers

-- `self.outcome()`.
abbrev pub outcome_now : OwnerAdmission → Outcome
outcome_now a = unanimity (admission_ballots a.peers)

-- The verdict counting only the voters who still hold a seat.
abbrev pub outcome_among : OwnerAdmission → List UserId → Outcome
outcome_among a owners_now = unanimity (admission_ballots (seated owners_now a.peers))

-- The end of `vote`: one block closes the proposal.
unfoldable pub resolve : OwnerAdmission → ℤ → OwnerAdmission
unfolding close ProposalState.is_open
resolve a now =
    if ProposalState.is_open a.life.state && is_fails (outcome_now a)
    then record a { life = close a.life ProposalState.rejected GovernanceEvent.rejected now }
    else a

unfoldable pub vote : OwnerAdmission → UserId → AdmissionVote → ℤ → Result OwnerAdmission
unfolding require_open bump_and_emit resolve AdmissionVote.same AdmissionVote.is_cast
vote a voter v now = do
  require_open a
  ensure (AdmissionVote.is_cast v) (validation (say "a vote must be ADMIT or REJECT"))
  peer ←
      ok_or (find_peer voter a.peers)
        (forbidden (say "you are not an eligible voter on this admission"))
  if AdmissionVote.same peer.vote v
      then ok a
      else if AdmissionVote.is_cast peer.vote
      then err (conflict (say "a cast vote is final"))
      else ok (
          resolve
            (record a {
              peers = record_vote voter v now a.peers;
              life = bump_and_emit a.life GovernanceEvent.peer_voted;
            })
            now)

unfoldable pub cancel : OwnerAdmission → UserId → ℤ → Result OwnerAdmission
unfolding require_open close
cancel a by now = do
  ensure (by == a.initiator) (forbidden (say "only the initiator may withdraw an admission"))
  if is_cancelled a.life.state then ok a else do
    require_open a
    ok (record a { life = close a.life ProposalState.cancelled GovernanceEvent.cancelled now })

unfoldable pub expire : OwnerAdmission → ℤ → Result OwnerAdmission
unfolding Lifecycle.expire
expire a now = do life ← Lifecycle.expire a.life "admission" now; ok (record a { life = life })

abbrev pub seat_taken : Text
seat_taken = codes "the candidate already holds an owner seat"

-- The three ways in which `execute` closes an admission that passed.
unfoldable pub carry : OwnerAdmission → List UserId → ℤ → Lifecycle
unfolding close close_void
carry a owners_now now =
    if not (contains owners_now a.initiator)
    then close_void a.life lost_seat now
    else if contains owners_now a.candidate
    then close_void a.life seat_taken now
    else close a.life ProposalState.executed GovernanceEvent.executed now

-- Grant the seat, deciding again against the roster of the moment.
unfoldable pub execute : OwnerAdmission → List UserId → ℤ → Result (OwnerAdmission × ProposalState)
unfolding require_open carry
execute a owners_now now = if is_settled a.life.state then ok (a, a.life.state) else do
  require_open a
  ensure (is_passes (outcome_among a owners_now))
      (conflict (say "the consilium has not passed against the current roster"))
  let life = carry a owners_now now
  ok (record a { life = life }, life.state)

unfoldable pub void_proposal : OwnerAdmission → Text → ℤ → Result OwnerAdmission
unfolding require_open close_void
void_proposal a reason now =
    if is_void a.life.state
    then ok a
    else do require_open a; ok (record a { life = close_void a.life reason now })
