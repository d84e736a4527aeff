-- ===== src/Governance/Peer.antt =====
-- domain/src/governance.rs: one eligible voter and their answer. `Peer`, `AdmissionPeer` and
-- `ProposalPeer` are the same record at three vote types, and the search and the write that the
-- three vote methods make are written once. A user id is a number: the source only compares ids.
pub mod Laws
use concierge.Prelude.{
  ℕ, List, [], ◌∷◌, Option, none, some, Bool, true, false, not, map, filter, contains, ◌==◌,
  if◌then◌else◌,
}
use concierge.Prelude.Int.{ℤ, pos}
use concierge.Governance.Vote
use concierge.Governance.Vote.{Vote}
use concierge.Governance.AdmissionVote
use concierge.Governance.AdmissionVote.{AdmissionVote}
use concierge.Governance.ProposalVote
use concierge.Governance.ProposalVote.{ProposalVote}

-- users.rs: `UserId`.
abbrev pub UserId : Type 0
UserId = ℕ

pub record Peer (V : Type 0) : Type 0 where
  pub user_id : UserId
  pub vote : V
  pub voted_at : ℤ

abbrev pub AdmissionPeer : Type 0
AdmissionPeer = Peer AdmissionVote

abbrev pub ProposalPeer : Type 0
ProposalPeer = Peer ProposalVote

-- `Peer::pending`, `AdmissionPeer::pending` and `ProposalPeer::pending`.
abbrev pub pending_peer : UserId → Peer Vote
pending_peer user = record { user_id = user; vote = Vote.pending; voted_at = pos 0 }

abbrev pub pending_admission_peer : UserId → AdmissionPeer
pending_admission_peer user = record {
  user_id = user;
  vote = AdmissionVote.pending;
  voted_at = pos 0;
}

abbrev pub pending_proposal_peer : UserId → ProposalPeer
pending_proposal_peer user = record {
  user_id = user;
  vote = ProposalVote.pending;
  voted_at = pos 0;
}

module _ {V : Type 0} where
  -- `iter_mut().find(|p| p.user_id == voter)`.
  unfoldable pub find_peer : UserId → List (Peer V) → Option (Peer V)
  find_peer voter [] = none
  find_peer voter (p ∷ ps) = if p.user_id == voter then some p else find_peer voter ps

  -- The writes `peer.vote = vote; peer.voted_at = now` through the reference that `find` returned.
  unfoldable pub record_vote : UserId → V → ℤ → List (Peer V) → List (Peer V)
  record_vote voter v now [] = []
  record_vote voter v now (p ∷ ps) =
      if p.user_id == voter
      then record p { vote = v; voted_at = now } ∷ ps
      else p ∷ record_vote voter v now ps

  -- The peers who still hold a seat.
  abbrev pub seated : List UserId → List (Peer V) → List (Peer V)
  seated owners peers = filter (λ p. contains owners p.user_id) peers

  abbrev pub user_ids : List (Peer V) → List UserId
  user_ids peers = map (λ p. p.user_id) peers
