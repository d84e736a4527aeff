-- ===== src/Governance.antt =====
-- domain/src/governance.rs: the consilia that take and grant an owner's seat and decide a person's
-- standing.
pub mod Ballot
pub mod ProposalState
pub mod Vote
pub mod AdmissionVote
pub mod ProposalVote
pub mod UserProposalKind
pub mod GovernanceEvent
pub mod Peer
pub mod Rules
pub mod Lifecycle
pub mod Removal
pub mod Admission
pub mod UserProposal
