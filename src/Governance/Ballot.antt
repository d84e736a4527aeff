-- ===== src/Governance/Ballot.antt =====
-- domain/src/governance.rs: a peer's answer with the verb stripped off, and the verdict over answers.
pub data Ballot : Type 0 where
  pending for against : Ballot

pub data Outcome : Type 0 where
  pending passes fails : Outcome
