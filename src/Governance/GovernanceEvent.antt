-- ===== src/Governance/GovernanceEvent.antt =====
-- domain/src/governance.rs: the audit facts that a proposal raises.
use concierge.Prelude.{String}

pub data GovernanceEvent : Type 0 where
  opened peer_voted target_decided cancelled expired executed rejected voided : GovernanceEvent

-- The stored word.
unfoldable pub kind : GovernanceEvent → String
kind opened = "OPENED"
kind peer_voted = "PEER_VOTED"
kind target_decided = "TARGET_DECIDED"
kind cancelled = "CANCELLED"
kind expired = "EXPIRED"
kind executed = "EXECUTED"
kind rejected = "REJECTED"
kind voided = "VOIDED"
