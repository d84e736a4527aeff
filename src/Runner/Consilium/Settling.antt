-- ===== src/Runner/Consilium/Settling.antt =====
-- The three transactions of runner/src/infrastructure/governance.rs that settle a proposal once its
-- votes pass.
pub mod Removing
pub mod Removals
pub mod Verdicts
pub mod Proposals
pub mod Granting
pub mod Admissions
mod Tests
