-- ===== src/Runner/Kyc.antt =====
-- The identity checks: the status words of runner/src/ports.rs, the table of
-- runner/src/infrastructure/kyc/cases.rs and what runner/src/web/kyc.rs does with a verdict.
pub mod Status
pub mod Cases
pub mod Decision
pub mod Table
pub mod History
pub mod Changes
pub mod Ordering
pub mod Duplicates
pub mod Redelivery
pub mod Callback
pub mod Levels
pub mod Delivery
pub mod Start
pub mod Window
mod Tests
