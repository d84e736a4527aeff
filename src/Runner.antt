-- ===== src/Runner.antt =====
-- What the runner decides by itself: who passes the gate of the admin surface, how the first owners
-- are seated, and how the verdicts on identity checks move an account.
pub mod Gate
pub mod Genesis
pub mod Kyc
pub mod Consilium
