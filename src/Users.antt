-- ===== src/Users.antt =====
-- domain/src/users.rs: the account aggregate.
pub mod UserStatus
pub mod UserEvent
pub mod Suspension
pub mod Identity
pub mod Fields
pub mod Profile
pub mod Account
pub mod User
