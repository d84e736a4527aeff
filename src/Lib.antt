-- ===== src/Lib.antt =====
-- The domain of concierge, the identity and platform plane of a fund: who holds an account, which
-- seat it has, what the seat and the grants let it do, and how the owners decide together.
--
-- The parts, with the files that model them:
--   * Errors.antt: DomainError and `?` (domain/src/error.rs). A fallible function returns a Result.
--   * Text.antt: what the crates use of Rust's texts. A text that the code looks into is the list of
--     its characters; one that it only compares or prints is a String.
--   * Governance.antt (domain/src/governance.rs): Ballot, ProposalState, Vote, AdmissionVote,
--     ProposalVote, UserProposalKind, GovernanceEvent and Peer are the enums and structs; Rules has
--     the passing rules `unanimity`, `majority` and `outcome`; Lifecycle is the struct that every
--     consilium embeds; Removal, Admission and UserProposal are the three aggregates OwnerRemoval,
--     OwnerAdmission and UserProposal. A method on `&mut self` returns the new value, and an error
--     leaves the old one. Steps is the life of an aggregate as a sequence of calls, which Audit shows
--     to be a path in the relation of Lifecycle/Transitions.antt.
--   * Users.antt (domain/src/users.rs): Identity has Email, Username and AuthSubject
--     (domain/src/auth.rs); Profile has ProfileFields and its parser, Fields what each field accepts;
--     Account is the record of the aggregate and User its transitions, with UserStatus, Suspension and
--     UserEvent beside them.
--   * Authz.antt (domain/src/authz.rs): Role, the permission enums of both planes, the seats, and
--     `may`. Users and Runner use its Role.
--   * Iam.antt: Pattern and Catalog (iam/src/lib.rs), and Grants (domain/src/iam.rs), which resolves
--     grants against a catalog and asks Authz whether a seat may grant.
--   * Runner.antt: Gate is the gate of the admin surface with its emergency access
--     (runner/src/authz.rs); Genesis seats the first owners (runner/src/genesis.rs, and `seed_owners`
--     and `grant_seat` of runner/src/infrastructure/governance.rs). A repository is what it answers
--     during one request, or the table and the outbox that one transaction changes.
--   * Runner/Consilium.antt: the transactions of runner/src/infrastructure/governance.rs on the tables
--     of the consilia, each a function from the registry to the registry that is committed and the
--     result. Removals has the votes on a removal and what a vote that passes does to the seat, Seats
--     the opening of a removal and `resign`, Codes the answer of the target from the mailbox
--     (`self_decision`, `invitation`), Admissions and Proposals the other two consilia. They carry the
--     verdicts of Governance into the accounts of Users. Calls is any sequence of them. Roster and
--     Floor, Allowance, Guesses and Mailbox, Evolution, Rows, Due, Settling, Refining, Following,
--     Opening and Refinement have the proofs, with Writes and Untouched for all of them.
--   * Runner/Kyc.antt: the identity checks. Status has KycStatus (runner/src/ports.rs), Cases the
--     table of attempts and Decision what a verdict does to it (runner/src/infrastructure/kyc/cases.rs),
--     Start the handlers `start` and `status` and Callback the handler `callback` with the level that
--     it raises (runner/src/web/kyc.rs, and `raise_kyc_level_to` of
--     runner/src/infrastructure/users.rs). Changes, Table, History, Ordering, Duplicates, Redelivery,
--     Levels, Delivery and Window have the proofs.
--
-- Numbers: instants are i64 seconds as ℤ, their sums saturate at the bounds of i64; versions are u64
-- and wrap at 2^64; the owner count and the bar that a proposal stores are cut to u32. Lengths and
-- the counters of `majority` are usize over elements in memory and stay unbounded. All loops are over
-- lists, so there is no fuel.
--
-- Parameters: the Unicode tables behind `to_lowercase` and `is_alphabetic` with their behaviour on
-- ASCII, `PhoneNumber::validate` of the ev crate, the uuid crate with the round trip of its text form,
-- and the function `lower` of SQL; SHA-256 as the digest of a token and of a code; the URL parser
-- behind `origin_of`; the vendor of the identity checks, as what it answers to a session that is
-- opened and as what a delivery parses to; the outcome of the session and of the CSRF check. Random
-- ids, tokens and codes are arguments, and so is the instant `now()` of a transaction.
--
-- Not modelled: failures of the database, log lines, the administrative log and the subscriber rows of
-- the transactions above; the adapter of the vendor (HTTP, signatures, JSON); the rest of the runner
-- (the governance service and the directory, sign-in, notifications, mail), the auth crate (tokens and
-- identity providers), the protocol buffers, the derive macro of iam_derive, whose names for the
-- permissions are written out, `Catalog::collect` and `Catalog::ts`.
pub mod Prelude
pub mod Errors
pub mod Text
pub mod Authz
pub mod Iam
pub mod Users
pub mod Governance
pub mod Runner
