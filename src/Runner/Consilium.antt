-- ===== src/Runner/Consilium.antt =====
-- runner/src/infrastructure/governance.rs: the tables of the consilia, and what every transaction on
-- them shares. A transaction is a function of the registry before, which answers the registry that
-- is committed beside its result: the old one where it rolls back, and a new one beside an error
-- where it closes a proposal that is due. Failures of the database itself are not modelled. What is
-- stored of a proposal is the proposal without its pending events. Rows keep the order in which they
-- were written.
pub mod Removals
pub mod Seats
pub mod Codes
pub mod Admissions
pub mod Proposals
pub mod Calls
pub mod Roster
mod Tests
pub mod Floor
pub mod Writes
pub mod Untouched
pub mod Allowance
pub mod Guesses
pub mod Mailbox
pub mod Evolution
pub mod Rows
pub mod Due
pub mod Settling
pub mod Refining
pub mod Following
pub mod Opening
pub mod Refinement
use concierge.Prelude.{
  ℕ, ◌+◌, ◌-◌, ◌%◌, String, List, [], ◌∷◌, ◌++◌, Bool, true, false, not, ◌&&◌, Option, none, some,
  map, filter, length, take, contains, ltb, ◌==◌, if◌then◌else◌,
}
use concierge.Prelude.Int.{ℤ, pos, ltb_ℤ}
use concierge.Errors.{DomainError, not_found, num, Result, ok, err}
use concierge.Text.{Text}
use concierge.Authz.Role.{Role}
use concierge.Governance.ProposalState
use concierge.Governance.ProposalState.{ProposalState}
use concierge.Governance.GovernanceEvent.{GovernanceEvent}
use concierge.Governance.Peer.{UserId}
use concierge.Governance.Removal.{OwnerRemoval}
use concierge.Governance.Admission.{OwnerAdmission}
use concierge.Governance.UserProposal.{UserProposal}
use concierge.Users.User
use concierge.Users.Account.{User}
use concierge.Users.User.{set_role}
use concierge.Runner.Genesis.{Store, find_user, update_row, loaded}

-- Where an answer came from.
pub record Audit : Type 0 where
  pub client_ip : Text
  pub user_agent : Text

-- `Audit::default()`.
abbrev pub no_audit : Audit
no_audit = record { client_ip = []; user_agent = [] }

unfoldable pub truncated : Audit → Audit
truncated a = record { client_ip = take 64 a.client_ip; user_agent = take 256 a.user_agent }

pub data Subject : Type 0 where
  removal admission user_proposal : ℕ → Subject

-- A row of `governance_event`.
pub record Entry : Type 0 where
  pub subject : Subject
  pub event : GovernanceEvent
  pub actor : Option UserId
  pub version : ℕ
  pub occurred_at : ℤ
  pub audit : Audit

-- A row of `owner_removal_token`: the digests of the emailed token and of its code.
pub record Token : Type 0 where
  pub removal_id : ℕ
  pub token_hash : Text
  pub code_hash : Text
  pub attempts : ℕ
  pub burned_at : Option ℤ
  pub used_at : Option ℤ
  pub expires_at : ℤ

-- The invitation that a removal queues for its target.
pub record Invitation : Type 0 where
  pub removal_id : ℕ
  pub recipient : Text
  pub initiator_email : Text
  pub reason : Text
  pub token : String
  pub code : String
  pub expires_at : ℤ

pub record Registry : Type 0 where
  pub accounts : Store
  pub removals : List OwnerRemoval
  pub admissions : List OwnerAdmission
  pub proposals : List UserProposal
  pub tokens : List Token
  pub log : List Entry
  pub mails : List Invitation
  pub revision : ℕ

-- `effective_state`: a proposal that is due reads as expired.
unfoldable pub effective_state : ProposalState → ℤ → ℤ → ProposalState
unfolding ProposalState.is_open
effective_state stored expires_at now =
    if ProposalState.is_open stored && not (ltb_ℤ now expires_at)
    then ProposalState.expired
    else stored

-- `lock_governance`.
abbrev pub locked : Registry → Registry
locked reg = record reg { revision = reg.revision + 1 }

-- `version - (count - 1 - i)` on u64, for the event with `later` events after it.
abbrev pub minted_at : ℕ → ℕ → ℕ
minted_at version later = (version + 18446744073709551616 - later) % 18446744073709551616

-- The rows that `insert_events` writes.
unfoldable pub entries : Subject → ℕ → List GovernanceEvent → Option UserId → Audit → ℤ → List Entry
unfolding truncated
entries subject version [] actor audit now = []
entries subject version (event ∷ events) actor audit now =
    record {
      subject = subject;
      event = event;
      actor = actor;
      version = minted_at version (length events);
      occurred_at = now;
      audit = truncated audit;
    }
    ∷ entries subject version events actor audit now

-- The role write of a seat with its outbox row, through the user adapter's helpers.
unfoldable pub write_role : Store → UserId → Role → Result Store
unfolding set_role User.drain_events update_row find_user
write_role store id role = elim (find_user id store.users) [
  | none ↦ err (not_found "user" (num id ∷ []))
  | some user ↦
      let (events, written) = User.drain_events (set_role (loaded user) role) in
      ok (record {
        users = update_row written store.users;
        outbox = store.outbox ++ map (λ e. (id, e)) events;
      })
]

unfoldable pub take_seat : Store → UserId → Result Store
unfolding write_role
take_seat store target = write_role store target Role.investor

unfoldable pub grant_seat : Store → UserId → Result Store
unfolding write_role
grant_seat store candidate = write_role store candidate Role.owner
