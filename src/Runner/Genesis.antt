-- ===== src/Runner/Genesis.antt =====
-- runner/src/genesis.rs and `seed_owners` of runner/src/infrastructure/governance.rs: the one-shot
-- seeding of the owners. The store is the table of users in the order of their ids, and the outbox.
-- One seeding is one transaction under the lock of governance: it is a function of the store before.
-- The failures of the database itself are not modelled. `lower` is the function of SQL.
pub mod Seating
pub mod Scanning
pub mod Seatable
pub mod Tests
use concierge.Prelude.{
  ℕ, String, List, [], ◌∷◌, ◌++◌, Bool, true, false, not, ◌||◌, Option, none, some, ◌⊎◌, inl, inr,
  map, filter, length, is_empty, contains, ltb, ◌==◌, if◌then◌else◌,
}
use concierge.Errors.{DomainError, not_found, num, Result, ok, err}
use concierge.Text.{Text, trim, same_text}
use concierge.Authz.Role
use concierge.Authz.Role.{Role, owner}
use concierge.Governance.Peer.{UserId}
use concierge.Governance.Lifecycle.{min_owners}
use concierge.Users.Identity.{Unicode, Email, parse_email}
use concierge.Users.UserStatus.{is_active}
use concierge.Users.UserEvent.{UserEvent}
use concierge.Users.User
use concierge.Users.Account.{User}
use concierge.Users.User.{set_role}
use concierge.Runner.Gate.{Uuid}

pub data GenesisSubject : Type 0 where
  by_id : UserId → GenesisSubject
  mailbox : Email → GenesisSubject

pub data UnseatableReason : Type 0 where
  account_disabled address_unverified : UnseatableReason

pub record Unseatable : Type 0 where
  pub named : Text
  pub reason : UnseatableReason

pub record Resolution : Type 0 where
  pub found : List UserId
  pub missing_ids : List UserId
  pub missing_mailboxes : List Email
  pub unseatable : List Unseatable

-- `Resolution::default()`.
abbrev pub unresolved : Resolution
unresolved = record { found = []; missing_ids = []; missing_mailboxes = []; unseatable = [] }

pub data GenesisOutcome : Type 0 where
  unconfigured : GenesisOutcome
  malformed : Text → GenesisOutcome
  closed : ℕ → GenesisOutcome
  too_few : Resolution → GenesisOutcome
  seated : Resolution → GenesisOutcome

pub record Store : Type 0 where
  pub users : List User
  pub outbox : List (UserId × UserEvent)

-- What a computation of the adapter does: it is done, it fails, or it reaches `unreachable!`.
pub data Attempt (A : Type 0) : Type 0 where
  done : A → Attempt A
  failed : DomainError → Attempt A
  panicked : Attempt A

unfoldable pub remember : List UserId → UserId → List UserId
remember ids id = if contains ids id then ids else ids ++ id ∷ []

-- `SELECT … FROM users WHERE id = $1`.
unfoldable pub find_user : UserId → List User → Option User
find_user id [] = none
find_user id (user ∷ users) = if user.id == id then some user else find_user id users

abbrev pub is_owner : User → Bool
is_owner user = Role.same user.role owner

-- `owner_ids_for_update`.
abbrev pub owner_ids : List User → List UserId
owner_ids users = map (λ user. user.id) (filter is_owner users)

-- The rows of one address: those that can be seated, and what blocks the others.
pub record Scan : Type 0 where
  pub seatable : List UserId
  pub blocked : Option UnseatableReason

-- `get_or_insert`.
abbrev pub or_else : Option UnseatableReason → UnseatableReason → Option UnseatableReason
or_else none reason = some reason
or_else (some old) reason = some old

unfoldable pub scan_row : Scan → User → Scan
scan_row s user =
    if not user.email_verified
    then record s { blocked = or_else s.blocked address_unverified }
    else if not (is_active user.status)
    then record s { blocked = some account_disabled }
    else record s { seatable = s.seatable ++ user.id ∷ [] }

unfoldable pub scan : Scan → List User → Scan
unfolding scan_row
scan s [] = s
scan s (user ∷ users) = scan (scan_row s user) users

-- The match on what one address yielded.
unfoldable pub settle : Resolution → Email → Scan → Attempt Resolution
unfolding remember
settle res address s = elim s.seatable [
  | [] ↦ elim s.blocked [
    | some reason ↦ done (record res {
      unseatable = res.unseatable ++ record { named = address.address; reason = reason } ∷ [];
    })
    | none ↦ done (record res { missing_mailboxes = res.missing_mailboxes ++ address ∷ [] })
  ]
  | only ∷ others ↦
      if is_empty others then done (record res { found = remember res.found only }) else panicked
]

-- The row write of `set_role`: the row of the same id.
unfoldable pub update_row : User → List User → List User
update_row user [] = []
update_row user (row ∷ rows) = if row.id == user.id then user ∷ rows else row ∷ update_row user rows

-- A row has no pending events.
abbrev pub loaded : User → User
loaded user = record user { pending = [] }

-- An outbox row is told apart by its user and its event.
unfoldable pub grant_seat : Store → UserId → Attempt Store
unfolding set_role User.drain_events update_row find_user
grant_seat store id = elim (find_user id store.users) [
  | none ↦ failed (not_found "user" (num id ∷ []))
  | some user ↦
      let (events, written) = User.drain_events (set_role (loaded user) owner) in
      done (record {
        users = update_row written store.users;
        outbox = store.outbox ++ map (λ e. (id, e)) events;
      })
]

unfoldable pub grant_all : Store → List UserId → Attempt Store
unfolding grant_seat
grant_all store [] = done store
grant_all store (id ∷ ids) = elim (grant_seat store id) [
  | done next ↦ grant_all next ids
  | failed e ↦ failed e
  | panicked ↦ panicked
]

-- The end of the transaction: the seats, if enough entries resolved.
abbrev pub committed : Resolution → Attempt Store → Attempt (Store × GenesisOutcome)
committed res (done store) = done (store, seated res)
committed res (failed e) = failed e
committed res panicked = panicked

unfoldable pub seat_found : Store → Attempt Resolution → Attempt (Store × GenesisOutcome)
unfolding grant_all
seat_found store (done res) =
    if ltb (length res.found) min_owners
    then done (store, too_few res)
    else committed res (grant_all store res.found)
seat_found store (failed e) = failed e
seat_found store panicked = panicked

module _ (uuid : Uuid) (lower : Text → Text) where
  unfoldable pub resolve_subject : List User → Resolution → GenesisSubject → Attempt Resolution
  unfolding remember find_user settle scan
  resolve_subject users res (by_id id) = elim (find_user id users) [
    | none ↦ done (record res { missing_ids = remember res.missing_ids id })
    | some user ↦
        if is_active user.status
        then done (record res { found = remember res.found id })
        else done (record res {
          unseatable =
              res.unseatable
              ++ record { named = uuid.to_string id; reason = account_disabled } ∷ [];
        })
  ]
  resolve_subject users res (mailbox address) = settle res address (
      scan (record { seatable = []; blocked = none })
        (filter (λ user. same_text (lower user.email.address) address.address) users))

  unfoldable pub resolve_all : List User → Resolution → List GenesisSubject → Attempt Resolution
  unfolding resolve_subject
  resolve_all users res [] = done res
  resolve_all users res (subject ∷ subjects) = elim (resolve_subject users res subject) [
    | done next ↦ resolve_all users next subjects
    | failed e ↦ failed e
    | panicked ↦ panicked
  ]

  unfoldable pub seed_owners : Store → List GenesisSubject → Attempt (Store × GenesisOutcome)
  unfolding resolve_all seat_found
  seed_owners store subjects =
      if is_empty (owner_ids store.users)
      then seat_found store (resolve_all store.users unresolved subjects)
      else done (store, closed (length (owner_ids store.users)))

module _ (u : Unicode) (uuid : Uuid) (lower : Text → Text) where
  abbrev pub classified : Text → Result Email → Text ⊎ GenesisSubject
  classified entry (ok address) = inr (mailbox address)
  classified entry (err e) = inl entry

  abbrev pub classify_entry : Text → Text ⊎ GenesisSubject
  classify_entry entry = elim (uuid.parse_str entry) [
    | some id ↦ inr (by_id id)
    | none ↦ classified entry (parse_email u entry)
  ]

  -- `classify`: the first entry that is neither, or the subjects.
  unfoldable pub classify : List Text → Text ⊎ List GenesisSubject
  classify [] = inr []
  classify (raw ∷ entries) = elim (classify_entry (trim raw)) [
    | inl bad ↦ inl bad
    | inr subject ↦ elim (classify entries) [
      | inl bad ↦ inl bad
      | inr subjects ↦ inr (subject ∷ subjects)
    ]
  ]

  -- `seed`, less its log lines.
  unfoldable pub seed : Store → List Text → Attempt (Store × GenesisOutcome)
  unfolding classify seed_owners
  seed store [] = done (store, unconfigured)
  seed store (entry ∷ entries) = elim (classify (entry ∷ entries)) [
    | inl bad ↦ done (store, malformed bad)
    | inr subjects ↦ seed_owners uuid lower store subjects
  ]
