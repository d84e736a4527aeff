-- ===== src/Runner/Consilium/Removals.antt =====
-- runner/src/infrastructure/governance.rs: the transactions on the removals of owners.
use concierge.Prelude.{
  ℕ, List, [], ◌∷◌, ◌++◌, not, ◌&&◌, ◌||◌, Option, none, some, map, ◌==◌, if◌then◌else◌,
}
use concierge.Prelude.Int.{ℤ, ltb_ℤ}
use concierge.Errors.{DomainError, not_found, conflict, say, num, Result, ok, err, ◌>>=◌}
use concierge.Text.{Text}
use concierge.Governance.ProposalState
use concierge.Governance.ProposalState.{ProposalState}
use concierge.Governance.Vote.{Vote}
use concierge.Governance.Peer.{UserId}
use concierge.Governance.Lifecycle
use concierge.Governance.Lifecycle.{check_floor, removal_ttl_secs}
use concierge.Governance.Removal
use concierge.Governance.Removal.{OwnerRemoval, outcome_now, is_passes, mark_target_notified}
use concierge.Users.Account.{User}
use concierge.Runner.Genesis.{Store, find_user, owner_ids}
use concierge.Runner.Consilium.{
  Registry, Audit, no_audit, removal, effective_state, locked, entries, take_seat,
}

-- What is stored of a removal.
abbrev pub stored : OwnerRemoval → OwnerRemoval
stored r = record r { life = (Lifecycle.drain_events r.life).1 }

unfoldable pub find_removal : ℕ → List OwnerRemoval → Option OwnerRemoval
find_removal id [] = none
find_removal id (r ∷ rs) = if r.id == id then some r else find_removal id rs

unfoldable pub write_removal : OwnerRemoval → List OwnerRemoval → List OwnerRemoval
write_removal w [] = []
write_removal w (r ∷ rs) = if r.id == w.id then w ∷ rs else r ∷ write_removal w rs

-- Write the proposal back and drain its events into the audit log.
unfoldable pub persist : Registry → OwnerRemoval → Option UserId → Audit → ℤ → Registry
unfolding write_removal entries Lifecycle.drain_events
persist reg r actor audit now = record reg {
  removals = write_removal (stored r) reg.removals;
  log =
      reg.log
      ++ entries (removal r.id) r.life.version (Lifecycle.drain_events r.life).0 actor audit now;
}

abbrev pub ok_some : Result OwnerRemoval → Option OwnerRemoval
ok_some (ok r) = some r
ok_some (err e) = none

-- `expire_if_due`: the removal as it was just closed, where it was due.
unfoldable pub expire_if_due : OwnerRemoval → ℤ → Option OwnerRemoval
unfolding ProposalState.is_open Removal.expire
expire_if_due r now =
    if ProposalState.is_open r.life.state && not (ltb_ℤ now r.life.expires_at)
    then ok_some (Removal.expire r now)
    else none

abbrev pub seat_taken_if : Store → OwnerRemoval × ProposalState → Result (Store × OwnerRemoval)
seat_taken_if accounts (r, ProposalState.executed) = do
  after ← take_seat accounts r.target
  ok (after, r)
seat_taken_if accounts (r, _) = ok (accounts, r)

-- Carry a removal that has passed, on the roster of this moment.
unfoldable pub settle : Store → OwnerRemoval → ℤ → Result (Store × OwnerRemoval)
unfolding ProposalState.is_open Removal.execute take_seat
settle accounts r now =
    if not (ProposalState.is_open r.life.state) || not (is_passes (outcome_now r))
    then ok (accounts, r)
    else Removal.execute r (owner_ids accounts.users) now >>= seat_taken_if accounts

-- A removal with the addresses that its surfaces show.
pub record RemovalRecord : Type 0 where
  pub removal : OwnerRemoval
  pub state : ProposalState
  pub target_email : Text
  pub initiator_email : Text
  pub peer_emails : List Text

-- The address of an account that a row refers to; the foreign keys keep the account.
abbrev pub email_of : Option User → Text
email_of none = []
email_of (some user) = user.email.address

unfoldable pub record_of : List User → OwnerRemoval → ℤ → RemovalRecord
unfolding effective_state find_user
record_of users r now = record {
  removal = r;
  state = effective_state r.life.state r.life.expires_at now;
  target_email = email_of (find_user r.target users);
  initiator_email = email_of (find_user r.initiator users);
  peer_emails = map (λ p. email_of (find_user p.user_id users)) r.peers;
}

abbrev pub missing : ℕ → DomainError
missing id = not_found "owner removal" (num id ∷ [])

-- The record after a commit, which the transaction answers with.
unfoldable pub answered : Registry → ℕ → ℤ → Registry × Result RemovalRecord
unfolding find_removal record_of
answered reg id now = elim (find_removal id reg.removals) [
  | none ↦ (reg, err (missing id))
  | some r ↦ (reg, ok (record_of reg.accounts.users r now))
]

-- The end of a transaction: it commits what it computed, or rolls back.
unfoldable pub commit :
    Registry
    → ℕ
    → ℤ
    → Option UserId
    → Audit
    → Result (Store × OwnerRemoval)
    → Registry × Result RemovalRecord
unfolding persist answered
commit reg id now actor audit (err e) = (reg, err e)
commit reg id now actor audit (ok (accounts, r)) =
    answered (persist (record (locked reg) { accounts = accounts }) r actor audit now) id now

-- A due removal is closed and the caller refused.
abbrev pub closed_due : Registry → OwnerRemoval → ℤ → Registry × Result RemovalRecord
closed_due reg expired now =
    (persist (locked reg) expired none no_audit now, err (conflict (say "the removal is expired")))

-- What `peer_vote` and `cancel_removal` share: the row, its expiry and the commit.
unfoldable pub on_removal :
    Registry
    → ℕ
    → ℤ
    → Option UserId
    → Audit
    → (OwnerRemoval → Result (Store × OwnerRemoval))
    → Registry × Result RemovalRecord
unfolding find_removal expire_if_due commit persist
on_removal reg id now actor audit work = elim (find_removal id reg.removals) [
  | none ↦ (reg, err (missing id))
  | some r ↦ elim (expire_if_due r now) [
    | some expired ↦ closed_due reg expired now
    | none ↦ commit reg id now actor audit (work r)
  ]
]

abbrev pub voted : Store → UserId → Vote → ℤ → OwnerRemoval → Result (Store × OwnerRemoval)
voted accounts voter vote now r = do r' ← Removal.peer_vote r voter vote now; settle accounts r' now

unfoldable pub peer_vote :
    Registry → ℕ → UserId → Vote → ℤ → Audit → Registry × Result RemovalRecord
unfolding on_removal Removal.peer_vote settle
peer_vote reg id voter vote now audit =
    on_removal reg id now (some voter) audit (voted reg.accounts voter vote now)

abbrev pub withdrawn : Store → UserId → ℤ → OwnerRemoval → Result (Store × OwnerRemoval)
withdrawn accounts by now r = do r' ← Removal.cancel r by now; ok (accounts, r')

unfoldable pub cancel_removal : Registry → ℕ → UserId → ℤ → Registry × Result RemovalRecord
unfolding on_removal Removal.cancel
cancel_removal reg id by now =
    on_removal reg id now (some by) no_audit (withdrawn reg.accounts by now)

-- An open removal of a target: at most one, by the unique index.
unfoldable pub find_open : UserId → List OwnerRemoval → Option OwnerRemoval
unfolding ProposalState.is_open
find_open target [] = none
find_open target (r ∷ rs) =
    if r.target == target && ProposalState.is_open r.life.state then some r else find_open target rs
