-- ===== src/Runner/Consilium/Proposals.antt =====
-- runner/src/infrastructure/governance.rs: the transactions on the proposals about users, less the
-- records that they read back. The row of the administrative log is left out.
pub mod Opening
use text.Mathlib.Text.{◌==◌ as str_eq}
use concierge.Prelude.{
  ℕ, List, [], ◌∷◌, ◌++◌, Bool, true, false, not, ◌&&◌, ◌||◌, Option, none, some, map, ◌==◌,
  if◌then◌else◌,
}
use concierge.Prelude.Int.{ℤ, ltb_ℤ}
use concierge.Errors.{
  DomainError, not_found, conflict, repository, say, num, Result, ok, err, ◌>>=◌, ◌>>◌, ensure,
}
use concierge.Text.{Text, codes}
use concierge.Authz.Role.{Role}
use concierge.Users.Suspension
use concierge.Users.Suspension.{Suspension}
use concierge.Users.User
use concierge.Users.User.{set_role}
use concierge.Users.Account.{User}
use concierge.Governance.UserProposalKind
use concierge.Governance.UserProposalKind.{UserProposalKind}
use concierge.Governance.ProposalState
use concierge.Governance.ProposalState.{ProposalState}
use concierge.Governance.ProposalVote.{ProposalVote}
use concierge.Governance.Peer.{UserId}
use concierge.Governance.Lifecycle
use concierge.Governance.Lifecycle.{removal_ttl_secs}
use concierge.Governance.Removal.{is_passes}
use concierge.Governance.UserProposal
use concierge.Governance.UserProposal.{UserProposal, outcome_now, outcome_among}
use concierge.Runner.Genesis.{Store, owner_ids, find_user, update_row, loaded}
use concierge.Runner.Consilium.{Registry, Audit, no_audit, user_proposal, locked, entries}

abbrev pub stored : UserProposal → UserProposal
stored a = record a { life = (Lifecycle.drain_events a.life).1 }

unfoldable pub find_proposal : ℕ → List UserProposal → Option UserProposal
find_proposal id [] = none
find_proposal id (a ∷ rows) = if a.id == id then some a else find_proposal id rows

unfoldable pub write_proposal : UserProposal → List UserProposal → List UserProposal
write_proposal w [] = []
write_proposal w (a ∷ rows) = if a.id == w.id then w ∷ rows else a ∷ write_proposal w rows

-- `persist_proposal`.
unfoldable pub persist : Registry → UserProposal → Option UserId → Audit → ℤ → Registry
unfolding write_proposal entries Lifecycle.drain_events
persist reg a actor audit now = record reg {
  proposals = write_proposal (stored a) reg.proposals;
  log =
      reg.log
      ++ entries (user_proposal a.id) a.life.version (Lifecycle.drain_events a.life).0 actor audit
          now;
}

abbrev pub ok_some : Result UserProposal → Option UserProposal
ok_some (ok a) = some a
ok_some (err e) = none

-- `expire_proposal_if_due`.
unfoldable pub expire_if_due : UserProposal → ℤ → Option UserProposal
unfolding ProposalState.is_open UserProposal.expire
expire_if_due a now =
    if ProposalState.is_open a.life.state && not (ltb_ℤ now a.life.expires_at)
    then ok_some (UserProposal.expire a now)
    else none

abbrev pub lost_seats : Text
lost_seats = codes "the owners who carried this no longer hold their seats"

-- `suspension().is_some_and(|by| !by.is_reversible_by_one_admin())`.
abbrev pub is_ratified : Option Suspension → Bool
is_ratified none = false
is_ratified (some by) = not (Suspension.is_reversible_by_one_admin by)

-- Why a proposal that passed cannot be carried out against the subject as they stand.
unfoldable pub inapplicable : User → UserProposalKind → Option Text
unfolding Suspension.is_reversible_by_one_admin
inapplicable subject UserProposalKind.suspension = none
inapplicable subject UserProposalKind.reinstatement =
    if is_ratified subject.suspension
    then none
    else some (codes "the account is no longer suspended by the consilium")
inapplicable subject UserProposalKind.admin_admission = elim subject.role [
  | Role.owner ↦ some (codes "the subject holds an owner seat, which outranks admin")
  | Role.admin ↦ some (codes "the subject already holds the admin role")
  | _ ↦ none
]

-- The effect on the account.
unfoldable pub apply_effect : User → UserProposalKind → ℤ → User
unfolding User.suspend User.enable set_role
apply_effect subject UserProposalKind.suspension now = User.suspend subject
apply_effect subject UserProposalKind.reinstatement now = User.enable subject now
apply_effect subject UserProposalKind.admin_admission now = set_role subject Role.admin

-- `update_row` and `drain_outbox`.
unfoldable pub write_user : Store → User → Store
unfolding update_row User.drain_events
write_user store user =
    let (events, written) = User.drain_events user in
    record {
      users = update_row written store.users;
      outbox = store.outbox ++ map (λ e. (user.id, e)) events;
    }

abbrev pub effect_if :
    Store → User → ℤ → UserProposal × ProposalState → Result (Store × UserProposal)
effect_if accounts subject now (p, ProposalState.executed) =
    ok (write_user accounts (apply_effect subject p.kind now), p)
effect_if accounts subject now (p, _) = ok (accounts, p)

abbrev pub voided : Store → Result UserProposal → Result (Store × UserProposal)
voided accounts (err e) = err e
voided accounts (ok p) = ok (accounts, p)

-- The verdict under the lock of the subject's row.
unfoldable pub settle_subject : Store → User → UserProposal → ℤ → Result (Store × UserProposal)
unfolding inapplicable UserProposal.execute UserProposal.void_proposal write_user apply_effect
settle_subject accounts subject p now = elim (inapplicable subject p.kind) [
  | some blocked ↦ voided accounts (UserProposal.void_proposal p blocked now)
  | none ↦
      UserProposal.execute p (owner_ids accounts.users) now
      >>= effect_if accounts (loaded subject) now
]

-- `settle_proposal`.
unfoldable pub settle : Store → UserProposal → ℤ → Result (Store × UserProposal)
unfolding ProposalState.is_open settle_subject find_user UserProposal.void_proposal
settle accounts p now =
    if not (ProposalState.is_open p.life.state) || not (is_passes (outcome_now p))
    then ok (accounts, p)
    else if not (is_passes (outcome_among p (owner_ids accounts.users)))
    then voided accounts (UserProposal.void_proposal p lost_seats now)
    else elim (find_user p.subject accounts.users) [
      | none ↦ err (not_found "user" (num p.subject ∷ []))
      | some subject ↦ settle_subject accounts subject p now
    ]

abbrev pub missing : ℕ → DomainError
missing id = not_found "user proposal" (num id ∷ [])

unfoldable pub commit :
    Registry
    → ℤ
    → Option UserId
    → Audit
    → Result (Store × UserProposal)
    → Registry × Result (Unit {0})
unfolding persist
commit reg now actor audit (err e) = (reg, err e)
commit reg now actor audit (ok (accounts, a)) =
    (persist (record (locked reg) { accounts = accounts }) a actor audit now, ok tt)

unfoldable pub on_proposal :
    Registry
    → ℕ
    → ℤ
    → Option UserId
    → Audit
    → (UserProposal → Result (Store × UserProposal))
    → Registry × Result (Unit {0})
unfolding find_proposal expire_if_due commit persist
on_proposal reg id now actor audit work = elim (find_proposal id reg.proposals) [
  | none ↦ (reg, err (missing id))
  | some a ↦ elim (expire_if_due a now) [
    | some expired ↦ (
      persist (locked reg) expired none no_audit now,
      err (conflict (say "the proposal is expired")),
    )
    | none ↦ commit reg now actor audit (work a)
  ]
]

abbrev pub voted : Store → UserId → ProposalVote → ℤ → UserProposal → Result (Store × UserProposal)
voted accounts voter vote now a = do a' ← UserProposal.vote a voter vote now; settle accounts a' now

unfoldable pub user_proposal_vote :
    Registry → ℕ → UserId → ProposalVote → ℤ → Audit → Registry × Result (Unit {0})
unfolding on_proposal UserProposal.vote settle
user_proposal_vote reg id voter vote now audit =
    on_proposal reg id now (some voter) audit (voted reg.accounts voter vote now)

abbrev pub withdrawn : Store → UserId → ℤ → UserProposal → Result (Store × UserProposal)
withdrawn accounts by now a = do a' ← UserProposal.cancel a by now; ok (accounts, a')

unfoldable pub cancel_user_proposal : Registry → ℕ → UserId → ℤ → Registry × Result (Unit {0})
unfolding on_proposal UserProposal.cancel
cancel_user_proposal reg id by now =
    on_proposal reg id now (some by) no_audit (withdrawn reg.accounts by now)
