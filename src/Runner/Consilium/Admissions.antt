-- ===== src/Runner/Consilium/Admissions.antt =====
-- runner/src/infrastructure/governance.rs: the transactions on the admissions of owners, less the
-- records that they read back.
use concierge.Prelude.{
  ℕ, List, [], ◌∷◌, ◌++◌, Bool, true, false, not, ◌&&◌, ◌||◌, Option, none, some, ◌==◌,
  if◌then◌else◌,
}
use concierge.Prelude.Int.{ℤ, ltb_ℤ}
use concierge.Errors.{
  DomainError, not_found, conflict, repository, say, num, Result, ok, err, ◌>>=◌, ◌>>◌, ensure,
}
use concierge.Text.{Text, codes}
use concierge.Governance.ProposalState
use concierge.Governance.ProposalState.{ProposalState}
use concierge.Governance.AdmissionVote.{AdmissionVote}
use concierge.Governance.Peer.{UserId}
use concierge.Governance.Lifecycle
use concierge.Governance.Lifecycle.{removal_ttl_secs}
use concierge.Governance.Removal.{is_passes}
use concierge.Governance.Admission
use concierge.Governance.Admission.{OwnerAdmission, outcome_now, outcome_among}
use concierge.Runner.Genesis.{Store, owner_ids}
use concierge.Runner.Consilium.{Registry, Audit, no_audit, admission, locked, entries, grant_seat}

abbrev pub stored : OwnerAdmission → OwnerAdmission
stored a = record a { life = (Lifecycle.drain_events a.life).1 }

unfoldable pub find_admission : ℕ → List OwnerAdmission → Option OwnerAdmission
find_admission id [] = none
find_admission id (a ∷ rows) = if a.id == id then some a else find_admission id rows

unfoldable pub write_admission : OwnerAdmission → List OwnerAdmission → List OwnerAdmission
write_admission w [] = []
write_admission w (a ∷ rows) = if a.id == w.id then w ∷ rows else a ∷ write_admission w rows

-- `persist_admission`.
unfoldable pub persist : Registry → OwnerAdmission → Option UserId → Audit → ℤ → Registry
unfolding write_admission entries Lifecycle.drain_events
persist reg a actor audit now = record reg {
  admissions = write_admission (stored a) reg.admissions;
  log =
      reg.log
      ++ entries (admission a.id) a.life.version (Lifecycle.drain_events a.life).0 actor audit now;
}

abbrev pub ok_some : Result OwnerAdmission → Option OwnerAdmission
ok_some (ok a) = some a
ok_some (err e) = none

-- `expire_admission_if_due`.
unfoldable pub expire_if_due : OwnerAdmission → ℤ → Option OwnerAdmission
unfolding ProposalState.is_open Admission.expire
expire_if_due a now =
    if ProposalState.is_open a.life.state && not (ltb_ℤ now a.life.expires_at)
    then ok_some (Admission.expire a now)
    else none

abbrev pub lost_seats : Text
lost_seats = codes "the owners who carried this no longer hold their seats"

abbrev pub seated_if : Store → OwnerAdmission × ProposalState → Result (Store × OwnerAdmission)
seated_if accounts (a, ProposalState.executed) = do
  after ← grant_seat accounts a.candidate
  ok (after, a)
seated_if accounts (a, _) = ok (accounts, a)

abbrev pub voided : Store → Result OwnerAdmission → Result (Store × OwnerAdmission)
voided accounts (err e) = err e
voided accounts (ok a) = ok (accounts, a)

-- `settle_admission`.
unfoldable pub settle : Store → OwnerAdmission → ℤ → Result (Store × OwnerAdmission)
unfolding ProposalState.is_open Admission.execute Admission.void_proposal grant_seat
settle accounts a now =
    if not (ProposalState.is_open a.life.state) || not (is_passes (outcome_now a))
    then ok (accounts, a)
    else if not (is_passes (outcome_among a (owner_ids accounts.users)))
    then voided accounts (Admission.void_proposal a lost_seats now)
    else Admission.execute a (owner_ids accounts.users) now >>= seated_if accounts

abbrev pub missing : ℕ → DomainError
missing id = not_found "owner admission" (num id ∷ [])

unfoldable pub commit :
    Registry
    → ℤ
    → Option UserId
    → Audit
    → Result (Store × OwnerAdmission)
    → Registry × Result (Unit {0})
unfolding persist
commit reg now actor audit (err e) = (reg, err e)
commit reg now actor audit (ok (accounts, a)) =
    (persist (record (locked reg) { accounts = accounts }) a actor audit now, ok tt)

unfoldable pub on_admission :
    Registry
    → ℕ
    → ℤ
    → Option UserId
    → Audit
    → (OwnerAdmission → Result (Store × OwnerAdmission))
    → Registry × Result (Unit {0})
unfolding find_admission expire_if_due commit persist
on_admission reg id now actor audit work = elim (find_admission id reg.admissions) [
  | none ↦ (reg, err (missing id))
  | some a ↦ elim (expire_if_due a now) [
    | some expired ↦ (
      persist (locked reg) expired none no_audit now,
      err (conflict (say "the admission is expired")),
    )
    | none ↦ commit reg now actor audit (work a)
  ]
]

abbrev pub voted :
    Store → UserId → AdmissionVote → ℤ → OwnerAdmission → Result (Store × OwnerAdmission)
voted accounts voter vote now a = do a' ← Admission.vote a voter vote now; settle accounts a' now

unfoldable pub admission_vote :
    Registry → ℕ → UserId → AdmissionVote → ℤ → Audit → Registry × Result (Unit {0})
unfolding on_admission Admission.vote settle
admission_vote reg id voter vote now audit =
    on_admission reg id now (some voter) audit (voted reg.accounts voter vote now)

abbrev pub withdrawn : Store → UserId → ℤ → OwnerAdmission → Result (Store × OwnerAdmission)
withdrawn accounts by now a = do a' ← Admission.cancel a by now; ok (accounts, a')

unfoldable pub cancel_admission : Registry → ℕ → UserId → ℤ → Registry × Result (Unit {0})
unfolding on_admission Admission.cancel
cancel_admission reg id by now =
    on_admission reg id now (some by) no_audit (withdrawn reg.accounts by now)

-- The open admission of a candidate, which the unique index makes one.
unfoldable pub find_open : UserId → List OwnerAdmission → Option OwnerAdmission
unfolding ProposalState.is_open
find_open candidate [] = none
find_open candidate (a ∷ rows) =
    if a.candidate == candidate && ProposalState.is_open a.life.state
    then some a
    else find_open candidate rows

unfoldable pub find_stale : UserId → ℤ → List OwnerAdmission → Option OwnerAdmission
unfolding ProposalState.is_open
find_stale candidate now [] = none
find_stale candidate now (a ∷ rows) =
    if a.candidate == candidate
      && ProposalState.is_open a.life.state
      && not (ltb_ℤ now a.life.expires_at)
    then some a
    else find_stale candidate now rows

abbrev pub close_found : Registry → ℤ → Option OwnerAdmission → Registry
close_found reg now none = reg
close_found reg now (some expired) = persist reg expired none no_audit now

unfoldable pub close_stale : Registry → UserId → ℤ → Registry
unfolding find_stale expire_if_due persist
close_stale reg candidate now = elim (find_stale candidate now reg.admissions) [
  | none ↦ reg
  | some a ↦ close_found reg now (expire_if_due a now)
]

abbrev pub is_none : Option OwnerAdmission → Bool
is_none none = true
is_none (some a) = false

unfoldable pub insert_admission : Registry → OwnerAdmission → ℤ → Result Registry
unfolding find_admission find_open persist
insert_admission reg a now = do
  ensure
      (is_none (find_admission a.id reg.admissions)
        && is_none (find_open a.candidate reg.admissions))
      (repository (say "duplicate key value violates unique constraint"))
  ok (
      persist (record reg { admissions = reg.admissions ++ stored a ∷ [] }) a (some a.initiator)
        no_audit now)

abbrev pub opened : Registry → Result Registry → Registry × Result (Unit {0})
opened reg (err e) = (reg, err e)
opened reg (ok next) = (next, ok tt)

unfoldable pub open_admission :
    Registry → ℕ → UserId → UserId → Text → ℤ → Registry × Result (Unit {0})
unfolding close_stale Admission.open_admission insert_admission
open_admission reg id candidate initiator reason now =
    let cleared = close_stale (locked reg) candidate now in
    opened reg (do
      a ←
          Admission.open_admission id candidate initiator reason (owner_ids cleared.accounts.users)
            now removal_ttl_secs
      insert_admission cleared a now)
