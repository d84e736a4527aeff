-- ===== src/Runner/Consilium/Floor/Admitting.antt =====
-- The floor through the transactions on admissions.
use concierge.Prelude.{
  ℕ, not, ◌&&◌, ◌||◌, Option, none, some, ◌≡◌, inl, inr, refl, arith, Bool-cases, Option-cases,
}
use concierge.Prelude.Int.{ℤ}
use concierge.Errors.{Result, ok, err, ◌>>=◌}
use concierge.Text.{Text}
use concierge.Governance.ProposalState
use concierge.Governance.ProposalState.{ProposalState}
use concierge.Governance.AdmissionVote.{AdmissionVote}
use concierge.Governance.Peer.{UserId}
use concierge.Governance.Lifecycle.{removal_ttl_secs}
use concierge.Governance.Removal.{is_passes}
use concierge.Governance.Admission
use concierge.Governance.Admission.{OwnerAdmission, outcome_now, outcome_among}
use concierge.Runner.Genesis.{Store, owner_ids}
use concierge.Runner.Consilium.{Registry, Audit, locked, grant_seat}
use concierge.Runner.Consilium.Admissions.{
  find_admission, find_open, is_none, persist, expire_if_due, lost_seats, seated_if, voided, settle,
  commit, on_admission, voted, admission_vote, withdrawn, cancel_admission, find_stale, close_found,
  close_stale, insert_admission, opened, open_admission,
}
use concierge.Runner.Consilium.Roster.{
  owners-grant_seat, AboveFloor, Ensures, bind-Ensures, if-Ensures,
}

seated_floor :
    (accounts : Store) (a : OwnerAdmission) (state : ProposalState)
    → AboveFloor accounts
    → Ensures (seated_if accounts (a, state))
seated_floor accounts a ProposalState.executed k =
    bind-Ensures (grant_seat accounts a.candidate) (λ after. ok (after, a))
      (λ after e. omega (arith, owners-grant_seat accounts after a.candidate e, k))
seated_floor accounts a ProposalState.open_state k = k
seated_floor accounts a ProposalState.rejected k = k
seated_floor accounts a ProposalState.expired k = k
seated_floor accounts a ProposalState.cancelled k = k
seated_floor accounts a ProposalState.void_state k = k

voided_floor :
    (accounts : Store) (res : Result OwnerAdmission)
    → AboveFloor accounts
    → Ensures (voided accounts res)
voided_floor accounts (err e) k = tt
voided_floor accounts (ok a) k = k

settle_floor :
    (accounts : Store) (a : OwnerAdmission) (now : ℤ)
    → AboveFloor accounts
    → Ensures (settle accounts a now)
unfolding settle
settle_floor accounts a now k =
    if-Ensures (not (ProposalState.is_open a.life.state) || not (is_passes (outcome_now a))) _ _ k (
      if-Ensures (not (is_passes (outcome_among a (owner_ids accounts.users)))) _ _
        (voided_floor accounts (Admission.void_proposal a lost_seats now) k)
        (bind-Ensures (Admission.execute a (owner_ids accounts.users) now) (seated_if accounts)
          (λ x _. seated_floor accounts x.0 x.1 k)))

commit_floor :
    (reg : Registry) (now : ℤ) (actor : Option UserId) (audit : Audit)
    (res : Result (Store × OwnerAdmission))
    → AboveFloor reg.accounts
    → Ensures res
    → AboveFloor (commit reg now actor audit res).0.accounts
unfolding commit persist
commit_floor reg now actor audit (err e) k h = k
commit_floor reg now actor audit (ok (accounts, a)) k h = h

on_admission_floor :
    (reg : Registry) (id : ℕ) (now : ℤ) (actor : Option UserId) (audit : Audit)
    (work : OwnerAdmission → Result (Store × OwnerAdmission))
    → AboveFloor reg.accounts
    → ((a : OwnerAdmission) → Ensures (work a))
    → AboveFloor (on_admission reg id now actor audit work).0.accounts
unfolding on_admission persist
on_admission_floor reg id now actor audit work k h =
    elim (Option-cases (find_admission id reg.admissions)) [
      | inl e ↦ rw (on_admission, e) k
      | inr (a, e) ↦ elim (Option-cases (expire_if_due a now)) [
        | inl d ↦ rw (on_admission, e, d) (commit_floor reg now actor audit (work a) k (h a))
        | inr (expired, d) ↦ rw (on_admission, e, d) k
      ]
    ]

pub admission_vote_floor :
    (reg : Registry) (id : ℕ) (voter : UserId) (vote : AdmissionVote) (now : ℤ) (audit : Audit)
    → AboveFloor reg.accounts
    → AboveFloor (admission_vote reg id voter vote now audit).0.accounts
unfolding admission_vote
admission_vote_floor reg id voter vote now audit k =
    on_admission_floor reg id now (some voter) audit (voted reg.accounts voter vote now) k (λ a.
      bind-Ensures (Admission.vote a voter vote now) (λ a'. settle reg.accounts a' now)
        (λ a' e. settle_floor reg.accounts a' now k))

pub cancel_admission_floor :
    (reg : Registry) (id : ℕ) (by : UserId) (now : ℤ)
    → AboveFloor reg.accounts
    → AboveFloor (cancel_admission reg id by now).0.accounts
unfolding cancel_admission
cancel_admission_floor reg id by now k =
    on_admission_floor reg id now (some by) _ (withdrawn reg.accounts by now) k
      (λ a. bind-Ensures (Admission.cancel a by now) (λ a'. ok (reg.accounts, a')) (λ a' e. k))

close_found_same :
    (reg : Registry) (now : ℤ) (a : Option OwnerAdmission)
    → (close_found reg now a).accounts ≡ reg.accounts
unfolding persist
close_found_same reg now none = refl
close_found_same reg now (some a) = refl

close_stale_same :
    (reg : Registry) (candidate : UserId) (now : ℤ)
    → (close_stale reg candidate now).accounts ≡ reg.accounts
unfolding close_stale
close_stale_same reg candidate now = elim (Option-cases (find_stale candidate now reg.admissions)) [
  | inl e ↦ rw (close_stale, e) refl
  | inr (a, e) ↦ rw (close_stale, e) (close_found_same reg now (expire_if_due a now))
]

-- An insertion keeps the accounts.
inserted_floor :
    (reg before : Registry) (now : ℤ) (res : Result OwnerAdmission)
    → AboveFloor before.accounts
    → reg.accounts ≡ before.accounts
    → AboveFloor (opened before (res >>= λ a. insert_admission reg a now)).0.accounts
unfolding insert_admission persist
inserted_floor reg before now (err e) k same = k
inserted_floor reg before now (ok a) k same =
    elim (Bool-cases (
      is_none (find_admission a.id reg.admissions)
      && is_none (find_open a.candidate reg.admissions))) [
        | inl e ↦ rw (insert_admission, e, same) k
        | inr e ↦ rw (insert_admission, e) k
      ]

pub open_admission_floor :
    (reg : Registry) (id : ℕ) (candidate initiator : UserId) (reason : Text) (now : ℤ)
    → AboveFloor reg.accounts
    → AboveFloor (open_admission reg id candidate initiator reason now).0.accounts
unfolding open_admission
open_admission_floor reg id candidate initiator reason now k =
    let cleared = close_stale (locked reg) candidate now in
    inserted_floor cleared reg now
      (Admission.open_admission id candidate initiator reason (owner_ids cleared.accounts.users) now
        removal_ttl_secs)
      k (close_stale_same (locked reg) candidate now)
