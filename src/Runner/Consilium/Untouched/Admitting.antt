-- ===== src/Runner/Consilium/Untouched/Admitting.antt =====
-- The tokens and the removals through the transactions on admissions.
use concierge.Prelude.{ℕ, ◌&&◌, Option, none, some, inl, inr, refl, Option-cases}
use concierge.Prelude.Int.{ℤ}
use concierge.Errors.{Result, ok, err, ◌>>=◌, ensure}
use concierge.Text.{Text}
use concierge.Governance.AdmissionVote.{AdmissionVote}
use concierge.Governance.Peer.{UserId}
use concierge.Governance.Lifecycle.{removal_ttl_secs}
use concierge.Governance.Admission
use concierge.Governance.Admission.{OwnerAdmission}
use concierge.Runner.Genesis.{Store, owner_ids}
use concierge.Runner.Consilium.{Registry, Audit, locked}
use concierge.Runner.Consilium.Writes.{Gives, then-Gives, committed-Gives}
use concierge.Runner.Consilium.Admissions
use concierge.Runner.Consilium.Untouched.{SameMailbox}

commit_admission_untouched :
    (reg : Registry) (now : ℤ) (actor : Option UserId) (audit : Audit)
    (res : Result (Store × OwnerAdmission))
    → SameMailbox reg (Admissions.commit reg now actor audit res).0
unfolding Admissions.commit Admissions.persist
commit_admission_untouched reg now actor audit (err e) = (refl, refl)
commit_admission_untouched reg now actor audit (ok (accounts, a)) = (refl, refl)

on_admission_untouched :
    (reg : Registry) (id : ℕ) (now : ℤ) (actor : Option UserId) (audit : Audit)
    (work : OwnerAdmission → Result (Store × OwnerAdmission))
    → SameMailbox reg (Admissions.on_admission reg id now actor audit work).0
unfolding Admissions.on_admission Admissions.persist
on_admission_untouched reg id now actor audit work =
    elim (Option-cases (Admissions.find_admission id reg.admissions)) [
      | inl e ↦ rw (Admissions.on_admission, e) (refl, refl)
      | inr (a, e) ↦ elim (Option-cases (Admissions.expire_if_due a now)) [
        | inl d ↦
            rw (Admissions.on_admission, e, d)
              (commit_admission_untouched reg now actor audit (work a))
        | inr (expired, d) ↦ rw (Admissions.on_admission, e, d) (refl, refl)
      ]
    ]

pub admission_vote_untouched :
    (reg : Registry) (id : ℕ) (voter : UserId) (vote : AdmissionVote) (now : ℤ) (audit : Audit)
    → SameMailbox reg (Admissions.admission_vote reg id voter vote now audit).0
unfolding Admissions.admission_vote
admission_vote_untouched reg id voter vote now audit =
    on_admission_untouched reg id now (some voter) audit
      (Admissions.voted reg.accounts voter vote now)

pub cancel_admission_untouched :
    (reg : Registry) (id : ℕ) (by : UserId) (now : ℤ)
    → SameMailbox reg (Admissions.cancel_admission reg id by now).0
unfolding Admissions.cancel_admission
cancel_admission_untouched reg id by now =
    on_admission_untouched reg id now (some by) _ (Admissions.withdrawn reg.accounts by now)

close_found_admission_untouched :
    (reg : Registry) (now : ℤ) (a : Option OwnerAdmission)
    → SameMailbox reg (Admissions.close_found reg now a)
unfolding Admissions.persist
close_found_admission_untouched reg now none = (refl, refl)
close_found_admission_untouched reg now (some a) = (refl, refl)

close_stale_admission_untouched :
    (reg : Registry) (id : UserId) (now : ℤ) → SameMailbox reg (Admissions.close_stale reg id now)
unfolding Admissions.close_stale
close_stale_admission_untouched reg id now =
    elim (Option-cases (Admissions.find_stale id now reg.admissions)) [
      | inl e ↦ rw (Admissions.close_stale, e) (refl, refl)
      | inr (a, e) ↦
          rw (Admissions.close_stale, e)
            (close_found_admission_untouched reg now (Admissions.expire_if_due a now))
    ]

inserted_admission_untouched :
    (reg before : Registry) (a : OwnerAdmission) (now : ℤ)
    → SameMailbox before reg
    → Gives (SameMailbox before) (Admissions.insert_admission reg a now)
unfolding Admissions.insert_admission Admissions.persist
inserted_admission_untouched reg before a now same =
    then-Gives (SameMailbox before)
      (ensure
        (Admissions.is_none (Admissions.find_admission a.id reg.admissions)
          && Admissions.is_none (Admissions.find_open a.candidate reg.admissions))
        _)
      _ (λ _. same)

opened_admission_untouched :
    (reg before : Registry) (now : ℤ) (res : Result OwnerAdmission)
    → SameMailbox before reg
    → SameMailbox before
        (Admissions.opened before (res >>= λ a. Admissions.insert_admission reg a now)).0
opened_admission_untouched reg before now (err e) same = (refl, refl)
opened_admission_untouched reg before now (ok a) same =
    committed-Gives (SameMailbox before) before (Admissions.insert_admission reg a now) (refl, refl)
      (inserted_admission_untouched reg before a now same)

pub open_admission_untouched :
    (reg : Registry) (id : ℕ) (about initiator : UserId) (reason : Text) (now : ℤ)
    → SameMailbox reg (Admissions.open_admission reg id about initiator reason now).0
unfolding Admissions.open_admission
open_admission_untouched reg id about initiator reason now =
    let cleared = Admissions.close_stale (locked reg) about now in
    opened_admission_untouched cleared reg now
      (Admission.open_admission id about initiator reason (owner_ids cleared.accounts.users) now
        removal_ttl_secs)
      (close_stale_admission_untouched (locked reg) about now)
