-- ===== src/Runner/Consilium/Floor/Proposing.antt =====
-- The floor through the transactions on proposals about users.
use concierge.Prelude.{
  ℕ, List, true, not, ◌&&◌, ◌||◌, Option, none, some, ◌≡◌, inl, inr, refl, ap, ◌∙◌, arith,
  Bool-cases, Option-cases,
}
use concierge.Prelude.Int.{ℤ}
use concierge.Errors.{Result, ok, err, ◌>>=◌}
use concierge.Text.{Text}
use concierge.Governance.ProposalState
use concierge.Governance.ProposalState.{ProposalState}
use concierge.Governance.ProposalVote.{ProposalVote}
use concierge.Governance.Peer.{UserId}
use concierge.Governance.Lifecycle.{removal_ttl_secs}
use concierge.Governance.Removal.{is_passes}
use concierge.Governance.UserProposal
use concierge.Governance.UserProposal.{UserProposal, outcome_now, outcome_among}
use concierge.Authz.Role
use concierge.Users.User
use concierge.Users.User.{set_role}
use concierge.Users.Account.{User}
use concierge.Governance.UserProposalKind.{UserProposalKind}
use concierge.Runner.Genesis.Seating.{find_user-id}
use concierge.Runner.Genesis.{Store, owner_ids, find_user, is_owner, loaded}
use concierge.Runner.Consilium.{Registry, Audit, locked}
use concierge.Runner.Consilium.Proposals.{
  find_proposal, persist, expire_if_due, lost_seats, inapplicable, apply_effect, write_user,
  effect_if, voided, settle_subject, settle, commit, on_proposal, voted, user_proposal_vote,
  withdrawn, cancel_user_proposal,
}
use concierge.Runner.Consilium.Proposals.Opening.{
  find_open, is_none, find_stale, close_found, close_stale, insert_proposal, opened,
  open_user_proposal,
}
use concierge.Runner.Consilium.Roster.{
  owners-update_row_kept, AboveFloor, Ensures, bind-Ensures, if-Ensures,
}

write_user_floor :
    (accounts : Store) (subject user : User)
    → find_user user.id accounts.users ≡ some subject
    → (is_owner subject ≡ true → is_owner user ≡ true)
    → AboveFloor accounts
    → AboveFloor (write_user accounts user)
unfolding write_user User.drain_events
write_user_floor accounts subject user e kept k =
    omega
      (arith, k, owners-update_row_kept (User.drain_events user).1 subject accounts.users e kept)

-- What a proposal does to an account costs no seat: an owner is not made an admin.
apply_effect_kept :
    (subject : User) (kind : UserProposalKind) (now : ℤ)
    → inapplicable subject kind ≡ none
    → ((apply_effect (loaded subject) kind now).id ≡ subject.id)
      × (is_owner subject ≡ true → is_owner (apply_effect (loaded subject) kind now) ≡ true)
unfolding apply_effect inapplicable User.suspend User.enable set_role Role.same
apply_effect_kept subject UserProposalKind.suspension now h = ground arith
apply_effect_kept subject UserProposalKind.reinstatement now h = ground arith
apply_effect_kept subject UserProposalKind.admin_admission now h = ground arith

effect_floor :
    (accounts : Store) (subject : User) (now : ℤ) (p : UserProposal) (state : ProposalState)
    → find_user subject.id accounts.users ≡ some subject
    → inapplicable subject p.kind ≡ none
    → AboveFloor accounts
    → Ensures (effect_if accounts (loaded subject) now (p, state))
effect_floor accounts subject now p ProposalState.executed e h k =
    let (same_id, kept) = apply_effect_kept subject p.kind now h in
    write_user_floor accounts subject (apply_effect (loaded subject) p.kind now)
      (ap (λ n. find_user n accounts.users) same_id ∙ e) kept k
effect_floor accounts subject now p ProposalState.open_state e h k = k
effect_floor accounts subject now p ProposalState.rejected e h k = k
effect_floor accounts subject now p ProposalState.expired e h k = k
effect_floor accounts subject now p ProposalState.cancelled e h k = k
effect_floor accounts subject now p ProposalState.void_state e h k = k

voided_floor :
    (accounts : Store) (res : Result UserProposal)
    → AboveFloor accounts
    → Ensures (voided accounts res)
voided_floor accounts (err e) k = tt
voided_floor accounts (ok p) k = k

-- Carrying a proposal out keeps its kind.
execute-kind :
    (p p' : UserProposal) (roster : List UserId) (now : ℤ) (state : ProposalState)
    → UserProposal.execute p roster now ≡ ok (p', state)
    → p'.kind ≡ p.kind
unfolding UserProposal.execute
execute-kind p p' roster now state h = ground arith

settle_subject_floor :
    (accounts : Store) (subject : User) (p : UserProposal) (now : ℤ)
    → find_user subject.id accounts.users ≡ some subject
    → AboveFloor accounts
    → Ensures (settle_subject accounts subject p now)
unfolding settle_subject
settle_subject_floor accounts subject p now e k =
    elim (Option-cases (inapplicable subject p.kind)) [
      | inr (blocked, h) ↦
          rw (settle_subject, h)
            (voided_floor accounts (UserProposal.void_proposal p blocked now) k)
      | inl h ↦
          rw (settle_subject, h)
            (bind-Ensures (UserProposal.execute p (owner_ids accounts.users) now)
              (effect_if accounts (loaded subject) now)
              (λ x d.
                effect_floor accounts subject now x.0 x.1 e
                  (ap (inapplicable subject)
                      (execute-kind p x.0 (owner_ids accounts.users) now x.1 d)
                    ∙ h)
                  k))
    ]

settle_floor :
    (accounts : Store) (p : UserProposal) (now : ℤ)
    → AboveFloor accounts
    → Ensures (settle accounts p now)
unfolding settle
settle_floor accounts p now k =
    if-Ensures (not (ProposalState.is_open p.life.state) || not (is_passes (outcome_now p))) _ _ k (
      if-Ensures (not (is_passes (outcome_among p (owner_ids accounts.users)))) _ _
        (voided_floor accounts (UserProposal.void_proposal p lost_seats now) k)
        (elim (Option-cases (find_user p.subject accounts.users)) [
          | inl e ↦ rw e tt
          | inr (subject, e) ↦ rw e (
              settle_subject_floor accounts subject p now
                (ap (λ n. find_user n accounts.users)
                    (find_user-id p.subject accounts.users subject e)
                  ∙ e)
                k)
        ]))

commit_floor :
    (reg : Registry) (now : ℤ) (actor : Option UserId) (audit : Audit)
    (res : Result (Store × UserProposal))
    → AboveFloor reg.accounts
    → Ensures res
    → AboveFloor (commit reg now actor audit res).0.accounts
unfolding commit persist
commit_floor reg now actor audit (err e) k h = k
commit_floor reg now actor audit (ok (accounts, a)) k h = h

on_proposal_floor :
    (reg : Registry) (id : ℕ) (now : ℤ) (actor : Option UserId) (audit : Audit)
    (work : UserProposal → Result (Store × UserProposal))
    → AboveFloor reg.accounts
    → ((a : UserProposal) → Ensures (work a))
    → AboveFloor (on_proposal reg id now actor audit work).0.accounts
unfolding on_proposal persist
on_proposal_floor reg id now actor audit work k h =
    elim (Option-cases (find_proposal id reg.proposals)) [
      | inl e ↦ rw (on_proposal, e) k
      | inr (a, e) ↦ elim (Option-cases (expire_if_due a now)) [
        | inl d ↦ rw (on_proposal, e, d) (commit_floor reg now actor audit (work a) k (h a))
        | inr (expired, d) ↦ rw (on_proposal, e, d) k
      ]
    ]

pub user_proposal_vote_floor :
    (reg : Registry) (id : ℕ) (voter : UserId) (vote : ProposalVote) (now : ℤ) (audit : Audit)
    → AboveFloor reg.accounts
    → AboveFloor (user_proposal_vote reg id voter vote now audit).0.accounts
unfolding user_proposal_vote
user_proposal_vote_floor reg id voter vote now audit k =
    on_proposal_floor reg id now (some voter) audit (voted reg.accounts voter vote now) k (λ a.
      bind-Ensures (UserProposal.vote a voter vote now) (λ a'. settle reg.accounts a' now)
        (λ a' e. settle_floor reg.accounts a' now k))

pub cancel_user_proposal_floor :
    (reg : Registry) (id : ℕ) (by : UserId) (now : ℤ)
    → AboveFloor reg.accounts
    → AboveFloor (cancel_user_proposal reg id by now).0.accounts
unfolding cancel_user_proposal
cancel_user_proposal_floor reg id by now k =
    on_proposal_floor reg id now (some by) _ (withdrawn reg.accounts by now) k
      (λ a. bind-Ensures (UserProposal.cancel a by now) (λ a'. ok (reg.accounts, a')) (λ a' e. k))

close_found_same :
    (reg : Registry) (now : ℤ) (a : Option UserProposal)
    → (close_found reg now a).accounts ≡ reg.accounts
unfolding persist
close_found_same reg now none = refl
close_found_same reg now (some a) = refl

close_stale_same :
    (reg : Registry) (kind : UserProposalKind) (subject : UserId) (now : ℤ)
    → (close_stale reg kind subject now).accounts ≡ reg.accounts
unfolding close_stale
close_stale_same reg kind subject now =
    elim (Option-cases (find_stale kind subject now reg.proposals)) [
      | inl e ↦ rw (close_stale, e) refl
      | inr (p, e) ↦ rw (close_stale, e) (close_found_same reg now (expire_if_due p now))
    ]

-- An insertion keeps the accounts.
inserted_floor :
    (reg before : Registry) (now : ℤ) (res : Result UserProposal)
    → AboveFloor before.accounts
    → reg.accounts ≡ before.accounts
    → AboveFloor (opened before (res >>= λ p. insert_proposal reg p now)).0.accounts
unfolding insert_proposal persist
inserted_floor reg before now (err e) k same = k
inserted_floor reg before now (ok p) k same =
    elim (Bool-cases (
      is_none (find_proposal p.id reg.proposals)
      && is_none (find_open p.kind p.subject reg.proposals))) [
        | inl e ↦ rw (insert_proposal, e, same) k
        | inr e ↦ rw (insert_proposal, e) k
      ]

pub open_user_proposal_floor :
    (reg : Registry) (id : ℕ) (kind : UserProposalKind) (subject initiator : UserId) (reason : Text)
    (now : ℤ)
    → AboveFloor reg.accounts
    → AboveFloor (open_user_proposal reg id kind subject initiator reason now).0.accounts
unfolding open_user_proposal
open_user_proposal_floor reg id kind subject initiator reason now k =
    let cleared = close_stale (locked reg) kind subject now in
    inserted_floor cleared reg now
      (UserProposal.open_proposal id kind subject initiator reason
        (owner_ids cleared.accounts.users) now removal_ttl_secs)
      k (close_stale_same (locked reg) kind subject now)
