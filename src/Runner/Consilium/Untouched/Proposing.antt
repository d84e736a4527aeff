-- ===== src/Runner/Consilium/Untouched/Proposing.antt =====
-- The tokens and the removals through the transactions on proposals about users.
use concierge.Prelude.{ℕ, ◌&&◌, Option, none, some, inl, inr, refl, Option-cases}
use concierge.Prelude.Int.{ℤ}
use concierge.Errors.{Result, ok, err, ◌>>=◌, ensure}
use concierge.Text.{Text}
use concierge.Governance.ProposalVote.{ProposalVote}
use concierge.Governance.UserProposalKind.{UserProposalKind}
use concierge.Governance.Peer.{UserId}
use concierge.Governance.Lifecycle.{removal_ttl_secs}
use concierge.Governance.UserProposal
use concierge.Governance.UserProposal.{UserProposal}
use concierge.Runner.Genesis.{Store, owner_ids}
use concierge.Runner.Consilium.{Registry, Audit, locked}
use concierge.Runner.Consilium.Writes.{Gives, then-Gives, committed-Gives}
use concierge.Runner.Consilium.Proposals
use concierge.Runner.Consilium.Proposals.Opening
use concierge.Runner.Consilium.Untouched.{SameMailbox}

commit_proposal_untouched :
    (reg : Registry) (now : ℤ) (actor : Option UserId) (audit : Audit)
    (res : Result (Store × UserProposal))
    → SameMailbox reg (Proposals.commit reg now actor audit res).0
unfolding Proposals.commit Proposals.persist
commit_proposal_untouched reg now actor audit (err e) = (refl, refl)
commit_proposal_untouched reg now actor audit (ok (accounts, a)) = (refl, refl)

on_proposal_untouched :
    (reg : Registry) (id : ℕ) (now : ℤ) (actor : Option UserId) (audit : Audit)
    (work : UserProposal → Result (Store × UserProposal))
    → SameMailbox reg (Proposals.on_proposal reg id now actor audit work).0
unfolding Proposals.on_proposal Proposals.persist
on_proposal_untouched reg id now actor audit work =
    elim (Option-cases (Proposals.find_proposal id reg.proposals)) [
      | inl e ↦ rw (Proposals.on_proposal, e) (refl, refl)
      | inr (a, e) ↦ elim (Option-cases (Proposals.expire_if_due a now)) [
        | inl d ↦
            rw (Proposals.on_proposal, e, d)
              (commit_proposal_untouched reg now actor audit (work a))
        | inr (expired, d) ↦ rw (Proposals.on_proposal, e, d) (refl, refl)
      ]
    ]

pub user_proposal_vote_untouched :
    (reg : Registry) (id : ℕ) (voter : UserId) (vote : ProposalVote) (now : ℤ) (audit : Audit)
    → SameMailbox reg (Proposals.user_proposal_vote reg id voter vote now audit).0
unfolding Proposals.user_proposal_vote
user_proposal_vote_untouched reg id voter vote now audit =
    on_proposal_untouched reg id now (some voter) audit
      (Proposals.voted reg.accounts voter vote now)

pub cancel_user_proposal_untouched :
    (reg : Registry) (id : ℕ) (by : UserId) (now : ℤ)
    → SameMailbox reg (Proposals.cancel_user_proposal reg id by now).0
unfolding Proposals.cancel_user_proposal
cancel_user_proposal_untouched reg id by now =
    on_proposal_untouched reg id now (some by) _ (Proposals.withdrawn reg.accounts by now)

close_found_proposal_untouched :
    (reg : Registry) (now : ℤ) (a : Option UserProposal)
    → SameMailbox reg (Opening.close_found reg now a)
unfolding Proposals.persist
close_found_proposal_untouched reg now none = (refl, refl)
close_found_proposal_untouched reg now (some a) = (refl, refl)

close_stale_proposal_untouched :
    (reg : Registry) (kind : UserProposalKind) (id : UserId) (now : ℤ)
    → SameMailbox reg (Opening.close_stale reg kind id now)
unfolding Opening.close_stale
close_stale_proposal_untouched reg kind id now =
    elim (Option-cases (Opening.find_stale kind id now reg.proposals)) [
      | inl e ↦ rw (Opening.close_stale, e) (refl, refl)
      | inr (a, e) ↦
          rw (Opening.close_stale, e)
            (close_found_proposal_untouched reg now (Proposals.expire_if_due a now))
    ]

inserted_proposal_untouched :
    (reg before : Registry) (a : UserProposal) (now : ℤ)
    → SameMailbox before reg
    → Gives (SameMailbox before) (Opening.insert_proposal reg a now)
unfolding Opening.insert_proposal Proposals.persist
inserted_proposal_untouched reg before a now same =
    then-Gives (SameMailbox before)
      (ensure
        (Opening.is_none (Proposals.find_proposal a.id reg.proposals)
          && Opening.is_none (Opening.find_open a.kind a.subject reg.proposals))
        _)
      _ (λ _. same)

opened_proposal_untouched :
    (reg before : Registry) (now : ℤ) (res : Result UserProposal)
    → SameMailbox before reg
    → SameMailbox before (Opening.opened before (res >>= λ a. Opening.insert_proposal reg a now)).0
opened_proposal_untouched reg before now (err e) same = (refl, refl)
opened_proposal_untouched reg before now (ok a) same =
    committed-Gives (SameMailbox before) before (Opening.insert_proposal reg a now) (refl, refl)
      (inserted_proposal_untouched reg before a now same)

pub open_user_proposal_untouched :
    (reg : Registry) (id : ℕ) (kind : UserProposalKind) (about initiator : UserId) (reason : Text)
    (now : ℤ)
    → SameMailbox reg (Opening.open_user_proposal reg id kind about initiator reason now).0
unfolding Opening.open_user_proposal
open_user_proposal_untouched reg id kind about initiator reason now =
    let cleared = Opening.close_stale (locked reg) kind about now in
    opened_proposal_untouched cleared reg now
      (UserProposal.open_proposal id kind about initiator reason (owner_ids cleared.accounts.users)
        now removal_ttl_secs)
      (close_stale_proposal_untouched (locked reg) kind about now)
