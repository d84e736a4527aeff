-- ===== src/Runner/Consilium/Untouched.antt =====
-- The tokens of the mailbox through the transactions that do not read them, and first through the
-- votes on removals and the resignations.
pub mod Admitting
pub mod Proposing
use concierge.Prelude.{
  ℕ, String, List, [], ◌∷◌, ◌++◌, Bool, true, false, not, ◌&&◌, Option, none, some, any, contains,
  length, subst, ◌≡◌, ◌⊎◌, inl, inr, refl, ap, ◌∙◌, if◌then◌else◌, Bool-cases, Option-cases, arith,
}
use concierge.Prelude.Int.{ℤ}
use concierge.Errors.{DomainError, Result, ok, err, ◌>>=◌, ◌>>◌, ensure}
use concierge.Text.{Text}
use concierge.Governance.Vote.{Vote}
use concierge.Governance.AdmissionVote.{AdmissionVote}
use concierge.Governance.ProposalVote.{ProposalVote}
use concierge.Governance.UserProposalKind.{UserProposalKind}
use concierge.Governance.Peer.{UserId}
use concierge.Governance.Lifecycle.{check_floor}
use concierge.Governance.Removal
use concierge.Governance.Removal.{OwnerRemoval}
use concierge.Governance.Admission
use concierge.Governance.Admission.{OwnerAdmission}
use concierge.Governance.UserProposal
use concierge.Governance.UserProposal.{UserProposal}
use concierge.Runner.Genesis.{Store, owner_ids}
use concierge.Runner.Consilium.{Registry, Audit, locked, take_seat}
use concierge.Runner.Consilium.Removals.{
  persist, expire_if_due, find_removal, find_open, commit, answered, on_removal, peer_vote, voted,
  withdrawn, cancel_removal,
}
use concierge.Runner.Consilium.Seats.{
  find_stale, close_found, close_stale, persisted, void_moot, resigned, seat_left, committed,
  resign,
}
use concierge.Runner.Consilium.Writes.{Gives, bind-Gives, then-Gives, committed-Gives}
use concierge.Runner.Consilium.Admissions
use concierge.Runner.Consilium.Proposals

answered_tokens : (reg : Registry) (id : ℕ) (now : ℤ) → (answered reg id now).0.tokens ≡ reg.tokens
unfolding answered
answered_tokens reg id now = elim (Option-cases (find_removal id reg.removals)) [
  | inl e ↦ rw (answered, e) refl
  | inr (r, e) ↦ rw (answered, e) refl
]

commit_tokens :
    (reg : Registry) (id : ℕ) (now : ℤ) (actor : Option UserId) (audit : Audit)
    (res : Result (Store × OwnerRemoval))
    → (commit reg id now actor audit res).0.tokens ≡ reg.tokens
unfolding commit persist
commit_tokens reg id now actor audit (err e) = refl
commit_tokens reg id now actor audit (ok (accounts, r)) =
    answered_tokens (persist (record (locked reg) { accounts = accounts }) r actor audit now) id now

on_removal_tokens :
    (reg : Registry) (id : ℕ) (now : ℤ) (actor : Option UserId) (audit : Audit)
    (work : OwnerRemoval → Result (Store × OwnerRemoval))
    → (on_removal reg id now actor audit work).0.tokens ≡ reg.tokens
unfolding on_removal persist
on_removal_tokens reg id now actor audit work = elim (Option-cases (find_removal id reg.removals)) [
  | inl e ↦ rw (on_removal, e) refl
  | inr (r, e) ↦ elim (Option-cases (expire_if_due r now)) [
    | inl d ↦ rw (on_removal, e, d) (commit_tokens reg id now actor audit (work r))
    | inr (expired, d) ↦ rw (on_removal, e, d) refl
  ]
]

pub peer_vote_tokens :
    (reg : Registry) (id : ℕ) (voter : UserId) (vote : Vote) (now : ℤ) (audit : Audit)
    → (peer_vote reg id voter vote now audit).0.tokens ≡ reg.tokens
unfolding peer_vote
peer_vote_tokens reg id voter vote now audit =
    on_removal_tokens reg id now (some voter) audit (voted reg.accounts voter vote now)

pub cancel_removal_tokens :
    (reg : Registry) (id : ℕ) (by : UserId) (now : ℤ)
    → (cancel_removal reg id by now).0.tokens ≡ reg.tokens
unfolding cancel_removal
cancel_removal_tokens reg id by now =
    on_removal_tokens reg id now (some by) _ (withdrawn reg.accounts by now)

close_found_tokens :
    (reg : Registry) (now : ℤ) (r : Option OwnerRemoval)
    → (close_found reg now r).tokens ≡ reg.tokens
unfolding persist
close_found_tokens reg now none = refl
close_found_tokens reg now (some r) = refl

pub close_stale_tokens :
    (reg : Registry) (target : UserId) (now : ℤ) → (close_stale reg target now).tokens ≡ reg.tokens
unfolding close_stale
close_stale_tokens reg target now = elim (Option-cases (find_stale target now reg.removals)) [
  | inl e ↦ rw (close_stale, e) refl
  | inr (r, e) ↦ rw (close_stale, e) (close_found_tokens reg now (expire_if_due r now))
]

abbrev SameTokens : Registry → Registry → Type 0
SameTokens reg next = next.tokens ≡ reg.tokens

persisted_tokens :
    (reg : Registry) (who : UserId) (now : ℤ) (res : Result OwnerRemoval)
    → Gives (SameTokens reg) (persisted reg who now res)
unfolding persist
persisted_tokens reg who now (err e) = tt
persisted_tokens reg who now (ok r) = refl

void_moot_tokens :
    (reg : Registry) (who : UserId) (now : ℤ) → Gives (SameTokens reg) (void_moot reg who now)
unfolding void_moot
void_moot_tokens reg who now = elim (Option-cases (find_open who reg.removals)) [
  | inl e ↦ rw (void_moot, e) refl
  | inr (r, e) ↦
      rw (void_moot, e) (persisted_tokens reg who now (Removal.void_proposal r resigned now))
]

left_tokens :
    (reg next : Registry) (who : UserId)
    → next.tokens ≡ reg.tokens
    → Gives (SameTokens reg) (seat_left next who)
left_tokens reg next who h =
    bind-Gives (SameTokens reg) (take_seat next.accounts who) _ (λ accounts e. h)

pub resign_tokens :
    (reg : Registry) (who : UserId) (now : ℤ) → (resign reg who now).0.tokens ≡ reg.tokens
unfolding resign
resign_tokens reg who now = committed-Gives (SameTokens reg) reg _ refl (
    then-Gives (SameTokens reg) (ensure (contains (owner_ids reg.accounts.users) who) _) _ (λ _.
      then-Gives (SameTokens reg) (check_floor (length (owner_ids reg.accounts.users))) _ (λ _.
        bind-Gives (SameTokens reg) (void_moot (locked reg) who now) (λ next. seat_left next who)
          (λ next e.
            left_tokens reg next who
              (subst (Gives (SameTokens reg)) e (void_moot_tokens (locked reg) who now))))))

-- A transaction that touches neither the tokens nor the removals.
abbrev pub SameMailbox : Registry → Registry → Type 0
SameMailbox reg next = (next.tokens ≡ reg.tokens) × (next.removals ≡ reg.removals)
