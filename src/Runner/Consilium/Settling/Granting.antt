-- ===== src/Runner/Consilium/Settling/Granting.antt =====
-- What settle_admission of runner/src/infrastructure/governance.rs makes of an admission, and how each
-- of its ends but the grant gives that.
use concierge.Prelude.{
  List, [], ◌∷◌, ◌<◌, ◌≤◌, true, false, contains, length, ◌≡◌, ◌≢◌, ◌↔◌, ◌⊎◌, inl, inr, refl, sym,
  ap, ◌∙◌, arith,
}
use concierge.Prelude.Int.{ℤ}
use concierge.Errors.{Result, ok, err}
use concierge.Text.{Text}
use concierge.Governance.ProposalState.{ProposalState}
use concierge.Governance.AdmissionVote.{AdmissionVote}
use concierge.Governance.Peer.{UserId, AdmissionPeer, seated}
use concierge.Governance.Removal.{is_passes}
use concierge.Governance.Rules.Unanimity.{unanimity_counts}
use concierge.Governance.Admission
use concierge.Governance.Admission.{
  OwnerAdmission, outcome_now, outcome_among, admission_ballots, carry,
}
use concierge.Governance.Admission.Opening.{answers, admission_ballots-counts}
use concierge.Runner.Genesis.{Store, owner_ids}
use concierge.Runner.Consilium.{grant_seat}
use concierge.Runner.Consilium.Admissions.{voided}

-- Somebody was asked, and all who were asked voted to admit.
abbrev pub AllAdmit : OwnerAdmission → Type 0
AllAdmit a = (0 < length a.peers) × (answers AdmissionVote.admit a.peers ≡ length a.peers)

-- What the roster of this moment says for granting the seat.
abbrev pub Stands : List UserId → OwnerAdmission → Type 0
Stands owners a =
    (0 < length (seated owners a.peers))
    × (contains owners a.initiator ≡ true)
    × (contains owners a.candidate ≡ false)

-- What it says against it.
abbrev pub Fell : List UserId → OwnerAdmission → Type 0
Fell owners a =
    (length (seated owners a.peers) ≡ 0)
    ⊎ (contains owners a.initiator ≡ false)
    ⊎ (contains owners a.candidate ≡ true)

-- The seat was granted with the verdict, or the accounts are as they were.
abbrev pub SeatFollows : Store → Store → OwnerAdmission → OwnerAdmission → Type 0
SeatFollows accounts after a b =
    ((b.life.state ≡ ProposalState.executed) × (grant_seat accounts a.candidate ≡ ok after))
    ⊎ ((b.life.state ≢ ProposalState.executed) × (after ≡ accounts))

abbrev pub Verdict : Store → Store → OwnerAdmission → OwnerAdmission → Type 0
Verdict accounts after a b =
    ((b.life.state ≡ ProposalState.executed) ↔ (AllAdmit a × Stands (owner_ids accounts.users) a))
    × ((b.life.state ≡ ProposalState.void_state) ↔ (AllAdmit a × Fell (owner_ids accounts.users) a))
    × SeatFollows accounts after a b

pub passes-AllAdmit : (a : OwnerAdmission) → (is_passes (outcome_now a) ≡ true) ↔ AllAdmit a
passes-AllAdmit a =
    ground (arith, unanimity_counts (admission_ballots a.peers), admission_ballots-counts a.peers)

answers-le : (v : AdmissionVote) (ps : List AdmissionPeer) → answers v ps ≤ length ps
answers-le v [] = omega arith
answers-le v (p ∷ ps) = ground (arith, answers-le v ps)

-- Where all voted to admit, so did all who are still seated.
answers-seated :
    (owners : List UserId) (ps : List AdmissionPeer)
    → answers AdmissionVote.admit ps ≡ length ps
    → answers AdmissionVote.admit (seated owners ps) ≡ length (seated owners ps)
answers-seated owners [] h = refl
answers-seated owners (p ∷ ps) h =
    ground (arith, answers-seated owners ps, answers-le AdmissionVote.admit ps)

pub among-passes :
    (owners : List UserId) (a : OwnerAdmission)
    → AllAdmit a
    → (is_passes (outcome_among a owners) ≡ true) ↔ (0 < length (seated owners a.peers))
among-passes owners a (n, all) = ground (
  arith,
  unanimity_counts (admission_ballots (seated owners a.peers)),
  admission_ballots-counts (seated owners a.peers),
  answers-seated owners a.peers all,
)

pub exclusive : (owners : List UserId) (a : OwnerAdmission) → Stands owners a → ¬ Fell owners a
exclusive owners a (n, i, c) (inl e) = ground (arith, n, e)
exclusive owners a (n, i, c) (inr (inl e)) = ground (arith, i, e)
exclusive owners a (n, i, c) (inr (inr e)) = ground (arith, c, e)

abbrev pub done : Store → OwnerAdmission → Result (Store × OwnerAdmission)
done store a = ok (store, a)

pub both_of : (x y : Store) (a b : OwnerAdmission) → done x a ≡ done y b → (x ≡ y) × (a ≡ b)
both_of x y a b h = (ap (λ z. z.0) (opened h), ap (λ z. z.1) (opened h))
  where
    opened : {c d : Store × OwnerAdmission} → ok c ≡ ok d → c ≡ d
    opened e = cc

pub open-Verdict :
    (accounts after : Store) (a b : OwnerAdmission)
    → b.life.state ≡ ProposalState.open_state
    → ¬ AllAdmit a
    → after ≡ accounts
    → Verdict accounts after a b
open-Verdict accounts after a b o n e = (
  ((λ x. absurd (ground (arith, o, x))), λ x. absurd (n x.0)),
  ((λ x. absurd (ground (arith, o, x))), λ x. absurd (n x.0)),
  inr ((λ x. ground (arith, o, x)), e),
)

pub void-Verdict :
    (accounts after : Store) (a b : OwnerAdmission)
    → b.life.state ≡ ProposalState.void_state
    → AllAdmit a
    → Fell (owner_ids accounts.users) a
    → after ≡ accounts
    → Verdict accounts after a b
void-Verdict accounts after a b v all f e = (
  (
    (λ x. absurd (ground (arith, v, x))),
    λ x. absurd (exclusive (owner_ids accounts.users) a x.1 f),
  ),
  ((λ x. (all, f)), λ x. v),
  inr ((λ x. ground (arith, v, x)), e),
)

void_proposal-state :
    (a b : OwnerAdmission) (reason : Text) (now : ℤ)
    → Admission.void_proposal a reason now ≡ ok b
    → b.life.state ≡ ProposalState.void_state
unfolding Admission.void_proposal
void_proposal-state a b reason now h = ground arith

pub voided-Verdict :
    (accounts after : Store) (a b : OwnerAdmission) (reason : Text) (now : ℤ)
    → AllAdmit a
    → Fell (owner_ids accounts.users) a
    → voided accounts (Admission.void_proposal a reason now) ≡ done after b
    → Verdict accounts after a b
voided-Verdict accounts after a b reason now all f h =
    by_result (Admission.void_proposal a reason now) refl h
  where
    by_result :
        (res : Result OwnerAdmission)
        → Admission.void_proposal a reason now ≡ res
        → voided accounts res ≡ done after b
        → Verdict accounts after a b
    by_result (err x) e k = absurd (ground arith)
    by_result (ok t) e k =
        let (same_store, same) = both_of accounts after t b k in
        void-Verdict accounts after a b
          (ap (λ y. y.life.state) (sym same) ∙ void_proposal-state a t reason now e) all f
          (sym same_store)
