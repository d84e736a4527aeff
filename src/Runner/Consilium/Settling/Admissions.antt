-- ===== src/Runner/Consilium/Settling/Admissions.antt =====
-- When a transaction of runner/src/infrastructure/governance.rs grants a seat: the votes as they were
-- cast, and what the roster of that moment still says of them.
use concierge.Users.Account.{User}
use concierge.Errors.{is_ok}
use concierge.Runner.Consilium.{write_role}
use concierge.Runner.Genesis.{find_user}
use concierge.Prelude.{
  some, List, Bool, true, false, not, ◌||◌, contains, length, ◌≡◌, ◌↔◌, ◌⊎◌, inl, inr, refl, sym,
  ap, ◌∙◌, arith, Bool-cases,
}
use concierge.Prelude.Int.{ℤ}
use concierge.Errors.{Result, ok, err, ◌>>=◌}
use concierge.Governance.Lifecycle.{close, close_void}
use concierge.Governance.ProposalState
use concierge.Governance.ProposalState.{ProposalState}
use concierge.Governance.Peer.{UserId, seated}
use concierge.Governance.Removal.{is_passes}
use concierge.Governance.Admission
use concierge.Governance.Admission.{
  OwnerAdmission, outcome_now, outcome_among, admission_ballots, carry,
}
use concierge.Runner.Genesis.{Store, owner_ids}
use concierge.Runner.Consilium.{grant_seat}
use concierge.Runner.Consilium.Admissions.{settle, seated_if, lost_seats}
use concierge.Runner.Consilium.Settling.Granting.{
  AllAdmit, Stands, Verdict, done, passes-AllAdmit, among-passes, exclusive, both_of, open-Verdict,
  void-Verdict, voided-Verdict,
}

execute_carries :
    (a : OwnerAdmission) (owners : List UserId) (now : ℤ)
    → a.life.state ≡ ProposalState.open_state
    → is_passes (outcome_among a owners) ≡ true
    → Admission.execute a owners now
      ≡ ok (record a { life = carry a owners now }, (carry a owners now).state)
unfolding Admission.execute
execute_carries a owners now o e = ground (arith, o, e)

-- The ways in which `carry` closes an admission that passed.
carry_unseated :
    (accounts : Store) (a : OwnerAdmission) (owners : List UserId) (now : ℤ)
    → (contains owners a.initiator ≡ false) ⊎ (contains owners a.candidate ≡ true)
    → ((carry a owners now).state ≡ ProposalState.void_state)
      × (seated_if accounts (record a { life = carry a owners now }, (carry a owners now).state)
          ≡ done accounts (record a { life = carry a owners now }))
unfolding carry close_void close
carry_unseated accounts a owners now (inl i) = (rw i refl, rw i refl)
carry_unseated accounts a owners now (inr c) = elim (Bool-cases (contains owners a.initiator)) [
  | inl i ↦ (rw (i, c) refl, rw (i, c) refl)
  | inr i ↦ (rw i refl, rw i refl)
]

carry_seated :
    (accounts : Store) (a : OwnerAdmission) (owners : List UserId) (now : ℤ)
    → contains owners a.initiator ≡ true
    → contains owners a.candidate ≡ false
    → ((carry a owners now).state ≡ ProposalState.executed)
      × (seated_if accounts (record a { life = carry a owners now }, (carry a owners now).state) ≡ (
          grant_seat accounts a.candidate >>= λ x. done x (record a { life = carry a owners now })))
unfolding carry close
carry_seated accounts a owners now i c = (rw (i, c) refl, rw (i, c) refl)

-- The seat is granted in the same transaction.
granted-Verdict :
    (accounts after : Store) (a b t : OwnerAdmission)
    → t.life.state ≡ ProposalState.executed
    → AllAdmit a
    → Stands (owner_ids accounts.users) a
    → (grant_seat accounts a.candidate >>= λ x. done x t) ≡ done after b
    → Verdict accounts after a b
granted-Verdict accounts after a b t e all s h = by_grant (grant_seat accounts a.candidate) refl h
  where
    by_grant :
        (res : Result Store)
        → grant_seat accounts a.candidate ≡ res
        → (res >>= λ x. done x t) ≡ done after b
        → Verdict accounts after a b
    by_grant (err x) g k = absurd (ground arith)
    by_grant (ok x) g k =
        let (same_store, same) = both_of x after t b k in
        let executed_b = ap (λ y. y.life.state) (sym same) ∙ e in
        (
          ((λ y. (all, s)), λ y. executed_b),
          (
            (λ y. absurd (ground (arith, executed_b, y))),
            λ y. absurd (exclusive (owner_ids accounts.users) a s y.1),
          ),
          inl (executed_b, g ∙ ap ok same_store),
        )

-- An admission that passed twice is carried.
carried-Verdict :
    (accounts after : Store) (a b : OwnerAdmission) (now : ℤ)
    → a.life.state ≡ ProposalState.open_state
    → AllAdmit a
    → is_passes (outcome_among a (owner_ids accounts.users)) ≡ true
    → (Admission.execute a (owner_ids accounts.users) now >>= seated_if accounts) ≡ done after b
    → Verdict accounts after a b
carried-Verdict accounts after a b now o all e h = elim (Bool-cases (contains owners a.initiator)) [
  | inr i ↦ unseated (inl i)
  | inl i ↦ elim (Bool-cases (contains owners a.candidate)) [
    | inl c ↦ unseated (inr c)
    | inr c ↦
        let (state_of, effect) = carry_seated accounts a owners now i c in
        granted-Verdict accounts after a b _ state_of all ((among-passes owners a all).0 e, i, c)
          (sym effect ∙ carried)
  ]
]
  where
    owners : List UserId
    owners = owner_ids accounts.users

    carried :
        seated_if accounts (record a { life = carry a owners now }, (carry a owners now).state)
        ≡ done after b
    carried = rw (← h) (rw (execute_carries a owners now o e) refl)

    unseated :
        (contains owners a.initiator ≡ false) ⊎ (contains owners a.candidate ≡ true)
        → Verdict accounts after a b
    unseated u =
        let (state_of, effect) = carry_unseated accounts a owners now u in
        let (same_store, same) = both_of _ after _ b (sym effect ∙ carried) in
        void-Verdict accounts after a b (ap (λ y. y.life.state) (sym same) ∙ state_of) all (inr u)
          (sym same_store)

guard-AllAdmit :
    (a : OwnerAdmission)
    → a.life.state ≡ ProposalState.open_state
    → (b : Bool) → (not (ProposalState.is_open a.life.state) || not (is_passes (outcome_now a))) ≡ b
    → (b ≡ false) ↔ AllAdmit a
unfolding ProposalState.is_open
guard-AllAdmit a o b e = ground (arith, passes-AllAdmit a, e, o)

ended-Verdict :
    (accounts after : Store) (a b : OwnerAdmission) (now : ℤ)
    → a.life.state ≡ ProposalState.open_state
    → settle accounts a now ≡ done after b
    → Verdict accounts after a b
unfolding settle
ended-Verdict accounts after a b now o h =
    elim (Bool-cases
      (not (ProposalState.is_open a.life.state) || not (is_passes (outcome_now a)))) [
        | inl e ↦
            let (same_store, same) = both_of accounts after a b (rw (← h) (rw e refl)) in
            open-Verdict accounts after a b (ap (λ y. y.life.state) (sym same) ∙ o)
              (λ x. ground (arith, (guard-AllAdmit a o true e).1 x)) (sym same_store)
        | inr e ↦
            let all = (guard-AllAdmit a o false e).0 refl in
            elim (Bool-cases (is_passes (outcome_among a (owner_ids accounts.users)))) [
              | inl c ↦ carried-Verdict accounts after a b now o all c (rw (← h) (rw (e, c) refl))
              | inr c ↦
                  voided-Verdict accounts after a b lost_seats now all (inl (nobody c all))
                    (rw (← h) (rw (e, c) refl))
            ]
      ]
  where
    nobody :
        is_passes (outcome_among a (owner_ids accounts.users)) ≡ false
        → AllAdmit a
        → length (seated (owner_ids accounts.users) a.peers) ≡ 0
    nobody c all = ground (arith, c, (among-passes (owner_ids accounts.users) a all).1)

grant_seat-ok :
    (accounts : Store) (id : UserId) (user : User)
    → find_user id accounts.users ≡ some user
    → is_ok (grant_seat accounts id) ≡ true
unfolding grant_seat write_role
grant_seat-ok accounts id user f = rw (f, is_ok) refl

is_ok-seated_if :
    (accounts : Store) (a : OwnerAdmission) (state : ProposalState)
    → is_ok (grant_seat accounts a.candidate) ≡ true
    → is_ok (seated_if accounts (a, state)) ≡ true
is_ok-seated_if accounts a state g = ground (arith, g)

settle-ok :
    (accounts : Store) (a : OwnerAdmission) (user : User) (now : ℤ)
    → a.life.state ≡ ProposalState.open_state
    → find_user a.candidate accounts.users ≡ some user
    → is_ok (settle accounts a now) ≡ true
unfolding settle Admission.void_proposal ProposalState.is_open
settle-ok accounts a user now o f = elim (Bool-cases (not (is_passes (outcome_now a)))) [
  | inl e ↦ rw (o, e) refl
  | inr e ↦ elim (Bool-cases (is_passes (outcome_among a (owner_ids accounts.users)))) [
    | inr c ↦ rw (o, e, c) refl
    | inl c ↦
        rw (o, e, c) (is_ok-seated_if accounts _ _ (grant_seat-ok accounts a.candidate user f))
  ]
]

ended :
    (res : Result (Store × OwnerAdmission))
    → is_ok res ≡ true
    → (after : Store) × (b : OwnerAdmission) × (res ≡ done after b)
ended (err e) h = absurd (ground arith)
ended (ok (after, b)) h = (after, b, refl)

-- A transaction that settles an open admission of somebody who has an account is never refused. It
-- grants the seat exactly when somebody was asked and all of those voted to admit, one of them still
-- holds a seat, so does the initiator, and the candidate holds none. It voids the admission exactly
-- when somebody was asked, all of those voted to admit and one of the other three conditions fails. The
-- accounts are those in which the candidate was seated where the admission is executed, and those
-- before in every other case.
pub settle_admission :
    (accounts : Store) (a : OwnerAdmission) (candidate : User) (now : ℤ)
    → a.life.state ≡ ProposalState.open_state
    → find_user a.candidate accounts.users ≡ some candidate
    → (after : Store) × (b : OwnerAdmission) × (settle accounts a now ≡ done after b)
      × Verdict accounts after a b
settle_admission accounts a candidate now o f =
    let (after, b, e) = ended (settle accounts a now) (settle-ok accounts a candidate now o f) in
    (after, b, e, ended-Verdict accounts after a b now o e)
