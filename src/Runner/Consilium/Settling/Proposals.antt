-- ===== src/Runner/Consilium/Settling/Proposals.antt =====
-- When a transaction of runner/src/infrastructure/governance.rs carries a proposal about a user: the
-- votes as they were cast, again among those who still hold a seat, and the subject's account.
use concierge.Errors.{is_ok}
use concierge.Prelude.{
  List, [], ◌∷◌, subst, ◌<◌, Bool, true, false, not, ◌||◌, Option, none, some, contains, length,
  ◌≡◌, ◌↔◌, inl, inr, refl, sym, ap, ◌∙◌, arith, Bool-cases,
}
use concierge.Prelude.Int.{ℤ}
use concierge.Errors.{not_found, num, Result, ok, err, ◌>>=◌}
use concierge.Text.{Text}
use concierge.Governance.Lifecycle.{close, close_void}
use concierge.Governance.ProposalState
use concierge.Governance.ProposalState.{ProposalState}
use concierge.Governance.Peer.{UserId}
use concierge.Governance.Removal.{is_passes}
use concierge.Governance.UserProposal
use concierge.Governance.UserProposal.{
  UserProposal, outcome_now, outcome_among, proposal_ballots, carry,
}
use concierge.Governance.UserProposal.Opening.{IsSound}
use concierge.Governance.UserProposal.Executing.{outcome-threshold}
use concierge.Users.Account.{User}
use concierge.Runner.Genesis.{Store, owner_ids, find_user, loaded}
use concierge.Runner.Consilium.Proposals.{
  settle, settle_subject, inapplicable, voided, effect_if, apply_effect, write_user, lost_seats,
}
use concierge.Runner.Consilium.Settling.Verdicts.{
  Reached, Verdict, done, both_of, passes-Carried, still_open, void-Verdict, executed-Verdict,
  voided-Verdict,
}

execute_carries :
    (p : UserProposal) (owners : List UserId) (now : ℤ)
    → p.life.state ≡ ProposalState.open_state
    → is_passes (outcome_among p owners) ≡ true
    → UserProposal.execute p owners now
      ≡ ok (record p { life = carry p owners now }, (carry p owners now).state)
unfolding UserProposal.execute
execute_carries p owners now o e = ground (arith, o, e)

-- The effect of a verdict, where the initiator still holds a seat and where not.
effect_seated :
    (accounts : Store) (user : User) (p : UserProposal) (owners : List UserId) (now : ℤ)
    → contains owners p.initiator ≡ true
    → ((carry p owners now).state ≡ ProposalState.executed)
      × (effect_if accounts user now
            (record p { life = carry p owners now }, (carry p owners now).state)
          ≡ done
              (write_user accounts (apply_effect user p.kind now))
              (record p { life = carry p owners now }))
unfolding carry close
effect_seated accounts user p owners now i = (rw i refl, rw i refl)

effect_unseated :
    (accounts : Store) (user : User) (p : UserProposal) (owners : List UserId) (now : ℤ)
    → contains owners p.initiator ≡ false
    → ((carry p owners now).state ≡ ProposalState.void_state)
      × (effect_if accounts user now
            (record p { life = carry p owners now }, (carry p owners now).state)
          ≡ done accounts (record p { life = carry p owners now }))
unfolding carry close_void close
effect_unseated accounts user p owners now i = (rw i refl, rw i refl)

-- A proposal that passed, where the verdict still applies to the subject.
applied-Verdict :
    (accounts after : Store) (p q : UserProposal) (subject : User) (now : ℤ)
    → p.life.state ≡ ProposalState.open_state
    → Reached p
    → is_passes (outcome_among p (owner_ids accounts.users)) ≡ true
    → find_user p.subject accounts.users ≡ some subject
    → inapplicable subject p.kind ≡ none
    → (UserProposal.execute p (owner_ids accounts.users) now
        >>= effect_if accounts (loaded subject) now)
      ≡ done after q
    → Verdict accounts after p q now
applied-Verdict accounts after p q subject now o b c f a h =
    elim (Bool-cases (contains owners p.initiator)) [
      | inl i ↦
          let (state_of, effect) = effect_seated accounts (loaded subject) p owners now i in
          let (same_store, same) = both_of _ after _ q (sym effect ∙ carried) in
          subst (λ x. Verdict accounts x p q now) same_store
            (executed-Verdict accounts p q subject now
              (ap (λ y. y.life.state) (sym same) ∙ state_of) b
              ((passes-Carried p owners).0 c, i, (subject, f, a)) f)
      | inr i ↦
          let (state_of, effect) = effect_unseated accounts (loaded subject) p owners now i in
          let (same_store, same) = both_of _ after _ q (sym effect ∙ carried) in
          void-Verdict accounts after p q now (ap (λ y. y.life.state) (sym same) ∙ state_of) b
            (inr (inl i)) (sym same_store)
    ]
  where
    owners : List UserId
    owners = owner_ids accounts.users

    carried :
        effect_if accounts
          (loaded subject)
          now
          (record p { life = carry p owners now }, (carry p owners now).state)
        ≡ done after q
    carried = rw (← h) (rw (execute_carries p owners now o c) refl)

-- What `settle_subject` does once the votes passed twice.
subject-Verdict :
    (accounts after : Store) (p q : UserProposal) (subject : User) (now : ℤ)
    → p.life.state ≡ ProposalState.open_state
    → Reached p
    → is_passes (outcome_among p (owner_ids accounts.users)) ≡ true
    → find_user p.subject accounts.users ≡ some subject
    → settle_subject accounts subject p now ≡ done after q
    → Verdict accounts after p q now
unfolding settle_subject
subject-Verdict accounts after p q subject now o b c f h =
    by_reason (inapplicable subject p.kind) refl h
  where
    by_reason :
        (found : Option Text)
        → inapplicable subject p.kind ≡ found
        → elim found as (λ _. Result (Store × UserProposal)) [
          | some blocked ↦ voided accounts (UserProposal.void_proposal p blocked now)
          | none ↦
              UserProposal.execute p (owner_ids accounts.users) now
              >>= effect_if accounts (loaded subject) now
        ]
          ≡ done after q
        → Verdict accounts after p q now
    by_reason (some reason) e k =
        voided-Verdict accounts after p q reason now o b (inr (inr (subject, reason, f, e))) k
    by_reason none e k = applied-Verdict accounts after p q subject now o b c f e k

-- An open proposal that `settle_proposal` goes on with has reached its bar, and the others have not.
guard-Reached :
    (p : UserProposal)
    → IsSound p
    → length p.peers < 4294967296
    → p.life.state ≡ ProposalState.open_state
    → (b : Bool) → (not (ProposalState.is_open p.life.state) || not (is_passes (outcome_now p))) ≡ b
    → (b ≡ false) ↔ Reached p
unfolding ProposalState.is_open
guard-Reached p s n o b e = ground (arith, outcome-threshold p s n, e, o)

ended-Verdict :
    (accounts after : Store) (p q : UserProposal) (now : ℤ)
    → IsSound p
    → length p.peers < 4294967296
    → p.life.state ≡ ProposalState.open_state
    → settle accounts p now ≡ done after q
    → Verdict accounts after p q now
unfolding settle
ended-Verdict accounts after p q now s n o h =
    elim (Bool-cases
      (not (ProposalState.is_open p.life.state) || not (is_passes (outcome_now p)))) [
        | inl e ↦
            let (same_store, same) = both_of accounts after p q (rw (← h) (rw e refl)) in
            still_open accounts after p q now (ap (λ y. y.life.state) (sym same) ∙ o)
              (λ r. ground (arith, (guard-Reached p s n o true e).1 r)) (sym same_store)
        | inr e ↦ elim (Bool-cases (is_passes (outcome_among p (owner_ids accounts.users)))) [
          | inr c ↦
              voided-Verdict accounts after p q lost_seats now o
                ((guard-Reached p s n o false e).0 refl)
                (inl (λ x. ground (arith, c, (passes-Carried p (owner_ids accounts.users)).1 x)))
                (rw (← h) (rw (e, c) refl))
          | inl c ↦
              by_subject (find_user p.subject accounts.users) refl (rw (← h) (rw (e, c) refl))
                ((guard-Reached p s n o false e).0 refl) c
        ]
      ]
  where
    by_subject :
        (found : Option User)
        → find_user p.subject accounts.users ≡ found
        → elim found as (λ _. Result (Store × UserProposal)) [
          | none ↦ err (not_found "user" (num p.subject ∷ []))
          | some subject ↦ settle_subject accounts subject p now
        ]
          ≡ done after q
        → Reached p
        → is_passes (outcome_among p (owner_ids accounts.users)) ≡ true
        → Verdict accounts after p q now
    by_subject none f k b c = absurd (ground arith)
    by_subject (some subject) f k b c = subject-Verdict accounts after p q subject now o b c f k

is_ok-effect_if :
    (accounts : Store) (user : User) (now : ℤ) (p : UserProposal) (state : ProposalState)
    → is_ok (effect_if accounts user now (p, state)) ≡ true
is_ok-effect_if accounts user now p state = ground arith

subject-ok :
    (accounts : Store) (subject : User) (p : UserProposal) (now : ℤ)
    → p.life.state ≡ ProposalState.open_state
    → is_passes (outcome_among p (owner_ids accounts.users)) ≡ true
    → (found : Option Text) → inapplicable subject p.kind ≡ found
    → is_ok (settle_subject accounts subject p now) ≡ true
unfolding settle_subject UserProposal.void_proposal ProposalState.is_open
subject-ok accounts subject p now o c (some reason) e = rw (is_ok, e, o) refl
subject-ok accounts subject p now o c none e =
    rw (settle_subject, is_ok, e, execute_carries p (owner_ids accounts.users) now o c)
      (is_ok-effect_if accounts (loaded subject) now _ _)

settle-ok :
    (accounts : Store) (p : UserProposal) (subject : User) (now : ℤ)
    → p.life.state ≡ ProposalState.open_state
    → find_user p.subject accounts.users ≡ some subject
    → is_ok (settle accounts p now) ≡ true
unfolding settle UserProposal.void_proposal ProposalState.is_open
settle-ok accounts p subject now o f = elim (Bool-cases (not (is_passes (outcome_now p)))) [
  | inl e ↦ rw (o, e) refl
  | inr e ↦ elim (Bool-cases (is_passes (outcome_among p (owner_ids accounts.users)))) [
    | inr c ↦ rw (o, e, c) refl
    | inl c ↦
        rw (o, e, c, f) (subject-ok accounts subject p now o c (inapplicable subject p.kind) refl)
  ]
]

ended :
    (res : Result (Store × UserProposal))
    → is_ok res ≡ true
    → (after : Store) × (q : UserProposal) × (res ≡ done after q)
ended (err e) h = absurd (ground arith)
ended (ok (after, q)) h = (after, q, refl)

-- A transaction that settles an open user proposal about somebody who has an account, with fewer than
-- 2^32 voters and the bar that its opening computed, is never refused. It executes the proposal exactly
-- when the votes for it, over everybody who was asked, reach that bar, more than half of the voters
-- still seated are for it, the initiator still holds a seat and the verdict still applies to the
-- subject's account. It voids the proposal exactly when the bar is reached and one of the other three
-- conditions fails. The accounts are those in which the subject's was written with the effect where the
-- proposal is executed, and those before in every other case.
pub settle_proposal :
    (accounts : Store) (p : UserProposal) (subject : User) (now : ℤ)
    → IsSound p
    → length p.peers < 4294967296
    → p.life.state ≡ ProposalState.open_state
    → find_user p.subject accounts.users ≡ some subject
    → (after : Store) × (q : UserProposal) × (settle accounts p now ≡ done after q)
      × Verdict accounts after p q now
settle_proposal accounts p subject now s n o f =
    let (after, q, e) = ended (settle accounts p now) (settle-ok accounts p subject now o f) in
    (after, q, e, ended-Verdict accounts after p q now s n o e)
