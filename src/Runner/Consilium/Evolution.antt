-- ===== src/Runner/Consilium/Evolution.antt =====
-- How a stored removal moves: by the calls of its aggregate (domain/src/governance.rs), between which
-- its events are drained.
use concierge.Prelude.{
  List, Bool, true, false, not, ◌||◌, ◌≡◌, refl, ap, ◌∙◌, subst, arith, some, none, if◌then◌else◌,
}
use concierge.Prelude.Int.{ℤ}
use concierge.Errors.{Result, ok, err, ◌>>=◌}
use concierge.Text.{Text}
use concierge.Governance.ProposalState
use concierge.Governance.ProposalState.{ProposalState}
use concierge.Governance.Vote.{Vote}
use concierge.Governance.Peer.{UserId}
use concierge.Governance.Lifecycle
use concierge.Governance.Removal
use concierge.Governance.Removal.{OwnerRemoval, is_passes, outcome_now, mark_target_notified}
use concierge.Governance.Removal.Steps
use concierge.Governance.Removal.Steps.{
  Call, SameVerdict, step_closed, votes, answers, cancels, expires, executes, voids, notifies,
}
use concierge.Runner.Genesis.{Store, owner_ids}
use concierge.Runner.Consilium.{take_seat}
use concierge.Runner.Consilium.Removals.{
  stored, ok_some, expire_if_due, seat_taken_if, settle, voted, withdrawn,
}
use concierge.Runner.Consilium.Codes.{answer}

pub data Evolves (r : OwnerRemoval) : OwnerRemoval → Type 0 where
  stays : Evolves r r
  moves : {s : OwnerRemoval} → Evolves r s → (c : ℤ × Call) → Evolves r (Steps.step s c)
  drains : {s : OwnerRemoval} → Evolves r s → Evolves r (stored s)

step-id : (r : OwnerRemoval) (c : ℤ × Call) → (Steps.step r c).id ≡ r.id
unfolding Steps.step Removal.peer_vote Removal.target_decision Removal.cancel Removal.expire
    Removal.execute Removal.void_proposal mark_target_notified
step-id r (now, votes voter vote) = ground arith
step-id r (now, answers vote) = ground arith
step-id r (now, cancels by) = ground arith
step-id r (now, expires) = ground arith
step-id r (now, executes owners) = ground arith
step-id r (now, voids reason) = ground arith
step-id r (now, notifies) = ground arith

pub Evolves-id : {r s : OwnerRemoval} → Evolves r s → s.id ≡ r.id
Evolves-id stays = refl
Evolves-id (moves {s} h c) = step-id s c ∙ Evolves-id h
Evolves-id (drains h) = Evolves-id h

pub Evolves-trans : {r s t : OwnerRemoval} → Evolves r s → Evolves s t → Evolves r t
Evolves-trans h stays = h
Evolves-trans h (moves k c) = moves (Evolves-trans h k) c
Evolves-trans h (drains k) = drains (Evolves-trans h k)

-- What stays of a removal that is closed.
pub record SameEnd (r s : OwnerRemoval) : Type 0 where
  pub same_state : s.life.state ≡ r.life.state
  pub same_peers : s.peers ≡ r.peers
  pub same_decision : s.decision ≡ r.decision

pub Evolves-SameEnd :
    {r s : OwnerRemoval} → Evolves r s → ProposalState.is_open r.life.state ≡ false → SameEnd r s
unfolding Lifecycle.drain_events
Evolves-SameEnd stays o = record { same_state = refl; same_peers = refl; same_decision = refl }
Evolves-SameEnd {r} (moves {s} h c) o =
    let e = Evolves-SameEnd h o in
    let v = step_closed s c (ap ProposalState.is_open e.same_state ∙ o) in
    record {
      same_state = ap (λ l. l.state) v.same_life ∙ e.same_state;
      same_peers = v.same_peers ∙ e.same_peers;
      same_decision = v.same_decision ∙ e.same_decision;
    }
Evolves-SameEnd (drains h) o =
    let e = Evolves-SameEnd h o in
    record { same_state = e.same_state; same_peers = e.same_peers; same_decision = e.same_decision }

-- A call that succeeds is a move.
by_call : (r s : OwnerRemoval) (c : ℤ × Call) → Steps.step r c ≡ s → Evolves r s
by_call r s c e = subst (Evolves r) e (moves stays c)

pub peer_vote-Evolves :
    (r s : OwnerRemoval) (voter : UserId) (vote : Vote) (now : ℤ)
    → Removal.peer_vote r voter vote now ≡ ok s
    → Evolves r s
unfolding Steps.step
peer_vote-Evolves r s voter vote now e = by_call r s (now, votes voter vote) (rw e refl)

pub target_decision-Evolves :
    (r s : OwnerRemoval) (vote : Vote) (now : ℤ)
    → Removal.target_decision r vote now ≡ ok s
    → Evolves r s
unfolding Steps.step
target_decision-Evolves r s vote now e = by_call r s (now, answers vote) (rw e refl)

pub cancel-Evolves :
    (r s : OwnerRemoval) (by : UserId) (now : ℤ) → Removal.cancel r by now ≡ ok s → Evolves r s
unfolding Steps.step
cancel-Evolves r s by now e = by_call r s (now, cancels by) (rw e refl)

pub void_proposal-Evolves :
    (r s : OwnerRemoval) (reason : Text) (now : ℤ)
    → Removal.void_proposal r reason now ≡ ok s
    → Evolves r s
unfolding Steps.step
void_proposal-Evolves r s reason now e = by_call r s (now, voids reason) (rw e refl)

pub execute-Evolves :
    (r s : OwnerRemoval) (owners : List UserId) (now : ℤ) (state : ProposalState)
    → Removal.execute r owners now ≡ ok (s, state)
    → Evolves r s
unfolding Steps.step
execute-Evolves r s owners now state e = by_call r s (now, executes owners) (rw e refl)

expired_ok :
    (b : Bool) (res : Result OwnerRemoval) (s : OwnerRemoval)
    → (if b then ok_some res else none) ≡ some s
    → res ≡ ok s
expired_ok true (ok r) s h = cc
expired_ok true (err e) s h = absurd (ground arith)
expired_ok false res s h = absurd (ground arith)

pub expire_if_due-Evolves :
    (r s : OwnerRemoval) (now : ℤ) → expire_if_due r now ≡ some s → Evolves r s
unfolding expire_if_due Steps.step
expire_if_due-Evolves r s now h =
    by_call r s (now, expires) (rw (expired_ok _ (Removal.expire r now) s h) refl)

-- A computation on a removal that moves it as its aggregate does, where it does not roll back.
abbrev pub Lifts : OwnerRemoval → Result (Store × OwnerRemoval) → Type 0
Lifts r (err e) = Unit
Lifts r (ok (accounts, s)) = Evolves r s

pub bind-Lifts {ℓ} :
    {A : Type ℓ} (r : OwnerRemoval) (res : Result A) (f : A → Result (Store × OwnerRemoval))
    → ((a : A) → res ≡ ok a → Lifts r (f a))
    → Lifts r (res >>= f)
bind-Lifts r (err e) f h = tt
bind-Lifts r (ok a) f h = h a refl

if-Lifts :
    (r : OwnerRemoval) (b : Bool) (x y : Result (Store × OwnerRemoval))
    → Lifts r x
    → Lifts r y
    → Lifts r (if b then x else y)
if-Lifts r true x y h k = h
if-Lifts r false x y h k = k

seat_taken-Lifts :
    (accounts : Store) (r s : OwnerRemoval) (state : ProposalState)
    → Evolves r s
    → Lifts r (seat_taken_if accounts (s, state))
seat_taken-Lifts accounts r s ProposalState.executed h =
    bind-Lifts r (take_seat accounts s.target) (λ after. ok (after, s)) (λ after _. h)
seat_taken-Lifts accounts r s ProposalState.open_state h = h
seat_taken-Lifts accounts r s ProposalState.rejected h = h
seat_taken-Lifts accounts r s ProposalState.expired h = h
seat_taken-Lifts accounts r s ProposalState.cancelled h = h
seat_taken-Lifts accounts r s ProposalState.void_state h = h

settle-Lifts :
    (accounts : Store) (r s : OwnerRemoval) (now : ℤ)
    → Evolves r s
    → Lifts r (settle accounts s now)
unfolding settle
settle-Lifts accounts r s now h =
    if-Lifts r (not (ProposalState.is_open s.life.state) || not (is_passes (outcome_now s))) _ _ h (
      bind-Lifts r (Removal.execute s (owner_ids accounts.users) now) (seat_taken_if accounts)
        (λ x e.
          seat_taken-Lifts accounts r x.0 x.1
            (Evolves-trans h (execute-Evolves s x.0 (owner_ids accounts.users) now x.1 e))))

pub voted-Lifts :
    (accounts : Store) (voter : UserId) (vote : Vote) (now : ℤ) (r : OwnerRemoval)
    → Lifts r (voted accounts voter vote now r)
voted-Lifts accounts voter vote now r =
    bind-Lifts r (Removal.peer_vote r voter vote now) (λ s. settle accounts s now)
      (λ s e. settle-Lifts accounts r s now (peer_vote-Evolves r s voter vote now e))

pub withdrawn-Lifts :
    (accounts : Store) (by : UserId) (now : ℤ) (r : OwnerRemoval)
    → Lifts r (withdrawn accounts by now r)
withdrawn-Lifts accounts by now r =
    bind-Lifts r (Removal.cancel r by now) (λ s. ok (accounts, s))
      (λ s e. cancel-Evolves r s by now e)

pub answer-Lifts :
    (accounts : Store) (r : OwnerRemoval) (vote : Vote) (now : ℤ)
    → Lifts r (answer accounts r vote now)
answer-Lifts accounts r vote now =
    bind-Lifts r (Removal.target_decision r vote now) (λ s. settle accounts s now)
      (λ s e. settle-Lifts accounts r s now (target_decision-Evolves r s vote now e))
