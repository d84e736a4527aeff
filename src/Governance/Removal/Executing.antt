-- ===== src/Governance/Removal/Executing.antt =====
-- When a removal takes the seat.
use concierge.Prelude.{
  ◌≤◌, ◌<◌, List, [], ◌∷◌, Bool, true, false, contains, length, ◌≡◌, ◌≢◌, ◌↔◌, ◌⊎◌, inl, inr, refl,
  arith, Bool-cases,
}
use concierge.Prelude.Int.{ℤ}
use concierge.Errors.{ok, is_ok}
use concierge.Governance.ProposalState.{ProposalState}
use concierge.Governance.Vote.{Vote}
use concierge.Governance.Peer.{UserId, seated}
use concierge.Governance.Rules.Removal.{votes, outcome-votes}
use concierge.Governance.Removal.{
  OwnerRemoval, peer_vote, target_decision, cancel, expire, execute, void_proposal,
  mark_target_notified,
}
use concierge.Governance.Removal.Steps.{
  Call, executes, step, run, votes as votes_call, answers, cancels, expires, voids, notifies,
}

-- The consilium stands behind the removal on a roster: the target accepted, or somebody who was
-- asked still holds a seat and all of those voted to remove.
abbrev pub Carried : OwnerRemoval → List UserId → Type 0
Carried r owners =
    (r.decision ≡ Vote.remove)
    ⊎ ((0 < length (seated owners r.peers))
        × (votes Vote.remove (seated owners r.peers) ≡ length (seated owners r.peers)))

-- Executing an open removal takes the seat exactly when the consilium stands behind it on the
-- current roster (the target accepted, or a peer is still seated and all of those voted to remove),
-- the initiator still holds a seat and at least three owners do. It voids the removal exactly when
-- the consilium stands behind it and one of the others fails, and it fails exactly when the consilium
-- does not.
pub execute_open_removal :
    (r : OwnerRemoval) (owners : List UserId) (now : ℤ)
    → r.life.state ≡ ProposalState.open_state
    → (((step r (now, executes owners)).life.state ≡ ProposalState.executed)
        ↔ (Carried r owners × (contains owners r.initiator ≡ true) × (3 ≤ length owners)))
      × (((step r (now, executes owners)).life.state ≡ ProposalState.void_state)
          ↔ (Carried r owners × ((contains owners r.initiator ≡ false) ⊎ (length owners ≤ 2))))
      × ((is_ok (execute r owners now) ≡ true) ↔ Carried r owners)
unfolding step execute
execute_open_removal r owners now h =
    ground (arith, outcome-votes r.decision (seated owners r.peers))

-- A removal that is executed or void answers a second execution with its state and changes nothing.
pub execute_again :
    (r : OwnerRemoval) (owners later : List UserId) (now then_ : ℤ) (s : OwnerRemoval)
    (state : ProposalState)
    → execute r owners now ≡ ok (s, state)
    → (s.life.state ≡ state) × (execute s later then_ ≡ ok (s, state))
unfolding execute
execute_again r owners later now then_ s state h = ground arith

-- A call that executes a removal is an execution that finds it open and carries it.
step_executed :
    (r : OwnerRemoval) (now : ℤ) (c : Call)
    → r.life.state ≢ ProposalState.executed
    → (step r (now, c)).life.state ≡ ProposalState.executed
    → (owners : List UserId) × (c ≡ executes owners)
      × (r.life.state ≡ ProposalState.open_state)
      × Carried r owners
      × (contains owners r.initiator ≡ true)
      × (3 ≤ length owners)
unfolding step peer_vote target_decision cancel expire execute void_proposal mark_target_notified
step_executed r now (votes_call voter vote) n h = absurd (ground arith)
step_executed r now (answers vote) n h = absurd (ground arith)
step_executed r now (cancels by) n h = absurd (ground arith)
step_executed r now expires n h = absurd (ground arith)
step_executed r now (executes owners) n h = (
  owners,
  refl,
  ground arith,
  ground (arith, outcome-votes r.decision (seated owners r.peers)),
  ground arith,
  ground arith,
)
step_executed r now (voids reason) n h = absurd (ground arith)
step_executed r now notifies n h = absurd (ground arith)

-- A history holds an execution that found the removal open and carried it, on a roster of at least
-- three that still seats the initiator.
pub data Executed : OwnerRemoval → List (ℤ × Call) → Type 0 where
  here :
      {r : OwnerRemoval} {now : ℤ} {owners : List UserId} {cs : List (ℤ × Call)}
      → r.life.state ≡ ProposalState.open_state
      → Carried r owners
      → contains owners r.initiator ≡ true
      → 3 ≤ length owners
      → Executed r ((now, executes owners) ∷ cs)
  later :
      {r : OwnerRemoval} {c : ℤ × Call} {cs : List (ℤ × Call)}
      → Executed (step r c) cs
      → Executed r (c ∷ cs)

here_of_step :
    (r : OwnerRemoval) (now : ℤ) (c : Call) (cs : List (ℤ × Call)) (owners : List UserId)
    → c ≡ executes owners
    → r.life.state ≡ ProposalState.open_state
    → Carried r owners
    → contains owners r.initiator ≡ true
    → 3 ≤ length owners
    → Executed r ((now, c) ∷ cs)
here_of_step r now c cs owners e o k i n = rw e (here o k i n)

is_executed : ProposalState → Bool
is_executed ProposalState.executed = true
is_executed _ = false

is_executed_iff : (s : ProposalState) → (is_executed s ≡ true) ↔ (s ≡ ProposalState.executed)
unfolding is_executed
is_executed_iff s = ground arith

-- A removal that was not executed and is after some calls was executed by one of them: the removal
-- was open, the target had accepted or all the peers still seated had voted to remove and there was
-- one, the initiator was seated, and the roster held three owners at least.
pub run_executed :
    (r : OwnerRemoval) (cs : List (ℤ × Call))
    → r.life.state ≢ ProposalState.executed
    → (run r cs).life.state ≡ ProposalState.executed
    → Executed r cs
unfolding run
run_executed r [] n h = absurd (n h)
run_executed r ((now, c) ∷ cs) n h = elim (Bool-cases (is_executed (step r (now, c)).life.state)) [
  | inl e ↦
      let (owners, is_call, o, k, i, m) = step_executed r now c n ((is_executed_iff _).0 e) in
      here_of_step r now c cs owners is_call o k i m
  | inr e ↦ later (run_executed (step r (now, c)) cs (not_executed e) h)
]
  where
    not_executed :
        is_executed (step r (now, c)).life.state ≡ false
        → (step r (now, c)).life.state ≢ ProposalState.executed
    not_executed e x = ground (arith, is_executed_iff (step r (now, c)).life.state)
