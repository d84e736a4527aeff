-- ===== src/Runner/Consilium/Settling/Removing.antt =====
-- What a transaction of runner/src/infrastructure/governance.rs that settles a removal makes of it, and
-- how the parts of settling give that.
use concierge.Governance.Removal.{outcome_among}
use concierge.Prelude.{
  ◌<◌, ◌≤◌, List, true, false, not, ◌||◌, contains, length, ◌≡◌, ◌≢◌, ◌↔◌, ◌⊎◌, inl, inr, refl, sym,
  ap, ◌∙◌, arith,
}
use concierge.Prelude.Int.{ℤ}
use concierge.Errors.{Result, ok, err, ◌>>=◌}
use concierge.Governance.ProposalState
use concierge.Governance.ProposalState.{ProposalState}
use concierge.Governance.Vote.{Vote}
use concierge.Governance.Peer.{UserId}
use concierge.Governance.Rules.Removal.{votes, outcome-votes}
use concierge.Governance.Removal
use concierge.Governance.Removal.{OwnerRemoval, is_passes, outcome_now}
use concierge.Governance.Removal.Steps.{executes, step}
use concierge.Governance.Removal.Executing.{Carried}
use concierge.Runner.Genesis.{Store, owner_ids}
use concierge.Runner.Consilium.{take_seat}
use concierge.Runner.Consilium.Removals.{seat_taken_if}

-- The votes as they were cast pass: the target accepted, or all who were asked voted to remove.
abbrev pub Passed : OwnerRemoval → Type 0
Passed r =
    (r.decision ≡ Vote.remove)
    ⊎ ((0 < length r.peers) × (votes Vote.remove r.peers ≡ length r.peers))

-- The seat was taken with the verdict, or the accounts are as they were.
abbrev pub SeatFollows : Store → Store → OwnerRemoval → OwnerRemoval → Type 0
SeatFollows accounts after r s =
    ((s.life.state ≡ ProposalState.executed) × (take_seat accounts r.target ≡ ok after))
    ⊎ ((s.life.state ≢ ProposalState.executed) × (after ≡ accounts))

-- What settling a removal made of it, and of the accounts.
abbrev pub Verdict : Store → Store → OwnerRemoval → OwnerRemoval → Type 0
Verdict accounts after r s =
    ((s.life.state ≡ ProposalState.executed) ↔ (
      Passed r
      × Carried r (owner_ids accounts.users)
      × (contains (owner_ids accounts.users) r.initiator ≡ true)
      × (3 ≤ length (owner_ids accounts.users))))
    × ((s.life.state ≡ ProposalState.void_state) ↔ (
        Passed r
        × Carried r (owner_ids accounts.users)
        × ((contains (owner_ids accounts.users) r.initiator ≡ false)
            ⊎ (length (owner_ids accounts.users) ≤ 2))))
    × SeatFollows accounts after r s

-- What executing a removal makes of it, as `Verdict` says it without the votes that were cast.
abbrev pub Ends : Store → OwnerRemoval → OwnerRemoval → Type 0
Ends accounts r s =
    ((s.life.state ≡ ProposalState.executed) ↔ (
      Carried r (owner_ids accounts.users)
      × (contains (owner_ids accounts.users) r.initiator ≡ true)
      × (3 ≤ length (owner_ids accounts.users))))
    × ((s.life.state ≡ ProposalState.void_state) ↔ (
        Carried r (owner_ids accounts.users)
        × ((contains (owner_ids accounts.users) r.initiator ≡ false)
            ⊎ (length (owner_ids accounts.users) ≤ 2))))

pub execute-target :
    (r s : OwnerRemoval) (owners : List UserId) (now : ℤ) (state : ProposalState)
    → Removal.execute r owners now ≡ ok (s, state)
    → s.target ≡ r.target
unfolding Removal.execute
execute-target r s owners now state h = ground arith

abbrev pub done : Store → OwnerRemoval → Result (Store × OwnerRemoval)
done store s = ok (store, s)

pub both_of : (x y : Store) (s t : OwnerRemoval) → done x s ≡ done y t → (x ≡ y) × (s ≡ t)
both_of x y s t h = (ap (λ z. z.0) (opened h), ap (λ z. z.1) (opened h))
  where
    opened : {a b : Store × OwnerRemoval} → ok a ≡ ok b → a ≡ b
    opened e = cc

kept :
    (accounts after : Store) (s t : OwnerRemoval) (state : ProposalState)
    → s.life.state ≡ state
    → state ≢ ProposalState.executed
    → done accounts s ≡ done after t
    → (s ≡ t) × SeatFollows accounts after s t
kept accounts after s t state e n h =
    let (same_store, same) = both_of accounts after s t h in
    (same, inr ((λ x. n (sym e ∙ ap (λ y. y.life.state) same ∙ x)), sym same_store))

pub seat_taken-ok :
    (accounts after : Store) (s t : OwnerRemoval) (state : ProposalState)
    → s.life.state ≡ state
    → seat_taken_if accounts (s, state) ≡ done after t
    → (s ≡ t) × SeatFollows accounts after s t
seat_taken-ok accounts after s t ProposalState.executed e h =
    by_seat (take_seat accounts s.target) refl h
  where
    by_seat :
        (res : Result Store)
        → take_seat accounts s.target ≡ res
        → (res >>= λ x. done x s) ≡ done after t
        → (s ≡ t) × SeatFollows accounts after s t
    by_seat (err x) g k = absurd (ground arith)
    by_seat (ok x) g k =
        let (same_store, same) = both_of x after s t k in
        (same, inl (ap (λ y. y.life.state) (sym same) ∙ e, g ∙ ap ok same_store))
seat_taken-ok accounts after s t ProposalState.open_state e h =
    kept accounts after s t _ e (λ x. ground arith) h
seat_taken-ok accounts after s t ProposalState.rejected e h =
    kept accounts after s t _ e (λ x. ground arith) h
seat_taken-ok accounts after s t ProposalState.expired e h =
    kept accounts after s t _ e (λ x. ground arith) h
seat_taken-ok accounts after s t ProposalState.cancelled e h =
    kept accounts after s t _ e (λ x. ground arith) h
seat_taken-ok accounts after s t ProposalState.void_state e h =
    kept accounts after s t _ e (λ x. ground arith) h

pub passes_iff : (r : OwnerRemoval) → (is_passes (outcome_now r) ≡ true) ↔ Passed r
passes_iff r = ground (arith, outcome-votes r.decision r.peers)

pub step-executes :
    (r t : OwnerRemoval) (owners : List UserId) (now : ℤ) (state : ProposalState)
    → Removal.execute r owners now ≡ ok (t, state)
    → step r (now, executes owners) ≡ t
unfolding step
step-executes r t owners now state g = rw g refl

pub guard-Passed :
    (r : OwnerRemoval)
    → r.life.state ≡ ProposalState.open_state
    → (not (ProposalState.is_open r.life.state) || not (is_passes (outcome_now r))) ≡ false
    → Passed r
guard-Passed r o e = (passes_iff r).0 (ground (arith, e, o))

pub seat_follows_target :
    (accounts after : Store) (r t s : OwnerRemoval)
    → t.target ≡ r.target
    → SeatFollows accounts after t s
    → SeatFollows accounts after r s
seat_follows_target accounts after r t s e (inl (x, taken)) =
    inl (x, ap (take_seat accounts) (sym e) ∙ taken)
seat_follows_target accounts after r t s e (inr k) = inr k
