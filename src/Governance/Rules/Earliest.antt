-- ===== src/Governance/Rules/Earliest.antt =====
-- When the passing rules decide: the answers that may still come are the completions of the
-- pending ballots.
use concierge.Prelude.{◌+◌, ◌≤◌, List, [], ◌∷◌, map, ◌≡◌, ◌≢◌, refl, arith, length}
use concierge.Governance.Ballot.{Ballot, Outcome}
use concierge.Governance.Rules.{majority, unanimity}
use concierge.Governance.Rules.Counts.{for_count, against_count}
use concierge.Governance.Rules.Unanimity.{unanimity_counts}
use concierge.Governance.Rules.Majority.{majority_counts}

-- A ballot may become another: a pending one is cast either way, a cast one stays.
pub data Settles : Ballot → Ballot → Type 0 where
  stays_for : Settles Ballot.for Ballot.for
  stays_against : Settles Ballot.against Ballot.against
  turns_for : Settles Ballot.pending Ballot.for
  turns_against : Settles Ballot.pending Ballot.against

-- Every peer has answered, each cast vote as it was.
pub data Completes : List Ballot → List Ballot → Type 0 where
  nobody : Completes [] []
  each :
      {b c : Ballot} {bs cs : List Ballot}
      → Settles b c
      → Completes bs cs
      → Completes (b ∷ bs) (c ∷ cs)

Completes-counts :
    {bs cs : List Ballot}
    → Completes bs cs
    → (length cs ≡ length bs)
      × (for_count bs ≤ for_count cs)
      × (against_count bs ≤ against_count cs)
      × (for_count cs + against_count cs ≡ length bs)
Completes-counts nobody = omega arith
Completes-counts (each stays_for k) = omega (arith, Completes-counts k)
Completes-counts (each stays_against k) = omega (arith, Completes-counts k)
Completes-counts (each turns_for k) = omega (arith, Completes-counts k)
Completes-counts (each turns_against k) = omega (arith, Completes-counts k)

-- Every pending peer agrees, or every one refuses.
abbrev settle : Ballot → Ballot → Ballot
settle c Ballot.pending = c
settle c b = b

best : (bs : List Ballot) → Completes bs (map (settle Ballot.for) bs)
best [] = nobody
best (Ballot.for ∷ bs) = each stays_for (best bs)
best (Ballot.against ∷ bs) = each stays_against (best bs)
best (Ballot.pending ∷ bs) = each turns_for (best bs)

worst : (bs : List Ballot) → Completes bs (map (settle Ballot.against) bs)
worst [] = nobody
worst (Ballot.for ∷ bs) = each stays_for (worst bs)
worst (Ballot.against ∷ bs) = each stays_against (worst bs)
worst (Ballot.pending ∷ bs) = each turns_against (worst bs)

against_count-best :
    (bs : List Ballot) → against_count (map (settle Ballot.for) bs) ≡ against_count bs
against_count-best [] = refl
against_count-best (Ballot.for ∷ bs) = omega (arith, against_count-best bs)
against_count-best (Ballot.against ∷ bs) = omega (arith, against_count-best bs)
against_count-best (Ballot.pending ∷ bs) = omega (arith, against_count-best bs)

for_count-worst : (bs : List Ballot) → for_count (map (settle Ballot.against) bs) ≡ for_count bs
for_count-worst [] = refl
for_count-worst (Ballot.for ∷ bs) = omega (arith, for_count-worst bs)
for_count-worst (Ballot.against ∷ bs) = omega (arith, for_count-worst bs)
for_count-worst (Ballot.pending ∷ bs) = omega (arith, for_count-worst bs)

-- An outcome that is decided stays when passing and failing do.
by_outcome :
    (a b : Outcome)
    → (a ≡ Outcome.passes → b ≡ Outcome.passes)
    → (a ≡ Outcome.fails → b ≡ Outcome.fails)
    → a ≢ Outcome.pending
    → b ≡ a
by_outcome a b p f d = ground arith

-- Once `majority` has passed or failed, no answer of the peers who are still pending changes it.
pub majority_final :
    (bs cs : List Ballot)
    → Completes bs cs
    → majority bs ≢ Outcome.pending
    → majority cs ≡ majority bs
majority_final bs cs k decided =
    by_outcome (majority bs) (majority cs)
      (ground (arith, majority_counts bs, majority_counts cs, Completes-counts k))
      (ground (arith, majority_counts bs, majority_counts cs, Completes-counts k)) decided

-- While `majority` is pending, the peers who have not answered can still make it pass, and they can
-- still make it fail.
pub majority_undecided :
    (bs : List Ballot)
    → majority bs ≡ Outcome.pending
    → ((cs : List Ballot) × Completes bs cs × (majority cs ≡ Outcome.passes))
      × ((cs : List Ballot) × Completes bs cs × (majority cs ≡ Outcome.fails))
majority_undecided bs h = (
  (
    map (settle Ballot.for) bs,
    best bs,
    ground (
      arith,
      majority_counts bs,
      majority_counts (map (settle Ballot.for) bs),
      Completes-counts (best bs),
      against_count-best bs,
    ),
  ),
  (
    map (settle Ballot.against) bs,
    worst bs,
    ground (
      arith,
      majority_counts bs,
      majority_counts (map (settle Ballot.against) bs),
      Completes-counts (worst bs),
      for_count-worst bs,
    ),
  ),
)

-- Once `unanimity` has passed or failed, no answer of the peers who are still pending changes it.
pub unanimity_final :
    (bs cs : List Ballot)
    → Completes bs cs
    → unanimity bs ≢ Outcome.pending
    → unanimity cs ≡ unanimity bs
unanimity_final bs cs k decided =
    by_outcome (unanimity bs) (unanimity cs)
      (ground (arith, unanimity_counts bs, unanimity_counts cs, Completes-counts k))
      (ground (arith, unanimity_counts bs, unanimity_counts cs, Completes-counts k)) decided

-- While `unanimity` is pending, the peers who have not answered can still make it pass, and they can
-- still make it fail.
pub unanimity_undecided :
    (bs : List Ballot)
    → unanimity bs ≡ Outcome.pending
    → ((cs : List Ballot) × Completes bs cs × (unanimity cs ≡ Outcome.passes))
      × ((cs : List Ballot) × Completes bs cs × (unanimity cs ≡ Outcome.fails))
unanimity_undecided bs h = (
  (
    map (settle Ballot.for) bs,
    best bs,
    ground (
      arith,
      unanimity_counts bs,
      unanimity_counts (map (settle Ballot.for) bs),
      Completes-counts (best bs),
      against_count-best bs,
    ),
  ),
  (
    map (settle Ballot.against) bs,
    worst bs,
    ground (
      arith,
      unanimity_counts bs,
      unanimity_counts (map (settle Ballot.against) bs),
      Completes-counts (worst bs),
      for_count-worst bs,
    ),
  ),
)
