-- ===== src/Governance/Rules/Majority.antt =====
-- The rule of the user consilia, `majority`, against the counts of the answers.
use concierge.Prelude.{◌+◌, ◌*◌, ◌≤◌, ◌<◌, List, [], ◌∷◌, ◌≡◌, ◌↔◌, arith, length}
use concierge.Governance.Ballot.{Ballot, Outcome}
use concierge.Governance.Rules.{majority, majority_verdict, unanimity, Tally, tally_loop}
use concierge.Governance.Rules.Counts.{for_count, against_count, length-counts}
use concierge.Governance.Rules.Unanimity.{unanimity_counts}

tally_loop-counts :
    (t : Tally) (bs : List Ballot)
    → ((tally_loop t bs).total ≡ t.total + length bs)
      × ((tally_loop t bs).for_ ≡ t.for_ + for_count bs)
      × ((tally_loop t bs).against ≡ t.against + against_count bs)
unfolding tally_loop
tally_loop-counts t [] = omega arith
tally_loop-counts t (Ballot.for ∷ bs) =
    omega (arith, tally_loop-counts (record t { total = t.total + 1; for_ = t.for_ + 1 }) bs)
tally_loop-counts t (Ballot.against ∷ bs) =
    omega (arith, tally_loop-counts (record t { total = t.total + 1; against = t.against + 1 }) bs)
tally_loop-counts t (Ballot.pending ∷ bs) =
    omega (arith, tally_loop-counts (record t { total = t.total + 1 }) bs)

verdict_counts :
    (t : Tally)
    → t.for_ + t.against ≤ t.total
    → ((majority_verdict t ≡ Outcome.passes) ↔ (t.total < 2 * t.for_))
      × ((majority_verdict t ≡ Outcome.fails) ↔ (t.total ≤ 2 * t.against))
unfolding majority_verdict
verdict_counts t h = ground arith

-- `majority` passes exactly when more than half of all peers are for, and fails exactly when at
-- least half of them are against, which takes in the empty set.
pub majority_counts :
    (bs : List Ballot)
    → ((majority bs ≡ Outcome.passes) ↔ (length bs < 2 * for_count bs))
      × ((majority bs ≡ Outcome.fails) ↔ (length bs ≤ 2 * against_count bs))
unfolding majority
majority_counts bs =
    let t : Tally = tally_loop (record { total = 0; for_ = 0; against = 0 }) bs in
    ground (
      arith,
      length-counts bs,
      tally_loop-counts (record { total = 0; for_ = 0; against = 0 }) bs,
      verdict_counts t,
    )

-- Over at most two peers the majority is the unanimity.
pub majority-eq-unanimity : (bs : List Ballot) → length bs ≤ 2 → majority bs ≡ unanimity bs
majority-eq-unanimity bs h =
    by_counts (majority bs) (unanimity bs)
      (ground (arith, majority_counts bs, unanimity_counts bs, length-counts bs))
      (ground (arith, majority_counts bs, unanimity_counts bs, length-counts bs))
  where
    by_counts :
        (a b : Outcome)
        → ((a ≡ Outcome.passes) ↔ (b ≡ Outcome.passes))
        → ((a ≡ Outcome.fails) ↔ (b ≡ Outcome.fails))
        → a ≡ b
    by_counts a b p q = ground arith
