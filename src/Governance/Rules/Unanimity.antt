-- ===== src/Governance/Rules/Unanimity.antt =====
-- The rule of both owner consilia, `unanimity`, against the counts of the answers.
use concierge.Prelude.{
  ◌<◌, List, [], ◌∷◌, Bool, true, false, ◌&&◌, ◌||◌, ◌≡◌, ◌↔◌, ◌⊎◌, arith, length, ltb, ◌==◌,
  if◌then◌else◌,
}
use concierge.Governance.Ballot.{Ballot, Outcome}
use concierge.Governance.Rules.{unanimity, unanimity_loop, unanimity_verdict}
use concierge.Governance.Rules.Counts.{for_count, against_count, pending_count, length-counts}

-- The verdict by counting, from any values of the loop's two variables.
abbrev closed : Bool → Bool → List Ballot → Outcome
closed any_seen all_for bs =
    if ltb 0 (against_count bs)
    then Outcome.fails
    else unanimity_verdict (any_seen || ltb 0 (length bs)) (all_for && pending_count bs == 0)

unanimity_loop-closed :
    (any_seen all_for : Bool) (bs : List Ballot)
    → unanimity_loop any_seen all_for bs ≡ closed any_seen all_for bs
unfolding unanimity_loop
unanimity_loop-closed any_seen all_for [] = ground arith
unanimity_loop-closed any_seen all_for (Ballot.for ∷ bs) =
    ground (arith, unanimity_loop-closed true all_for bs)
unanimity_loop-closed any_seen all_for (Ballot.pending ∷ bs) =
    ground (arith, unanimity_loop-closed true false bs)
unanimity_loop-closed any_seen all_for (Ballot.against ∷ bs) = ground arith

-- `unanimity` passes exactly when there is a peer and every peer is for, and fails exactly when
-- there is no peer or one peer is against.
pub unanimity_counts :
    (bs : List Ballot)
    → ((unanimity bs ≡ Outcome.passes) ↔ ((0 < length bs) × (for_count bs ≡ length bs)))
      × ((unanimity bs ≡ Outcome.fails) ↔ ((length bs ≡ 0) ⊎ (0 < against_count bs)))
unfolding unanimity unanimity_verdict
unanimity_counts bs = ground (arith, unanimity_loop-closed false true bs, length-counts bs)
