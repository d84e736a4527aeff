-- ===== src/Governance/Rules/Counts.antt =====
-- The counts of the answers, by which the passing rules are described.
use concierge.Prelude.{ℕ, ◌+◌, List, [], ◌∷◌, Bool, true, false, ◌≡◌, arith, length, count_p}
use concierge.Governance.Ballot.{Ballot}

abbrev pub is_for : Ballot → Bool
is_for Ballot.for = true
is_for _ = false

abbrev pub is_against : Ballot → Bool
is_against Ballot.against = true
is_against _ = false

abbrev pub is_pending : Ballot → Bool
is_pending Ballot.pending = true
is_pending _ = false

abbrev pub for_count : List Ballot → ℕ
for_count bs = count_p is_for bs

abbrev pub against_count : List Ballot → ℕ
against_count bs = count_p is_against bs

abbrev pub pending_count : List Ballot → ℕ
pending_count bs = count_p is_pending bs

-- Every ballot is of one of the three kinds.
pub length-counts :
    (bs : List Ballot) → length bs ≡ for_count bs + against_count bs + pending_count bs
length-counts [] = omega arith
length-counts (Ballot.for ∷ bs) = omega (arith, length-counts bs)
length-counts (Ballot.against ∷ bs) = omega (arith, length-counts bs)
length-counts (Ballot.pending ∷ bs) = omega (arith, length-counts bs)
