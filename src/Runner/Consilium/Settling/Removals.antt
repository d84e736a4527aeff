-- ===== src/Runner/Consilium/Settling/Removals.antt =====
-- When a transaction of runner/src/infrastructure/governance.rs carries a removal: the aggregate's
-- votes as they were cast, and again among those who still hold a seat.
use concierge.Prelude.{false, ◌≡◌, ◌⊎◌, inl, inr, refl}
use concierge.Errors.{Result, ok, err, is_ok}
use concierge.Governance.ProposalState
use concierge.Governance.ProposalState.{ProposalState}
use concierge.Governance.Removal
use concierge.Governance.Removal.{OwnerRemoval}
use concierge.Runner.Genesis.{Store}
use concierge.Runner.Consilium.Settling.Removing.{done}

-- What settling answered, which is an error or the accounts and the removal afterwards.
answered :
    (res : Result (Store × OwnerRemoval))
    → ((after : Store) × (s : OwnerRemoval) × (res ≡ done after s)) ⊎ (is_ok res ≡ false)
answered (err e) = inr refl
answered (ok (after, s)) = inl (after, s, refl)
