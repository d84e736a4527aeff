-- ===== src/Governance/Lifecycle/Deadline.antt =====
-- When a proposal expires.
use concierge.Prelude.{String, true, ◌≡◌, ◌↔◌, ◌⊎◌, arith}
use concierge.Prelude.Int.{ℤ, ◌≤ℤ◌}
use concierge.Errors.{is_ok}
use concierge.Governance.ProposalState.{ProposalState}
use concierge.Governance.Lifecycle.{Lifecycle, expire}

-- A proposal can be timed out exactly when it has expired already, or is open and its deadline has
-- come.
pub expire_iff :
    (l : Lifecycle) (noun : String) (now : ℤ)
    → (is_ok (expire l noun now) ≡ true) ↔ (
        (l.state ≡ ProposalState.expired)
        ⊎ ((l.state ≡ ProposalState.open_state) × (l.expires_at ≤ℤ now)))
unfolding expire
expire_iff l noun now = ground arith
