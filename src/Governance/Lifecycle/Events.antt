-- ===== src/Governance/Lifecycle/Events.antt =====
-- Counting the events that a transition adds.
use concierge.Prelude.{◌+◌, List, [], ◌∷◌, ◌++◌, length, length-append, ◌≡◌, arith}
use concierge.Governance.GovernanceEvent.{GovernanceEvent}

-- A transition adds one event, and one that is closed at once adds two.
pub length-emitted :
    (es : List GovernanceEvent) (e f : GovernanceEvent)
    → (length (es ++ e ∷ []) ≡ length es + 1) × (length ((es ++ e ∷ []) ++ f ∷ []) ≡ length es + 2)
length-emitted es e f =
    omega (arith, length-append es (e ∷ []), length-append (es ++ e ∷ []) (f ∷ []))
