-- ===== src/Governance/Lifecycle/Moves.antt =====
-- How a call leaves a lifecycle, by the kind of the call; each is a transition.
use concierge.Prelude.{◌≡◌, ◌⊎◌, inl, inr}
use concierge.Prelude.Int.{ℤ}
use concierge.Text.{Text}
use concierge.Governance.ProposalState.{ProposalState}
use concierge.Governance.GovernanceEvent.{GovernanceEvent}
use concierge.Governance.Lifecycle.{Lifecycle, bump_and_emit, close, close_void}
use concierge.Governance.Lifecycle.Transitions.{
  IsAnswer, Closes, Transition, idle, answered, refused, closed, voided, by_execution,
}

-- The three ways in which a vote leaves a lifecycle.
abbrev pub AnswerMoves : GovernanceEvent → ℤ → Lifecycle → Lifecycle → Type 0
AnswerMoves e now l m =
    (m ≡ l)
    ⊎ (((l.state ≡ ProposalState.open_state) × (m ≡ bump_and_emit l e))
        ⊎ ((l.state ≡ ProposalState.open_state)
            × (m ≡ close (bump_and_emit l e) ProposalState.rejected GovernanceEvent.rejected now)))

pub AnswerMoves-Transition :
    (e : GovernanceEvent) (now : ℤ) (l m : Lifecycle)
    → IsAnswer e
    → AnswerMoves e now l m
    → Transition l m
AnswerMoves-Transition e now l m k (inl p) = idle p
AnswerMoves-Transition e now l m k (inr (inl (o, p))) = answered e o k p
AnswerMoves-Transition e now l m k (inr (inr (o, p))) = refused e now o k p

-- The ways in which the closing calls leave a lifecycle.
abbrev pub CloseMoves : ProposalState → GovernanceEvent → ℤ → Lifecycle → Lifecycle → Type 0
CloseMoves s e now l m = (m ≡ l) ⊎ ((l.state ≡ ProposalState.open_state) × (m ≡ close l s e now))

pub CloseMoves-Transition :
    (s : ProposalState) (e : GovernanceEvent) (now : ℤ) (l m : Lifecycle)
    → Closes s e
    → CloseMoves s e now l m
    → Transition l m
CloseMoves-Transition s e now l m k (inl p) = idle p
CloseMoves-Transition s e now l m k (inr (o, p)) = closed s e now o k p

abbrev pub VoidMoves : Text → ℤ → Lifecycle → Lifecycle → Type 0
VoidMoves reason now l m =
    (m ≡ l) ⊎ ((l.state ≡ ProposalState.open_state) × (m ≡ close_void l reason now))

pub VoidMoves-Transition :
    (reason : Text) (now : ℤ) (l m : Lifecycle) → VoidMoves reason now l m → Transition l m
VoidMoves-Transition reason now l m (inl p) = idle p
VoidMoves-Transition reason now l m (inr (o, p)) = voided reason now o p

-- An execution closes a proposal as executed, or voids it for one of two reasons.
abbrev pub ExecuteMoves : Text → Text → ℤ → Lifecycle → Lifecycle → Type 0
ExecuteMoves one other now l m =
    CloseMoves ProposalState.executed GovernanceEvent.executed now l m
    ⊎ (VoidMoves one now l m ⊎ VoidMoves other now l m)

pub ExecuteMoves-Transition :
    (one other : Text) (now : ℤ) (l m : Lifecycle) → ExecuteMoves one other now l m → Transition l m
ExecuteMoves-Transition one other now l m (inl p) =
    CloseMoves-Transition ProposalState.executed GovernanceEvent.executed now l m by_execution p
ExecuteMoves-Transition one other now l m (inr (inl p)) = VoidMoves-Transition one now l m p
ExecuteMoves-Transition one other now l m (inr (inr p)) = VoidMoves-Transition other now l m p
