-- ===== src/Governance/Lifecycle/Transitions.antt =====
-- The lifecycle of a proposal as a relation, which the three consilia refine.
use concierge.Prelude.{◌+◌, ◌%◌, List, [], ◌∷◌, ◌++◌, false, ◌≡◌, refl, ap, ◌∙◌, arith, length}
use concierge.Prelude.Int.{ℤ}
use concierge.Text.{Text}
use concierge.Governance.ProposalState
use concierge.Governance.ProposalState.{ProposalState}
use concierge.Governance.GovernanceEvent.{GovernanceEvent}
use concierge.Governance.Lifecycle.{Lifecycle, opened, bump_and_emit, close, close_void}
use concierge.Governance.Lifecycle.Events.{length-emitted}

-- The events of an answer.
pub data IsAnswer : GovernanceEvent → Type 0 where
  of_peer : IsAnswer GovernanceEvent.peer_voted
  of_target : IsAnswer GovernanceEvent.target_decided

-- The states that close a proposal, each with its event.
pub data Closes : ProposalState → GovernanceEvent → Type 0 where
  by_execution : Closes ProposalState.executed GovernanceEvent.executed
  by_expiry : Closes ProposalState.expired GovernanceEvent.expired
  by_cancelling : Closes ProposalState.cancelled GovernanceEvent.cancelled

-- What one call may do to a lifecycle: nothing, and to an open one also take an answer, take one
-- that rejects the proposal, close it or void it.
pub data Transition (l m : Lifecycle) : Type 0 where
  idle : m ≡ l → Transition l m
  answered :
      (e : GovernanceEvent)
      → l.state ≡ ProposalState.open_state
      → IsAnswer e
      → m ≡ bump_and_emit l e
      → Transition l m
  refused :
      (e : GovernanceEvent) (now : ℤ)
      → l.state ≡ ProposalState.open_state
      → IsAnswer e
      → m ≡ close (bump_and_emit l e) ProposalState.rejected GovernanceEvent.rejected now
      → Transition l m
  closed :
      (s : ProposalState) (e : GovernanceEvent) (now : ℤ)
      → l.state ≡ ProposalState.open_state
      → Closes s e
      → m ≡ close l s e now
      → Transition l m
  voided :
      (reason : Text) (now : ℤ)
      → l.state ≡ ProposalState.open_state
      → m ≡ close_void l reason now
      → Transition l m

pub data Reach (l : Lifecycle) : Lifecycle → Type 0 where
  here : Reach l l
  next : {m n : Lifecycle} → Reach l m → Transition m n → Reach l n

pub prepend : {l m n : Lifecycle} → Transition l m → Reach m n → Reach l n
prepend t here = next here t
prepend t (next r u) = next (prepend t r) u

Transition-closed :
    {l m : Lifecycle} → Transition l m → ProposalState.is_open l.state ≡ false → m ≡ l
unfolding ProposalState.is_open
Transition-closed (idle e) h = e
Transition-closed (answered e o a p) h = absurd (ground arith)
Transition-closed (refused e now o a p) h = absurd (ground arith)
Transition-closed (closed s e now o c p) h = absurd (ground arith)
Transition-closed (voided reason now o p) h = absurd (ground arith)

-- A closed lifecycle is final.
pub Reach-closed : {l m : Lifecycle} → Reach l m → ProposalState.is_open l.state ≡ false → m ≡ l
Reach-closed here h = refl
Reach-closed (next r t) h = let e = Reach-closed r h in Transition-closed t (rw e h) ∙ e

-- The state that an audit trail tells, from the state before it.
abbrev pub apply_event : ProposalState → GovernanceEvent → ProposalState
apply_event s GovernanceEvent.opened = ProposalState.open_state
apply_event s GovernanceEvent.peer_voted = s
apply_event s GovernanceEvent.target_decided = s
apply_event s GovernanceEvent.cancelled = ProposalState.cancelled
apply_event s GovernanceEvent.expired = ProposalState.expired
apply_event s GovernanceEvent.executed = ProposalState.executed
apply_event s GovernanceEvent.rejected = ProposalState.rejected
apply_event s GovernanceEvent.voided = ProposalState.void_state

unfoldable pub replay : ProposalState → List GovernanceEvent → ProposalState
replay s [] = s
replay s (e ∷ es) = replay (apply_event s e) es

replay-append :
    (s : ProposalState) (es fs : List GovernanceEvent)
    → replay s (es ++ fs) ≡ replay (replay s es) fs
unfolding replay
replay-append s [] fs = refl
replay-append s (e ∷ es) fs = replay-append (apply_event s e) es fs

-- A lifecycle that its own events tell: they replay to its state, and the version counts them.
pub record IsAudited (l : Lifecycle) : Type 0 where
  pub told : replay ProposalState.open_state l.pending ≡ l.state
  pub counted : l.version ≡ length l.pending % 18446744073709551616

pub opened-IsAudited :
    (now ttl : ℤ) → IsAudited (bump_and_emit (opened now ttl) GovernanceEvent.opened)
unfolding opened bump_and_emit replay
opened-IsAudited now ttl = ground arith

replay-emitted :
    (s : ProposalState) (es : List GovernanceEvent) (e f : GovernanceEvent)
    → (replay s (es ++ e ∷ []) ≡ apply_event (replay s es) e)
      × (replay s ((es ++ e ∷ []) ++ f ∷ []) ≡ apply_event (apply_event (replay s es) e) f)
unfolding replay
replay-emitted s es e f =
    let one = replay-append s es (e ∷ []) in
    (one, replay-append s (es ++ e ∷ []) (f ∷ []) ∙ ap (λ x. apply_event x f) one)

answer_keeps_state : (s : ProposalState) (e : GovernanceEvent) → IsAnswer e → apply_event s e ≡ s
answer_keeps_state s e of_peer = refl
answer_keeps_state s e of_target = refl

Closes-apply_event : (t s : ProposalState) (e : GovernanceEvent) → Closes s e → apply_event t e ≡ s
Closes-apply_event t s e by_execution = refl
Closes-apply_event t s e by_expiry = refl
Closes-apply_event t s e by_cancelling = refl

-- The facts about the events that a transition adds.
abbrev Emits : Lifecycle → GovernanceEvent → GovernanceEvent → Type 0
Emits l e f =
    (replay ProposalState.open_state (l.pending ++ e ∷ []) ≡ apply_event l.state e)
    × (replay ProposalState.open_state ((l.pending ++ e ∷ []) ++ f ∷ [])
        ≡ apply_event (apply_event l.state e) f)
    × (length (l.pending ++ e ∷ []) ≡ length l.pending + 1)
    × (length ((l.pending ++ e ∷ []) ++ f ∷ []) ≡ length l.pending + 2)

emits : (l : Lifecycle) (e f : GovernanceEvent) → IsAudited l → Emits l e f
emits l e f a =
    ground
      (arith, replay-emitted ProposalState.open_state l.pending e f, length-emitted l.pending e f)

Transition-IsAudited : {l m : Lifecycle} → Transition l m → IsAudited l → IsAudited m
unfolding bump_and_emit close close_void
Transition-IsAudited (idle e) a = rw e a
Transition-IsAudited {l} (answered e o k p) a =
    ground (arith, emits l e e a, answer_keeps_state l.state e k)
Transition-IsAudited {l} (refused e now o k p) a =
    ground (arith, emits l e GovernanceEvent.rejected a)
Transition-IsAudited {l} (closed s e now o c p) a =
    ground (arith, emits l e e a, Closes-apply_event l.state s e c)
Transition-IsAudited {l} (voided reason now o p) a =
    ground (arith, emits l GovernanceEvent.voided GovernanceEvent.voided a)

-- The events of a proposal replay to its state, and its version is their number modulo 2^64.
pub Reach-IsAudited : {l m : Lifecycle} → Reach l m → IsAudited l → IsAudited m
Reach-IsAudited here a = a
Reach-IsAudited (next r t) a = Transition-IsAudited t (Reach-IsAudited r a)

Transition-deadline :
    {l m : Lifecycle}
    → Transition l m
    → (m.expires_at ≡ l.expires_at) × (m.created_at ≡ l.created_at)
unfolding bump_and_emit close close_void
Transition-deadline (idle e) = ground arith
Transition-deadline (answered e o k p) = ground arith
Transition-deadline (refused e now o k p) = ground arith
Transition-deadline (closed s e now o c p) = ground arith
Transition-deadline (voided reason now o p) = ground arith

-- The instants of opening and expiry never move.
pub Reach-deadline :
    {l m : Lifecycle} → Reach l m → (m.expires_at ≡ l.expires_at) × (m.created_at ≡ l.created_at)
Reach-deadline here = ground arith
Reach-deadline (next r t) = ground (arith, Reach-deadline r, Transition-deadline t)
