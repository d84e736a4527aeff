-- ===== src/Runner/Consilium/Refinement.antt =====
-- The registry against the aggregates: over any sequence of calls, what is stored of a removal is what
-- the aggregate of domain/src/governance.rs makes of it.
use concierge.Prelude.{ℕ, String, List, [], ◌∷◌, some, false, ◌≡◌, sym, subst}
use concierge.Text.{Text}
use concierge.Runner.Consilium.{Registry}
use concierge.Runner.Consilium.Calls.{
  Call, opens_removal, votes_removal, cancels_removal, answers, resigns, opens_admission,
  votes_admission, cancels_admission, opens_proposal, votes_proposal, cancels_proposal, step, run,
}
use concierge.Governance.ProposalState
use concierge.Governance.Removal.{OwnerRemoval}
use concierge.Runner.Consilium.Removals.{find_removal}
use concierge.Runner.Consilium.Untouched.Admitting.{
  open_admission_untouched, admission_vote_untouched, cancel_admission_untouched,
}
use concierge.Runner.Consilium.Untouched.Proposing.{
  open_user_proposal_untouched, user_proposal_vote_untouched, cancel_user_proposal_untouched,
}
use concierge.Runner.Consilium.Evolution.{Evolves, SameEnd, Evolves-SameEnd}
use concierge.Runner.Consilium.Rows.{Keyed}
use concierge.Runner.Consilium.Refining.{Refines, Refines-refl, Refines-trans}
use concierge.Runner.Consilium.Following.{
  Follows, peer_vote-Follows, cancel_removal-Follows, self_decision-Follows,
}
use concierge.Runner.Consilium.Opening.{open_removal-Follows, resign-Follows}

untouched-Follows :
    (reg : Registry) (rows : List OwnerRemoval) → rows ≡ reg.removals → Refines reg.removals rows
untouched-Follows reg rows e = subst (Refines reg.removals) (sym e) (Refines-refl reg.removals)

module _ (digest : String → Text) where
  step-Follows : (reg : Registry) (call : Call) → Follows reg (step digest reg call)
  unfolding step
  step-Follows reg (opens_removal minted target initiator reason now) =
      open_removal-Follows digest reg minted target initiator reason now
  step-Follows reg (votes_removal id voter vote now audit) =
      peer_vote-Follows reg id voter vote now audit
  step-Follows reg (cancels_removal id by now) = cancel_removal-Follows reg id by now
  step-Follows reg (answers token code vote now audit) =
      self_decision-Follows digest reg token code vote now audit
  step-Follows reg (resigns who now) = resign-Follows reg who now
  step-Follows reg (opens_admission id candidate initiator reason now) =
      untouched-Follows reg _ ((open_admission_untouched reg id candidate initiator reason now).1)
  step-Follows reg (votes_admission id voter vote now audit) =
      untouched-Follows reg _ ((admission_vote_untouched reg id voter vote now audit).1)
  step-Follows reg (cancels_admission id by now) =
      untouched-Follows reg _ ((cancel_admission_untouched reg id by now).1)
  step-Follows reg (opens_proposal id kind subject initiator reason now) =
      untouched-Follows reg _
        ((open_user_proposal_untouched reg id kind subject initiator reason now).1)
  step-Follows reg (votes_proposal id voter vote now audit) =
      untouched-Follows reg _ ((user_proposal_vote_untouched reg id voter vote now audit).1)
  step-Follows reg (cancels_proposal id by now) =
      untouched-Follows reg _ ((cancel_user_proposal_untouched reg id by now).1)

  run-Follows : (reg : Registry) (calls : List Call) → Follows reg (run digest reg calls)
  unfolding run
  run-Follows reg [] = Refines-refl reg.removals
  run-Follows reg (call ∷ calls) =
      Refines-trans reg.removals (step digest reg call).removals
        (run digest (step digest reg call) calls).removals (step-Follows reg call)
        (run-Follows (step digest reg call) calls)

  -- Over any sequence of calls on the consilia, a table of removals without double ids stays one, and
  -- each removal of it is still stored, as its aggregate can move to by its own operations (a vote, an
  -- answer of the target, a cancellation, an expiry, an execution, a voiding, the mark that the target
  -- was notified), with its events drained in between. So the transactions implement the aggregate.
  pub run-Evolves :
      (reg : Registry) (calls : List Call) (id : ℕ) (r : OwnerRemoval)
      → Keyed reg.removals
      → find_removal id reg.removals ≡ some r
      → Keyed (run digest reg calls).removals
        × ((s : OwnerRemoval) × (find_removal id (run digest reg calls).removals ≡ some s)
            × Evolves r s)
  run-Evolves reg calls id r k f = let (k', rows) = run-Follows reg calls k in (k', rows id r f)

  -- Once a removal is stored as closed, no sequence of calls on the consilia loses it, opens it again,
  -- closes it differently, or changes a vote or the answer of its target, where no two removals of the
  -- table have one id.
  pub run-SameEnd :
      (reg : Registry) (calls : List Call) (id : ℕ) (r : OwnerRemoval)
      → Keyed reg.removals
      → find_removal id reg.removals ≡ some r
      → ProposalState.is_open r.life.state ≡ false
      → (s : OwnerRemoval) × (find_removal id (run digest reg calls).removals ≡ some s)
        × SameEnd r s
  run-SameEnd reg calls id r k f closed =
      let (s, g, v) = (run-Evolves reg calls id r k f).1 in (s, g, Evolves-SameEnd v closed)
