-- ===== src/Governance/Removal/Snapshot.antt =====
-- What holds of a removal over every sequence of calls.
use concierge.Prelude.{
  List, [], ◌∷◌, true, false, some, contains, ◌≡◌, ◌≢◌, ◌⊎◌, inl, inr, arith, Option-cases,
}
use concierge.Prelude.Int.{ℤ}
use concierge.Governance.Ballot.{Outcome}
use concierge.Governance.ProposalState
use concierge.Governance.ProposalState.{ProposalState}
use concierge.Governance.Vote
use concierge.Governance.Vote.{Vote}
use concierge.Governance.Peer.{UserId, Peer, find_peer, user_ids}
use concierge.Governance.Peer.Laws.{user_ids-record_vote, find_peer-record_vote}
use concierge.Governance.Removal.{
  OwnerRemoval, outcome_now, peer_vote, target_decision, cancel, expire, execute, void_proposal,
  mark_target_notified,
}
use concierge.Governance.Removal.Steps.{
  Call, votes, answers, cancels, expires, executes, voids, notifies, step, run, SameQuestion,
  SameVerdict, step-SameQuestion, step_closed,
}

-- Whatever is called, the target, the initiator, the voters, the owner count, the reason and the
-- deadline stay as they were frozen at open.
pub run-SameQuestion : (r : OwnerRemoval) (cs : List (ℤ × Call)) → SameQuestion r (run r cs)
unfolding run
run-SameQuestion r [] = ground arith
run-SameQuestion r (c ∷ cs) = ground (arith, step-SameQuestion r c, run-SameQuestion (step r c) cs)

-- Once a removal is not open, no sequence of calls changes its lifecycle, its votes or the target's
-- answer.
pub run_closed :
    (r : OwnerRemoval) (cs : List (ℤ × Call))
    → ProposalState.is_open r.life.state ≡ false
    → SameVerdict r (run r cs)
unfolding run
run_closed r [] h = ground arith
run_closed r (c ∷ cs) h = ground (arith, step_closed r c h, run_closed (step r c) cs)

step_cast :
    (r : OwnerRemoval) (c : ℤ × Call) (voter : UserId) (p : Peer Vote)
    → find_peer voter r.peers ≡ some p
    → Vote.is_cast p.vote ≡ true
    → find_peer voter (step r c).peers ≡ some p
unfolding step peer_vote target_decision cancel expire execute void_proposal mark_target_notified
step_cast r (now, votes other vote) voter p f h = elim (Option-cases (find_peer other r.peers)) [
  | inl e ↦ ground arith
  | inr (q, e) ↦ ground (arith, find_peer-record_vote other voter vote now r.peers q e, found q e)
]
  where
    found : (q : Peer Vote) → find_peer other r.peers ≡ some q → other ≡ voter → q ≡ p
    found q e i = ground arith
step_cast r (now, answers vote) voter p f h = ground arith
step_cast r (now, cancels by) voter p f h = ground arith
step_cast r (now, expires) voter p f h = ground arith
step_cast r (now, executes owners) voter p f h = ground arith
step_cast r (now, voids reason) voter p f h = ground arith
step_cast r (now, notifies) voter p f h = ground arith

-- A cast vote is final: no sequence of calls changes a peer who has answered.
pub run_cast :
    (r : OwnerRemoval) (cs : List (ℤ × Call)) (voter : UserId) (p : Peer Vote)
    → find_peer voter r.peers ≡ some p
    → Vote.is_cast p.vote ≡ true
    → find_peer voter (run r cs).peers ≡ some p
unfolding run
run_cast r [] voter p f h = f
run_cast r (c ∷ cs) voter p f h = run_cast (step r c) cs voter p (step_cast r c voter p f h) h

-- What holds of a removal between two calls.
pub record IsSound (r : OwnerRemoval) : Type 0 where
  -- Neither the target nor the initiator has a peer's vote.
  pub no_target : contains (user_ids r.peers) r.target ≡ false
  pub no_initiator : contains (user_ids r.peers) r.initiator ≡ false
  -- An open removal is not decided against, and a rejected one is.
  pub open_undecided : (r.life.state ≢ ProposalState.open_state) ⊎ (outcome_now r ≢ Outcome.fails)
  pub rejected_failed : (r.life.state ≢ ProposalState.rejected) ⊎ (outcome_now r ≡ Outcome.fails)

step-IsSound : (r : OwnerRemoval) (c : ℤ × Call) → IsSound r → IsSound (step r c)
unfolding step peer_vote target_decision cancel expire execute void_proposal mark_target_notified
step-IsSound r (now, votes voter vote) s =
    ground (arith, user_ids-record_vote voter vote now r.peers)
step-IsSound r (now, answers vote) s = ground arith
step-IsSound r (now, cancels by) s = ground arith
step-IsSound r (now, expires) s = ground arith
step-IsSound r (now, executes owners) s = ground arith
step-IsSound r (now, voids reason) s = ground arith
step-IsSound r (now, notifies) s = ground arith

pub run-IsSound : (r : OwnerRemoval) (cs : List (ℤ × Call)) → IsSound r → IsSound (run r cs)
unfolding run
run-IsSound r [] s = s
run-IsSound r (c ∷ cs) s = run-IsSound (step r c) cs (step-IsSound r c s)
