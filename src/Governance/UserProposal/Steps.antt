-- ===== src/Governance/UserProposal/Steps.antt =====
-- The life of a user proposal as a sequence of calls, each with its instant. A call that fails leaves it as
-- it was.
use concierge.Prelude.{List, [], ◌∷◌, true, false, some, ◌≡◌, refl, arith, Option-cases, inl, inr}
use concierge.Prelude.Int.{ℤ}
use concierge.Errors.{Result, ok, err}
use concierge.Text.{Text}
use concierge.Governance.ProposalState
use concierge.Governance.ProposalState.{ProposalState}
use concierge.Governance.ProposalVote
use concierge.Governance.ProposalVote.{ProposalVote}
use concierge.Governance.Peer.{UserId, Peer, find_peer, user_ids}
use concierge.Governance.Peer.Laws.{user_ids-record_vote, find_peer-record_vote}
use concierge.Governance.UserProposal.{UserProposal, vote, cancel, expire, execute, void_proposal}

pub data Call : Type 0 where
  votes : UserId → ProposalVote → Call
  cancels : UserId → Call
  expires : Call
  executes : List UserId → Call
  voids : Text → Call

abbrev after : UserProposal → Result UserProposal → UserProposal
after p (ok s) = s
after p (err e) = p

abbrev after_execute : UserProposal → Result (UserProposal × ProposalState) → UserProposal
after_execute p (ok (s, state)) = s
after_execute p (err e) = p

unfoldable pub step : UserProposal → ℤ × Call → UserProposal
step p (now, votes voter v) = after p (vote p voter v now)
step p (now, cancels by) = after p (cancel p by now)
step p (now, expires) = after p (expire p now)
step p (now, executes owners) = after_execute p (execute p owners now)
step p (now, voids reason) = after p (void_proposal p reason now)

unfoldable pub run : UserProposal → List (ℤ × Call) → UserProposal
run p [] = p
run p (c ∷ cs) = run (step p c) cs

-- What was frozen at open.
pub record SameQuestion (p s : UserProposal) : Type 0 where
  pub same_kind : s.kind ≡ p.kind
  pub same_subject : s.subject ≡ p.subject
  pub same_initiator : s.initiator ≡ p.initiator
  pub same_reason : s.reason ≡ p.reason
  pub same_owner_count : s.owner_count ≡ p.owner_count
  pub same_threshold : s.threshold ≡ p.threshold
  pub same_voters : user_ids s.peers ≡ user_ids p.peers

step-SameQuestion : (p : UserProposal) (c : ℤ × Call) → SameQuestion p (step p c)
unfolding step vote cancel expire execute void_proposal
step-SameQuestion p (now, votes voter v) = ground (arith, user_ids-record_vote voter v now p.peers)
step-SameQuestion p (now, cancels by) = ground arith
step-SameQuestion p (now, expires) = ground arith
step-SameQuestion p (now, executes owners) = ground arith
step-SameQuestion p (now, voids reason) = ground arith

-- Whatever is called, what was frozen at open stays: the kind, the subject, the initiator, the reason, the owner count, the bar
-- and who is asked.
pub run-SameQuestion : (p : UserProposal) (cs : List (ℤ × Call)) → SameQuestion p (run p cs)
unfolding run
run-SameQuestion p [] = ground arith
run-SameQuestion p (c ∷ cs) = ground (arith, step-SameQuestion p c, run-SameQuestion (step p c) cs)

step_closed :
    (p : UserProposal) (c : ℤ × Call) → ProposalState.is_open p.life.state ≡ false → step p c ≡ p
unfolding step vote cancel expire execute void_proposal
step_closed p (now, votes voter v) h = ground arith
step_closed p (now, cancels by) h = ground arith
step_closed p (now, expires) h = ground arith
step_closed p (now, executes owners) h = ground arith
step_closed p (now, voids reason) h = ground arith

-- Once a user proposal is not open, no sequence of calls changes anything of it.
pub run_closed :
    (p : UserProposal) (cs : List (ℤ × Call))
    → ProposalState.is_open p.life.state ≡ false
    → run p cs ≡ p
unfolding run
run_closed p [] h = refl
run_closed p (c ∷ cs) h = rw (step_closed p c h) (run_closed p cs h)

step_cast :
    (p : UserProposal) (c : ℤ × Call) (voter : UserId) (peer : Peer ProposalVote)
    → find_peer voter p.peers ≡ some peer
    → ProposalVote.is_cast peer.vote ≡ true
    → find_peer voter (step p c).peers ≡ some peer
unfolding step vote cancel expire execute void_proposal
step_cast p (now, votes other v) voter peer f h = elim (Option-cases (find_peer other p.peers)) [
  | inl e ↦ ground arith
  | inr (q, e) ↦ ground (arith, find_peer-record_vote other voter v now p.peers q e, found q e)
]
  where
    found : (q : Peer ProposalVote) → find_peer other p.peers ≡ some q → other ≡ voter → q ≡ peer
    found q e i = ground arith
step_cast p (now, cancels by) voter peer f h = ground arith
step_cast p (now, expires) voter peer f h = ground arith
step_cast p (now, executes owners) voter peer f h = ground arith
step_cast p (now, voids reason) voter peer f h = ground arith

-- A cast vote is final: no sequence of calls changes a voter who has answered.
pub run_cast :
    (p : UserProposal) (cs : List (ℤ × Call)) (voter : UserId) (peer : Peer ProposalVote)
    → find_peer voter p.peers ≡ some peer
    → ProposalVote.is_cast peer.vote ≡ true
    → find_peer voter (run p cs).peers ≡ some peer
unfolding run
run_cast p [] voter peer f h = f
run_cast p (c ∷ cs) voter peer f h =
    run_cast (step p c) cs voter peer (step_cast p c voter peer f h) h
