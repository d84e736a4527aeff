-- ===== src/Governance/Admission/Steps.antt =====
-- The life of an admission as a sequence of calls, each with its instant. A call that fails leaves it as
-- it was.
use concierge.Prelude.{List, [], ◌∷◌, true, false, some, ◌≡◌, refl, arith, Option-cases, inl, inr}
use concierge.Prelude.Int.{ℤ}
use concierge.Errors.{Result, ok, err}
use concierge.Text.{Text}
use concierge.Governance.ProposalState
use concierge.Governance.ProposalState.{ProposalState}
use concierge.Governance.AdmissionVote
use concierge.Governance.AdmissionVote.{AdmissionVote}
use concierge.Governance.Peer.{UserId, Peer, find_peer, user_ids}
use concierge.Governance.Peer.Laws.{user_ids-record_vote, find_peer-record_vote}
use concierge.Governance.Admission.{OwnerAdmission, vote, cancel, expire, execute, void_proposal}

pub data Call : Type 0 where
  votes : UserId → AdmissionVote → Call
  cancels : UserId → Call
  expires : Call
  executes : List UserId → Call
  voids : Text → Call

abbrev after : OwnerAdmission → Result OwnerAdmission → OwnerAdmission
after a (ok s) = s
after a (err e) = a

abbrev after_execute : OwnerAdmission → Result (OwnerAdmission × ProposalState) → OwnerAdmission
after_execute a (ok (s, state)) = s
after_execute a (err e) = a

unfoldable pub step : OwnerAdmission → ℤ × Call → OwnerAdmission
step a (now, votes voter v) = after a (vote a voter v now)
step a (now, cancels by) = after a (cancel a by now)
step a (now, expires) = after a (expire a now)
step a (now, executes owners) = after_execute a (execute a owners now)
step a (now, voids reason) = after a (void_proposal a reason now)

unfoldable pub run : OwnerAdmission → List (ℤ × Call) → OwnerAdmission
run a [] = a
run a (c ∷ cs) = run (step a c) cs

-- What was frozen at open.
pub record SameQuestion (a s : OwnerAdmission) : Type 0 where
  pub same_candidate : s.candidate ≡ a.candidate
  pub same_initiator : s.initiator ≡ a.initiator
  pub same_reason : s.reason ≡ a.reason
  pub same_owner_count : s.owner_count ≡ a.owner_count
  pub same_voters : user_ids s.peers ≡ user_ids a.peers

step-SameQuestion : (a : OwnerAdmission) (c : ℤ × Call) → SameQuestion a (step a c)
unfolding step vote cancel expire execute void_proposal
step-SameQuestion a (now, votes voter v) = ground (arith, user_ids-record_vote voter v now a.peers)
step-SameQuestion a (now, cancels by) = ground arith
step-SameQuestion a (now, expires) = ground arith
step-SameQuestion a (now, executes owners) = ground arith
step-SameQuestion a (now, voids reason) = ground arith

-- Whatever is called, what was frozen at open stays: the candidate, the initiator, the reason, the owner count
-- and who is asked.
pub run-SameQuestion : (a : OwnerAdmission) (cs : List (ℤ × Call)) → SameQuestion a (run a cs)
unfolding run
run-SameQuestion a [] = ground arith
run-SameQuestion a (c ∷ cs) = ground (arith, step-SameQuestion a c, run-SameQuestion (step a c) cs)

step_closed :
    (a : OwnerAdmission) (c : ℤ × Call) → ProposalState.is_open a.life.state ≡ false → step a c ≡ a
unfolding step vote cancel expire execute void_proposal
step_closed a (now, votes voter v) h = ground arith
step_closed a (now, cancels by) h = ground arith
step_closed a (now, expires) h = ground arith
step_closed a (now, executes owners) h = ground arith
step_closed a (now, voids reason) h = ground arith

-- Once an admission is not open, no sequence of calls changes anything of it.
pub run_closed :
    (a : OwnerAdmission) (cs : List (ℤ × Call))
    → ProposalState.is_open a.life.state ≡ false
    → run a cs ≡ a
unfolding run
run_closed a [] h = refl
run_closed a (c ∷ cs) h = rw (step_closed a c h) (run_closed a cs h)

step_cast :
    (a : OwnerAdmission) (c : ℤ × Call) (voter : UserId) (peer : Peer AdmissionVote)
    → find_peer voter a.peers ≡ some peer
    → AdmissionVote.is_cast peer.vote ≡ true
    → find_peer voter (step a c).peers ≡ some peer
unfolding step vote cancel expire execute void_proposal
step_cast a (now, votes other v) voter peer f h = elim (Option-cases (find_peer other a.peers)) [
  | inl e ↦ ground arith
  | inr (q, e) ↦ ground (arith, find_peer-record_vote other voter v now a.peers q e, found q e)
]
  where
    found : (q : Peer AdmissionVote) → find_peer other a.peers ≡ some q → other ≡ voter → q ≡ peer
    found q e i = ground arith
step_cast a (now, cancels by) voter peer f h = ground arith
step_cast a (now, expires) voter peer f h = ground arith
step_cast a (now, executes owners) voter peer f h = ground arith
step_cast a (now, voids reason) voter peer f h = ground arith

-- A cast vote is final: no sequence of calls changes a voter who has answered.
pub run_cast :
    (a : OwnerAdmission) (cs : List (ℤ × Call)) (voter : UserId) (peer : Peer AdmissionVote)
    → find_peer voter a.peers ≡ some peer
    → AdmissionVote.is_cast peer.vote ≡ true
    → find_peer voter (run a cs).peers ≡ some peer
unfolding run
run_cast a [] voter peer f h = f
run_cast a (c ∷ cs) voter peer f h =
    run_cast (step a c) cs voter peer (step_cast a c voter peer f h) h
