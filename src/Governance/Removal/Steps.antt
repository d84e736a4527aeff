-- ===== src/Governance/Removal/Steps.antt =====
-- A removal's life as a sequence of calls, each with its instant. A call that fails leaves the
-- removal as it was.
use concierge.Prelude.{List, [], ◌∷◌, false, ◌≡◌, arith}
use concierge.Prelude.Int.{ℤ}
use concierge.Errors.{Result, ok, err}
use concierge.Text.{Text}
use concierge.Governance.ProposalState
use concierge.Governance.ProposalState.{ProposalState}
use concierge.Governance.Vote.{Vote}
use concierge.Governance.Peer.{UserId, user_ids}
use concierge.Governance.Peer.Laws.{user_ids-record_vote}
use concierge.Governance.Removal.{
  OwnerRemoval, peer_vote, target_decision, cancel, expire, execute, void_proposal,
  mark_target_notified,
}

pub data Call : Type 0 where
  votes : UserId → Vote → Call
  answers : Vote → Call
  cancels : UserId → Call
  expires : Call
  executes : List UserId → Call
  voids : Text → Call
  notifies : Call

abbrev after : OwnerRemoval → Result OwnerRemoval → OwnerRemoval
after r (ok s) = s
after r (err e) = r

abbrev after_execute : OwnerRemoval → Result (OwnerRemoval × ProposalState) → OwnerRemoval
after_execute r (ok (s, state)) = s
after_execute r (err e) = r

unfoldable pub step : OwnerRemoval → ℤ × Call → OwnerRemoval
step r (now, votes voter vote) = after r (peer_vote r voter vote now)
step r (now, answers vote) = after r (target_decision r vote now)
step r (now, cancels by) = after r (cancel r by now)
step r (now, expires) = after r (expire r now)
step r (now, executes owners) = after_execute r (execute r owners now)
step r (now, voids reason) = after r (void_proposal r reason now)
step r (now, notifies) = mark_target_notified r

unfoldable pub run : OwnerRemoval → List (ℤ × Call) → OwnerRemoval
run r [] = r
run r (c ∷ cs) = run (step r c) cs

-- What no call touches: who is asked and about whom, and how long.
pub record SameQuestion (r s : OwnerRemoval) : Type 0 where
  pub same_target : s.target ≡ r.target
  pub same_initiator : s.initiator ≡ r.initiator
  pub same_voters : user_ids s.peers ≡ user_ids r.peers
  pub same_count : s.owner_count ≡ r.owner_count
  pub same_reason : s.reason ≡ r.reason
  pub same_deadline : s.life.expires_at ≡ r.life.expires_at

pub step-SameQuestion : (r : OwnerRemoval) (c : ℤ × Call) → SameQuestion r (step r c)
unfolding step peer_vote target_decision cancel expire execute void_proposal mark_target_notified
step-SameQuestion r (now, votes voter vote) =
    ground (arith, user_ids-record_vote voter vote now r.peers)
step-SameQuestion r (now, answers vote) = ground arith
step-SameQuestion r (now, cancels by) = ground arith
step-SameQuestion r (now, expires) = ground arith
step-SameQuestion r (now, executes owners) = ground arith
step-SameQuestion r (now, voids reason) = ground arith
step-SameQuestion r (now, notifies) = ground arith

-- A proposal that is closed: its lifecycle, its votes and the target's answer are final.
pub record SameVerdict (r s : OwnerRemoval) : Type 0 where
  pub same_life : s.life ≡ r.life
  pub same_peers : s.peers ≡ r.peers
  pub same_decision : s.decision ≡ r.decision

pub step_closed :
    (r : OwnerRemoval) (c : ℤ × Call)
    → ProposalState.is_open r.life.state ≡ false
    → SameVerdict r (step r c)
unfolding step peer_vote target_decision cancel expire execute void_proposal mark_target_notified
step_closed r (now, votes voter vote) h = ground arith
step_closed r (now, answers vote) h = ground arith
step_closed r (now, cancels by) h = ground arith
step_closed r (now, expires) h = ground arith
step_closed r (now, executes owners) h = ground arith
step_closed r (now, voids reason) h = ground arith
step_closed r (now, notifies) h = ground arith
