-- ===== src/Governance/Admission/Opening.antt =====
-- When an admission opens and when its verdict is carried.
use concierge.Prelude.{
  ℕ, ◌≤◌, ◌<◌, List, [], ◌∷◌, true, false, not, ◌&&◌, map, filter, contains, length, count_p,
  Distinct, is_empty, ◌==◌, ◌≡◌, ◌≢◌, ◌↔◌, ◌⊎◌, refl, arith,
}
use concierge.Prelude.Int.{ℤ}
use concierge.Errors.{ok, is_ok}
use concierge.Text.{Text, trim}
use concierge.Governance.Ballot.{Outcome}
use concierge.Governance.ProposalState.{ProposalState}
use concierge.Governance.AdmissionVote
use concierge.Governance.AdmissionVote.{AdmissionVote}
use concierge.Governance.Peer.{UserId, AdmissionPeer, pending_admission_peer, seated, user_ids}
use concierge.Governance.Peer.Laws.{
  user_ids-map, contains-filter, user_ids-record_vote, length-filter_one,
}
use concierge.Governance.Lifecycle.{validate_reason}
use concierge.Governance.Lifecycle.Transitions.{IsAudited, opened-IsAudited, Reach-IsAudited}
use concierge.Governance.Rules.{unanimity}
use concierge.Governance.Rules.Counts.{for_count, against_count}
use concierge.Governance.Rules.Unanimity.{unanimity_counts}
use concierge.Governance.Admission.{
  OwnerAdmission, open_admission, snapshot, outcome_now, admission_ballots, vote, cancel, expire,
  execute, void_proposal,
}
use concierge.Governance.Admission.Steps.{Call, votes, cancels, expires, executes, voids, step, run}
use concierge.Governance.Admission.Audit.{run-Reach}

-- How many voters gave an answer.
abbrev pub answers : AdmissionVote → List AdmissionPeer → ℕ
answers v peers = count_p (λ p. AdmissionVote.same p.vote v) peers

pub admission_ballots-counts :
    (peers : List AdmissionPeer)
    → (for_count (admission_ballots peers) ≡ answers AdmissionVote.admit peers)
      × (against_count (admission_ballots peers) ≡ answers AdmissionVote.reject peers)
      × (length (admission_ballots peers) ≡ length peers)
unfolding AdmissionVote.same AdmissionVote.ballot
admission_ballots-counts [] = omega arith
admission_ballots-counts (p ∷ peers) = ground (arith, admission_ballots-counts peers)

pending-counts :
    (xs : List UserId)
    → (length (map pending_admission_peer xs) ≡ length xs)
      × (answers AdmissionVote.reject (map pending_admission_peer xs) ≡ 0)
unfolding AdmissionVote.same
pending-counts [] = omega arith
pending-counts (x ∷ xs) = ground (arith, pending-counts xs)

-- The voters of a new admission are exactly the owners other than the initiator.
pub snapshot_voters :
    (i v : UserId) (owners : List UserId)
    → contains (user_ids (snapshot i owners)) v ≡ (contains owners v && not (v == i))
unfolding snapshot
snapshot_voters i v owners =
    rw (user_ids-map pending_admission_peer (filter (λ o. not (o == i)) owners) (λ x. refl))
      (contains-filter _ v owners)

is_empty-snapshot :
    (i : UserId) (owners : List UserId)
    → is_empty (snapshot i owners) ≡ is_empty (filter (λ o. not (o == i)) owners)
unfolding snapshot
is_empty-snapshot i owners = is_empty-map (filter (λ o. not (o == i)) owners)
  where
    is_empty-map : (xs : List UserId) → is_empty (map pending_admission_peer xs) ≡ is_empty xs
    is_empty-map [] = refl
    is_empty-map (x ∷ xs) = refl

-- An admission opens, over a roster without doubles, exactly when the trimmed reason has 1 to 500
-- characters, the initiator holds a seat, the candidate holds none and is not the initiator, and
-- there is another owner.
pub open_admission_iff :
    (id : ℕ) (candidate initiator : UserId) (reason : Text) (owners : List UserId) (now ttl : ℤ)
    → Distinct owners
    → (is_ok (open_admission id candidate initiator reason owners now ttl) ≡ true) ↔ (
        (0 < length (trim reason))
        × (length (trim reason) ≤ 500)
        × (candidate ≢ initiator)
        × (contains owners initiator ≡ true)
        × (contains owners candidate ≡ false)
        × (2 ≤ length owners))
unfolding open_admission validate_reason
open_admission_iff id candidate initiator reason owners now ttl d =
    ground (arith, is_empty-snapshot initiator owners, length-filter_one initiator owners d)

-- What holds of an admission between two calls.
pub record IsSound (a : OwnerAdmission) : Type 0 where
  -- The initiator has no vote, and somebody has.
  pub no_initiator : contains (user_ids a.peers) a.initiator ≡ false
  pub no_candidate : contains (user_ids a.peers) a.candidate ≡ false
  pub somebody : 0 < length (user_ids a.peers)
  -- An open admission is not decided against, and a rejected one is.
  pub open_undecided : (a.life.state ≢ ProposalState.open_state) ⊎ (outcome_now a ≢ Outcome.fails)
  pub rejected_failed : (a.life.state ≢ ProposalState.rejected) ⊎ (outcome_now a ≡ Outcome.fails)

step-IsSound : (a : OwnerAdmission) (c : ℤ × Call) → IsSound a → IsSound (step a c)
unfolding step vote cancel expire execute void_proposal
step-IsSound a (now, votes voter v) s = ground (arith, user_ids-record_vote voter v now a.peers)
step-IsSound a (now, cancels by) s = ground arith
step-IsSound a (now, expires) s = ground arith
step-IsSound a (now, executes owners) s = ground arith
step-IsSound a (now, voids reason) s = ground arith

run-IsSound : (a : OwnerAdmission) (cs : List (ℤ × Call)) → IsSound a → IsSound (run a cs)
unfolding run
run-IsSound a [] s = s
run-IsSound a (c ∷ cs) s = run-IsSound (step a c) cs (step-IsSound a c s)

snapshot_undecided :
    (i : UserId) (owners : List UserId)
    → 0 < length (snapshot i owners)
    → unanimity (admission_ballots (snapshot i owners)) ≢ Outcome.fails
unfolding snapshot
snapshot_undecided i owners h e =
    let xs : List UserId = filter (λ o. not (o == i)) owners in
    ground (
      arith,
      unanimity_counts (admission_ballots (map pending_admission_peer xs)),
      admission_ballots-counts (map pending_admission_peer xs),
      pending-counts xs,
    )

snapshot_somebody :
    (i : UserId) (owners : List UserId)
    → is_empty (snapshot i owners) ≡ false
    → (0 < length (snapshot i owners)) × (0 < length (user_ids (snapshot i owners)))
unfolding snapshot
snapshot_somebody i owners h =
    somebody (map pending_admission_peer (filter (λ o. not (o == i)) owners)) h
  where
    somebody :
        (ps : List AdmissionPeer)
        → is_empty ps ≡ false
        → (0 < length ps) × (0 < length (user_ids ps))
    somebody [] h = ground arith
    somebody (p ∷ ps) h = omega arith

open_admission-IsSound :
    (id : ℕ) (candidate initiator : UserId) (reason : Text) (owners : List UserId) (now ttl : ℤ)
    (a : OwnerAdmission)
    → open_admission id candidate initiator reason owners now ttl ≡ ok a
    → IsSound a × IsAudited a.life
unfolding open_admission validate_reason
open_admission-IsSound id candidate initiator reason owners now ttl a h = ground (
  arith,
  snapshot_voters initiator initiator owners,
  snapshot_voters initiator candidate owners,
  snapshot_undecided initiator owners,
  snapshot_somebody initiator owners,
  opened-IsAudited now ttl,
)

-- Whatever is called on an admission that was opened, neither the initiator nor the candidate is
-- among its voters and somebody is, it is not open while its votes decide against it, it is rejected
-- only when they do, its events replay to its state and its version counts them modulo 2^64.
pub run-open_admission :
    (id : ℕ) (candidate initiator : UserId) (reason : Text) (owners : List UserId) (now ttl : ℤ)
    (a : OwnerAdmission) (cs : List (ℤ × Call))
    → open_admission id candidate initiator reason owners now ttl ≡ ok a
    → IsSound (run a cs) × IsAudited (run a cs).life
run-open_admission id candidate initiator reason owners now ttl a cs h =
    let (s, t) = open_admission-IsSound id candidate initiator reason owners now ttl a h in
    (run-IsSound a cs s, Reach-IsAudited (run-Reach a cs) t)

-- The consilium stands behind an admission on a roster: a voter is still seated, and all of those
-- voted to admit.
abbrev pub Carried : OwnerAdmission → List UserId → Type 0
Carried a owners =
    (0 < length (seated owners a.peers))
    × (answers AdmissionVote.admit (seated owners a.peers) ≡ length (seated owners a.peers))

-- Executing an open admission grants the seat exactly when the consilium stands behind it on the
-- current roster (a voter is still seated, and all of those voted to admit), the initiator still
-- holds a seat and the candidate holds none. It voids the admission exactly when the consilium stands
-- behind it and one of the others fails, and it fails exactly when the consilium does not.
pub execute_open_admission :
    (a : OwnerAdmission) (owners : List UserId) (now : ℤ)
    → a.life.state ≡ ProposalState.open_state
    → (((step a (now, executes owners)).life.state ≡ ProposalState.executed) ↔ (
        Carried a owners
        × (contains owners a.initiator ≡ true)
        × (contains owners a.candidate ≡ false)))
      × (((step a (now, executes owners)).life.state ≡ ProposalState.void_state) ↔ (
          Carried a owners
          × ((contains owners a.initiator ≡ false) ⊎ (contains owners a.candidate ≡ true))))
      × ((is_ok (execute a owners now) ≡ true) ↔ Carried a owners)
unfolding step execute
execute_open_admission a owners now h = ground (
  arith,
  unanimity_counts (admission_ballots (seated owners a.peers)),
  admission_ballots-counts (seated owners a.peers),
)
