-- ===== src/Runner/Consilium/Floor/Removing.antt =====
-- The floor through the transactions on removals.
use concierge.Prelude.{
  ℕ, String, Bool, true, false, not, ◌||◌, Option, some, if◌then◌else◌, ◌≡◌, inl, inr, refl, arith,
  Bool-cases, Option-cases,
}
use concierge.Prelude.Int.{ℤ, ltb_ℤ}
use concierge.Errors.{Result, ok, err}
use concierge.Text.{Text, same_text}
use concierge.Governance.ProposalState
use concierge.Governance.ProposalState.{ProposalState}
use concierge.Governance.Vote.{Vote}
use concierge.Governance.Peer.{UserId}
use concierge.Governance.Removal
use concierge.Governance.Removal.{OwnerRemoval, is_passes, outcome_now}
use concierge.Runner.Genesis.{Store, owner_ids}
use concierge.Runner.Consilium.{Registry, Token, Audit, locked, take_seat}
use concierge.Runner.Consilium.Removals.{
  settle, seat_taken_if, persist, expire_if_due, find_removal, commit, answered, on_removal, voted,
  withdrawn, peer_vote, cancel_removal,
}
use concierge.Runner.Consilium.Codes.{
  is_set, refuse_code, repeat_answer, take_answer, answer, try_code, refuse_or_try, self_decision,
  find_token,
}
use concierge.Runner.Consilium.Roster.{
  owners-take_seat, AboveFloor, executed_floor, Ensures, bind-Ensures,
}

carried_floor :
    (accounts : Store) (r r' : OwnerRemoval) (state : ProposalState) (now : ℤ)
    → r.life.state ≡ ProposalState.open_state
    → Removal.execute r (owner_ids accounts.users) now ≡ ok (r', state)
    → AboveFloor accounts
    → Ensures (seat_taken_if accounts (r', state))
carried_floor accounts r r' ProposalState.executed now o h k =
    bind-Ensures (take_seat accounts r'.target) (λ after. ok (after, r'))
      (λ after e. omega (
        arith,
        owners-take_seat accounts after r'.target e,
        executed_floor r r' (owner_ids accounts.users) now o h,
      ))
carried_floor accounts r r' ProposalState.open_state now o h k = k
carried_floor accounts r r' ProposalState.rejected now o h k = k
carried_floor accounts r r' ProposalState.expired now o h k = k
carried_floor accounts r r' ProposalState.cancelled now o h k = k
carried_floor accounts r r' ProposalState.void_state now o h k = k

open_of :
    (s : ProposalState) (b : Bool)
    → (not (ProposalState.is_open s) || b) ≡ false
    → s ≡ ProposalState.open_state
unfolding ProposalState.is_open
open_of s b h = ground arith

settle_floor :
    (accounts : Store) (r : OwnerRemoval) (now : ℤ)
    → AboveFloor accounts
    → Ensures (settle accounts r now)
unfolding settle
settle_floor accounts r now k =
    elim (Bool-cases
      (not (ProposalState.is_open r.life.state) || not (is_passes (outcome_now r)))) [
        | inl e ↦ rw e k
        | inr e ↦ rw e (
            bind-Ensures (Removal.execute r (owner_ids accounts.users) now) (seat_taken_if accounts)
              (λ x h. carried_floor accounts r x.0 x.1 now (open_of r.life.state _ e) h k))
      ]

-- A transaction reads back and does not write.
answered_same : (reg : Registry) (id : ℕ) (now : ℤ) → (answered reg id now).0 ≡ reg
unfolding answered
answered_same reg id now = elim (Option-cases (find_removal id reg.removals)) [
  | inl e ↦ rw (answered, e) refl
  | inr (r, e) ↦ rw (answered, e) refl
]

commit_floor :
    (reg : Registry) (id : ℕ) (now : ℤ) (actor : Option UserId) (audit : Audit)
    (res : Result (Store × OwnerRemoval))
    → AboveFloor reg.accounts
    → Ensures res
    → AboveFloor (commit reg id now actor audit res).0.accounts
unfolding commit persist
commit_floor reg id now actor audit (err e) k h = k
commit_floor reg id now actor audit (ok (accounts, r)) k h =
    rw
      (answered_same (persist (record (locked reg) { accounts = accounts }) r actor audit now) id
        now)
      h

on_removal_floor :
    (reg : Registry) (id : ℕ) (now : ℤ) (actor : Option UserId) (audit : Audit)
    (work : OwnerRemoval → Result (Store × OwnerRemoval))
    → AboveFloor reg.accounts
    → ((r : OwnerRemoval) → Ensures (work r))
    → AboveFloor (on_removal reg id now actor audit work).0.accounts
unfolding on_removal persist
on_removal_floor reg id now actor audit work k h =
    elim (Option-cases (find_removal id reg.removals)) [
      | inl e ↦ rw (on_removal, e) k
      | inr (r, e) ↦ elim (Option-cases (expire_if_due r now)) [
        | inl d ↦ rw (on_removal, e, d) (commit_floor reg id now actor audit (work r) k (h r))
        | inr (expired, d) ↦ rw (on_removal, e, d) k
      ]
    ]

pub peer_vote_floor :
    (reg : Registry) (id : ℕ) (voter : UserId) (vote : Vote) (now : ℤ) (audit : Audit)
    → AboveFloor reg.accounts
    → AboveFloor (peer_vote reg id voter vote now audit).0.accounts
unfolding peer_vote
peer_vote_floor reg id voter vote now audit k =
    on_removal_floor reg id now (some voter) audit (voted reg.accounts voter vote now) k (λ r.
      bind-Ensures (Removal.peer_vote r voter vote now) (λ r'. settle reg.accounts r' now)
        (λ r' e. settle_floor reg.accounts r' now k))

pub cancel_removal_floor :
    (reg : Registry) (id : ℕ) (by : UserId) (now : ℤ)
    → AboveFloor reg.accounts
    → AboveFloor (cancel_removal reg id by now).0.accounts
unfolding cancel_removal
cancel_removal_floor reg id by now k =
    on_removal_floor reg id now (some by) _ (withdrawn reg.accounts by now) k
      (λ r. bind-Ensures (Removal.cancel r by now) (λ r'. ok (reg.accounts, r')) (λ r' e. k))

take_answer_floor :
    (reg : Registry) (t : Token) (r : OwnerRemoval) (now : ℤ) (audit : Audit)
    (res : Result (Store × OwnerRemoval))
    → AboveFloor reg.accounts
    → Ensures res
    → AboveFloor (take_answer reg t r now audit res).0.accounts
unfolding take_answer persist
take_answer_floor reg t r now audit (err e) k h = k
take_answer_floor reg t r now audit (ok (accounts, r')) k h = h

refuse_code_same :
    (reg : Registry) (t : Token) (now : ℤ) → (refuse_code reg t now).0.accounts ≡ reg.accounts
unfolding refuse_code
refuse_code_same reg t now = ground arith

repeat_answer_same :
    (reg : Registry) (t : Token) (r : OwnerRemoval) (vote : Vote) (now : ℤ)
    → (repeat_answer reg t r vote now).0.accounts ≡ reg.accounts
unfolding repeat_answer
repeat_answer_same reg t r vote now = ground arith

chosen_floor {ℓ} :
    {X : Type ℓ} (b : Bool) (x y : Registry × X)
    → AboveFloor x.0.accounts
    → AboveFloor y.0.accounts
    → AboveFloor (if b then x else y).0.accounts
chosen_floor true x y h k = h
chosen_floor false x y h k = k

module _ (digest : String → Text) where
  try_code_floor :
      (reg : Registry) (t : Token) (r : OwnerRemoval) (code : String) (vote : Vote) (now : ℤ)
      (audit : Audit)
      → AboveFloor reg.accounts
      → AboveFloor (try_code digest reg t r code vote now audit).0.accounts
  unfolding try_code
  try_code_floor reg t r code vote now audit k =
      elim (Bool-cases (same_text (digest code) t.code_hash)) [
        | inl e ↦ elim (Bool-cases (is_set t.used_at)) [
          | inl u ↦ rw (try_code, e, u, repeat_answer_same reg t r vote now) k
          | inr u ↦
              rw (try_code, e, u)
                (take_answer_floor reg t r now audit (answer reg.accounts r vote now) k (
                  bind-Ensures (Removal.target_decision r vote now)
                    (λ r'. settle reg.accounts r' now)
                    (λ r' d. settle_floor reg.accounts r' now k)))
        ]
        | inr e ↦ rw (try_code, e, refuse_code_same reg t now) k
      ]

  refuse_or_try_floor :
      (reg : Registry) (t : Token) (r : OwnerRemoval) (code : String) (vote : Vote) (now : ℤ)
      (audit : Audit)
      → AboveFloor reg.accounts
      → AboveFloor (refuse_or_try digest reg t r code vote now audit).0.accounts
  unfolding refuse_or_try persist
  refuse_or_try_floor reg t r code vote now audit k =
      chosen_floor (is_set t.used_at) _ _ (try_code_floor reg t r code vote now audit k)
        (elim (Option-cases (expire_if_due r now)) [
          | inr (expired, d) ↦ rw d k
          | inl d ↦ rw d (
              chosen_floor (not (ProposalState.is_open r.life.state)) _ _ k
                (try_code_floor reg t r code vote now audit k))
        ])

  pub self_decision_floor :
      (reg : Registry) (token code : String) (vote : Vote) (now : ℤ) (audit : Audit)
      → AboveFloor reg.accounts
      → AboveFloor (self_decision digest reg token code vote now audit).0.accounts
  unfolding self_decision
  self_decision_floor reg token code vote now audit k =
      elim (Option-cases (find_token (digest token) reg.tokens)) [
        | inl e ↦ rw (self_decision, e) k
        | inr (t, e) ↦ elim (Bool-cases (is_set t.burned_at || not (ltb_ℤ now t.expires_at))) [
          | inl b ↦ rw (self_decision, e, b) k
          | inr b ↦ elim (Option-cases (find_removal t.removal_id reg.removals)) [
            | inl f ↦ rw (self_decision, e, b, f) k
            | inr (r, f) ↦
                rw (self_decision, e, b, f) (refuse_or_try_floor reg t r code vote now audit k)
          ]
        ]
      ]
