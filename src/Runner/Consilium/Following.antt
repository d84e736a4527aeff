-- ===== src/Runner/Consilium/Following.antt =====
-- The transactions against the aggregate: what is stored of a removal is what its calls make of it.
use concierge.Prelude.{
  ℕ, String, List, Bool, true, false, not, ◌||◌, Option, some, if◌then◌else◌, ◌≡◌, inl, inr, refl,
  ap, ◌∙◌, Bool-cases, Option-cases,
}
use concierge.Prelude.Int.{ℤ, ltb_ℤ}
use concierge.Errors.{Result, ok, err}
use concierge.Text.{Text, same_text}
use concierge.Governance.ProposalState
use concierge.Governance.Vote.{Vote}
use concierge.Governance.Peer.{UserId}
use concierge.Governance.Removal.{OwnerRemoval}
use concierge.Runner.Genesis.{Store}
use concierge.Runner.Consilium.{Registry, Token, Audit, no_audit, locked}
use concierge.Runner.Consilium.Removals.{
  find_removal, persist, expire_if_due, commit, answered, on_removal, voted, withdrawn, peer_vote,
  cancel_removal,
}
use concierge.Runner.Consilium.Codes.{
  is_set, find_token, refuse_code, repeat_answer, answer, take_answer, try_code, refuse_or_try,
  self_decision,
}
use concierge.Runner.Consilium.Evolution.{
  expire_if_due-Evolves, Lifts, voted-Lifts, withdrawn-Lifts, answer-Lifts,
}
use concierge.Runner.Consilium.Rows.{find_removal-id}
use concierge.Runner.Consilium.Refining.{Refines, Refines-refl, write_removal-Refines}

-- The same of the registries.
abbrev pub Follows : Registry → Registry → Type 0
Follows reg next = Refines reg.removals next.removals

answered_removals :
    (reg : Registry) (id : ℕ) (now : ℤ) → (answered reg id now).0.removals ≡ reg.removals
unfolding answered
answered_removals reg id now = elim (Option-cases (find_removal id reg.removals)) [
  | inl e ↦ rw (answered, e) refl
  | inr (r, e) ↦ rw (answered, e) refl
]

-- The row that was loaded, as the row of its own id.
own_row :
    (id : ℕ) (rs : List OwnerRemoval) (r : OwnerRemoval)
    → find_removal id rs ≡ some r
    → find_removal r.id rs ≡ some r
own_row id rs r e = ap (λ i. find_removal i rs) (find_removal-id id rs r e) ∙ e

commit-Follows :
    (reg : Registry) (id : ℕ) (now : ℤ) (actor : Option UserId) (audit : Audit) (r : OwnerRemoval)
    (res : Result (Store × OwnerRemoval))
    → find_removal id reg.removals ≡ some r
    → Lifts r res
    → Follows reg (commit reg id now actor audit res).0
unfolding commit persist
commit-Follows reg id now actor audit r (err e) f l = Refines-refl reg.removals
commit-Follows reg id now actor audit r (ok (accounts, s)) f l =
    rw
      (answered_removals (persist (record (locked reg) { accounts = accounts }) s actor audit now)
        id now)
      (write_removal-Refines s r reg.removals (own_row id reg.removals r f) l)

on_removal-Follows :
    (reg : Registry) (id : ℕ) (now : ℤ) (actor : Option UserId) (audit : Audit)
    (work : OwnerRemoval → Result (Store × OwnerRemoval))
    → ((r : OwnerRemoval) → Lifts r (work r))
    → Follows reg (on_removal reg id now actor audit work).0
unfolding on_removal persist
on_removal-Follows reg id now actor audit work l =
    elim (Option-cases (find_removal id reg.removals)) [
      | inl e ↦ rw (on_removal, e) (Refines-refl reg.removals)
      | inr (r, e) ↦ elim (Option-cases (expire_if_due r now)) [
        | inl d ↦ rw (on_removal, e, d) (commit-Follows reg id now actor audit r (work r) e (l r))
        | inr (expired, d) ↦
            rw (on_removal, e, d)
              (write_removal-Refines expired r reg.removals (own_row id reg.removals r e)
                (expire_if_due-Evolves r expired now d))
      ]
    ]

pub peer_vote-Follows :
    (reg : Registry) (id : ℕ) (voter : UserId) (vote : Vote) (now : ℤ) (audit : Audit)
    → Follows reg (peer_vote reg id voter vote now audit).0
unfolding peer_vote
peer_vote-Follows reg id voter vote now audit =
    on_removal-Follows reg id now (some voter) audit (voted reg.accounts voter vote now)
      (voted-Lifts reg.accounts voter vote now)

pub cancel_removal-Follows :
    (reg : Registry) (id : ℕ) (by : UserId) (now : ℤ) → Follows reg (cancel_removal reg id by now).0
unfolding cancel_removal
cancel_removal-Follows reg id by now =
    on_removal-Follows reg id now (some by) no_audit (withdrawn reg.accounts by now)
      (withdrawn-Lifts reg.accounts by now)

take_answer-Follows :
    (reg : Registry) (t : Token) (r loaded : OwnerRemoval) (now : ℤ) (audit : Audit)
    (res : Result (Store × OwnerRemoval))
    → find_removal loaded.id reg.removals ≡ some loaded
    → Lifts loaded res
    → Follows reg (take_answer reg t r now audit res).0
unfolding take_answer persist
take_answer-Follows reg t r loaded now audit (err e) f l = Refines-refl reg.removals
take_answer-Follows reg t r loaded now audit (ok (accounts, s)) f l =
    write_removal-Refines s loaded reg.removals f l

if-Follows {ℓ} :
    {X : Type ℓ} (reg : Registry) (b : Bool) (x y : Registry × X)
    → Follows reg x.0
    → Follows reg y.0
    → Follows reg (if b then x else y).0
if-Follows reg true x y h k = h
if-Follows reg false x y h k = k

refuse_code-Follows : (reg : Registry) (t : Token) (now : ℤ) → Follows reg (refuse_code reg t now).0
unfolding refuse_code
refuse_code-Follows reg t now =
    if-Follows reg _ _ _ (Refines-refl reg.removals) (Refines-refl reg.removals)

repeat_answer-Follows :
    (reg : Registry) (t : Token) (r : OwnerRemoval) (vote : Vote) (now : ℤ)
    → Follows reg (repeat_answer reg t r vote now).0
unfolding repeat_answer
repeat_answer-Follows reg t r vote now =
    if-Follows reg _ _ _ (Refines-refl reg.removals) (Refines-refl reg.removals)

module _ (digest : String → Text) where
  try_code-Follows :
      (reg : Registry) (t : Token) (r : OwnerRemoval) (code : String) (vote : Vote) (now : ℤ)
      (audit : Audit)
      → find_removal r.id reg.removals ≡ some r
      → Follows reg (try_code digest reg t r code vote now audit).0
  unfolding try_code
  try_code-Follows reg t r code vote now audit f =
      if-Follows reg (not (same_text (digest code) t.code_hash)) _ _ (refuse_code-Follows reg t now)
        (if-Follows reg (is_set t.used_at) _ _ (repeat_answer-Follows reg t r vote now) (
          take_answer-Follows reg t r r now audit (answer reg.accounts r vote now) f
            (answer-Lifts reg.accounts r vote now)))

  refuse_or_try-Follows :
      (reg : Registry) (t : Token) (r : OwnerRemoval) (code : String) (vote : Vote) (now : ℤ)
      (audit : Audit)
      → find_removal r.id reg.removals ≡ some r
      → Follows reg (refuse_or_try digest reg t r code vote now audit).0
  unfolding refuse_or_try persist
  refuse_or_try-Follows reg t r code vote now audit f =
      let tried = try_code-Follows reg t r code vote now audit f in
      if-Follows reg (is_set t.used_at) _ _ tried (elim (Option-cases (expire_if_due r now)) [
        | inr (expired, d) ↦
            rw d (
              write_removal-Refines expired r reg.removals f
                (expire_if_due-Evolves r expired now d))
        | inl d ↦ rw d (
            if-Follows reg (not (ProposalState.is_open r.life.state)) _ _
              (Refines-refl reg.removals) tried)
      ])

  pub self_decision-Follows :
      (reg : Registry) (token code : String) (vote : Vote) (now : ℤ) (audit : Audit)
      → Follows reg (self_decision digest reg token code vote now audit).0
  unfolding self_decision
  self_decision-Follows reg token code vote now audit =
      elim (Option-cases (find_token (digest token) reg.tokens)) [
        | inl e ↦ rw (self_decision, e) (Refines-refl reg.removals)
        | inr (t, e) ↦ elim (Bool-cases (is_set t.burned_at || not (ltb_ℤ now t.expires_at))) [
          | inl b ↦ rw (self_decision, e, b) (Refines-refl reg.removals)
          | inr b ↦ elim (Option-cases (find_removal t.removal_id reg.removals)) [
            | inl f ↦ rw (self_decision, e, b, f) (Refines-refl reg.removals)
            | inr (r, f) ↦
                rw (self_decision, e, b, f)
                  (refuse_or_try-Follows reg t r code vote now audit
                    (own_row t.removal_id reg.removals r f))
          ]
        ]
      ]
