-- ===== src/Runner/Consilium/Settling/Verdicts.antt =====
-- What settle_proposal of runner/src/infrastructure/governance.rs makes of a proposal, and how each of
-- its ends gives that.
use concierge.Prelude.{
  List, ◌≤◌, true, false, none, some, contains, ◌≡◌, ◌≢◌, ◌↔◌, ◌⊎◌, inl, inr, refl, sym, ap, ◌∙◌,
  arith,
}
use concierge.Prelude.Int.{ℤ}
use concierge.Errors.{Result, ok, err}
use concierge.Text.{Text}
use concierge.Governance.ProposalState.{ProposalState}
use concierge.Governance.ProposalVote.{ProposalVote}
use concierge.Governance.Peer.{UserId, seated}
use concierge.Governance.Rules.Majority.{majority_counts}
use concierge.Governance.Removal.{is_passes}
use concierge.Governance.UserProposal
use concierge.Governance.UserProposal.{
  UserProposal, outcome_now, outcome_among, proposal_ballots, carry,
}
use concierge.Governance.UserProposal.Opening.{answers, proposal_ballots-counts}
use concierge.Governance.UserProposal.Executing.{Carried}
use concierge.Users.Account.{User}
use concierge.Runner.Genesis.{Store, owner_ids, find_user, loaded}
use concierge.Runner.Consilium.Proposals.{inapplicable, voided, apply_effect, write_user}

-- The votes for the proposal reach the bar that was frozen when it was opened.
abbrev pub Reached : UserProposal → Type 0
Reached p = p.threshold ≤ answers ProposalVote.for p.peers

-- The verdict still applies to the account of the subject.
abbrev pub Applies : Store → UserProposal → Type 0
Applies accounts p =
    (subject : User) × (find_user p.subject accounts.users ≡ some subject)
    × (inapplicable subject p.kind ≡ none)

abbrev pub Blocked : Store → UserProposal → Type 0
Blocked accounts p =
    (subject : User) × (reason : Text) × (find_user p.subject accounts.users ≡ some subject)
    × (inapplicable subject p.kind ≡ some reason)

-- What the roster and the accounts of this moment say for carrying the verdict.
abbrev pub Stands : Store → UserProposal → Type 0
Stands accounts p =
    Carried p (owner_ids accounts.users)
    × (contains (owner_ids accounts.users) p.initiator ≡ true)
    × Applies accounts p

-- What they say against it.
abbrev pub Fell : Store → UserProposal → Type 0
Fell accounts p =
    (¬ Carried p (owner_ids accounts.users))
    ⊎ (contains (owner_ids accounts.users) p.initiator ≡ false)
    ⊎ Blocked accounts p

-- The account was changed with the verdict, or the accounts are as they were.
abbrev pub EffectFollows : Store → Store → UserProposal → UserProposal → ℤ → Type 0
EffectFollows accounts after p q now =
    ((q.life.state ≡ ProposalState.executed)
      × ((subject : User) × (find_user p.subject accounts.users ≡ some subject)
          × (after ≡ write_user accounts (apply_effect (loaded subject) p.kind now))))
    ⊎ ((q.life.state ≢ ProposalState.executed) × (after ≡ accounts))

abbrev pub Verdict : Store → Store → UserProposal → UserProposal → ℤ → Type 0
Verdict accounts after p q now =
    ((q.life.state ≡ ProposalState.executed) ↔ (Reached p × Stands accounts p))
    × ((q.life.state ≡ ProposalState.void_state) ↔ (Reached p × Fell accounts p))
    × EffectFollows accounts after p q now

some_of : {x y : User} → some x ≡ some y → x ≡ y
some_of e = cc

exclusive : (accounts : Store) (p : UserProposal) → Stands accounts p → ¬ Fell accounts p
exclusive accounts p (c, i, a) (inl n) = n c
exclusive accounts p (c, i, a) (inr (inl n)) = ground (arith, i, n)
exclusive accounts p (c, i, (s, f, a)) (inr (inr (t, reason, g, b))) =
    let same : s ≡ t = some_of (sym f ∙ g) in
    ground (arith, sym a ∙ ap (λ x. inapplicable x p.kind) same ∙ b)

pub passes-Carried :
    (p : UserProposal) (owners : List UserId)
    → (is_passes (outcome_among p owners) ≡ true) ↔ Carried p owners
passes-Carried p owners = ground (
  arith,
  majority_counts (proposal_ballots (seated owners p.peers)),
  proposal_ballots-counts (seated owners p.peers),
)

abbrev pub done : Store → UserProposal → Result (Store × UserProposal)
done store p = ok (store, p)

pub both_of : (x y : Store) (p q : UserProposal) → done x p ≡ done y q → (x ≡ y) × (p ≡ q)
both_of x y p q h = (ap (λ z. z.0) (opened h), ap (λ z. z.1) (opened h))
  where
    opened : {a b : Store × UserProposal} → ok a ≡ ok b → a ≡ b
    opened e = cc

pub still_open :
    (accounts after : Store) (p q : UserProposal) (now : ℤ)
    → q.life.state ≡ ProposalState.open_state
    → ¬ Reached p
    → after ≡ accounts
    → Verdict accounts after p q now
still_open accounts after p q now o n a = (
  ((λ x. absurd (ground (arith, o, x))), λ x. absurd (n x.0)),
  ((λ x. absurd (ground (arith, o, x))), λ x. absurd (n x.0)),
  inr ((λ x. ground (arith, o, x)), a),
)

pub void-Verdict :
    (accounts after : Store) (p q : UserProposal) (now : ℤ)
    → q.life.state ≡ ProposalState.void_state
    → Reached p
    → Fell accounts p
    → after ≡ accounts
    → Verdict accounts after p q now
void-Verdict accounts after p q now v b f a = (
  ((λ x. absurd (ground (arith, v, x))), λ x. absurd (exclusive accounts p x.1 f)),
  ((λ x. (b, f)), λ x. v),
  inr ((λ x. ground (arith, v, x)), a),
)

pub executed-Verdict :
    (accounts : Store) (p q : UserProposal) (subject : User) (now : ℤ)
    → q.life.state ≡ ProposalState.executed
    → Reached p
    → Stands accounts p
    → find_user p.subject accounts.users ≡ some subject
    → Verdict accounts (write_user accounts (apply_effect (loaded subject) p.kind now)) p q now
executed-Verdict accounts p q subject now e b s f = (
  ((λ x. (b, s)), λ x. e),
  ((λ x. absurd (ground (arith, e, x))), λ x. absurd (exclusive accounts p s x.1)),
  inl (e, (subject, f, refl)),
)

void_proposal-state :
    (p q : UserProposal) (reason : Text) (now : ℤ)
    → UserProposal.void_proposal p reason now ≡ ok q
    → q.life.state ≡ ProposalState.void_state
unfolding UserProposal.void_proposal
void_proposal-state p q reason now h = ground arith

-- A proposal that passed and is voided for one of the reasons.
pub voided-Verdict :
    (accounts after : Store) (p q : UserProposal) (reason : Text) (now : ℤ)
    → p.life.state ≡ ProposalState.open_state
    → Reached p
    → Fell accounts p
    → voided accounts (UserProposal.void_proposal p reason now) ≡ done after q
    → Verdict accounts after p q now
voided-Verdict accounts after p q reason now o b f h =
    let (state_of, same_store) = void_state_of (UserProposal.void_proposal p reason now) refl h in
    void-Verdict accounts after p q now state_of b f same_store
  where
    void_state_of :
        (res : Result UserProposal)
        → UserProposal.void_proposal p reason now ≡ res
        → voided accounts res ≡ done after q
        → (q.life.state ≡ ProposalState.void_state) × (after ≡ accounts)
    void_state_of (err x) e k = absurd (ground arith)
    void_state_of (ok t) e k =
        let (same_store, same) = both_of accounts after t q k in
        (ap (λ y. y.life.state) (sym same) ∙ void_proposal-state p t reason now e, sym same_store)
