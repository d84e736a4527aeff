-- ===== src/Runner/Consilium/Codes.antt =====
-- runner/src/infrastructure/governance.rs: the answer of the target from the mailbox. The emailed
-- token finds the row, and the secret code of the same message arms it. `digest` is SHA-256.
use concierge.Prelude.{
  ℕ, ◌+◌, ◌-◌, String, List, [], ◌∷◌, Bool, true, false, not, ◌||◌, Option, none, some, leb, ◌==◌,
  if◌then◌else◌,
}
use concierge.Prelude.Int.{ℤ, ltb_ℤ}
use concierge.Errors.{Result, ok, err, ◌>>=◌}
use concierge.Text.{Text, same_text}
use concierge.Governance.ProposalState
use concierge.Governance.ProposalState.{ProposalState}
use concierge.Governance.Vote
use concierge.Governance.Vote.{Vote}
use concierge.Governance.Lifecycle.{max_code_attempts}
use concierge.Governance.Removal
use concierge.Governance.Removal.{OwnerRemoval}
use concierge.Users.Account.{User}
use concierge.Runner.Genesis.{Store, find_user}
use concierge.Runner.Consilium.{Registry, Token, Audit, no_audit, effective_state, locked}
use concierge.Runner.Consilium.Removals.{
  find_removal, persist, expire_if_due, settle, missing, email_of,
}

-- What the target is shown.
pub record InvitationRecord : Type 0 where
  pub removal_id : ℕ
  pub state : ProposalState
  pub initiator_email : Text
  pub target_email : Text
  pub reason : Text
  pub created_at : ℤ
  pub expires_at : ℤ
  pub decision : Vote
  pub attempts_remaining : ℕ

pub data SelfDecision : Type 0 where
  unusable : SelfDecision
  wrong_code : (attempts_remaining : ℕ) → SelfDecision
  decided : InvitationRecord → SelfDecision

abbrev pub is_set {ℓ} : {A : Type ℓ} → Option A → Bool
is_set none = false
is_set (some a) = true

-- `WHERE token_hash = $1`, which the unique index makes one row.
unfoldable pub find_token : Text → List Token → Option Token
unfolding same_text
find_token hash [] = none
find_token hash (t ∷ ts) = if same_text t.token_hash hash then some t else find_token hash ts

-- `UPDATE owner_removal_token SET … WHERE removal_id = $1`.
unfoldable pub update_tokens : ℕ → (Token → Token) → List Token → List Token
update_tokens removal_id f [] = []
update_tokens removal_id f (t ∷ ts) =
    (if t.removal_id == removal_id then f t else t) ∷ update_tokens removal_id f ts

abbrev pub counted : Token → Token
counted t = record t { attempts = t.attempts + 1 }

abbrev pub burned : ℤ → Token → Token
burned now t = record t { burned_at = some now }

abbrev pub used : ℤ → Token → Token
used now t = record t { used_at = some now }

-- `UPDATE … SET attempts = attempts + 1`, and the write of a burn or of a use.
abbrev pub on_tokens : Registry → ℕ → (Token → Token) → Registry
on_tokens reg id f = record reg { tokens = update_tokens id f reg.tokens }

abbrev pub shown : List User → OwnerRemoval → ProposalState → ℤ → ℕ → InvitationRecord
shown users r state expires_at attempts_remaining = record {
  removal_id = r.id;
  state = state;
  initiator_email = email_of (find_user r.initiator users);
  target_email = email_of (find_user r.target users);
  reason = r.reason;
  created_at = r.life.created_at;
  expires_at = expires_at;
  decision = r.decision;
  attempts_remaining = attempts_remaining;
}

-- The invitation as it stands after an answer was accepted.
unfoldable pub decided_record : Registry → ℕ → ℤ → Result SelfDecision
unfolding find_removal effective_state find_user
decided_record reg id now = elim (find_removal id reg.removals) [
  | none ↦ err (missing id)
  | some r ↦ ok (
      decided (
        shown reg.accounts.users r (effective_state r.life.state r.life.expires_at now)
          r.life.expires_at 0))
]

-- A wrong code: the count stays, and the last attempt burns the token.
unfoldable pub refuse_code : Registry → Token → ℤ → Registry × Result SelfDecision
unfolding update_tokens
refuse_code reg t now =
    let attempts = t.attempts + 1 in
    let answer : Result SelfDecision = ok (wrong_code (max_code_attempts - attempts)) in
    if leb max_code_attempts attempts
    then (on_tokens (on_tokens (locked reg) t.removal_id counted) t.removal_id (burned now), answer)
    else (on_tokens (locked reg) t.removal_id counted, answer)

-- The answer of a token that was spent: the same again, or nothing.
unfoldable pub repeat_answer :
    Registry → Token → OwnerRemoval → Vote → ℤ → Registry × Result SelfDecision
unfolding Vote.same update_tokens decided_record
repeat_answer reg t r vote now =
    if not (Vote.same r.decision vote)
    then (reg, ok unusable)
    else let next = on_tokens (locked reg) t.removal_id counted in
      (next, decided_record next t.removal_id now)

abbrev pub answer : Store → OwnerRemoval → Vote → ℤ → Result (Store × OwnerRemoval)
answer accounts r vote now = do r' ← Removal.target_decision r vote now; settle accounts r' now

-- The first answer, and its consequence.
unfoldable pub take_answer :
    Registry
    → Token
    → OwnerRemoval
    → ℤ
    → Audit
    → Result (Store × OwnerRemoval)
    → Registry × Result SelfDecision
unfolding update_tokens persist decided_record
take_answer reg t r now audit (err e) = (reg, err e)
take_answer reg t r now audit (ok (accounts, r')) =
    let next =
      on_tokens
        (persist (on_tokens (record (locked reg) { accounts = accounts }) t.removal_id counted) r'
          (some r.target) audit now)
        t.removal_id (used now) in
    (next, decided_record next t.removal_id now)

module _ (digest : String → Text) where
  -- The attempt is counted before the code is compared.
  unfoldable pub try_code :
      Registry → Token → OwnerRemoval → String → Vote → ℤ → Audit → Registry × Result SelfDecision
  unfolding same_text refuse_code repeat_answer take_answer Removal.target_decision settle
  try_code reg t r code vote now audit =
      if not (same_text (digest code) t.code_hash)
      then refuse_code reg t now
      else if is_set t.used_at
      then repeat_answer reg t r vote now
      else take_answer reg t r now audit (answer reg.accounts r vote now)

  -- A token at a removal that cannot be answered costs its holder nothing.
  unfoldable pub refuse_or_try :
      Registry → Token → OwnerRemoval → String → Vote → ℤ → Audit → Registry × Result SelfDecision
  unfolding expire_if_due persist try_code ProposalState.is_open
  refuse_or_try reg t r code vote now audit =
      if is_set t.used_at
      then try_code reg t r code vote now audit
      else elim (expire_if_due r now) [
        | some expired ↦ (persist (locked reg) expired none no_audit now, ok unusable)
        | none ↦
            if not (ProposalState.is_open r.life.state)
            then (reg, ok unusable)
            else try_code reg t r code vote now audit
      ]

  unfoldable pub self_decision :
      Registry → String → String → Vote → ℤ → Audit → Registry × Result SelfDecision
  unfolding find_token find_removal refuse_or_try
  self_decision reg token code vote now audit = elim (find_token (digest token) reg.tokens) [
    | none ↦ (reg, ok unusable)
    | some t ↦
        if is_set t.burned_at || not (ltb_ℤ now t.expires_at)
        then (reg, ok unusable)
        else elim (find_removal t.removal_id reg.removals) [
          | none ↦ (reg, err (missing t.removal_id))
          | some r ↦ refuse_or_try reg t r code vote now audit
        ]
  ]

  abbrev pub invited : Registry → Token → OwnerRemoval → ℤ → Option InvitationRecord
  invited reg t r now =
      let state = effective_state r.life.state r.life.expires_at now in
      if is_set t.burned_at
        || is_set t.used_at
        || not (ltb_ℤ now t.expires_at)
        || not (ProposalState.is_open state)
      then none
      else some
          (shown reg.accounts.users r state r.life.expires_at (max_code_attempts - t.attempts))

  -- What the link shows. It writes nothing.
  unfoldable pub invitation : Registry → String → ℤ → Option InvitationRecord
  unfolding find_token find_removal effective_state ProposalState.is_open find_user
  invitation reg token now = elim (find_token (digest token) reg.tokens) [
    | none ↦ none
    | some t ↦ elim (find_removal t.removal_id reg.removals) [
      | none ↦ none
      | some r ↦ invited reg t r now
    ]
  ]
