-- ===== src/Runner/Consilium/Mailbox.antt =====
-- The guesses at a secret code over all that is called: wrong codes are bounded for each token.
use concierge.Prelude.{
  ℕ, ◌+◌, ◌≤◌, String, List, [], ◌∷◌, ◌++◌, Bool, false, not, ◌&&◌, Option, none, some, any, ◌≡◌,
  inl, inr, arith, Bool-cases,
}
use concierge.Prelude.Int.{ℤ}
use concierge.Errors.{Result, ok, err, ensure, ok_or}
use concierge.Text.{Text, same_text}
use concierge.Governance.Lifecycle.{max_code_attempts, removal_ttl_secs}
use concierge.Governance.Removal
use concierge.Governance.Removal.{OwnerRemoval}
use concierge.Runner.Genesis.{find_user, owner_ids}
use concierge.Runner.Consilium.{Registry, Token, locked}
use concierge.Runner.Consilium.Removals.{persist}
use concierge.Runner.Consilium.Codes.{find_token, self_decision}
use concierge.Runner.Consilium.Allowance.{left, allowance}
use concierge.Runner.Consilium.Guesses.{is_wrong_code, once, self_decision-Pays}
use concierge.Runner.Consilium.Calls.{
  Call, opens_removal, votes_removal, cancels_removal, answers, resigns, opens_admission,
  votes_admission, cancels_admission, opens_proposal, votes_proposal, cancels_proposal, step,
}
use concierge.Governance.Peer.{UserId}
use concierge.Runner.Consilium.Seats.{
  Minted, close_stale, is_free, has_hash, minted_token, insert_removal, open_removal,
}
use concierge.Runner.Consilium.Writes.{Gives, bind-Gives, then-Gives, opened-Gives}
use concierge.Runner.Consilium.Untouched.{
  peer_vote_tokens, cancel_removal_tokens, close_stale_tokens, resign_tokens,
}
use concierge.Runner.Consilium.Untouched.Admitting.{
  open_admission_untouched, admission_vote_untouched, cancel_admission_untouched,
}
use concierge.Runner.Consilium.Untouched.Proposing.{
  open_user_proposal_untouched, user_proposal_vote_untouched, cancel_user_proposal_untouched,
}

find_token-append :
    (hash : Text) (x : Token) (ts : List Token)
    → allowance (some x) ≤ max_code_attempts
    → allowance (find_token hash (ts ++ x ∷ [])) ≤ allowance (find_token hash ts)
unfolding find_token
find_token-append hash x [] h = ground arith
find_token-append hash x (t ∷ ts) h = elim (Bool-cases (same_text t.token_hash hash)) [
  | inl e ↦ rw e (omega arith)
  | inr e ↦ rw e (find_token-append hash x ts h)
]

-- What every token can still take, before and after.
abbrev Lessened : Text → Registry → Registry → Type 0
Lessened hash reg next =
    allowance (find_token hash next.tokens) ≤ allowance (find_token hash reg.tokens)

same_tokens :
    (hash : Text) (reg next : Registry) → next.tokens ≡ reg.tokens → Lessened hash reg next
same_tokens hash reg next e = rw e (omega arith)

allowance_le : (o : Option Token) → allowance o ≤ max_code_attempts
allowance_le none = omega arith
allowance_le (some t) = by_row t.burned_at t.attempts
  where
    by_row : (o : Option ℤ) (n : ℕ) → left o n ≤ max_code_attempts
    by_row o n = ground arith

module _ (digest : String → Text) where
  insert_removal-Lessened :
      (hash : Text) (reg : Registry) (r : OwnerRemoval) (minted : Minted) (now : ℤ)
      → Gives (Lessened hash reg) (insert_removal digest reg r minted now)
  unfolding insert_removal persist
  insert_removal-Lessened hash reg r minted now =
      let less = Lessened hash reg in
      then-Gives less (ensure (is_free reg r.id r.target) _) _ (λ _.
        then-Gives less (ensure (not (any (has_hash digest (digest minted.token)) reg.tokens)) _) _
          (λ _. bind-Gives less (ok_or (find_user r.target reg.accounts.users) _) _ (λ target _.
            bind-Gives less (ok_or (find_user r.initiator reg.accounts.users) _) _ (λ initiator _.
              find_token-append hash (minted_token digest minted r) reg.tokens (omega arith)))))

  open_removal-Lessened :
      (hash : Text) (reg : Registry) (minted : Minted) (target initiator : UserId) (reason : Text)
      (now : ℤ)
      → Lessened hash reg (open_removal digest reg minted target initiator reason now).0
  unfolding open_removal
  open_removal-Lessened hash reg minted target initiator reason now =
      let cleared = close_stale (locked reg) target now in
      let same : Lessened hash reg cleared =
        same_tokens hash reg cleared (close_stale_tokens (locked reg) target now) in
      opened-Gives (Lessened hash reg) reg _ (omega arith) (
        bind-Gives (Lessened hash reg)
          (Removal.open_removal minted.id target initiator reason (owner_ids cleared.accounts.users)
            now removal_ttl_secs)
          (λ r. insert_removal digest cleared r minted now)
          (λ r e.
            weaken (insert_removal digest cleared r minted now) cleared reg same
              (insert_removal-Lessened hash cleared r minted now)))
    where
      weaken :
          (res : Result Registry) (mid before : Registry)
          → Lessened hash before mid
          → Gives (Lessened hash mid) res
          → Gives (Lessened hash before) res
      weaken (err e) mid before h k = tt
      weaken (ok next) mid before h k = omega (arith, h, k)

  -- Whether a call is an answer to one token whose code was refused.
  unfoldable pub refused : Text → Registry → Call → Bool
  unfolding self_decision same_text
  refused hash reg (answers token code vote now audit) =
      same_text (digest token) hash
      && is_wrong_code (self_decision digest reg token code vote now audit).1
  refused hash reg _ = false

  -- How many of the calls were answered that a code for one token is wrong.
  unfoldable pub wrong_codes : Text → Registry → List Call → ℕ
  unfolding refused step
  wrong_codes hash reg [] = 0
  wrong_codes hash reg (call ∷ calls) =
      once (refused hash reg call) + wrong_codes hash (step digest reg call) calls

  step-pays :
      (hash : Text) (reg : Registry) (call : Call)
      → once (refused hash reg call) + allowance (find_token hash (step digest reg call).tokens)
        ≤ allowance (find_token hash reg.tokens)
  unfolding step refused
  step-pays hash reg (opens_removal minted target initiator reason now) =
      omega (arith, open_removal-Lessened hash reg minted target initiator reason now)
  step-pays hash reg (votes_removal id voter vote now audit) =
      rw (peer_vote_tokens reg id voter vote now audit) (omega arith)
  step-pays hash reg (cancels_removal id by now) =
      rw (cancel_removal_tokens reg id by now) (omega arith)
  step-pays hash reg (answers token code vote now audit) =
      self_decision-Pays digest hash reg token code vote now audit
  step-pays hash reg (resigns who now) = rw (resign_tokens reg who now) (omega arith)
  step-pays hash reg (opens_admission id candidate initiator reason now) =
      rw ((open_admission_untouched reg id candidate initiator reason now).0) (omega arith)
  step-pays hash reg (votes_admission id voter vote now audit) =
      rw ((admission_vote_untouched reg id voter vote now audit).0) (omega arith)
  step-pays hash reg (cancels_admission id by now) =
      rw ((cancel_admission_untouched reg id by now).0) (omega arith)
  step-pays hash reg (opens_proposal id kind subject initiator reason now) =
      rw ((open_user_proposal_untouched reg id kind subject initiator reason now).0) (omega arith)
  step-pays hash reg (votes_proposal id voter vote now audit) =
      rw ((user_proposal_vote_untouched reg id voter vote now audit).0) (omega arith)
  step-pays hash reg (cancels_proposal id by now) =
      rw ((cancel_user_proposal_untouched reg id by now).0) (omega arith)

  within_allowance :
      (hash : Text) (reg : Registry) (calls : List Call)
      → wrong_codes hash reg calls ≤ allowance (find_token hash reg.tokens)
  unfolding wrong_codes
  within_allowance hash reg [] = omega arith
  within_allowance hash reg (call ∷ calls) =
      omega (arith, step-pays hash reg call, within_allowance hash (step digest reg call) calls)

  -- Over any sequence of calls on the consilia, a token is answered that its code is wrong at most as
  -- often as it has guesses left: five for one that was not minted yet, and none for one that is
  -- burned. So whoever holds the link is refused a code five times at most, whatever else is called
  -- between the guesses.
  pub wrong_codes_le :
      (hash : Text) (reg : Registry) (calls : List Call)
      → (wrong_codes hash reg calls ≤ allowance (find_token hash reg.tokens))
        × (wrong_codes hash reg calls ≤ max_code_attempts)
  wrong_codes_le hash reg calls =
      let within = within_allowance hash reg calls in
      (within, omega (arith, within, allowance_le (find_token hash reg.tokens)))
