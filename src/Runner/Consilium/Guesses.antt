-- ===== src/Runner/Consilium/Guesses.antt =====
-- The guesses at a secret code: how many the mailbox of runner/src/infrastructure/governance.rs takes.
use concierge.Prelude.{
  ℕ, ◌+◌, ◌≤◌, String, Bool, true, false, not, ◌&&◌, ◌||◌, Option, none, some, leb, if◌then◌else◌,
  ◌≡◌, inl, inr, refl, sym, ap, ◌∙◌, arith, Bool-cases, Option-cases,
}
use concierge.Prelude.Int.{ℤ, ltb_ℤ}
use concierge.Errors.{Result, ok, err}
use concierge.Text.{Text, same_text}
use concierge.Text.Trim.{same_text_iff}
use concierge.Governance.ProposalState
use concierge.Governance.Vote
use concierge.Governance.Vote.{Vote}
use concierge.Governance.Lifecycle.{max_code_attempts}
use concierge.Governance.Removal.{OwnerRemoval}
use concierge.Runner.Genesis.{Store}
use concierge.Runner.Consilium.{Registry, Token, Audit, no_audit, locked}
use concierge.Runner.Consilium.Removals.{find_removal, persist, expire_if_due, missing}
use concierge.Runner.Consilium.Codes.{
  SelfDecision, wrong_code, unusable, is_set, find_token, update_tokens, counted, burned, used,
  on_tokens, decided_record, refuse_code, repeat_answer, answer, take_answer, try_code,
  refuse_or_try, self_decision,
}
use concierge.Runner.Consilium.Allowance.{
  left, allowance, counted-Lessens, burned-Lessens, used-Lessens, allowance-update,
  find_token-update,
}

abbrev pub is_wrong_code : Result SelfDecision → Bool
is_wrong_code (ok (wrong_code n)) = true
is_wrong_code _ = false

abbrev pub once : Bool → ℕ
once true = 1
once false = 0

-- A call pays for each wrong code with one guess of the row that it was tried at.
abbrev pub Pays : Text → Bool → Registry → Registry × Result SelfDecision → Type 0
Pays hash b reg x =
    once (b && is_wrong_code x.1) + allowance (find_token hash x.0.tokens)
    ≤ allowance (find_token hash reg.tokens)

once-false : (b : Bool) → once (b && false) ≡ 0
once-false b = ground arith

-- Where no code was refused, it is enough that no guess is given back.
Pays-none :
    (hash : Text) (b : Bool) (reg : Registry) (x : Registry × Result SelfDecision)
    → is_wrong_code x.1 ≡ false
    → allowance (find_token hash x.0.tokens) ≤ allowance (find_token hash reg.tokens)
    → Pays hash b reg x
Pays-none hash b reg x w h = rw (w, once-false b) (omega (arith, h))

decided_record-right :
    (reg : Registry) (id : ℕ) (now : ℤ) → is_wrong_code (decided_record reg id now) ≡ false
unfolding decided_record
decided_record-right reg id now = elim (Option-cases (find_removal id reg.removals)) [
  | inl e ↦ rw (decided_record, e) refl
  | inr (r, e) ↦ rw (decided_record, e) refl
]

if-Pays :
    (hash : Text) (b c : Bool) (reg : Registry) (x y : Registry × Result SelfDecision)
    → (c ≡ true → Pays hash b reg x)
    → (c ≡ false → Pays hash b reg y)
    → Pays hash b reg (if c then x else y)
if-Pays hash b true reg x y h k = h refl
if-Pays hash b false reg x y h k = k refl

repeat_answer-Pays :
    (hash : Text) (b : Bool) (reg : Registry) (t : Token) (r : OwnerRemoval) (vote : Vote) (now : ℤ)
    → Pays hash b reg (repeat_answer reg t r vote now)
unfolding repeat_answer
repeat_answer-Pays hash b reg t r vote now =
    if-Pays hash b (not (Vote.same r.decision vote)) reg _ _
      (λ _. Pays-none hash b reg (reg, ok unusable) refl (omega arith))
      (λ _.
        let next = on_tokens (locked reg) t.removal_id counted in
        Pays-none hash b reg (next, decided_record next t.removal_id now)
          (decided_record-right next t.removal_id now)
          (allowance-update hash t.removal_id counted reg.tokens counted-Lessens))

take_answer-Pays :
    (hash : Text) (b : Bool) (reg : Registry) (t : Token) (r : OwnerRemoval) (now : ℤ)
    (audit : Audit) (res : Result (Store × OwnerRemoval))
    → Pays hash b reg (take_answer reg t r now audit res)
unfolding take_answer persist
take_answer-Pays hash b reg t r now audit (err e) =
    Pays-none hash b reg (reg, err e) refl (omega arith)
take_answer-Pays hash b reg t r now audit (ok (accounts, r')) =
    let x = take_answer reg t r now audit (ok (accounts, r')) in
    Pays-none hash b reg x (decided_record-right x.0 t.removal_id now) (
      omega (
        arith,
        allowance-update hash t.removal_id (used now)
            (update_tokens t.removal_id counted reg.tokens) (used-Lessens now),
        allowance-update hash t.removal_id counted reg.tokens counted-Lessens,
      ))

-- The refusal of a code: another row gets nothing back, and this one loses a guess.
refuse_code-Pays :
    (hash : Text) (b : Bool) (reg : Registry) (t : Token) (now : ℤ)
    → (b ≡ true → find_token hash reg.tokens ≡ some t)
    → is_set t.burned_at ≡ false
    → Pays hash b reg (refuse_code reg t now)
unfolding refuse_code
refuse_code-Pays hash false reg t now h u =
    if-Pays hash false (leb max_code_attempts (t.attempts + 1)) reg _ _
      (λ _. omega (
        arith,
        allowance-update hash t.removal_id (burned now)
            (update_tokens t.removal_id counted reg.tokens) (burned-Lessens now),
        allowance-update hash t.removal_id counted reg.tokens counted-Lessens,
      ))
      (λ _. omega (arith, allowance-update hash t.removal_id counted reg.tokens counted-Lessens))
refuse_code-Pays hash true reg t now h u =
    let once_counted = find_token-update hash t counted reg.tokens counted-Lessens (h refl) in
    let then_burned =
      find_token-update hash (counted t) (burned now)
        (update_tokens t.removal_id counted reg.tokens) (burned-Lessens now) once_counted in
    if-Pays hash true (leb max_code_attempts (t.attempts + 1)) reg _ _
      (λ c. rw (then_burned, h refl) (last_guess t.burned_at t.attempts u))
      (λ c. rw (once_counted, h refl) (next_guess t.burned_at t.attempts u c))
  where
    last_guess : (o : Option ℤ) (n : ℕ) → is_set o ≡ false → 1 ≤ left o n
    last_guess o n u = ground arith

    next_guess :
        (o : Option ℤ) (n : ℕ)
        → is_set o ≡ false
        → leb max_code_attempts (n + 1) ≡ false
        → 1 + left o (n + 1) ≤ left o n
    next_guess o n u c = ground arith

module _ (digest : String → Text) where
  try_code-Pays :
      (hash : Text) (b : Bool) (reg : Registry) (t : Token) (r : OwnerRemoval) (code : String)
      (vote : Vote) (now : ℤ) (audit : Audit)
      → (b ≡ true → find_token hash reg.tokens ≡ some t)
      → is_set t.burned_at ≡ false
      → Pays hash b reg (try_code digest reg t r code vote now audit)
  unfolding try_code
  try_code-Pays hash b reg t r code vote now audit h u =
      if-Pays hash b (not (same_text (digest code) t.code_hash)) reg _ _
        (λ _. refuse_code-Pays hash b reg t now h u)
        (λ _.
          if-Pays hash b (is_set t.used_at) reg _ _
            (λ _. repeat_answer-Pays hash b reg t r vote now)
            (λ _. take_answer-Pays hash b reg t r now audit (answer reg.accounts r vote now)))

  refuse_or_try-Pays :
      (hash : Text) (b : Bool) (reg : Registry) (t : Token) (r : OwnerRemoval) (code : String)
      (vote : Vote) (now : ℤ) (audit : Audit)
      → (b ≡ true → find_token hash reg.tokens ≡ some t)
      → is_set t.burned_at ≡ false
      → Pays hash b reg (refuse_or_try digest reg t r code vote now audit)
  unfolding refuse_or_try persist
  refuse_or_try-Pays hash b reg t r code vote now audit h u =
      let tried = try_code-Pays hash b reg t r code vote now audit h u in
      if-Pays hash b (is_set t.used_at) reg _ _ (λ _. tried)
        (λ _. elim (Option-cases (expire_if_due r now)) [
          | inr (expired, d) ↦ rw d (
              Pays-none hash b reg (persist (locked reg) expired none no_audit now, ok unusable)
                refl (omega arith))
          | inl d ↦ rw d (
              if-Pays hash b (not (ProposalState.is_open r.life.state)) reg _ _
                (λ _. Pays-none hash b reg (reg, ok unusable) refl (omega arith)) (λ _. tried))
        ])

  pub self_decision-Pays :
      (hash : Text) (reg : Registry) (token code : String) (vote : Vote) (now : ℤ) (audit : Audit)
      → Pays hash
          (same_text (digest token) hash)
          reg
          (self_decision digest reg token code vote now audit)
  unfolding self_decision
  self_decision-Pays hash reg token code vote now audit =
      elim (Option-cases (find_token (digest token) reg.tokens)) [
        | inl e ↦ rw (self_decision, e) (Pays-none hash _ reg (reg, ok unusable) refl (omega arith))
        | inr (t, e) ↦ elim (Bool-cases (is_set t.burned_at || not (ltb_ℤ now t.expires_at))) [
          | inl c ↦
              rw (self_decision, e, c) (Pays-none hash _ reg (reg, ok unusable) refl (omega arith))
          | inr c ↦ elim (Option-cases (find_removal t.removal_id reg.removals)) [
            | inl f ↦
                rw (self_decision, e, c, f)
                  (Pays-none hash _ reg (reg, err (missing t.removal_id)) refl (omega arith))
            | inr (r, f) ↦
                rw (self_decision, e, c, f)
                  (refuse_or_try-Pays hash (same_text (digest token) hash) reg t r code vote now
                    audit
                    (λ s.
                      ap (λ x. find_token x reg.tokens)
                        (sym ((same_text_iff (digest token) hash).0 s))
                      ∙ e)
                    (unburned (is_set t.burned_at) _ c))
          ]
        ]
      ]
    where
      unburned : (b c : Bool) → (b || c) ≡ false → b ≡ false
      unburned b c h = ground arith
