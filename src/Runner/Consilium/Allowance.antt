-- ===== src/Runner/Consilium/Allowance.antt =====
-- The guesses that a token of the mailbox has left, through the writes to the tokens.
use concierge.Prelude.{
  ℕ, ◌+◌, ◌-◌, ◌≤◌, List, [], ◌∷◌, Bool, true, false, Option, none, some, ltb, ◌==◌, if◌then◌else◌,
  ◌≡◌, inl, inr, refl, arith, Bool-cases,
}
use concierge.Prelude.Int.{ℤ}
use concierge.Text.{Text, same_text}
use concierge.Governance.Lifecycle.{max_code_attempts}
use concierge.Runner.Consilium.{Token}
use concierge.Runner.Consilium.Codes.{find_token, update_tokens, counted, burned, used}

-- How many wrong codes a token can still take.
abbrev pub left : Option ℤ → ℕ → ℕ
left (some at) attempts = 0
left none attempts = if ltb attempts max_code_attempts then max_code_attempts - attempts else 1

abbrev pub allowance : Option Token → ℕ
allowance none = max_code_attempts
allowance (some t) = left t.burned_at t.attempts

-- A write to a token that keeps its hash and gives no guesses back.
pub record Lessens (f : Token → Token) : Type 0 where
  pub same_hash : (t : Token) → (f t).token_hash ≡ t.token_hash
  pub same_removal : (t : Token) → (f t).removal_id ≡ t.removal_id
  pub lessens : (t : Token) → left (f t).burned_at (f t).attempts ≤ left t.burned_at t.attempts

left_suc : (o : Option ℤ) (n : ℕ) → left o (n + 1) ≤ left o n
left_suc o n = ground arith

pub counted-Lessens : Lessens counted
counted-Lessens = record {
  same_hash = λ t. refl;
  same_removal = λ t. refl;
  lessens = λ t. left_suc t.burned_at t.attempts;
}

pub burned-Lessens : (now : ℤ) → Lessens (burned now)
burned-Lessens now = record {
  same_hash = λ t. refl;
  same_removal = λ t. refl;
  lessens = λ t. omega arith;
}

pub used-Lessens : (now : ℤ) → Lessens (used now)
used-Lessens now = record {
  same_hash = λ t. refl;
  same_removal = λ t. refl;
  lessens = λ t. omega arith;
}

-- The row under a hash, where the first row was written and keeps its hash.
find_token-written :
    (hash : Text) (x y : Token) (ts : List Token)
    → y.token_hash ≡ x.token_hash
    → find_token hash (y ∷ ts)
      ≡ (if same_text x.token_hash hash then some y else find_token hash ts)
unfolding find_token
find_token-written hash x y ts h = rw h refl

allowance_if :
    (b : Bool) (x y : Token) (o p : Option Token)
    → left y.burned_at y.attempts ≤ left x.burned_at x.attempts
    → allowance o ≤ allowance p
    → allowance (if b then some y else o) ≤ allowance (if b then some x else p)
allowance_if true x y o p h k = h
allowance_if false x y o p h k = k

maybe-Lessens :
    (id : ℕ) (f : Token → Token) → Lessens f → Lessens (λ t. if t.removal_id == id then f t else t)
maybe-Lessens id f l = record {
  same_hash = λ t. by_hash t (t.removal_id == id);
  same_removal = λ t. by_removal t (t.removal_id == id);
  lessens = λ t. by_allowance t (t.removal_id == id);
}
  where
    by_hash : (t : Token) (b : Bool) → (if b then f t else t).token_hash ≡ t.token_hash
    by_hash t true = l.same_hash t
    by_hash t false = refl

    by_removal : (t : Token) (b : Bool) → (if b then f t else t).removal_id ≡ t.removal_id
    by_removal t true = l.same_removal t
    by_removal t false = refl

    by_allowance :
        (t : Token) (b : Bool)
        → left (if b then f t else t).burned_at (if b then f t else t).attempts
          ≤ left t.burned_at t.attempts
    by_allowance t true = l.lessens t
    by_allowance t false = omega arith

pub allowance-update :
    (hash : Text) (id : ℕ) (f : Token → Token) (ts : List Token)
    → Lessens f
    → allowance (find_token hash (update_tokens id f ts)) ≤ allowance (find_token hash ts)
unfolding find_token update_tokens
allowance-update hash id f [] l = omega arith
allowance-update hash id f (t ∷ ts) l =
    let m = maybe-Lessens id f l in
    rw
      (find_token-written hash t (if t.removal_id == id then f t else t) (update_tokens id f ts)
        (m.same_hash t))
      (allowance_if (same_text t.token_hash hash) t _ _ _ (m.lessens t)
        (allowance-update hash id f ts l))

same_self : (n : ℕ) → (n == n) ≡ true
same_self n = ground arith

some_eq : (x y : Token) → some x ≡ some y → x ≡ y
some_eq x y e = cc

pub find_token-update :
    (hash : Text) (t : Token) (f : Token → Token) (ts : List Token)
    → Lessens f
    → find_token hash ts ≡ some t
    → find_token hash (update_tokens t.removal_id f ts) ≡ some (f t)
unfolding find_token update_tokens
find_token-update hash t f [] l h = absurd (ground arith)
find_token-update hash t f (x ∷ ts) l h =
    let m = maybe-Lessens t.removal_id f l in
    rw
      (find_token-written hash x (if x.removal_id == t.removal_id then f x else x)
        (update_tokens t.removal_id f ts) (m.same_hash x))
      (elim (Bool-cases (same_text x.token_hash hash)) [
        | inl e ↦
            let is_t : x ≡ t = some_eq x t (rw (← h) (rw e refl)) in
            rw (e, is_t, same_self t.removal_id) refl
        | inr e ↦ rw e (find_token-update hash t f ts l (rw (← h) (rw e refl)))
      ])
