-- ===== src/Runner/Kyc/Redelivery/Twice.antt =====
-- A verdict of runner/src/infrastructure/kyc/cases.rs that comes twice in a row: what the first write
-- leaves of the search for twins.
use concierge.Prelude.{
  ℕ, String, List, [], ◌∷◌, Bool, true, false, ◌&&◌, ◌||◌, Option, none, some, any, Distinct,
  contains, ◌==◌, ◌≡◌, ◌⊎◌, inl, inr, refl, sym, ap, subst, ◌∙◌, arith, Bool-cases, ==_iff,
}
use concierge.Prelude.Int.{ℤ}
use concierge.Governance.Peer.{UserId}
use concierge.Users.Account.{User}
use concierge.Runner.Kyc.Status.{KycStatus, approved}
use concierge.Runner.Kyc.Cases.{Case, KycDecision, KycCase, recorded, redelivered}
use concierge.Runner.Kyc.Decision.{
  same_status, is_twin, is_duplicate, written, write_case, record_decision,
}
use concierge.Runner.Kyc.Table.{row, ids, row-find_case}
use concierge.Runner.Kyc.History.{Moves}
use concierge.Runner.Kyc.Redelivery.{recorded-Left, record_decision_again}

write_case_absent :
    (now : ℤ) (id : ℕ) (s : KycStatus) (d : KycDecision) (cases : List Case)
    → contains (ids cases) id ≡ false
    → write_case now id s d cases ≡ cases
unfolding write_case
write_case_absent now id s d [] h = refl
write_case_absent now id s d (x ∷ cs) h = ground (arith, write_case_absent now id s d cs)

own_not_twin :
    (users : List User) (document : String) (c : Case) → is_twin users document c.user_id c ≡ false
unfolding is_twin
own_not_twin users document c = ground (arith, ==_iff c.user_id c.user_id)

own_written :
    (users : List User) (document : String) (now : ℤ) (x : Case) (s : KycStatus) (d : KycDecision)
    (user : UserId)
    → x.user_id ≡ user
    → is_twin users document user (written now s d x) ≡ is_twin users document user x
unfolding written
own_written users document now x s d user e =
    subst (λ n. is_twin users document n (written now s d x) ≡ is_twin users document n x) e
      (own_not_twin users document (written now s d x) ∙ sym (own_not_twin users document x))

-- The search for twins of an account is not changed by what is written to its own attempt.
twins_unchanged :
    (users : List User) (document : String) (now : ℤ) (c : Case) (s : KycStatus) (d : KycDecision)
    (cases : List Case)
    → Distinct (ids cases)
    → row c.id cases ≡ some c
    → any (is_twin users document c.user_id) (write_case now c.id s d cases)
      ≡ any (is_twin users document c.user_id) cases
unfolding row write_case
twins_unchanged users document now c s d [] u h = refl
twins_unchanged users document now c s d (x ∷ cs) u h = elim (Bool-cases (x.id == c.id)) [
  | inr e ↦ rw e (
      ap (λ b. is_twin users document c.user_id x || b)
        (twins_unchanged users document now c s d cs u.1 (rw (← h) (rw e refl))))
  | inl e ↦
      let same_row : some x ≡ some c = rw (← h) (rw e refl) in
      let is_c : x ≡ c = cc in
      let rest =
        write_case_absent now c.id s d cs
          (ap (λ n. contains (ids cs) n) (sym ((==_iff x.id c.id).0 e)) ∙ u.0) in
      rw (e, rest)
        (ap (λ b. b || any (is_twin users document c.user_id) cs)
          (own_written users document now x s d c.user_id (ap (λ y. y.user_id) is_c)))
]

duplicate_unchanged :
    (users : List User) (now : ℤ) (c : Case) (s : KycStatus) (d : KycDecision) (cases : List Case)
    → Distinct (ids cases)
    → row c.id cases ≡ some c
    → is_duplicate users (write_case now c.id s d cases) c.user_id d
      ≡ is_duplicate users cases c.user_id d
unfolding is_duplicate
duplicate_unchanged users now c s d cases u h = by_digest d.identity_digest
  where
    by_digest :
        (o : Option String)
        → elim o as (λ _. Bool) [
          | none ↦ false
          | some document ↦
              same_status d.status approved
              && any (is_twin users document c.user_id) (write_case now c.id s d cases)
        ]
          ≡ elim o as (λ _. Bool) [
            | none ↦ false
            | some document ↦
                same_status d.status approved && any (is_twin users document c.user_id) cases
          ]
    by_digest none = refl
    by_digest (some document) =
        ap (λ b. same_status d.status approved && b)
          (twins_unchanged users document now c s d cases u h)

-- The status that was written is the verdict's own, or the account is still a duplicate.
still_given :
    (now : ℤ) (users : List User) (cases : List Case) (c : Case) (s : KycStatus) (d : KycDecision)
    → Distinct (ids cases)
    → row c.id cases ≡ some c
    → Moves users cases c d s
    → (s ≡ d.status) ⊎ (is_duplicate users (write_case now c.id s d cases) c.user_id d ≡ true)
still_given now users cases c s d u here m =
    elim (Bool-cases (is_duplicate users cases c.user_id d)) [
      | inr e ↦ inl (m.by_duplicate ∙ rw e refl)
      | inl e ↦ inr (duplicate_unchanged users now c s d cases u here ∙ e)
    ]

-- Over a table without double ids, a verdict delivered twice in a row, with nothing written between.
record_decision_twice :
    (now later : ℤ) (users : List User) (cases next : List Case) (provider : String)
    (d : KycDecision) (k : KycCase)
    → Distinct (ids cases)
    → record_decision now users cases provider d ≡ (next, recorded k)
    → record_decision later users next provider d ≡ (next, redelivered k)
record_decision_twice now later users cases next provider d k u h =
    let (c, s, f, tables, same_k, m) = recorded-Left now users cases next provider d k h in
    let still =
      still_given now users cases c s d u (row-find_case provider d.provider_ref c cases f u) m in
    record_decision_again now later users users cases next next provider d k h refl (
      subst (λ x. (x.status ≡ d.status) ⊎ (is_duplicate users next x.user_id d ≡ true)) same_k
        (subst (λ t. (s ≡ d.status) ⊎ (is_duplicate users t c.user_id d ≡ true)) (sym tables)
          still))
