-- ===== src/Runner/Kyc/Redelivery.antt =====
-- A verdict of runner/src/infrastructure/kyc/cases.rs that is delivered again.
pub mod Twice
use concierge.Prelude.{
  ℕ, String, List, [], ◌∷◌, Bool, true, false, not, ◌&&◌, ◌||◌, Option, none, some, any, Distinct,
  contains, ◌==◌, ◌≡◌, ◌⊎◌, inl, inr, refl, sym, ap, subst, ◌∙◌, arith, Bool-cases, ==_iff,
}
use concierge.Prelude.Int.{ℤ}
use concierge.Governance.Peer.{UserId}
use concierge.Users.Account.{User}
use concierge.Runner.Kyc.Status.{KycStatus, approved, held_duplicate, is_decided, code}
use concierge.Runner.Kyc.Cases.{Case, KycDecision, KycCase, recorded, redelivered}
use concierge.Runner.Kyc.Decision.{
  find_case, as_case, same_status, is_mismatch, is_older, is_twin, is_duplicate, written,
  write_case, write_verdict, judge, record_decision,
}
use concierge.Runner.Kyc.Table.{row, ids, row-find_case}
use concierge.Runner.Kyc.History.{Moves, record_shape}

-- The session finds the row again, as it was written.
find_case-write_case :
    (provider ref : String) (now : ℤ) (c : Case) (s : KycStatus) (d : KycDecision)
    (cases : List Case)
    → find_case provider ref cases ≡ some c
    → find_case provider ref (write_case now c.id s d cases) ≡ some (written now s d c)
unfolding find_case write_case written
find_case-write_case provider ref now c s d [] h = absurd (ground arith)
find_case-write_case provider ref now c s d (x ∷ cs) h =
    ground (arith, find_case-write_case provider ref now c s d cs, ==_iff c.id c.id)

duplicate_approved :
    (users : List User) (cases : List Case) (user : UserId) (d : KycDecision)
    → is_duplicate users cases user d ≡ true
    → d.status ≡ approved
unfolding is_duplicate
duplicate_approved users cases user d h = ground arith

same_status_self : (s : KycStatus) → same_status s s ≡ true
same_status_self s = ground (arith, ==_iff (code s) (code s))

not_older_self : (at : ℤ) → is_older at (some at) ≡ false
unfolding is_older
not_older_self at = ground arith

held_flags :
    (s : KycStatus)
    → s ≡ approved
    → (same_status held_duplicate s ≡ false) × (not (is_decided s) ≡ false)
unfolding is_decided
held_flags s e = ground arith

held_again :
    (later now : ℤ) (others : List User) (other : List Case) (c : Case) (d : KycDecision)
    → is_mismatch d.vendor_data c.id ≡ false
    → d.status ≡ approved
    → is_duplicate others other c.user_id d ≡ true
    → judge later others other (written now held_duplicate d c) d
      ≡ (other, redelivered (as_case c held_duplicate))
unfolding judge write_verdict written is_decided
held_again later now others other c d m given k =
    let (differs, decided) = held_flags d.status given in
    rw (m, differs, not_older_self d.signed_at, decided, k) refl

same_again :
    (later now : ℤ) (others : List User) (other : List Case) (c : Case) (s : KycStatus)
    (d : KycDecision)
    → is_mismatch d.vendor_data c.id ≡ false
    → s ≡ d.status
    → judge later others other (written now s d c) d ≡ (other, redelivered (as_case c s))
unfolding judge written
same_again later now others other c s d m e =
    subst (λ t. judge later others other (written now t d c) d ≡ (other, redelivered (as_case c t)))
      (sym e) (rw (m, same_status_self d.status) refl)

-- The verdict again, on the row as it was written, among other rows.
judge_again :
    (later now : ℤ) (users others : List User) (cases other : List Case) (c : Case) (s : KycStatus)
    (d : KycDecision)
    → Moves users cases c d s
    → (s ≡ d.status) ⊎ (is_duplicate others other c.user_id d ≡ true)
    → judge later others other (written now s d c) d ≡ (other, redelivered (as_case c s))
judge_again later now users others cases other c s d m (inl e) =
    same_again later now others other c s d m.not_mismatched e
judge_again later now users others cases other c s d m (inr k) =
    by_duplicate (is_duplicate users cases c.user_id d) refl
  where
    by_duplicate :
        (b : Bool)
        → is_duplicate users cases c.user_id d ≡ b
        → judge later others other (written now s d c) d ≡ (other, redelivered (as_case c s))
    by_duplicate false e =
        same_again later now others other c s d m.not_mismatched (m.by_duplicate ∙ rw e refl)
    by_duplicate true e =
        subst
          (λ t. judge later others other (written now t d c) d ≡ (other, redelivered (as_case c t)))
          (sym (m.by_duplicate ∙ rw e refl))
          (held_again later now others other c d m.not_mismatched
            (duplicate_approved users cases c.user_id d e) k)

-- What a verdict that was written left: the row it moved, and where.
abbrev pub Left : ℤ → List User → List Case → List Case → String → KycDecision → KycCase → Type 0
Left now users cases next provider d k =
    (c : Case) × (s : KycStatus) × (find_case provider d.provider_ref cases ≡ some c)
    × (next ≡ write_case now c.id s d cases)
    × (as_case c s ≡ k)
    × Moves users cases c d s

pub recorded-Left :
    (now : ℤ) (users : List User) (cases next : List Case) (provider : String) (d : KycDecision)
    (k : KycCase)
    → record_decision now users cases provider d ≡ (next, recorded k)
    → Left now users cases next provider d k
recorded-Left now users cases next provider d k h = elim (record_shape now users cases provider d) [
  | inl (e, n) ↦ absurd (ground (arith, n, h))
  | inr (c, s, f, e, m) ↦ (c, s, f, ap (λ r. r.0) (sym h ∙ e), told (ap (λ r. r.1) (sym e ∙ h)), m)
]
  where
    told : {x y : KycCase} → recorded x ≡ recorded y → x ≡ y
    told e = cc

-- A verdict that was written is delivered again, at whatever instant and whatever became of the
-- accounts and of the other attempts, while its own attempt is found as the first delivery left it.
-- Where the status that was written is the verdict's own, or the verdict is still a duplicate (an
-- approval whose document stands in a decided attempt of another account, one that is approved or whose
-- account holds a level), the second delivery is told to be a redelivery with the status that the first
-- one wrote, and writes nothing.
pub record_decision_again :
    (now later : ℤ) (users others : List User) (cases next other : List Case) (provider : String)
    (d : KycDecision) (k : KycCase)
    → record_decision now users cases provider d ≡ (next, recorded k)
    → find_case provider d.provider_ref other ≡ find_case provider d.provider_ref next
    → (k.status ≡ d.status) ⊎ (is_duplicate others other k.user_id d ≡ true)
    → record_decision later others other provider d ≡ (other, redelivered k)
unfolding record_decision
record_decision_again now later users others cases next other provider d k h stands still =
    let (c, s, f, tables, same_k, m) = recorded-Left now users cases next provider d k h in
    let found =
      stands
      ∙ ap (find_case provider d.provider_ref) tables
      ∙ find_case-write_case provider d.provider_ref now c s d cases f in
    let still_c =
      subst (λ x. (x.status ≡ d.status) ⊎ (is_duplicate others other x.user_id d ≡ true))
        (sym same_k) still in
    subst (λ x. record_decision later others other provider d ≡ (other, redelivered x)) same_k
      (rw (found, record_decision) (judge_again later now users others cases other c s d m still_c))
