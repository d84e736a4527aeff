-- ===== src/Runner/Kyc/History.antt =====
-- The table of attempts through a sequence of transactions, each with the table of users of its
-- moment. One that fails leaves the attempts as they were. Which verdicts
-- are written, and as what, is read off once here.
use concierge.Prelude.{
  String, List, [], ◌∷◌, Bool, true, false, not, ◌&&◌, some, if◌then◌else◌, ◌≡◌, ◌⊎◌, inl, inr,
  refl, Bool-cases, Option-cases,
}
use concierge.Prelude.Int.{ℤ}
use concierge.Errors.{Result, ok, err}
use concierge.Users.Account.{User}
use concierge.Runner.Kyc.Status.{KycStatus, held_duplicate, is_decided}
use concierge.Runner.Kyc.Cases.{Case, NewCase, KycDecision, CaseDecision, recorded, open_case}
use concierge.Runner.Kyc.Decision.{
  find_case, is_mismatch, is_marked, is_older, same_status, is_duplicate, write_case, write_verdict,
  judge, record_decision, as_case,
}

pub data Call : Type 0 where
  opens : (now : ℤ) → NewCase → Call
  delivers : (now : ℤ) → List User → String → KycDecision → Call

abbrev pub after : List Case → Result (List Case) → List Case
after cases (ok next) = next
after cases (err e) = cases

unfoldable pub step : List Case → Call → List Case
unfolding open_case record_decision
step cases (opens now new) = after cases (open_case now cases new)
step cases (delivers now users provider d) = (record_decision now users cases provider d).0

unfoldable pub run : List Case → List Call → List Case
unfolding step
run cases [] = cases
run cases (call ∷ calls) = run (step cases call) calls

-- A verdict that moves its attempt: what it was checked for, and what it writes.
pub record Moves (users : List User) (cases : List Case) (c : Case) (d : KycDecision)
    (s : KycStatus) : Type 0 where
  pub unmarked : is_marked c.payload.retired_by_ttl ≡ false
  pub not_same : same_status c.status d.status ≡ false
  pub not_older : is_older d.signed_at c.event_at ≡ false
  pub not_reopened : (is_decided c.status && not (is_decided d.status)) ≡ false
  pub not_mismatched : is_mismatch d.vendor_data c.id ≡ false
  pub by_duplicate : s ≡ (if is_duplicate users cases c.user_id d then held_duplicate else d.status)
  pub held_before :
      (is_duplicate users cases c.user_id d && same_status c.status held_duplicate) ≡ false

abbrev pub is_recorded : CaseDecision → Bool
is_recorded (recorded c) = true
is_recorded _ = false

-- A transaction that leaves the table alone.
abbrev Unmoved : List Case → List Case × CaseDecision → Type 0
Unmoved cases r = (r.0 ≡ cases) × (is_recorded r.1 ≡ false)

judge_shape :
    (now : ℤ) (users : List User) (cases : List Case) (c : Case) (d : KycDecision)
    → Unmoved cases (judge now users cases c d)
      ⊎ ((s : KycStatus) × (judge now users cases c d
            ≡ (write_case now c.id s d cases, recorded (as_case c s)))
          × Moves users cases c d s)
unfolding judge write_verdict
judge_shape now users cases c d = elim (Bool-cases (is_mismatch d.vendor_data c.id)) [
  | inl e ↦ inl (rw e (refl, refl))
  | inr m ↦ elim (Bool-cases (is_marked c.payload.retired_by_ttl)) [
    | inl e ↦ inl (rw (m, e) (refl, refl))
    | inr r ↦ elim (Bool-cases (same_status c.status d.status)) [
      | inl e ↦ inl (rw (m, r, e) (refl, refl))
      | inr t ↦ elim (Bool-cases (is_older d.signed_at c.event_at)) [
        | inl e ↦ inl (rw (m, r, t, e) (refl, refl))
        | inr o ↦ elim (Bool-cases (is_decided c.status && not (is_decided d.status))) [
          | inl e ↦ inl (rw (m, r, t, o, e) (refl, refl))
          | inr p ↦ elim (Bool-cases (is_duplicate users cases c.user_id d)) [
            | inr u ↦ inr (
              d.status,
              rw (m, r, t, o, p, u) refl,
              record {
                unmarked = r;
                not_same = t;
                not_older = o;
                not_reopened = p;
                not_mismatched = m;
                by_duplicate = rw u refl;
                held_before = rw u refl;
              },
            )
            | inl u ↦ elim (Bool-cases (same_status c.status held_duplicate)) [
              | inl h ↦ inl (rw (m, r, t, o, p, u, h) (refl, refl))
              | inr h ↦ inr (
                held_duplicate,
                rw (m, r, t, o, p, u, h) refl,
                record {
                  unmarked = r;
                  not_same = t;
                  not_older = o;
                  not_reopened = p;
                  not_mismatched = m;
                  by_duplicate = rw u refl;
                  held_before = rw u h;
                },
              )
            ]
          ]
        ]
      ]
    ]
  ]
]

-- A verdict is refused and writes nothing, or moves the attempt that its session names.
pub record_shape :
    (now : ℤ) (users : List User) (cases : List Case) (provider : String) (d : KycDecision)
    → Unmoved cases (record_decision now users cases provider d)
      ⊎ ((c : Case) × (s : KycStatus) × (find_case provider d.provider_ref cases ≡ some c)
          × (record_decision now users cases provider d
              ≡ (write_case now c.id s d cases, recorded (as_case c s)))
          × Moves users cases c d s)
unfolding record_decision
record_shape now users cases provider d =
    elim (Option-cases (find_case provider d.provider_ref cases)) [
      | inl e ↦ inl (rw (e, record_decision) (refl, refl))
      | inr (c, e) ↦ elim (judge_shape now users cases c d) [
        | inl h ↦ inl (rw (e, record_decision) h)
        | inr (s, h, m) ↦ inr (c, s, e, rw (e, record_decision) h, m)
      ]
    ]
