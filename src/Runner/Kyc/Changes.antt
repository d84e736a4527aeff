-- ===== src/Runner/Kyc/Changes.antt =====
-- What each transaction on the attempts of runner/src/infrastructure/kyc/cases.rs makes of each row.
use concierge.Prelude.{
  ℕ, String, List, [], ◌∷◌, ◌++◌, false, Option, none, some, any, Distinct, ◌==◌, ◌≡◌, inl, inr,
  refl, ap, ◌∙◌, sym, subst, ==_iff, Bool-cases, Option-cases,
}
use concierge.Prelude.Int.{ℤ}
use concierge.Users.Account.{User}
use concierge.Runner.Kyc.Status.{KycStatus}
use concierge.Runner.Kyc.Cases.{
  Case, NewCase, KycDecision, retire, retire_all, inserted, clashes, open_case,
}
use concierge.Runner.Kyc.Decision.{find_case, written, write_case}
use concierge.Runner.Kyc.Table.{
  row, ids, map_row, row_or, row-write_case, ids-write_case, row-retire_all, ids-retire_all,
  row-append, row-find_case, Distinct-append_one, ids-append_one, no_clash-id,
}
use concierge.Runner.Kyc.History.{Call, opens, delivers, after, step, Moves, record_shape}

-- What a transaction makes of the row of an id: it stays, or it is retired, or a verdict moves it,
-- or an id that had none is opened.
pub data Change (cases : List Case) (i : ℕ) : Call → Option Case → Type 0 where
  same : {call : Call} → Change cases i call (row i cases)
  retired :
      (now : ℤ) (new : NewCase)
      → any (clashes new) cases ≡ false
      → Change cases i (opens now new) (map_row (retire now new.user_id new.ttl_secs) (row i cases))
  new_row :
      (now : ℤ) (new : NewCase)
      → row i cases ≡ none
      → new.id ≡ i
      → Change cases i (opens now new) (some (inserted now new))
  moved :
      (now : ℤ) (users : List User) (provider : String) (d : KycDecision) (c : Case) (s : KycStatus)
      → row i cases ≡ some c
      → find_case provider d.provider_ref cases ≡ some c
      → Moves users cases c d s
      → Change cases i (delivers now users provider d) (some (written now s d c))

opened_row :
    (now : ℤ) (new : NewCase) (cases : List Case) (i : ℕ)
    → any (clashes new) cases ≡ false
    → Change cases i
        (opens now new)
        (row i (retire_all now new.user_id new.ttl_secs cases ++ inserted now new ∷ []))
unfolding row inserted
opened_row now new cases i fresh =
    let e =
      row-append i (retire_all now new.user_id new.ttl_secs cases) (inserted now new ∷ [])
      ∙ ap (λ o. row_or o (row i (inserted now new ∷ [])))
          (row-retire_all now new.user_id new.ttl_secs i cases) in
    elim (Option-cases (row i cases)) [
      | inr (c, h) ↦
          subst (Change cases i (opens now new)) (sym (e ∙ rw h refl) ∙ refl)
            (retired now new fresh)
      | inl h ↦ elim (Bool-cases (new.id == i)) [
        | inl n ↦
            subst (Change cases i (opens now new)) (sym (e ∙ rw (h, n) refl))
              (new_row now new h ((==_iff new.id i).0 n))
        | inr n ↦ subst (Change cases i (opens now new)) (h ∙ sym (e ∙ rw (h, n) refl)) (same)
      ]
    ]

moved_row :
    (now : ℤ) (users : List User) (cases : List Case) (provider : String) (d : KycDecision) (i : ℕ)
    (c : Case) (s : KycStatus)
    → Distinct (ids cases)
    → find_case provider d.provider_ref cases ≡ some c
    → Moves users cases c d s
    → Change cases i (delivers now users provider d) (row i (write_case now c.id s d cases))
moved_row now users cases provider d i c s u f m =
    let e = row-write_case now c.id i s d cases in
    let here = row-find_case provider d.provider_ref c cases f u in
    elim (Bool-cases (c.id == i)) [
      | inl n ↦
          let found : row i cases ≡ some c =
            ap (λ k. row k cases) (sym ((==_iff c.id i).0 n)) ∙ here in
          subst (Change cases i (delivers now users provider d)) (sym (e ∙ rw (n, found) refl))
            (moved now users provider d c s found f m)
      | inr n ↦ subst (Change cases i (delivers now users provider d)) (sym (e ∙ rw n refl)) (same)
    ]

-- The table after a transaction: as it was, with an attempt opened, or with a verdict written.
data Table (cases : List Case) : Call → List Case → Type 0 where
  unmoved : {call : Call} → Table cases call cases
  opened :
      (now : ℤ) (new : NewCase)
      → any (clashes new) cases ≡ false
      → Table cases
          (opens now new)
          (retire_all now new.user_id new.ttl_secs cases ++ inserted now new ∷ [])
  decided :
      (now : ℤ) (users : List User) (provider : String) (d : KycDecision) (c : Case) (s : KycStatus)
      → find_case provider d.provider_ref cases ≡ some c
      → Moves users cases c d s
      → Table cases (delivers now users provider d) (write_case now c.id s d cases)

opened_table :
    (cases : List Case) (now : ℤ) (new : NewCase)
    → Table cases (opens now new) (after cases (open_case now cases new))
unfolding open_case
opened_table cases now new = elim (Bool-cases (any (clashes new) cases)) [
  | inl clash ↦ rw clash (unmoved)
  | inr fresh ↦ rw fresh (opened now new fresh)
]

step_table : (cases : List Case) (call : Call) → Table cases call (step cases call)
unfolding step
step_table cases (opens now new) = opened_table cases now new
step_table cases (delivers now users provider d) = elim (record_shape now users cases provider d) [
  | inl (e, _) ↦ subst (Table cases (delivers now users provider d)) (sym e) (unmoved)
  | inr (c, s, f, e, m) ↦
      subst (Table cases (delivers now users provider d)) (sym (ap (λ r. r.0) e))
        (decided now users provider d c s f m)
]

row_change :
    (cases next : List Case) (call : Call) (i : ℕ)
    → Distinct (ids cases)
    → Table cases call next
    → Change cases i call (row i next)
row_change cases next call i u unmoved = same
row_change cases next call i u (opened now new fresh) = opened_row now new cases i fresh
row_change cases next call i u (decided now users provider d c s f m) =
    moved_row now users cases provider d i c s u f m

-- Every transaction changes a row in one of these ways.
pub step_change :
    (cases : List Case) (call : Call) (i : ℕ)
    → Distinct (ids cases)
    → Change cases i call (row i (step cases call))
step_change cases call i u = row_change cases (step cases call) call i u (step_table cases call)

table-Distinct :
    (cases next : List Case) (call : Call)
    → Distinct (ids cases)
    → Table cases call next
    → Distinct (ids next)
unfolding inserted
table-Distinct cases next call u unmoved = u
table-Distinct cases next call u (opened now new fresh) =
    let retired_rows = retire_all now new.user_id new.ttl_secs cases in
    let same_ids = ids-retire_all now new.user_id new.ttl_secs cases in
    rw (ids-append_one retired_rows (inserted now new))
      (rw same_ids (Distinct-append_one (ids cases) new.id u (no_clash-id new cases fresh)))
table-Distinct cases next call u (decided now users provider d c s f m) =
    rw (ids-write_case now c.id s d cases) u

-- The ids stay apart.
pub step-Distinct :
    (cases : List Case) (call : Call) → Distinct (ids cases) → Distinct (ids (step cases call))
step-Distinct cases call u = table-Distinct cases (step cases call) call u (step_table cases call)
