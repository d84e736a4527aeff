-- ===== src/Runner/Kyc/Duplicates.antt =====
-- One document, one account: what the search for a duplicate in `record_decision` of
-- runner/src/infrastructure/kyc/cases.rs achieves.
use text.Mathlib.TextEquality.{eq_iff}
use concierge.Prelude.{
  ℕ, String, List, [], ◌∷◌, Bool, true, false, Option, none, some, any, Distinct, ◌==◌, ◌≡◌, inl,
  inr, refl, sym, ap, subst, ◌∙◌, arith, Bool-cases, ==_iff,
}
use concierge.Prelude.Int.{ℤ}
use concierge.Governance.Peer.{UserId}
use concierge.Users.Account.{User}
use concierge.Runner.Genesis.{find_user}
use concierge.Runner.Kyc.Status.{KycStatus, approved, is_decided}
use concierge.Runner.Kyc.Cases.{Case, KycDecision, retire, is_stale, inserted}
use concierge.Runner.Kyc.Decision.{find_case, is_some, is_twin, is_duplicate, coalesce, written}
use concierge.Runner.Kyc.Table.{row, ids, map_row}
use concierge.Runner.Kyc.History.{Call, opens, delivers, step, run, Moves}
use concierge.Runner.Kyc.Changes.{Change, same, retired, new_row, moved, step_change, step-Distinct}
use concierge.Runner.Kyc.Ordering.{IsSound, Sound, change-Sound}

-- Two approved attempts on one document are of one account.
abbrev pub OneAccount : List Case → Type 0
OneAccount cases =
    (i j : ℕ) (c e : Case) (document : String)
    → row i cases ≡ some c
    → row j cases ≡ some e
    → c.status ≡ approved
    → e.status ≡ approved
    → c.identity_digest ≡ some document
    → e.identity_digest ≡ some document
    → c.user_id ≡ e.user_id

-- Detection is on: an approval comes with the digest of its document. And the table of users that a
-- delivery reads holds the account of every attempt, which is a foreign key of the table.
abbrev pub IsDetected : List Case → Call → Type 0
IsDetected cases (opens now new) = Unit
IsDetected cases (delivers now users provider d) =
    (d.status ≡ approved → is_some d.identity_digest ≡ true)
    × ((i : ℕ) (c : Case) → row i cases ≡ some c → is_some (find_user c.user_id users) ≡ true)

abbrev pub AllDetected : List Case → List Call → Type 0
AllDetected cases [] = Unit
AllDetected cases (call ∷ calls) = IsDetected cases call × AllDetected (step cases call) calls

any-row :
    (p : Case → Bool) (i : ℕ) (c : Case) (cases : List Case)
    → row i cases ≡ some c
    → any p cases ≡ false
    → p c ≡ false
unfolding row
any-row p i c [] h n = absurd (ground arith)
any-row p i c (x ∷ cs) h n = elim (Bool-cases (x.id == i)) [
  | inl e ↦
      let same_row : some x ≡ some c = (rw (← h) (rw e refl)) in
      subst (λ y. p y ≡ false) (unwrapped x c same_row) (ground arith)
  | inr e ↦ any-row p i c cs (rw (← h) (rw e refl)) (ground arith)
]
  where
    unwrapped : (x y : Case) → some x ≡ some y → x ≡ y
    unwrapped x y e = cc

-- An approved row after a transaction was there before, or an approval with its own document was
-- just written over the row that its session found.
data Origin (cases : List Case) (i : ℕ) (c : Case) : Call → Type 0 where
  old : {call : Call} → row i cases ≡ some c → Origin cases i c call
  fresh :
      (now : ℤ) (users : List User) (provider : String) (d : KycDecision) (before : Case)
      → find_case provider d.provider_ref cases ≡ some before
      → c ≡ written now approved d before
      → d.status ≡ approved
      → is_duplicate users cases before.user_id d ≡ false
      → Origin cases i c (delivers now users provider d)

retired_origin :
    (cases : List Case) (i : ℕ) (call : Call) (now : ℤ) (user ttl : ℕ) (c : Case) (o : Option Case)
    → row i cases ≡ o
    → map_row (retire now user ttl) o ≡ some c
    → c.status ≡ approved
    → Origin cases i c call
unfolding retire
retired_origin cases i call now user ttl c none e h a = absurd (ground arith)
retired_origin cases i call now user ttl c (some x) e h a =
    elim (Bool-cases (is_stale now user ttl x)) [
      | inl s ↦ absurd (ground (arith, s))
      | inr s ↦ old (e ∙ (rw (← h) (rw s refl)))
    ]

moved_origin :
    (cases : List Case) (i : ℕ) (now : ℤ) (users : List User) (provider : String) (d : KycDecision)
    (before c : Case) (s : KycStatus)
    → find_case provider d.provider_ref cases ≡ some before
    → Moves users cases before d s
    → some (written now s d before) ≡ some c
    → c.status ≡ approved
    → Origin cases i c (delivers now users provider d)
unfolding written
moved_origin cases i now users provider d before c s f m e a =
    let is_approved : s ≡ approved = ground arith in
    let not_dup : is_duplicate users cases before.user_id d ≡ false =
      ground (arith, m.by_duplicate, is_approved) in
    let given : d.status ≡ approved = ground (arith, m.by_duplicate, not_dup, is_approved) in
    fresh now users provider d before f
      (subst (λ (t : KycStatus). c ≡ written now t d before) is_approved (cc)) given not_dup

origin :
    {cases : List Case} {i : ℕ} {call : Call} {o : Option Case} (c : Case)
    → Change cases i call o
    → o ≡ some c
    → c.status ≡ approved
    → Origin cases i c call
unfolding inserted
origin c same h a = old h
origin {cases} {i} c (retired now new fresh_id) h a =
    retired_origin cases i (opens now new) now new.user_id new.ttl_secs c (row i cases) refl h a
origin c (new_row now new e n) h a = absurd (ground arith)
origin {cases} {i} c (moved now users provider d before s e f m) h a =
    moved_origin cases i now users provider d before c s f m h a

digest_of :
    (given held : Option String) (document : String)
    → is_some given ≡ true
    → coalesce given held ≡ some document
    → given ≡ some document
digest_of none held document s h = absurd (ground arith)
digest_of (some g) held document s h = h

twin_of :
    (users : List User) (document : String) (user : UserId) (e : Case) (joined : Option User)
    → find_user e.user_id users ≡ joined
    → is_some joined ≡ true
    → IsSound e
    → e.status ≡ approved
    → e.identity_digest ≡ some document
    → is_twin users document user e ≡ false
    → e.user_id ≡ user
unfolding is_twin is_decided
twin_of users document user e none j s sound a g n = absurd (ground arith)
twin_of users document user e (some account) j s sound a g n =
    ground (arith, sound.dated, eq_iff document document, ==_iff e.user_id user)

-- Where no twin was found, an approved attempt on the document is of the same account.
same_account :
    (users : List User) (cases : List Case) (user : UserId) (d : KycDecision) (j : ℕ) (e : Case)
    (document : String)
    → is_duplicate users cases user d ≡ false
    → d.status ≡ approved
    → d.identity_digest ≡ some document
    → row j cases ≡ some e
    → is_some (find_user e.user_id users) ≡ true
    → IsSound e
    → e.status ≡ approved
    → e.identity_digest ≡ some document
    → e.user_id ≡ user
unfolding is_duplicate
same_account users cases user d j e document n given g h known sound a ge =
    twin_of users document user e (find_user e.user_id users) refl known sound a ge
      (any-row (is_twin users document user) j e cases h (ground (arith, n, given, g)))

module _ (cases : List Case) (u : Distinct (ids cases))
    (sound : (i : ℕ) → Sound (row i cases)) where
  row-IsSound : (i : ℕ) (c : Case) → row i cases ≡ some c → IsSound c
  row-IsSound i c h = subst Sound h (sound i)

  fresh_old :
      (users : List User) (d : KycDecision) (before c e : Case) (now : ℤ) (j : ℕ)
      (document : String)
      → (d.status ≡ approved → is_some d.identity_digest ≡ true)
      → ((i : ℕ) (x : Case) → row i cases ≡ some x → is_some (find_user x.user_id users) ≡ true)
      → c ≡ written now approved d before
      → d.status ≡ approved
      → is_duplicate users cases before.user_id d ≡ false
      → row j cases ≡ some e
      → e.status ≡ approved
      → c.identity_digest ≡ some document
      → e.identity_digest ≡ some document
      → e.user_id ≡ c.user_id
  unfolding written
  fresh_old users d before c e now j document has known w given n h a gc ge =
      let digest =
        digest_of d.identity_digest before.identity_digest document (has given)
          (sym (ap (λ x. x.identity_digest) w) ∙ gc) in
      same_account users cases before.user_id d j e document n given digest h (known j e h)
        (row-IsSound j e h) a ge
      ∙ sym (ap (λ x. x.user_id) w)

  one_origin :
      {call : Call} (i j : ℕ) (c e : Case) (document : String)
      → OneAccount cases
      → Origin cases i c call
      → Origin cases j e call
      → IsDetected cases call
      → c.status ≡ approved
      → e.status ≡ approved
      → c.identity_digest ≡ some document
      → e.identity_digest ≡ some document
      → c.user_id ≡ e.user_id
  unfolding written
  one_origin i j c e document one (old h) (old g) k a b gc ge = one i j c e document h g a b gc ge
  one_origin i j c e document one (old h) (fresh now users p d before f w given n) (has, known) a b
        gc ge =
      fresh_old users d before e c now i document has known w given n h a ge gc
  one_origin i j c e document one (fresh now users p d before f w given n) (old g) (has, known) a b
        gc ge =
      sym (fresh_old users d before c e now j document has known w given n g b gc ge)
  one_origin i j c e document one (fresh now users p d before f w given n)
        (fresh now' users' p' d' before' f' w' given' n') k a b gc ge =
      let same_before : some before ≡ some before' = sym f ∙ f' in
      ap (λ x. x.user_id) w ∙ (cc) ∙ sym (ap (λ x. x.user_id) w')

  step-OneAccount :
      (call : Call) → OneAccount cases → IsDetected cases call → OneAccount (step cases call)
  step-OneAccount call one k i j c e document h g a b gc ge =
      one_origin i j c e document one (origin c (step_change cases call i u) h a)
        (origin e (step_change cases call j u) g b) k a b gc ge

run_from-OneAccount :
    (cases : List Case) (calls : List Call)
    → Distinct (ids cases)
    → ((i : ℕ) → Sound (row i cases))
    → OneAccount cases
    → AllDetected cases calls
    → OneAccount (run cases calls)
unfolding run
run_from-OneAccount cases [] u sound one k = one
run_from-OneAccount cases (call ∷ calls) u sound one (k, ks) =
    run_from-OneAccount (step cases call) calls (step-Distinct cases call u)
      (λ i. (change-Sound (sound i) (step_change cases call i u)).0)
      (step-OneAccount cases u sound call one k) ks

-- While detection is on, whatever is opened and delivered from an empty table on, two approved
-- attempts with the digest of one document are of the same account.
pub run-OneAccount : (calls : List Call) → AllDetected [] calls → OneAccount (run [] calls)
unfolding row
run-OneAccount calls k =
    run_from-OneAccount [] calls tt (λ i. tt) (λ i j c e document h g. absurd (ground arith)) k
