-- ===== src/Runner/Kyc/Decision.antt =====
-- runner/src/infrastructure/kyc/cases.rs: `record_decision`, which judges a verdict against the
-- attempt that it names. One transaction under the lock of the row, and of the document where one is
-- known: a function of the tables before.
use text.Mathlib.Text.{◌==◌ as str_eq}
use concierge.Prelude.{
  ℕ, String, List, [], ◌∷◌, Bool, true, false, not, ◌&&◌, ◌||◌, Option, none, some, any, ltb, ◌==◌,
  if◌then◌else◌,
}
use concierge.Prelude.Int.{ℤ, pos_part, ltb_ℤ}
use concierge.Governance.Peer.{UserId}
use concierge.Users.Account.{User}
use concierge.Runner.Genesis.{find_user}
use concierge.Runner.Kyc.Status.{KycStatus, approved, held_duplicate, code, is_decided}
use concierge.Runner.Kyc.Cases.{
  Case, KycDecision, KycCase, CaseDecision, recorded, redelivered, ignored, mismatch, unknown,
}

-- `WHERE provider = $1 AND provider_ref = $2`, which the table's unique index makes one row.
unfoldable pub find_case : String → String → List Case → Option Case
find_case provider provider_ref [] = none
find_case provider provider_ref (c ∷ cs) =
    if str_eq c.provider provider && str_eq c.provider_ref provider_ref
    then some c
    else find_case provider provider_ref cs

abbrev pub as_case : Case → KycStatus → KycCase
as_case c status = record {
  id = c.id;
  user_id = c.user_id;
  requested_tier = pos_part c.requested_tier;
  status = status;
}

abbrev pub same_status : KycStatus → KycStatus → Bool
same_status a b = code a == code b

-- A text that is not empty and is not the id of the row.
unfoldable pub is_mismatch : Option (Option ℕ) → ℕ → Bool
is_mismatch none id = false
is_mismatch (some none) id = true
is_mismatch (some (some named)) id = not (named == id)

-- `COALESCE((payload ->> 'retired_by_ttl')::boolean, FALSE)`.
abbrev pub is_marked : Option Bool → Bool
is_marked none = false
is_marked (some mark) = mark

-- `stored_at.is_some_and(|at| signed_at < at)`.
unfoldable pub is_older : ℤ → Option ℤ → Bool
is_older signed_at none = false
is_older signed_at (some at) = ltb_ℤ signed_at at

abbrev pub is_some {ℓ} : {A : Type ℓ} → Option A → Bool
is_some none = false
is_some (some a) = true

abbrev pub has_digest : Option String → String → Bool
has_digest none digest = false
has_digest (some held) digest = str_eq held digest

-- `c.status = approved OR u.kyc_level >= 1` over the joined row.
abbrev pub bought_level : KycStatus → Option User → Bool
bought_level status none = false
bought_level status (some user) = same_status status approved || ltb 0 user.kyc_level

-- A decided attempt of another account with the same document, which bought that account a level.
unfoldable pub is_twin : List User → String → UserId → Case → Bool
unfolding find_user
is_twin users digest user c =
    has_digest c.identity_digest digest
    && not (c.user_id == user)
    && is_some c.decision_at
    && bought_level c.status (find_user c.user_id users)

-- Whether an approval presents a document that another account has used.
unfoldable pub is_duplicate : List User → List Case → UserId → KycDecision → Bool
unfolding is_twin
is_duplicate users cases user d = elim d.identity_digest [
  | none ↦ false
  | some digest ↦ same_status d.status approved && any (is_twin users digest user) cases
]

-- `COALESCE($6, identity_digest)`.
abbrev pub coalesce : Option String → Option String → Option String
coalesce none held = held
coalesce (some digest) held = some digest

-- `CASE WHEN $4 THEN now() ELSE NULL END`.
abbrev pub decided_at : Bool → ℤ → Option ℤ
decided_at false now = none
decided_at true now = some now

unfoldable pub written : ℤ → KycStatus → KycDecision → Case → Case
unfolding is_decided
written now status d c = record c {
  status = status;
  payload = record { retired_by_ttl = none; vendor = d.metadata };
  decision_at = decided_at (is_decided status) now;
  event_at = some d.signed_at;
  identity_digest = coalesce d.identity_digest c.identity_digest;
  updated_at = now;
}

-- `UPDATE kyc_cases SET … WHERE id = $1`.
unfoldable pub write_case : ℤ → ℕ → KycStatus → KycDecision → List Case → List Case
unfolding written
write_case now id status d [] = []
write_case now id status d (c ∷ cs) =
    (if c.id == id then written now status d c else c) ∷ write_case now id status d cs

-- The end of the transaction: the status that is written, with the hold of a duplicate.
unfoldable pub write_verdict : ℤ → List Case → Case → KycDecision → Bool → List Case × CaseDecision
unfolding write_case
write_verdict now cases c d true =
    if same_status c.status held_duplicate
    then (cases, redelivered (as_case c held_duplicate))
    else (write_case now c.id held_duplicate d cases, recorded (as_case c held_duplicate))
write_verdict now cases c d false =
    (write_case now c.id d.status d cases, recorded (as_case c d.status))

-- A verdict on a row that was found.
unfoldable pub judge : ℤ → List User → List Case → Case → KycDecision → List Case × CaseDecision
unfolding is_mismatch is_older is_duplicate write_verdict is_decided
judge now users cases c d =
    if is_mismatch d.vendor_data c.id
    then (cases, mismatch (as_case c c.status))
    else if is_marked c.payload.retired_by_ttl
    then (cases, ignored (as_case c c.status))
    else if same_status c.status d.status
    then (cases, redelivered (as_case c d.status))
    else if is_older d.signed_at c.event_at
    then (cases, ignored (as_case c c.status))
    else if is_decided c.status && not (is_decided d.status)
    then (cases, ignored (as_case c c.status))
    else write_verdict now cases c d (is_duplicate users cases c.user_id d)

unfoldable pub record_decision :
    ℤ → List User → List Case → String → KycDecision → List Case × CaseDecision
unfolding find_case judge
record_decision now users cases provider d = elim (find_case provider d.provider_ref cases) [
  | none ↦ (cases, unknown)
  | some c ↦ judge now users cases c d
]
