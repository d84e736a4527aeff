-- ===== src/Governance/AdmissionVote.antt =====
-- domain/src/governance.rs: the answer of a peer on an admission.
use text.Mathlib.Text.{◌==◌ as str_eq}
use text.Mathlib.TextEquality.{eq_iff}
use concierge.Prelude.{String, [], ◌∷◌, Bool, true, false, if◌then◌else◌, ◌≡◌, refl, arith}
use concierge.Errors.{validation, lit, Result, ok, err}
use concierge.Governance.Ballot.{Ballot}

pub data AdmissionVote : Type 0 where
  pending admit reject : AdmissionVote

unfoldable pub as_str : AdmissionVote → String
as_str pending = "pending"
as_str admit = "admit"
as_str reject = "reject"

unfoldable pub parse : String → Result AdmissionVote
parse raw =
    if str_eq raw "pending"
    then ok pending
    else if str_eq raw "admit"
    then ok admit
    else if str_eq raw "reject"
    then ok reject
    else err (validation (lit "unknown admission vote: " ∷ lit raw ∷ []))

pub parse-as_str : (x : AdmissionVote) → parse (as_str x) ≡ ok x
unfolding parse as_str
parse-as_str pending = refl
parse-as_str _ = refl

pub as_str-parse : (raw : String) (x : AdmissionVote) → parse raw ≡ ok x → raw ≡ as_str x
unfolding parse as_str
as_str-parse raw x h = ground (arith, eq_iff raw "pending", eq_iff raw "admit", eq_iff raw "reject")

-- The projection that lets one passing rule serve every vocabulary.
unfoldable pub ballot : AdmissionVote → Ballot
ballot pending = Ballot.pending
ballot admit = Ballot.for
ballot reject = Ballot.against

-- `self == vote`, the derived equality.
unfoldable pub same : AdmissionVote → AdmissionVote → Bool
same pending pending = true
same admit admit = true
same reject reject = true
same _ _ = false

-- `self != Self::Pending`.
unfoldable pub is_cast : AdmissionVote → Bool
is_cast pending = false
is_cast _ = true
