-- ===== src/Governance/Vote.antt =====
-- domain/src/governance.rs: the answer of a peer or of the target on a removal.
use text.Mathlib.Text.{◌==◌ as str_eq}
use text.Mathlib.TextEquality.{eq_iff}
use concierge.Prelude.{String, [], ◌∷◌, Bool, true, false, if◌then◌else◌, ◌≡◌, refl, arith}
use concierge.Errors.{validation, lit, Result, ok, err}
use concierge.Governance.Ballot.{Ballot}

pub data Vote : Type 0 where
  pending remove keep : Vote

unfoldable pub as_str : Vote → String
as_str pending = "pending"
as_str remove = "remove"
as_str keep = "keep"

unfoldable pub parse : String → Result Vote
parse raw =
    if str_eq raw "pending"
    then ok pending
    else if str_eq raw "remove"
    then ok remove
    else if str_eq raw "keep"
    then ok keep
    else err (validation (lit "unknown vote: " ∷ lit raw ∷ []))

pub parse-as_str : (x : Vote) → parse (as_str x) ≡ ok x
unfolding parse as_str
parse-as_str pending = refl
parse-as_str _ = refl

pub as_str-parse : (raw : String) (x : Vote) → parse raw ≡ ok x → raw ≡ as_str x
unfolding parse as_str
as_str-parse raw x h = ground (arith, eq_iff raw "pending", eq_iff raw "remove", eq_iff raw "keep")

-- The projection that lets one passing rule serve every vocabulary.
unfoldable pub ballot : Vote → Ballot
ballot pending = Ballot.pending
ballot remove = Ballot.for
ballot keep = Ballot.against

-- `self == vote`, the derived equality.
unfoldable pub same : Vote → Vote → Bool
same pending pending = true
same remove remove = true
same keep keep = true
same _ _ = false

-- `self != Self::Pending`.
unfoldable pub is_cast : Vote → Bool
is_cast pending = false
is_cast _ = true
