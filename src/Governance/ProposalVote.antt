-- ===== src/Governance/ProposalVote.antt =====
-- domain/src/governance.rs: the answer of an owner on a user proposal.
use text.Mathlib.Text.{◌==◌ as str_eq}
use text.Mathlib.TextEquality.{eq_iff}
use concierge.Prelude.{String, [], ◌∷◌, Bool, true, false, if◌then◌else◌, ◌≡◌, refl, arith}
use concierge.Errors.{validation, lit, Result, ok, err}
use concierge.Governance.Ballot.{Ballot}

pub data ProposalVote : Type 0 where
  pending for against : ProposalVote

unfoldable pub as_str : ProposalVote → String
as_str pending = "pending"
as_str for = "for"
as_str against = "against"

unfoldable pub parse : String → Result ProposalVote
parse raw =
    if str_eq raw "pending"
    then ok pending
    else if str_eq raw "for"
    then ok for
    else if str_eq raw "against"
    then ok against
    else err (validation (lit "unknown proposal vote: " ∷ lit raw ∷ []))

pub parse-as_str : (x : ProposalVote) → parse (as_str x) ≡ ok x
unfolding parse as_str
parse-as_str pending = refl
parse-as_str _ = refl

pub as_str-parse : (raw : String) (x : ProposalVote) → parse raw ≡ ok x → raw ≡ as_str x
unfolding parse as_str
as_str-parse raw x h = ground (arith, eq_iff raw "pending", eq_iff raw "for", eq_iff raw "against")

-- The projection that lets one passing rule serve every vocabulary.
unfoldable pub ballot : ProposalVote → Ballot
ballot pending = Ballot.pending
ballot for = Ballot.for
ballot against = Ballot.against

-- `self == vote`, the derived equality.
unfoldable pub same : ProposalVote → ProposalVote → Bool
same pending pending = true
same for for = true
same against against = true
same _ _ = false

-- `self != Self::Pending`.
unfoldable pub is_cast : ProposalVote → Bool
is_cast pending = false
is_cast _ = true
