-- ===== src/Governance/ProposalState.antt =====
-- domain/src/governance.rs: where a proposal stands, with the stored words.
use text.Mathlib.Text.{◌==◌ as str_eq}
use text.Mathlib.TextEquality.{eq_iff}
use concierge.Prelude.{String, [], ◌∷◌, Bool, true, false, if◌then◌else◌, ◌≡◌, refl, arith}
use concierge.Errors.{validation, lit, Result, ok, err}

pub data ProposalState : Type 0 where
  open_state executed rejected expired cancelled void_state : ProposalState

unfoldable pub as_str : ProposalState → String
as_str open_state = "open"
as_str executed = "executed"
as_str rejected = "rejected"
as_str expired = "expired"
as_str cancelled = "cancelled"
as_str void_state = "void"

unfoldable pub parse : String → Result ProposalState
parse raw =
    if str_eq raw "open"
    then ok open_state
    else if str_eq raw "executed"
    then ok executed
    else if str_eq raw "rejected"
    then ok rejected
    else if str_eq raw "expired"
    then ok expired
    else if str_eq raw "cancelled"
    then ok cancelled
    else if str_eq raw "void"
    then ok void_state
    else err (validation (lit "unknown proposal state: " ∷ lit raw ∷ []))

pub parse-as_str : (x : ProposalState) → parse (as_str x) ≡ ok x
unfolding parse as_str
parse-as_str open_state = refl
parse-as_str _ = refl

pub as_str-parse : (raw : String) (x : ProposalState) → parse raw ≡ ok x → raw ≡ as_str x
unfolding parse as_str
as_str-parse raw x h = ground (
  arith,
  eq_iff raw "open",
  eq_iff raw "executed",
  eq_iff raw "rejected",
  eq_iff raw "expired",
  eq_iff raw "cancelled",
  eq_iff raw "void",
)

unfoldable pub is_open : ProposalState → Bool
is_open open_state = true
is_open _ = false
