-- ===== src/Governance/UserProposalKind.antt =====
-- domain/src/governance.rs: what a user proposal decides.
use text.Mathlib.Text.{◌==◌ as str_eq}
use text.Mathlib.TextEquality.{eq_iff}
use concierge.Prelude.{String, [], ◌∷◌, if◌then◌else◌, ◌≡◌, refl, arith}
use concierge.Errors.{validation, lit, Result, ok, err}

pub data UserProposalKind : Type 0 where
  suspension reinstatement admin_admission : UserProposalKind

unfoldable pub as_str : UserProposalKind → String
as_str suspension = "suspension"
as_str reinstatement = "reinstatement"
as_str admin_admission = "admin_admission"

unfoldable pub parse : String → Result UserProposalKind
parse raw =
    if str_eq raw "suspension"
    then ok suspension
    else if str_eq raw "reinstatement"
    then ok reinstatement
    else if str_eq raw "admin_admission"
    then ok admin_admission
    else err (validation (lit "unknown user proposal kind: " ∷ lit raw ∷ []))

pub parse-as_str : (x : UserProposalKind) → parse (as_str x) ≡ ok x
unfolding parse as_str
parse-as_str suspension = refl
parse-as_str _ = refl

pub as_str-parse : (raw : String) (x : UserProposalKind) → parse raw ≡ ok x → raw ≡ as_str x
unfolding parse as_str
as_str-parse raw x h =
    ground
      (arith, eq_iff raw "suspension", eq_iff raw "reinstatement", eq_iff raw "admin_admission")

-- The RPC that a refusal names.
unfoldable pub rpc_name : UserProposalKind → String
rpc_name suspension = "GovernanceService.OpenUserSuspension"
rpc_name reinstatement = "GovernanceService.OpenUserReinstatement"
rpc_name admin_admission = "GovernanceService.OpenAdminAdmission"
