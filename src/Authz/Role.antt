-- ===== src/Authz/Role.antt =====
-- domain/src/authz.rs: the seat of an account, with the words that cross to the money plane.
use text.Mathlib.Text.{◌==◌ as str_eq}
use text.Mathlib.TextEquality.{eq_iff}
use concierge.Prelude.{String, [], ◌∷◌, Bool, true, false, if◌then◌else◌, ◌≡◌, refl, arith}
use concierge.Errors.{validation, lit, Result, ok, err}

pub data Role : Type 0 where
  investor operator admin owner : Role

unfoldable pub as_str : Role → String
as_str investor = "investor"
as_str operator = "operator"
as_str admin = "admin"
as_str owner = "owner"

unfoldable pub parse : String → Result Role
parse raw =
    if str_eq raw "investor"
    then ok investor
    else if str_eq raw "operator"
    then ok operator
    else if str_eq raw "admin"
    then ok admin
    else if str_eq raw "owner"
    then ok owner
    else err (validation (lit "unknown role: " ∷ lit raw ∷ []))

pub parse-as_str : (x : Role) → parse (as_str x) ≡ ok x
unfolding parse as_str
parse-as_str investor = refl
parse-as_str _ = refl

pub as_str-parse : (raw : String) (x : Role) → parse raw ≡ ok x → raw ≡ as_str x
unfolding parse as_str
as_str-parse raw x h =
    ground
      (arith, eq_iff raw "investor", eq_iff raw "operator", eq_iff raw "admin", eq_iff raw "owner")

-- The derived equality.
unfoldable pub same : Role → Role → Bool
same investor investor = true
same operator operator = true
same admin admin = true
same owner owner = true
same _ _ = false
