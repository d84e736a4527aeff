-- ===== src/Users/UserStatus.antt =====
-- domain/src/users.rs: whether an account is frozen.
use text.Mathlib.Text.{◌==◌ as str_eq}
use text.Mathlib.TextEquality.{eq_iff}
use concierge.Prelude.{String, [], ◌∷◌, Bool, true, false, if◌then◌else◌, ◌≡◌, refl, arith}
use concierge.Errors.{validation, lit, Result, ok, err}

pub data UserStatus : Type 0 where
  active disabled : UserStatus

unfoldable pub as_str : UserStatus → String
as_str active = "active"
as_str disabled = "disabled"

unfoldable pub parse : String → Result UserStatus
parse raw =
    if str_eq raw "active"
    then ok active
    else if str_eq raw "disabled"
    then ok disabled
    else err (validation (lit "unknown user status: " ∷ lit raw ∷ []))

pub parse-as_str : (x : UserStatus) → parse (as_str x) ≡ ok x
unfolding parse as_str
parse-as_str active = refl
parse-as_str _ = refl

pub as_str-parse : (raw : String) (x : UserStatus) → parse raw ≡ ok x → raw ≡ as_str x
unfolding parse as_str
as_str-parse raw x h = ground (arith, eq_iff raw "active", eq_iff raw "disabled")

abbrev pub is_active : UserStatus → Bool
is_active active = true
is_active disabled = false
