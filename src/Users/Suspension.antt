-- ===== src/Users/Suspension.antt =====
-- domain/src/users.rs: why a disabled account is disabled, and who may undo it.
use text.Mathlib.Text.{◌==◌ as str_eq}
use concierge.Prelude.{
  String, [], ◌∷◌, Bool, true, false, Option, none, some, if◌then◌else◌, ◌≡◌, refl,
}
use concierge.Prelude.Int.{ℤ, i64_max}
use concierge.Errors.{validation, lit, Result, ok, err}

pub data Suspension : Type 0 where
  admin_hold : (expires_at : ℤ) → Suspension
  governance : Suspension

unfoldable pub as_str : Suspension → String
as_str (admin_hold expires_at) = "admin_hold"
as_str governance = "governance"

-- `unwrap_or(i64::MAX)`: a hold without a clock never lapses.
abbrev pub or_never : Option ℤ → ℤ
or_never none = i64_max
or_never (some t) = t

unfoldable pub parse : String → Option ℤ → Result Suspension
parse raw expires_at =
    if str_eq raw "admin_hold"
    then ok (admin_hold (or_never expires_at))
    else if str_eq raw "governance"
    then ok governance
    else err (validation (lit "unknown suspension: " ∷ lit raw ∷ []))

-- The instant at which this lapses, when it lapses at all.
unfoldable pub hold_expires_at : Suspension → Option ℤ
hold_expires_at (admin_hold expires_at) = some expires_at
hold_expires_at governance = none

unfoldable pub is_reversible_by_one_admin : Suspension → Bool
is_reversible_by_one_admin (admin_hold expires_at) = true
is_reversible_by_one_admin governance = false

-- The two stored columns give a suspension back.
pub parse-as_str : (s : Suspension) → parse (as_str s) (hold_expires_at s) ≡ ok s
unfolding parse as_str hold_expires_at
parse-as_str (admin_hold expires_at) = refl
parse-as_str governance = refl
