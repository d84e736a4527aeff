-- ===== src/Authz/Matrix.antt =====
-- What the seats mean, as separation of duties.
use text.Mathlib.Text.{◌==◌ as str_eq}
use text.Mathlib.TextEquality.{eq_iff}
use concierge.Prelude.{
  ℕ, ◌≤◌, String, List, [], ◌∷◌, Bool, true, not, ◌&&◌, filter, all, ◌≡◌, refl, ap, arith,
}
use concierge.Authz.Role.{Role, investor, operator, admin, owner}
use concierge.Authz.{
  name, permissions, may_name, may, str_contains, seat_investor, seat_operator, seat_admin,
  seat_owner,
}
use concierge.Authz.Permissions.{Roles, roles_permission}

str_contains-filter :
    (q : String → Bool) (p : String) (ps : List String)
    → str_contains (filter q ps) p ≡ (str_contains ps p && q p)
str_contains-filter q p [] = refl
str_contains-filter q p (x ∷ ps) =
    ground (arith, eq_iff x p, ap q {x = x} {y = p}, str_contains-filter q p ps)

-- An owner may do exactly what an admin may, and grant seats besides, which no admin may.
pub owner_admin :
    (p : String)
    → (may_name admin p ≡ (may_name owner p && not (str_eq p (name Roles.grant))))
      × (may owner Roles.grant ≡ true)
unfolding may_name permissions
owner_admin p = (str_contains-filter (λ q. not (str_eq q (name Roles.grant))) p seat_owner, refl)

str_contains-all :
    (small big : List String) (p : String)
    → all (str_contains big) small ≡ true
    → str_contains small p ≡ true
    → str_contains big p ≡ true
str_contains-all [] big p h c = absurd (ground arith)
str_contains-all (x ∷ small) big p h c =
    ground (arith, eq_iff x p, ap (str_contains big) {x = x} {y = p}, str_contains-all small big p)

-- The order of the seats.
abbrev pub rank : Role → ℕ
rank investor = 0
rank operator = 1
rank admin = 2
rank owner = 3

-- Whatever a seat may do, every seat of the same or a higher rank may do, in the order investor,
-- operator, admin, owner.
pub seats_nested :
    (low high : Role) (p : String)
    → rank low ≤ rank high
    → may_name low p ≡ true
    → may_name high p ≡ true
unfolding may_name permissions
seats_nested low high p r h = ground (
  arith,
  str_contains-all seat_investor seat_operator p refl,
  str_contains-all seat_operator seat_admin p refl,
  str_contains-all seat_admin seat_owner p refl,
)
