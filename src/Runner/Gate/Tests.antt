-- ===== src/Runner/Gate/Tests.antt =====
-- The first boots of a fund: subject 7 of the list acts before anybody holds a seat, and not after.
use concierge.Prelude.{[], ◌∷◌, true, false, Option, none, some, ◌≡◌, ◌↔◌, ◌⊎◌, refl, arith}
use concierge.Prelude.Int.{pos}
use concierge.Errors.{ok}
use concierge.Text.{Text, same_text}
use concierge.Authz.{may}
use concierge.Authz.Permissions.{Users, users_permission}
use concierge.Authz.Role.{owner, investor}
use concierge.Governance.Peer.{UserId}
use concierge.Users.UserStatus.{active}
use concierge.Runner.Gate.{
  Uuid, access, Claims, granted, AuthzRecord, Registry, CallerGate, emergency, persisted,
  BreakGlass, lookup, caller_gate, caller_role, require_permission, admit, is_access, lists,
  snapshot, by_count, elevates, after_gate, effective, role_of,
}
use concierge.Runner.Gate.Parts.{is_granted, Elevated, Live}
use concierge.Runner.Gate.Rules.{require_permission_record}
use concierge.Runner.Gate.Sealed.{serve, caller_role-Elevated, caller_role_sealed}

-- Ids that print as one character.
abbrev pub one_char : Text → Option UserId
one_char (c ∷ []) = some c
one_char _ = none

abbrev pub uuid : Uuid
uuid = record { parse_str = one_char; to_string = λ id. id ∷ []; parse_str-to_string = λ id. refl }

abbrev claims : Claims
claims = record {
  sub = 7 ∷ [];
  iss = [];
  aud = [];
  exp = 2000;
  iat = 1000;
  typ = access;
  jti = none;
  token_version = 0;
}

abbrev listed : BreakGlass
listed = record { subjects = (7 ∷ []) ∷ []; elevates = (7 ∷ []) ∷ []; sealed = false }

abbrev nobody : Registry
nobody = record { authz_record = λ id. ok none; owner_count = ok (pos 0) }

abbrev member : AuthzRecord
member = record { role = investor; status = active; token_version = 0 }

abbrev two_owners : Registry
two_owners = record { authz_record = λ id. ok (some member); owner_count = ok (pos 2) }

abbrev at_gate : Option AuthzRecord → CallerGate
at_gate found = record { sub = 7 ∷ []; id = some 7; found = found }

require_permission_record_example :
    (is_granted (require_permission uuid listed two_owners (some claims) Users.read).1 ≡ true) ↔ (
      (claims.typ ≡ access)
      × Live claims member
      × ((may investor Users.read ≡ true)
          ⊎ (Elevated listed two_owners claims.sub × (may owner Users.read ≡ true))))
require_permission_record_example =
    require_permission_record uuid listed two_owners claims member Users.read
      (unfold lookup in refl)

caller_role-Elevated_example :
    (owner ≡ owner)
    × (caller : CallerGate) × (caller_gate uuid nobody (some claims) ≡ granted caller)
    × Elevated listed nobody caller.sub
caller_role-Elevated_example =
    caller_role-Elevated uuid listed nobody (some claims) emergency
      (unfold caller_role caller_gate is_access lookup admit after_gate snapshot by_count effective
          elevates lists same_text in
        refl)
      refl

caller_role_sealed_example : (persisted investor).break_glass ≡ false
caller_role_sealed_example =
    caller_role_sealed uuid listed two_owners two_owners (some claims) (some claims)
      (at_gate (some member)) (pos 2) ((nobody, some claims) ∷ []) (persisted investor)
      (unfold caller_gate is_access lookup admit in refl) refl (λ e. ground arith)
      (unfold serve caller_role caller_gate is_access lookup admit after_gate snapshot by_count
          effective role_of elevates lists same_text in
        refl)
