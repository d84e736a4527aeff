-- ===== src/Runner/Gate.antt =====
-- runner/src/authz.rs: the gate of the admin surface and the emergency access that closes itself.
-- The claims are those of a verified token (auth/src/claims.rs). The repository is what it answers
-- while a request is served; `sealed` is passed from request to request. Races between requests can
-- only repeat the store of `true`.
pub mod Parts
pub mod Rules
pub mod Sealed
pub mod Tests
use concierge.Prelude.{
  ℕ, String, List, [], ◌∷◌, Bool, true, false, not, ◌&&◌, ◌||◌, Option, none, some, ltb, is_empty,
  if◌then◌else◌, ◌≡◌,
}
use concierge.Prelude.Int.{ℤ, pos, negsuc}
use concierge.Errors.{DomainError, validation, Result, ok, err}
use concierge.Text.{Text, trim, same_text}
use concierge.Authz.{may}
use concierge.Authz.Permissions.{Permission}
use concierge.Authz.Role.{Role}
use concierge.Governance.Peer.{UserId}
use concierge.Users.UserStatus.{UserStatus, active, disabled}

-- The crate `uuid`: an id is printed in one canonical form, which parses back to it.
pub record Uuid : Type 0 where
  pub parse_str : Text → Option UserId
  pub to_string : UserId → Text
  pub parse_str-to_string : (id : UserId) → parse_str (to_string id) ≡ some id

pub data TokenType : Type 0 where
  access service : TokenType

pub record Claims : Type 0 where
  pub sub : Text
  pub iss : Text
  pub aud : Text
  pub exp : ℕ
  pub iat : ℕ
  pub typ : TokenType
  pub jti : Option Text
  pub token_version : ℕ

unfoldable pub is_access : Claims → Bool
is_access c = elim c.typ [ access ↦ true | service ↦ false ]

-- The refusals of tonic that the gate returns, each with its message.
pub data Status : Type 0 where
  unauthenticated permission_denied internal unavailable : String → Status

pub data Reply (A : Type 0) : Type 0 where
  granted : A → Reply A
  refused : Status → Reply A

pub record AuthzRecord : Type 0 where
  pub role : Role
  pub status : UserStatus
  pub token_version : ℕ

-- What the repository of users answers.
pub record Registry : Type 0 where
  pub authz_record : UserId → Result (Option AuthzRecord)
  pub owner_count : Result ℤ

pub record CallerGate : Type 0 where
  pub sub : Text
  pub id : Option UserId
  pub found : Option AuthzRecord

unfoldable pub map_err : DomainError → Status
map_err (validation m) = internal "corrupt role in control plane"
map_err _ = unavailable "internal error"

-- `authz_record` of an id that may be missing.
unfoldable pub lookup : Registry → Option UserId → Result (Option AuthzRecord)
lookup registry none = ok none
lookup registry (some id) = registry.authz_record id

abbrev pub is_disabled : UserStatus → Bool
is_disabled active = false
is_disabled disabled = true

-- The gate on the live record: its status, and the floor of the token's version.
unfoldable pub admit : Claims → Option UserId → Result (Option AuthzRecord) → Reply CallerGate
unfolding map_err
admit c id (err e) = refused (map_err e)
admit c id (ok none) = granted (record { sub = c.sub; id = id; found = none })
admit c id (ok (some r)) =
    if is_disabled r.status
    then refused (permission_denied "user is disabled")
    else if ltb c.token_version r.token_version
    then refused (unauthenticated "tokens revoked")
    else granted (record { sub = c.sub; id = id; found = some r })

pub record EffectiveRole : Type 0 where
  pub role : Role
  pub break_glass : Bool

abbrev pub persisted : Role → EffectiveRole
persisted role = record { role = role; break_glass = false }

abbrev pub emergency : EffectiveRole
emergency = record { role = Role.owner; break_glass = true }

pub record BreakGlass : Type 0 where
  pub subjects : List Text
  pub elevates : List Text
  pub sealed : Bool

-- The rule frozen for one request.
pub record Elevation : Type 0 where
  pub subjects : Option (List Text)

abbrev pub is_zero : ℤ → Bool
is_zero (pos n) = not (ltb 0 n)
is_zero (negsuc n) = false

-- The match on the owner count.
unfoldable pub by_count : BreakGlass → Result ℤ → BreakGlass × Elevation
by_count b (err e) = (b, record { subjects = none })
by_count b (ok n) =
    if is_zero n
    then (b, record { subjects = some b.elevates })
    else (record b { sealed = true }, record { subjects = none })

unfoldable pub snapshot : BreakGlass → Registry → BreakGlass × Elevation
unfolding by_count
snapshot b registry =
    if is_empty b.elevates || b.sealed
    then (b, record { subjects = none })
    else by_count b registry.owner_count

-- `iter().any(|s| s == sub)`.
unfoldable pub lists : List Text → Text → Bool
lists [] sub = false
lists (s ∷ subjects) sub = same_text s sub || lists subjects sub

unfoldable pub elevates : Elevation → Text → Bool
elevates e sub = elim e.subjects [ none ↦ false | some subjects ↦ lists subjects sub ]

unfoldable pub role_of : Elevation → Role → Text → EffectiveRole
unfolding elevates
role_of e role sub = if elevates e sub then emergency else persisted role

-- The role of a caller who passed the gate.
unfoldable pub effective : Elevation → CallerGate → Reply EffectiveRole
unfolding role_of
effective e caller = elim caller.found [
  | some r ↦ granted (role_of e r.role caller.sub)
  | none ↦ if elevates e caller.sub then granted emergency else elim caller.id [
    | none ↦ refused (unauthenticated "subject is not a user id")
    | some id ↦ refused (permission_denied "insufficient role")
  ]
]

-- What follows the gate in `caller_role`.
unfoldable pub after_gate :
    BreakGlass → Registry → Reply CallerGate → BreakGlass × Reply EffectiveRole
unfolding snapshot effective
after_gate b registry (refused s) = (b, refused s)
after_gate b registry (granted caller) =
    let (later, elevation) = snapshot b registry in (later, effective elevation caller)

unfoldable pub authorize :
    {A : Type 0} ⦃p : Permission A⦄ → A → Reply EffectiveRole → Reply (Unit {0})
authorize permission (refused s) = refused s
authorize permission (granted r) =
    if may r.role permission then granted tt else refused (permission_denied "insufficient role")

module _ (uuid : Uuid) where
  -- The ids among the configured subjects, in canonical form.
  unfoldable pub canonical : List Text → List Text
  canonical [] = []
  canonical (entry ∷ subjects) = elim (uuid.parse_str (trim entry)) [
    | none ↦ canonical subjects
    | some id ↦ uuid.to_string id ∷ canonical subjects
  ]

  -- `BreakGlass::new`.
  unfoldable pub new : List Text → BreakGlass
  unfolding canonical
  new subjects = record { subjects = subjects; elevates = canonical subjects; sealed = false }

  unfoldable pub caller_gate : Registry → Option Claims → Reply CallerGate
  unfolding is_access lookup admit
  caller_gate registry none = refused (unauthenticated "missing claims")
  caller_gate registry (some c) =
      if is_access c
      then admit c (uuid.parse_str c.sub) (lookup registry (uuid.parse_str c.sub))
      else refused (permission_denied "access token required")

  unfoldable pub caller_role :
      BreakGlass → Registry → Option Claims → BreakGlass × Reply EffectiveRole
  unfolding caller_gate after_gate
  caller_role b registry claims = after_gate b registry (caller_gate registry claims)

  unfoldable pub require_permission :
      {A : Type 0} ⦃p : Permission A⦄
      → BreakGlass
      → Registry
      → Option Claims
      → A
      → BreakGlass × Reply (Unit {0})
  unfolding caller_role authorize
  require_permission b registry claims permission =
      let (later, reply) = caller_role b registry claims in (later, authorize permission reply)
