-- ===== src/Users/User.antt =====
-- domain/src/users.rs: the `User` aggregate, its transitions and the events that it raises. The
-- source's getters are the fields. The counters are u64, and their increments wrap as a release
-- build's do. A transition on `&mut self` returns the new user; one that may fail returns its error
-- before its first write.
pub mod Steps
pub mod Invariant
pub mod Brake
pub mod Mirror
mod Tests
use concierge.Prelude.{
  ℕ, ◌+◌, ◌/◌, ◌%◌, ◌<◌, List, [], ◌∷◌, ◌++◌, Bool, true, false, not, ◌&&◌, ◌||◌, Option, none,
  some, ltb, ◌==◌, if◌then◌else◌,
}
use concierge.Prelude.Int.{ℤ, pos, ltb_ℤ, min_ℤ, saturating_add}
use concierge.Errors.{
  DomainError, conflict, validation, forbidden, precondition, say, lit, num, int, Result, ok, err,
  ◌>>=◌, ◌>>◌, ensure,
}
use concierge.Text.{Text, same_text}
use concierge.Authz.Role
use concierge.Authz.Role.{Role}
use concierge.Users.Identity.{AuthSubject, Email, Username}
use concierge.Users.UserStatus.{UserStatus, active, disabled, is_active}
use concierge.Users.Suspension
use concierge.Users.Suspension.{Suspension, admin_hold, governance}
use concierge.Users.UserEvent
use concierge.Users.UserEvent.{UserEvent}
use concierge.Users.Profile.{ProfileFields, no_fields}
use concierge.Users.Account.{
  max_kyc_level, hold_ttl_secs, hold_cooldown_secs, bump, User, bump_and_emit, provision, rehydrate,
}

-- `==` on flags.
abbrev pub same_flag : Bool → Bool → Bool
same_flag true b = b
same_flag false b = not b

unfoldable pub change_email : User → Email → Bool → User
change_email user email verified =
    if user.email_verified && not verified
    then user
    else if same_text user.email.address email.address && same_flag user.email_verified verified
    then user
    else record user {
      email = email;
      email_verified = verified;
      row_version = bump user.row_version;
    }

unfoldable pub verify_email : User → User
verify_email user =
    if user.email_verified
    then user
    else record user { email_verified = true; row_version = bump user.row_version }

-- The new user, and the new token version.
unfoldable pub revoke_tokens : User → User × ℕ
unfolding bump_and_emit
revoke_tokens user =
    let revoked =
      bump_and_emit (record user { token_version = bump user.token_version })
        UserEvent.sessions_revoked in
    (revoked, revoked.token_version)

unfoldable pub take_over : User → User
unfolding verify_email revoke_tokens
take_over user = (revoke_tokens (verify_email user)).0

-- `self.username.as_ref() == Some(&username)`.
abbrev pub has_username : Option Username → Username → Bool
has_username none name = false
has_username (some old) name = same_text old.handle name.handle

unfoldable pub set_username : User → Username → User
set_username user name =
    if has_username user.username name
    then user
    else record user { username = some name; row_version = bump user.row_version }

-- `parse` is `ProfileFields::parse`.
unfoldable pub update_profile :
    (ProfileFields → Result ProfileFields) → User → ProfileFields → Result User
update_profile parse user fields = do
  profile ← parse fields
  ok (record user { profile = profile; row_version = bump user.row_version })

-- The one writer of `status = disabled`.
unfoldable pub suspend_as : User → Option Suspension → User
unfolding bump_and_emit
suspend_as user by =
    let frozen = record user { status = disabled; suspension = by } in
    if is_active user.status then bump_and_emit frozen UserEvent.suspended else frozen

unfoldable pub disable : User → User
unfolding suspend_as
disable user = suspend_as user none

-- `self.suspension == Some(Suspension::Governance)`.
abbrev pub is_governance : Option Suspension → Bool
is_governance (some governance) = true
is_governance _ = false

-- `self.suspension.and_then(Suspension::hold_expires_at)`.
abbrev pub hold_deadline : Option Suspension → Option ℤ
hold_deadline none = none
hold_deadline (some governance) = none
hold_deadline (some (admin_hold expires_at)) = some expires_at

abbrev pub is_privileged : Role → Bool
is_privileged Role.admin = true
is_privileged Role.owner = true
is_privileged _ = false

-- The refusal of a second hold while one is live.
abbrev pub refuse_live : Option ℤ → Result (Unit {0})
refuse_live none = ok tt
refuse_live (some expires_at) = err (
    forbidden (
      lit "this account is already held until "
      ∷ int expires_at
      ∷ lit
          "; a hold is not renewed by holding again — keeping it frozen past that is the owners' decision, through GovernanceService.OpenUserSuspension, and the hold extends while they decide"
      ∷ []))

-- The refusal of a second hold within the cooldown.
abbrev pub refuse_cooldown : Option ℤ → ℤ → Result (Unit {0})
refuse_cooldown none now = ok tt
refuse_cooldown (some ended_at) now =
    ensure (not (ltb_ℤ now (saturating_add ended_at hold_cooldown_secs))) (
      forbidden (
        lit "a hold on this account ended at "
        ∷ int ended_at
        ∷ lit ", less than "
        ∷ num 7
        ∷ lit
            " days ago; a second one needs the owners — open GovernanceService.OpenUserSuspension, and the account may be held again while they decide"
        ∷ []))

-- One operator's emergency brake. `by` is the role of whoever presses it.
unfoldable pub hold : User → Role → ℤ → Bool → Result User
unfolding suspend_as Role.same
hold user by now ratification_pending = do
  ensure (not (is_governance user.suspension)) (
      conflict (
        say "this account is suspended by the owner consilium; a hold cannot replace that verdict"))
  ensure (not (is_privileged user.role && not (Role.same by Role.owner))) (
      forbidden (
        lit "an account holding the "
        ∷ lit (Role.as_str user.role)
        ∷ lit
            " seat is held only by a fund owner; anyone else asks the owners through GovernanceService.OpenUserSuspension"
        ∷ []))
  if ratification_pending
      then ok tt
      else do refuse_live (hold_deadline user.suspension); refuse_cooldown user.hold_ended_at now
  ok (suspend_as user (some (admin_hold (saturating_add now hold_ttl_secs))))

-- The owners' ratified verdict.
unfoldable pub suspend : User → User
unfolding suspend_as
suspend user = suspend_as user (some governance)

-- When a hold that is lifted now ended: at its deadline, if that has passed.
abbrev pub ended_at : User → ℤ → Option ℤ
ended_at user now = elim (hold_deadline user.suspension) [
  | none ↦ user.hold_ended_at
  | some expires_at ↦ some (min_ℤ now expires_at)
]

unfoldable pub enable : User → ℤ → User
unfolding bump_and_emit
enable user now =
    let lifted = record user { hold_ended_at = ended_at user now; suspension = none } in
    if is_active user.status
    then lifted
    else bump_and_emit (record lifted { status = active }) UserEvent.reinstated

-- Let a due hold fall away; true when it did.
unfoldable pub lapse_hold : User → ℤ → User × Bool
unfolding enable
lapse_hold user now = elim (hold_deadline user.suspension) [
  | none ↦ (user, false)
  | some expires_at ↦ if ltb_ℤ now expires_at then (user, false) else (enable user now, true)
]

-- The one writer of the level.
unfoldable pub set_kyc_level : User → ℕ → Result User
unfolding bump_and_emit
set_kyc_level user level = do
  ensure (not (ltb max_kyc_level level))
      (validation (lit "kyc_level must be between 0 and " ∷ num max_kyc_level ∷ []))
  ensure (not (ltb 0 level && not user.email_verified))
      (precondition (say "a KYC level above 0 needs a verified email"))
  if user.kyc_level == level
      then ok user
      else ok (bump_and_emit (record user { kyc_level = level }) UserEvent.kyc_changed)

unfoldable pub set_role : User → Role → User
unfolding bump_and_emit Role.same
set_role user role =
    if Role.same user.role role
    then user
    else bump_and_emit (record user { role = role }) UserEvent.role_changed

-- `EmitsEvents::drain_events`.
unfoldable pub drain_events : User → List UserEvent × User
drain_events user = (user.pending, record user { pending = [] })
