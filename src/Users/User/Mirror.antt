-- ===== src/Users/User/Mirror.antt =====
-- What the money plane learns of an account from its events.
use concierge.Prelude.{
  ℕ, ◌+◌, ◌%◌, List, [], ◌∷◌, ◌++◌, Bool, true, false, not, Option, ◌≡◌, arith, count_p,
  if◌then◌else◌,
}
use concierge.Errors.{Result}
use concierge.Users.Identity.{AuthSubject, Email, Username}
use concierge.Users.UserStatus.{is_active}
use concierge.Users.UserEvent.{
  UserEvent, created, sessions_revoked, suspended, reinstated, kyc_changed, role_changed,
}
use concierge.Users.Profile.{ProfileFields}
use concierge.Users.Account.{User, provision}
use concierge.Users.User.{
  change_email, verify_email, revoke_tokens, take_over, set_username, update_profile, disable, hold,
  suspend, enable, lapse_hold, set_kyc_level, set_role,
}
use concierge.Users.User.Steps.{
  Act, changes_email, verifies_email, revokes, takes_over, sets_username, updates_profile, disables,
  holds, suspends, enables, lapses, sets_kyc_level, sets_role, step, run,
}

-- Whether the money plane holds the account frozen after one more event.
abbrev pub mirror_event : Bool → UserEvent → Bool
mirror_event frozen created = false
mirror_event frozen suspended = true
mirror_event frozen reinstated = false
mirror_event frozen _ = frozen

unfoldable pub mirror : Bool → List UserEvent → Bool
mirror frozen [] = frozen
mirror frozen (e ∷ es) = mirror (mirror_event frozen e) es

abbrev pub is_revoked : UserEvent → Bool
is_revoked sessions_revoked = true
is_revoked _ = false

mirror-snoc :
    (frozen : Bool) (es : List UserEvent) (e : UserEvent)
    → (mirror frozen (es ++ e ∷ []) ≡ mirror_event (mirror frozen es) e)
      × (count_p is_revoked (es ++ e ∷ [])
          ≡ count_p is_revoked es + (if is_revoked e then 1 else 0))
unfolding mirror
mirror-snoc frozen [] e = ground arith
mirror-snoc frozen (x ∷ es) e = ground (arith, mirror-snoc (mirror_event frozen x) es e)

-- The events tell whether the account is frozen and how often its sessions were revoked.
pub record IsMirrored (user : User) : Type 0 where
  pub freeze : mirror false user.pending ≡ not (is_active user.status)
  pub revocations : user.token_version ≡ count_p is_revoked user.pending % 18446744073709551616

provision-IsMirrored :
    (id : ℕ) (subject : AuthSubject) (email : Email) (verified : Bool) (name : Option Username)
    → IsMirrored (provision id subject email verified name)
unfolding provision mirror
provision-IsMirrored id subject email verified name = ground arith

module _ (parse : ProfileFields → Result ProfileFields) where
  step-IsMirrored : (user : User) (a : Act) → IsMirrored user → IsMirrored (step parse user a)
  unfolding step change_email verify_email revoke_tokens take_over set_username update_profile
      disable hold suspend enable lapse_hold set_kyc_level set_role
  step-IsMirrored user (changes_email email verified) m = ground arith
  step-IsMirrored user verifies_email m = ground arith
  step-IsMirrored user revokes m = ground (arith, mirror-snoc false user.pending sessions_revoked)
  step-IsMirrored user takes_over m =
      ground (arith, mirror-snoc false user.pending sessions_revoked)
  step-IsMirrored user (sets_username name) m = ground arith
  step-IsMirrored user (updates_profile fields) m = ground arith
  step-IsMirrored user disables m = ground (arith, mirror-snoc false user.pending suspended)
  step-IsMirrored user (holds by now pending) m =
      ground (arith, mirror-snoc false user.pending suspended)
  step-IsMirrored user suspends m = ground (arith, mirror-snoc false user.pending suspended)
  step-IsMirrored user (enables now) m = ground (arith, mirror-snoc false user.pending reinstated)
  step-IsMirrored user (lapses now) m = ground (arith, mirror-snoc false user.pending reinstated)
  step-IsMirrored user (sets_kyc_level level) m =
      ground (arith, mirror-snoc false user.pending kyc_changed)
  step-IsMirrored user (sets_role role) m =
      ground (arith, mirror-snoc false user.pending role_changed)

  run-IsMirrored :
      (user : User) (acts : List Act) → IsMirrored user → IsMirrored (run parse user acts)
  unfolding run
  run-IsMirrored user [] m = m
  run-IsMirrored user (a ∷ acts) m =
      run-IsMirrored (step parse user a) acts (step-IsMirrored user a m)

  -- After any acts on a provisioned account, the events replay to whether it is frozen, and their
  -- revocations count its token version modulo 2^64.
  pub run-provision-IsMirrored :
      (id : ℕ) (subject : AuthSubject) (email : Email) (verified : Bool) (name : Option Username)
      (acts : List Act)
      → IsMirrored (run parse (provision id subject email verified name) acts)
  run-provision-IsMirrored id subject email verified name acts =
      run-IsMirrored _ acts (provision-IsMirrored id subject email verified name)
