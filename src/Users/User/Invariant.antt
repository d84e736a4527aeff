-- ===== src/Users/User/Invariant.antt =====
-- What holds of an account after any acts.
use concierge.Prelude.{ℕ, ◌≤◌, List, [], ◌∷◌, Bool, true, Option, none, ◌≡◌, ◌⊎◌, arith}
use concierge.Errors.{Result}
use concierge.Users.Identity.{AuthSubject, Email, Username}
use concierge.Users.UserStatus.{disabled}
use concierge.Users.Profile.{ProfileFields}
use concierge.Users.Account.{User, provision}
use concierge.Users.User.{
  change_email, verify_email, revoke_tokens, take_over, set_username, update_profile, disable, hold,
  suspend, enable, lapse_hold, set_kyc_level, set_role,
}
use concierge.Users.User.Steps.{
  Act, changes_email, verifies_email, revokes, takes_over, sets_username, updates_profile, disables,
  holds, suspends, enables, lapses, sets_kyc_level, sets_role, step, run,
}

-- The invariant of an account.
pub record IsConsistent (user : User) : Type 0 where
  pub kyc_capped : user.kyc_level ≤ 3
  -- A tier is held only by whoever proved the mailbox.
  pub kyc_verified : (user.kyc_level ≡ 0) ⊎ (user.email_verified ≡ true)
  -- An active account has no reason to be frozen.
  pub active_free : (user.status ≡ disabled) ⊎ (user.suspension ≡ none)

provision-IsConsistent :
    (id : ℕ) (subject : AuthSubject) (email : Email) (verified : Bool) (name : Option Username)
    → IsConsistent (provision id subject email verified name)
unfolding provision
provision-IsConsistent id subject email verified name = ground arith

module _ (parse : ProfileFields → Result ProfileFields) where
  step-IsConsistent : (user : User) (a : Act) → IsConsistent user → IsConsistent (step parse user a)
  unfolding step change_email verify_email revoke_tokens take_over set_username update_profile
      disable hold suspend enable lapse_hold set_kyc_level set_role
  step-IsConsistent user (changes_email email verified) c = ground arith
  step-IsConsistent user verifies_email c = ground arith
  step-IsConsistent user revokes c = ground arith
  step-IsConsistent user takes_over c = ground arith
  step-IsConsistent user (sets_username name) c = ground arith
  step-IsConsistent user (updates_profile fields) c = ground arith
  step-IsConsistent user disables c = ground arith
  step-IsConsistent user (holds by now pending) c = ground arith
  step-IsConsistent user suspends c = ground arith
  step-IsConsistent user (enables now) c = ground arith
  step-IsConsistent user (lapses now) c = ground arith
  step-IsConsistent user (sets_kyc_level level) c = ground arith
  step-IsConsistent user (sets_role role) c = ground arith

  run-IsConsistent :
      (user : User) (acts : List Act) → IsConsistent user → IsConsistent (run parse user acts)
  unfolding run
  run-IsConsistent user [] c = c
  run-IsConsistent user (a ∷ acts) c =
      run-IsConsistent (step parse user a) acts (step-IsConsistent user a c)

  -- After any acts on a provisioned account its tier is at most 3, a tier above 0 means a verified
  -- email, and an active account carries no suspension.
  pub run-provision-IsConsistent :
      (id : ℕ) (subject : AuthSubject) (email : Email) (verified : Bool) (name : Option Username)
      (acts : List Act)
      → IsConsistent (run parse (provision id subject email verified name) acts)
  run-provision-IsConsistent id subject email verified name acts =
      run-IsConsistent _ acts (provision-IsConsistent id subject email verified name)
