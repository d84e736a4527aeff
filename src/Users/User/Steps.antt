-- ===== src/Users/User/Steps.antt =====
-- The life of an account as a sequence of acts. An act that fails leaves the account as it was.
-- `parse` stands for `ProfileFields::parse`.
use concierge.Prelude.{ℕ, List, [], ◌∷◌, Bool}
use concierge.Prelude.Int.{ℤ}
use concierge.Errors.{Result, ok, err}
use concierge.Authz.Role.{Role}
use concierge.Users.Identity.{Email, Username}
use concierge.Users.Profile.{ProfileFields}
use concierge.Users.Account.{User}
use concierge.Users.User.{
  change_email, verify_email, revoke_tokens, take_over, set_username, update_profile, disable, hold,
  suspend, enable, lapse_hold, set_kyc_level, set_role,
}

pub data Act : Type 0 where
  changes_email : Email → Bool → Act
  verifies_email : Act
  revokes : Act
  takes_over : Act
  sets_username : Username → Act
  updates_profile : ProfileFields → Act
  disables : Act
  holds : (by : Role) (now : ℤ) (ratification_pending : Bool) → Act
  suspends : Act
  enables : (now : ℤ) → Act
  lapses : (now : ℤ) → Act
  sets_kyc_level : ℕ → Act
  sets_role : Role → Act

abbrev pub after : User → Result User → User
after user (ok changed) = changed
after user (err e) = user

module _ (parse : ProfileFields → Result ProfileFields) where
  unfoldable pub step : User → Act → User
  step user (changes_email email verified) = change_email user email verified
  step user verifies_email = verify_email user
  step user revokes = (revoke_tokens user).0
  step user takes_over = take_over user
  step user (sets_username name) = set_username user name
  step user (updates_profile fields) = after user (update_profile parse user fields)
  step user disables = disable user
  step user (holds by now ratification_pending) = after user (hold user by now ratification_pending)
  step user suspends = suspend user
  step user (enables now) = enable user now
  step user (lapses now) = (lapse_hold user now).0
  step user (sets_kyc_level level) = after user (set_kyc_level user level)
  step user (sets_role role) = set_role user role

  unfoldable pub run : User → List Act → User
  run user [] = user
  run user (a ∷ acts) = run (step user a) acts
