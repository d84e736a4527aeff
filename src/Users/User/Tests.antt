-- ===== src/Users/User/Tests.antt =====
-- An account that is provisioned, held by an admin, and reinstated when the hold lapses.
use concierge.Prelude.{List, [], ◌∷◌, true, false, none, some, ◌≡◌, ◌≢◌, ◌↔◌, ◌⊎◌, refl, arith}
use concierge.Prelude.Int.{pos, ◌≤ℤ◌, saturating_add}
use concierge.Errors.{Result, ok, is_ok}
use concierge.Text.{codes}
use concierge.Authz.Role.{Role}
use concierge.Users.Identity.{AuthSubject, Email}
use concierge.Users.UserEvent.{UserEvent}
use concierge.Users.UserStatus.{active, disabled}
use concierge.Users.Suspension.{admin_hold, governance}
use concierge.Users.Profile.{ProfileFields, no_fields}
use concierge.Users.Account.{User, provision, hold_cooldown_secs}
use concierge.Users.User.{hold, lapse_hold, hold_deadline, is_privileged}
use concierge.Users.User.Steps.{
  Act, verifies_email, holds, lapses, sets_kyc_level, sets_role, step, run,
}
use concierge.Users.User.Invariant.{IsConsistent, run-provision-IsConsistent}
use concierge.Users.User.Mirror.{IsMirrored, run-provision-IsMirrored}
use concierge.Users.User.Brake.{CooledDown, hold_iff, hold_cooldown}

abbrev subject : AuthSubject
subject = record { subject = codes "auth0|7" }

abbrev email : Email
email = record { address = codes "ann@example.com" }

abbrev parse : ProfileFields → Result ProfileFields
parse fields = ok fields

abbrev ann : User
ann = record {
  id = 7;
  auth_subject = subject;
  email = email;
  email_verified = false;
  username = none;
  status = active;
  suspension = none;
  hold_ended_at = none;
  token_version = 0;
  kyc_level = 0;
  role = Role.investor;
  profile = no_fields;
  row_version = 1;
  pending = UserEvent.created ∷ [];
}

ann_provisioned : provision 7 subject email false none ≡ ann
unfolding provision
ann_provisioned = refl

abbrev held : User
held = record ann {
  status = disabled;
  suspension = some (admin_hold (pos 87400));
  row_version = 2;
  pending = UserEvent.created ∷ UserEvent.suspended ∷ [];
}

hold-ann : hold ann Role.admin (pos 1000) false ≡ ok held
unfolding hold saturating_add
hold-ann = refl

-- A verified mailbox, a tier, a hold, its end, and a promotion.
abbrev acts : List Act
acts =
    verifies_email
    ∷ sets_kyc_level 2
    ∷ holds Role.admin (pos 1000) false
    ∷ lapses (pos 90000)
    ∷ sets_role Role.operator
    ∷ []

run-provision-IsConsistent_example :
    IsConsistent (run parse (provision 7 subject email false none) acts)
run-provision-IsConsistent_example =
    run-provision-IsConsistent parse 7 subject email false none acts

run-provision-IsMirrored_example :
    IsMirrored (run parse (provision 7 subject email false none) acts)
run-provision-IsMirrored_example = run-provision-IsMirrored parse 7 subject email false none acts

hold_iff_example : (is_ok (hold ann Role.admin (pos 1000) false) ≡ true) ↔ (
    (ann.suspension ≢ some governance)
    × ((is_privileged ann.role ≡ false) ⊎ (Role.admin ≡ Role.owner))
    × ((false ≡ true)
        ⊎ ((hold_deadline ann.suspension ≡ none) × CooledDown ann.hold_ended_at (pos 1000))))
hold_iff_example = hold_iff ann Role.admin (pos 1000) false

-- The hold lapses a day on, and is placed again eight days on.
abbrev waiting : List Act
waiting = lapses (pos 90000) ∷ []

abbrev held_again : User
held_again = record ann {
  status = disabled;
  suspension = some (admin_hold (pos 846400));
  hold_ended_at = some (pos 87400);
  row_version = 4;
  pending =
      UserEvent.created ∷ UserEvent.suspended ∷ UserEvent.reinstated ∷ UserEvent.suspended ∷ [];
}

hold_cooldown_example : saturating_add (pos 1000) hold_cooldown_secs ≤ℤ pos 760000
hold_cooldown_example =
    hold_cooldown parse ann held held_again waiting Role.admin Role.admin (pos 1000) (pos 760000)
      false (omega arith) hold-ann (omega arith)
      (unfold run step lapse_hold hold saturating_add in refl)
