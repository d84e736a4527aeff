-- ===== src/Users/Account.antt =====
-- domain/src/users.rs: the `User` record, its bounds, and how an account begins: provisioned, or
-- loaded from its row. The source's getters are the fields.
use concierge.Prelude.{ℕ, ◌+◌, ◌%◌, List, [], ◌∷◌, ◌++◌, Bool, Option, none}
use concierge.Prelude.Int.{ℤ, pos}
use concierge.Authz.Role.{Role}
use concierge.Users.Identity.{AuthSubject, Email, Username}
use concierge.Users.UserStatus.{UserStatus, active}
use concierge.Users.Suspension.{Suspension}
use concierge.Users.UserEvent.{UserEvent}
use concierge.Users.Profile.{ProfileFields, no_fields}

-- The inclusive ceiling of the KYC tiers.
abbrev pub max_kyc_level : ℕ
max_kyc_level = 3

-- 24 * 60 * 60.
abbrev pub hold_ttl_secs : ℤ
hold_ttl_secs = pos 86400

-- 7 * 24 * 60 * 60.
abbrev pub hold_cooldown_secs : ℤ
hold_cooldown_secs = pos 604800

-- `+= 1` on a u64.
abbrev pub bump : ℕ → ℕ
bump v = (v + 1) % 18446744073709551616

pub record User : Type 0 where
  pub id : ℕ
  pub auth_subject : AuthSubject
  pub email : Email
  pub email_verified : Bool
  pub username : Option Username
  pub status : UserStatus
  pub suspension : Option Suspension
  pub hold_ended_at : Option ℤ
  pub token_version : ℕ
  pub kyc_level : ℕ
  pub role : Role
  pub profile : ProfileFields
  pub row_version : ℕ
  pub pending : List UserEvent

unfoldable pub bump_and_emit : User → UserEvent → User
bump_and_emit user event = record user {
  row_version = bump user.row_version;
  pending = user.pending ++ event ∷ [];
}

unfoldable pub provision : ℕ → AuthSubject → Email → Bool → Option Username → User
unfolding bump_and_emit
provision id auth_subject email email_verified username =
    bump_and_emit
      (record {
        id = id;
        auth_subject = auth_subject;
        email = email;
        email_verified = email_verified;
        username = username;
        status = active;
        suspension = none;
        hold_ended_at = none;
        token_version = 0;
        kyc_level = 0;
        role = Role.investor;
        profile = no_fields;
        row_version = 0;
        pending = [];
      })
      UserEvent.created

unfoldable pub rehydrate :
    ℕ
    → AuthSubject
    → Email
    → Bool
    → Option Username
    → UserStatus
    → Option Suspension
    → Option ℤ
    → ℕ
    → ℕ
    → Role
    → ProfileFields
    → ℕ
    → User
rehydrate id auth_subject email email_verified username status suspension hold_ended_at
      token_version kyc_level role profile row_version =
    record {
      id = id;
      auth_subject = auth_subject;
      email = email;
      email_verified = email_verified;
      username = username;
      status = status;
      suspension = suspension;
      hold_ended_at = hold_ended_at;
      token_version = token_version;
      kyc_level = kyc_level;
      role = role;
      profile = profile;
      row_version = row_version;
      pending = [];
    }
