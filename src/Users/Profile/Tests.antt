-- ===== src/Users/Profile/Tests.antt =====
-- A profile over the letters of ASCII.
use concierge.Prelude.{◌+◌, none, some, map, if◌then◌else◌, ◌≡◌, refl, Option}
use concierge.Errors.{ok}
use concierge.Text.{Text, codes, is_ascii_uppercase, is_ascii_alphabetic, trim, is_whitespace}
use concierge.Users.Identity.{Unicode}
use concierge.Users.Fields.{accept_date, accept_currency, is_date_shape, is_calendar_date, decimal}
use concierge.Users.Profile.{ProfileFields, no_fields, parse_profile, accept_name, normalized}
use concierge.Users.Profile.Idempotent.{parse_profile_idem}

-- The tables of Unicode on ASCII, and no letters elsewhere.
abbrev ascii : Unicode
ascii = record {
  to_lowercase = λ s. map (λ c. if is_ascii_uppercase c then c + 32 else c) s;
  is_alphabetic = is_ascii_alphabetic;
  lowercase_ascii = λ s h. refl;
  alphabetic_ascii = λ c h. refl;
}

-- Every phone number is good.
abbrev any_phone : Text → Option Text
any_phone phone = none

abbrev raw : ProfileFields
raw = record no_fields {
  legal_name = some (codes " Ann Lee ");
  date_of_birth = some (codes "1990-02-28");
  base_currency = some (codes "usd");
}

abbrev parsed : ProfileFields
parsed = record no_fields {
  legal_name = some (codes "Ann Lee");
  date_of_birth = some (codes "1990-02-28");
  base_currency = some (codes "USD");
}

raw_parses : parse_profile ascii any_phone raw ≡ ok parsed
unfolding parse_profile normalized accept_name accept_date accept_currency trim is_whitespace
    is_date_shape is_calendar_date decimal
raw_parses = refl

parse_profile_idem_example : parse_profile ascii any_phone parsed ≡ ok parsed
parse_profile_idem_example = parse_profile_idem ascii any_phone raw parsed raw_parses
