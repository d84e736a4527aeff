-- ===== src/Users/Profile.antt =====
-- domain/src/users.rs: the editable profile and the parsers of its fields. `validate_phone` stands
-- for `ev::types::PhoneNumber::validate`, whose error it returns as its display text.
pub mod Idempotent
pub mod Dates
mod Tests
use concierge.Prelude.{
  ℕ, suc, ◌+◌, ◌-◌, ◌*◌, ◌%◌, String, List, [], ◌∷◌, Bool, true, false, not, ◌&&◌, ◌||◌, Option,
  none, some, map, all, any, count_p, length, take, drop, is_empty, ltb, leb, ◌==◌, if◌then◌else◌,
}
use concierge.Errors.{
  DomainError, validation, say, lit, num, text, Result, ok, err, ◌>>=◌, ◌>>◌, ensure,
}
use concierge.Text.{
  Text, codes, trim, bytes, split, same_text, is_ascii_digit, is_ascii_alphabetic,
  is_ascii_alphanumeric, is_ascii_lowercase,
}
use concierge.Users.Identity.{Unicode}
use concierge.Users.Fields.{
  check_len, days_in_month, is_date_shape, decimal, bad_date, between, is_calendar_date,
  accept_date, is_control, accept_address, bad_language, is_subtag, is_language, accept_language,
  to_ascii_uppercase, accept_currency, iana_areas, bad_timezone, is_location, is_iana,
  accept_timezone,
}

pub record ProfileFields : Type 0 where
  pub legal_name : Option Text
  pub preferred_name : Option Text
  pub phone : Option Text
  pub date_of_birth : Option Text
  pub nationality : Option Text
  pub tax_residence : Option Text
  pub residential_address : Option Text
  pub language : Option Text
  pub base_currency : Option Text
  pub timezone : Option Text

-- `ProfileFields::default()`.
abbrev pub no_fields : ProfileFields
no_fields = record {
  legal_name = none;
  preferred_name = none;
  phone = none;
  date_of_birth = none;
  nationality = none;
  tax_residence = none;
  residential_address = none;
  language = none;
  base_currency = none;
  timezone = none;
}

-- A blank value clears the field.
abbrev pub not_blank : Text → Option Text
not_blank t = if is_empty t then none else some t

unfoldable pub normalized : Option Text → Option Text
normalized none = none
normalized (some v) = not_blank (trim v)

-- `let Some(value) = normalized(value) else { return Ok(None) }`.
abbrev pub on_value : Option Text → (Text → Result (Option Text)) → Result (Option Text)
on_value none accept = ok none
on_value (some v) accept = accept v

abbrev pub parse_date_of_birth : Option Text → Result (Option Text)
parse_date_of_birth value = on_value (normalized value) accept_date

abbrev pub parse_address : Option Text → Result (Option Text)
parse_address value = on_value (normalized value) accept_address

abbrev pub parse_language : Option Text → Result (Option Text)
parse_language value = on_value (normalized value) accept_language

abbrev pub parse_currency : Option Text → Result (Option Text)
parse_currency value = on_value (normalized value) accept_currency

abbrev pub parse_timezone : Option Text → Result (Option Text)
parse_timezone value = on_value (normalized value) accept_timezone

module _ (u : Unicode) (validate_phone : Text → Option Text) where
  unfoldable pub accept_name : String → ℕ → Text → Result (Option Text)
  unfolding check_len
  accept_name field max value = do
    check_len field value max
    ensure
        (all (λ c. u.is_alphabetic c || ((c == b' ') || (c == b'-') || (c == 0x27) || (c == b'.')))
          value)
        (validation (
          lit field
          ∷ lit " may only contain letters, spaces, hyphens, apostrophes, and periods"
          ∷ []))
    ensure (not (ltb (count_p u.is_alphabetic value) 2))
        (validation (lit field ∷ lit " must contain at least 2 letters" ∷ []))
    ok (some value)

  -- The result of the phone validation.
  abbrev pub phone_verdict : Text → Option Text → Result (Option Text)
  phone_verdict value none = ok (some value)
  phone_verdict value (some problem) = err (validation (text problem ∷ []))

  unfoldable pub accept_phone : Text → Result (Option Text)
  unfolding check_len
  accept_phone value = do check_len "phone" value 32; phone_verdict value (validate_phone value)

  abbrev pub parse_name : String → Option Text → ℕ → Result (Option Text)
  parse_name field value max = on_value (normalized value) (accept_name field max)

  abbrev pub parse_phone : Option Text → Result (Option Text)
  parse_phone value = on_value (normalized value) accept_phone

  -- `ProfileFields::parse`.
  unfoldable pub parse_profile : ProfileFields → Result ProfileFields
  parse_profile raw = do
    legal_name ← parse_name "legal_name" raw.legal_name 256
    preferred_name ← parse_name "preferred_name" raw.preferred_name 64
    phone ← parse_phone raw.phone
    date_of_birth ← parse_date_of_birth raw.date_of_birth
    nationality ← parse_name "nationality" raw.nationality 64
    tax_residence ← parse_name "tax_residence" raw.tax_residence 64
    residential_address ← parse_address raw.residential_address
    language ← parse_language raw.language
    base_currency ← parse_currency raw.base_currency
    timezone ← parse_timezone raw.timezone
    ok (record {
      legal_name = legal_name;
      preferred_name = preferred_name;
      phone = phone;
      date_of_birth = date_of_birth;
      nationality = nationality;
      tax_residence = tax_residence;
      residential_address = residential_address;
      language = language;
      base_currency = base_currency;
      timezone = timezone;
    })
