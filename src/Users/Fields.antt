-- ===== src/Users/Fields.antt =====
-- domain/src/users.rs: what each field of a profile accepts, once it is trimmed and not blank.
use concierge.Prelude.{
  ℕ, ◌+◌, ◌-◌, ◌*◌, ◌%◌, String, List, [], ◌∷◌, Bool, true, false, not, ◌&&◌, ◌||◌, Option, some,
  map, all, any, length, take, drop, is_empty, ltb, leb, ◌==◌, if◌then◌else◌,
}
use concierge.Errors.{DomainError, validation, say, lit, num, Result, ok, ◌>>◌, ensure}
use concierge.Text.{
  Text, codes, bytes, split, same_text, is_ascii_digit, is_ascii_alphabetic, is_ascii_alphanumeric,
  is_ascii_lowercase,
}

unfoldable pub check_len : String → Text → ℕ → Result (Unit {0})
check_len field value max =
    ensure (not (ltb max (length value)))
      (validation (lit field ∷ lit " must be at most " ∷ num max ∷ lit " characters" ∷ []))

-- The days of a month.
unfoldable pub days_in_month : ℕ → ℕ → ℕ
days_in_month year month =
    if any (λ m. month == m) (1 ∷ 3 ∷ 5 ∷ 7 ∷ 8 ∷ 10 ∷ 12 ∷ [])
    then 31
    else if any (λ m. month == m) (4 ∷ 6 ∷ 9 ∷ 11 ∷ [])
    then 30
    else if month == 2 && (year % 4 == 0 && (not (year % 100 == 0) || year % 400 == 0))
    then 29
    else 28

-- The test of each byte at its index: dashes at 4 and 7, digits elsewhere.
unfoldable pub is_date_shape : ℕ → List ℕ → Bool
is_date_shape i [] = true
is_date_shape i (b ∷ bs) =
    (if (i == 4) || (i == 7) then b == b'-' else is_ascii_digit b) && is_date_shape (i + 1) bs

-- `str::parse::<u32>` on digits.
unfoldable pub decimal : ℕ → List ℕ → ℕ
decimal n [] = n
decimal n (b ∷ bs) = decimal (n * 10 + (b - b'0')) bs

abbrev pub bad_date : DomainError
bad_date = validation (say "date_of_birth must be a valid YYYY-MM-DD date with year 1900-2100")

abbrev pub between : ℕ → ℕ → ℕ → Bool
between lo hi n = leb lo n && leb n hi

-- The test of year, month and day.
unfoldable pub is_calendar_date : ℕ → ℕ → ℕ → Bool
unfolding days_in_month
is_calendar_date year month day =
    between 1900 2100 year && (between 1 12 month && between 1 (days_in_month year month) day)

unfoldable pub accept_date : Text → Result (Option Text)
accept_date value = do
  let bs = bytes value
  ensure (length bs == 10 && is_date_shape 0 bs) bad_date
  ensure
      (is_calendar_date (decimal 0 (take 4 bs)) (decimal 0 (take 2 (drop 5 bs)))
        (decimal 0 (take 2 (drop 8 bs))))
      bad_date
  ok (some value)

-- `char::is_control`.
abbrev pub is_control : ℕ → Bool
is_control c = leb c 0x1f || (leb 0x7f c && leb c 0x9f)

unfoldable pub accept_address : Text → Result (Option Text)
unfolding check_len
accept_address value = do
  check_len "residential_address" value 256
  ensure (not (any is_control value))
      (validation (say "residential_address must not contain control characters"))
  ok (some value)

abbrev pub bad_language : DomainError
bad_language = validation (say "language must be a BCP 47 code such as 'en' or 'en-US'")

-- A subtag: its bytes are in number within the bounds, and each passes the test.
abbrev pub is_subtag : ℕ → ℕ → (ℕ → Bool) → Text → Bool
is_subtag lo hi test part = between lo hi (length (bytes part)) && all test (bytes part)

-- The primary subtag and the others; `split` yields one at least.
abbrev pub is_language : List Text → Bool
is_language [] = false
is_language (primary ∷ subtags) =
    is_subtag 2 3 is_ascii_alphabetic primary
    && all (λ s. is_subtag 2 8 is_ascii_alphanumeric s) subtags

unfoldable pub accept_language : Text → Result (Option Text)
unfolding check_len
accept_language value = do
  check_len "language" value 16
  ensure (is_language (split (λ c. (c == b'-') || (c == b'_')) value)) bad_language
  ok (some value)

abbrev pub to_ascii_uppercase : Text → Text
to_ascii_uppercase s = map (λ c. if is_ascii_lowercase c then c - 32 else c) s

unfoldable pub accept_currency : Text → Result (Option Text)
accept_currency value = do
  ensure (length (bytes value) == 3 && all is_ascii_alphabetic (bytes value))
      (validation (say "base_currency must be a 3-letter code such as 'USD'"))
  ok (some (to_ascii_uppercase value))

abbrev pub iana_areas : List Text
iana_areas =
    codes "Africa"
    ∷ codes "America"
    ∷ codes "Antarctica"
    ∷ codes "Arctic"
    ∷ codes "Asia"
    ∷ codes "Atlantic"
    ∷ codes "Australia"
    ∷ codes "Etc"
    ∷ codes "Europe"
    ∷ codes "Indian"
    ∷ codes "Pacific"
    ∷ []

abbrev pub bad_timezone : DomainError
bad_timezone =
    validation (say "timezone must be 'UTC', 'GMT', or an IANA name such as 'Asia/Ho_Chi_Minh'")

abbrev pub is_location : Text → Bool
is_location segment =
    not (is_empty segment)
    && all (λ b. is_ascii_alphanumeric b || ((b == b'_') || (b == b'+') || (b == b'-')))
        (bytes segment)

-- An area of the list, then one location at least.
abbrev pub is_iana : List Text → Bool
is_iana [] = false
is_iana (area ∷ locations) =
    any (λ a. same_text a area) iana_areas
    && (all is_location locations && not (is_empty locations))

unfoldable pub accept_timezone : Text → Result (Option Text)
unfolding check_len
accept_timezone value = do
  check_len "timezone" value 64
  if same_text value (codes "UTC") || same_text value (codes "GMT")
      then ok (some value)
      else do ensure (is_iana (split (λ c. c == b'/') value)) bad_timezone; ok (some value)
