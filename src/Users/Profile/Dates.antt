-- ===== src/Users/Profile/Dates.antt =====
-- The dates of birth that the parser accepts.
use concierge.Prelude.{
  ℕ, ◌+◌, ◌/◌, ◌%◌, ◌≤◌, ◌<◌, [], ◌∷◌, Bool, true, not, ◌&&◌, ◌||◌, some, take, ◌==◌, if◌then◌else◌,
  ◌≡◌, ◌↔◌, refl, arith,
}
use concierge.Errors.{ok, ensure, is_ok, ◌>>◌}
use concierge.Text.{Text, bytes, encode, is_ascii_digit}
use concierge.Users.Fields.{
  accept_date, is_date_shape, decimal, is_calendar_date, days_in_month, bad_date,
}

-- The Gregorian rule.
abbrev pub is_leap : ℕ → Bool
is_leap year = (year % 400 == 0) || (year % 4 == 0 && not (year % 100 == 0))

-- The months of a year have 365 days together, and 366 in a leap year.
pub days_in_month_year :
    (year : ℕ)
    → days_in_month year 1
        + days_in_month year 2
        + days_in_month year 3
        + days_in_month year 4
        + days_in_month year 5
        + days_in_month year 6
        + days_in_month year 7
        + days_in_month year 8
        + days_in_month year 9
        + days_in_month year 10
        + days_in_month year 11
        + days_in_month year 12
      ≡ (if is_leap year then 366 else 365)
unfolding days_in_month
days_in_month_year year = ground arith

-- The digit of a number below ten.
abbrev digit : ℕ → ℕ
digit d = 48 + d

-- A date written as YYYY-MM-DD.
abbrev pub format_date : ℕ → ℕ → ℕ → Text
format_date y m d =
    digit (y / 1000 % 10)
    ∷ digit (y / 100 % 10)
    ∷ digit (y / 10 % 10)
    ∷ digit (y % 10)
    ∷ b'-'
    ∷ digit (m / 10 % 10)
    ∷ digit (m % 10)
    ∷ b'-'
    ∷ digit (d / 10 % 10)
    ∷ digit (d % 10)
    ∷ []

encode-digit : (n : ℕ) → n < 10 → encode (digit n) ≡ digit n ∷ []
encode-digit n h = ground arith

is_digit : (n : ℕ) → n < 10 → is_ascii_digit (digit n) ≡ true
is_digit n h = ground arith

bytes-format_date : (y m d : ℕ) → bytes (format_date y m d) ≡ format_date y m d
bytes-format_date y m d =
    rw
      (
        encode-digit (y / 1000 % 10) (omega arith),
        encode-digit (y / 100 % 10) (omega arith),
        encode-digit (y / 10 % 10) (omega arith),
        encode-digit (y % 10) (omega arith),
        encode-digit (m / 10 % 10) (omega arith),
        encode-digit (m % 10) (omega arith),
        encode-digit (d / 10 % 10) (omega arith),
        encode-digit (d % 10) (omega arith),
      )
      refl

is_date_shape-format_date : (y m d : ℕ) → is_date_shape 0 (format_date y m d) ≡ true
unfolding is_date_shape
is_date_shape-format_date y m d =
    rw
      (
        is_digit (y / 1000 % 10) (omega arith),
        is_digit (y / 100 % 10) (omega arith),
        is_digit (y / 10 % 10) (omega arith),
        is_digit (y % 10) (omega arith),
        is_digit (m / 10 % 10) (omega arith),
        is_digit (m % 10) (omega arith),
        is_digit (d / 10 % 10) (omega arith),
        is_digit (d % 10) (omega arith),
      )
      refl

decimal-four : (y : ℕ) → y < 10000 → decimal 0 (take 4 (format_date y 0 0)) ≡ y
unfolding decimal
decimal-four y h = omega arith

decimal-two : (n : ℕ) → n < 100 → decimal 0 (digit (n / 10 % 10) ∷ digit (n % 10) ∷ []) ≡ n
unfolding decimal
decimal-two n h = omega arith

-- What is left of the parser once the text has the right shape.
calendar :
    (y m d : ℕ) (t : Text)
    → (is_ok (ensure (is_calendar_date y m d) bad_date >> ok (some t)) ≡ true)
      ↔ ((1900 ≤ y) × (y ≤ 2100) × (1 ≤ m) × (m ≤ 12) × (1 ≤ d) × (d ≤ days_in_month y m))
unfolding is_calendar_date
calendar y m d t = ground arith

-- A date with a year of four digits, a month and a day of two is accepted, written as YYYY-MM-DD,
-- exactly when the year lies in 1900 to 2100 and the month and the day exist.
pub accept_date-format_date :
    (y m d : ℕ)
    → y < 10000
    → m < 100
    → d < 100
    → (is_ok (accept_date (format_date y m d)) ≡ true)
      ↔ ((1900 ≤ y) × (y ≤ 2100) × (1 ≤ m) × (m ≤ 12) × (1 ≤ d) × (d ≤ days_in_month y m))
unfolding accept_date
accept_date-format_date y m d hy hm hd =
    rw
      (
        bytes-format_date y m d,
        is_date_shape-format_date y m d,
        decimal-four y hy,
        decimal-two m hm,
        decimal-two d hd,
      )
      (calendar y m d (format_date y m d))
