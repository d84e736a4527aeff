-- ===== src/Users/Identity.antt =====
-- domain/src/users.rs and domain/src/auth.rs: email addresses, handles and subjects. Lowercasing
-- follows the tables of Unicode, which stand here as a parameter with its documented behaviour on
-- ASCII.
use concierge.Prelude.{
  ℕ, ◌+◌, List, [], ◌∷◌, Bool, true, not, ◌&&◌, ◌||◌, map, all, any, length, ltb, leb, ◌==◌,
  is_empty, if◌then◌else◌, ◌≡◌,
}
use concierge.Errors.{validation, say, lit, num, Result, ok, err, ◌>>◌, ensure}
use concierge.Text.{
  Text, trim, bytes, is_ascii_lowercase, is_ascii_uppercase, is_ascii_digit, is_ascii_alphabetic,
  split_first,
}

-- The Unicode tables that the standard library holds.
pub record Unicode : Type 0 where
  -- str::to_lowercase
  pub to_lowercase : Text → Text
  -- char::is_alphabetic
  pub is_alphabetic : ℕ → Bool
  pub lowercase_ascii :
      (s : Text)
      → all (λ c. ltb c 128) s ≡ true
      → to_lowercase s ≡ map (λ c. if is_ascii_uppercase c then c + 32 else c) s
  pub alphabetic_ascii : (c : ℕ) → ltb c 128 ≡ true → is_alphabetic c ≡ is_ascii_alphabetic c

pub record AuthSubject : Type 0 where
  pub subject : Text

-- `AuthSubject::parse`.
unfoldable pub parse_subject : Text → Result AuthSubject
parse_subject raw =
    let trimmed = trim raw in
    if is_empty trimmed
    then err (validation (say "auth subject must not be empty"))
    else ok (record { subject = trimmed })

pub record Email : Type 0 where
  pub address : Text

pub record Username : Type 0 where
  pub handle : Text

abbrev pub min_chars : ℕ
min_chars = 3

abbrev pub max_chars : ℕ
max_chars = 32

-- The characters of a handle that a user chooses.
abbrev pub is_handle_char : ℕ → Bool
is_handle_char c =
    is_ascii_lowercase c || is_ascii_digit c || (c == b'_') || (c == b'.') || (c == b'-')

-- `Email::local_part`: the part before the first `@`.
unfoldable pub local_part : Email → Text
local_part email = split_first b'@' email.address

-- `Username::defaults_for`, in order of preference.
unfoldable pub defaults_for : Email → List Username
unfolding local_part
defaults_for email = record { handle = local_part email } ∷ record { handle = email.address } ∷ []

-- `Username::from_stored`.
unfoldable pub from_stored : Text → Username
from_stored raw = record { handle = raw }

module _ (u : Unicode) where
  -- `Email::parse`. The first test counts the bytes of UTF-8, the second the characters.
  unfoldable pub parse_email : Text → Result Email
  parse_email raw = do
    let normalized = u.to_lowercase (trim raw)
    ensure (not (ltb (length (bytes normalized)) 3 || not (any (λ c. c == b'@') normalized)))
        (validation (say "email must contain '@'"))
    ensure (not (ltb 254 (length normalized)))
        (validation (say "email must be at most 254 characters"))
    ok (record { address = normalized })

  -- `Username::parse`.
  unfoldable pub parse_username : Text → Result Username
  parse_username raw =
      let normalized = u.to_lowercase (trim raw) in
      let len = length normalized in
      if not (leb min_chars len && leb len max_chars) || not (all is_handle_char normalized)
      then err (
          validation (
            lit "username must be "
            ∷ num min_chars
            ∷ lit "-"
            ∷ num max_chars
            ∷ lit " characters of a-z, 0-9, '_', '.' or '-'"
            ∷ []))
      else ok (record { handle = normalized })
