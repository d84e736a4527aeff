-- ===== src/Errors.antt =====
-- domain/src/error.rs: the errors of the domain crate, and the result type that its functions return.
use concierge.Prelude.{ℕ, String, List, [], ◌∷◌, Bool, true, false, Option, none, some}
use concierge.Prelude.Int.{ℤ}

-- A piece of a message that `format!` builds.
pub data Piece : Type 0 where
  lit : String → Piece
  num : ℕ → Piece
  int : ℤ → Piece
  text : List ℕ → Piece

abbrev pub Message : Type 0
Message = List Piece

abbrev pub say : String → Message
say s = lit s ∷ []

pub data DomainError : Type 0 where
  not_found : (entity : String) (id : Message) → DomainError
  conflict : Message → DomainError
  validation : Message → DomainError
  forbidden : Message → DomainError
  precondition : Message → DomainError
  repository : Message → DomainError

-- `Display`: the texts of `#[error(…)]`.
unfoldable pub describe : DomainError → Message
describe (not_found entity id) = lit entity ∷ lit " not found: " ∷ id
describe (conflict m) = lit "conflict: " ∷ m
describe (validation m) = lit "validation failed: " ∷ m
describe (forbidden m) = lit "forbidden: " ∷ m
describe (precondition m) = lit "precondition failed: " ∷ m
describe (repository m) = lit "repository error: " ∷ m

pub data Result {ℓ} (Value : Type ℓ) : Type ℓ where
  ok : Value → Result Value
  err : DomainError → Result Value

-- `if !test { return Err(error) }`.
abbrev pub ensure : Bool → DomainError → Result (Unit {0})
ensure false error = err error
ensure true error = ok tt

-- `let Some(value) = found else { return Err(error) }`.
abbrev pub ok_or {ℓ} : {Value : Type ℓ} → Option Value → DomainError → Result Value
ok_or none error = err error
ok_or (some value) error = ok value

abbrev pub is_ok {ℓ} : {Value : Type ℓ} → Result Value → Bool
is_ok (err error) = false
is_ok (ok value) = true

-- The `?` operator, on a value that the rest reads and on one that it does not.
infixl 5 ◌>>=◌ ◌>>◌
abbrev pub ◌>>=◌ {ℓ κ} :
    {Value : Type ℓ} {Next : Type κ} → Result Value → (Value → Result Next) → Result Next
err error >>= rest = err error
ok value >>= rest = rest value

abbrev pub ◌>>◌ {κ} : {Next : Type κ} → Result (Unit {0}) → Result Next → Result Next
err error >> rest = err error
ok done >> rest = rest
