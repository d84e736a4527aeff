-- ===== src/Runner/Kyc/Status.antt =====
-- runner/src/ports.rs: where an identity check stands, with the stored words and what each status
-- means for the attempt. `status_from_column` and the two lists are of
-- runner/src/infrastructure/kyc/cases.rs.
use text.Mathlib.Text.{◌==◌ as str_eq}
use concierge.Prelude.{
  ℕ, String, List, [], ◌∷◌, Bool, true, false, not, ◌&&◌, Option, none, some, filter, map, leb,
  if◌then◌else◌, ◌≡◌, refl,
}
use concierge.Errors.{repository, lit, Result, ok, err}

pub data KycStatus : Type 0 where
  pending in_progress in_review approved declined resubmitted abandoned expired kyc_expired
        held_duplicate :
      KycStatus

abbrev pub all_statuses : List KycStatus
all_statuses =
    pending ∷ in_progress ∷ in_review ∷ approved ∷ declined ∷ resubmitted ∷ abandoned ∷ expired
    ∷ kyc_expired ∷ held_duplicate ∷ []

unfoldable pub as_str : KycStatus → String
as_str pending = "pending"
as_str in_progress = "in_progress"
as_str in_review = "in_review"
as_str approved = "approved"
as_str declined = "declined"
as_str resubmitted = "resubmitted"
as_str abandoned = "abandoned"
as_str expired = "expired"
as_str kyc_expired = "kyc_expired"
as_str held_duplicate = "held_duplicate"

-- The comparisons `==` of two statuses.
abbrev pub code : KycStatus → ℕ
code pending = 0
code in_progress = 1
code in_review = 2
code approved = 3
code declined = 4
code resubmitted = 5
code abandoned = 6
code expired = 7
code kyc_expired = 8
code held_duplicate = 9

unfoldable pub is_decided : KycStatus → Bool
is_decided pending = false
is_decided in_progress = false
is_decided in_review = false
is_decided resubmitted = false
is_decided _ = true

unfoldable pub is_abandonable : KycStatus → Bool
is_abandonable pending = true
is_abandonable in_progress = true
is_abandonable resubmitted = true
is_abandonable _ = false

-- The highest level that an approval of the provider grants.
abbrev pub provider_max_tier : ℕ
provider_max_tier = 1

unfoldable pub grants_tier : KycStatus → ℕ → Option ℕ
grants_tier approved requested =
    some (if leb requested provider_max_tier then requested else provider_max_tier)
grants_tier _ requested = none

-- `ALL.into_iter().find(|s| s.as_str() == raw)`.
abbrev pub find_status : String → List KycStatus → Option KycStatus
find_status raw [] = none
find_status raw (s ∷ ss) = if str_eq (as_str s) raw then some s else find_status raw ss

unfoldable pub status_from_column : String → Result KycStatus
unfolding as_str
status_from_column raw = elim (find_status raw all_statuses) [
  | some s ↦ ok s
  | none ↦ err (repository (lit "kyc_cases.status holds an unknown value: " ∷ lit raw ∷ []))
]

-- The column reads back as the status that was written.
pub status_from_column-as_str : (s : KycStatus) → status_from_column (as_str s) ≡ ok s
unfolding status_from_column as_str
status_from_column-as_str pending = refl
status_from_column-as_str _ = refl

unfoldable pub abandonable_statuses : List String
unfolding is_abandonable as_str
abandonable_statuses = map as_str (filter is_abandonable all_statuses)

unfoldable pub held_statuses : List String
unfolding is_abandonable is_decided as_str
held_statuses = map as_str (filter (λ s. not (is_decided s) && not (is_abandonable s)) all_statuses)

-- `status = ANY(words)`.
abbrev pub is_any : KycStatus → List String → Bool
is_any s [] = false
is_any s (word ∷ words) = if str_eq (as_str s) word then true else is_any s words

-- The two lists of running words are what the predicates say, and no status is in both or in one
-- and decided: every status waits on the user, or is held by the vendor, or is decided.
pub status_lists :
    (s : KycStatus)
    → (is_any s abandonable_statuses ≡ is_abandonable s)
      × (is_any s held_statuses ≡ (not (is_decided s) && not (is_abandonable s)))
      × ((is_abandonable s && is_decided s) ≡ false)
unfolding is_abandonable is_decided abandonable_statuses held_statuses as_str
status_lists pending = (refl, refl, refl)
status_lists _ = (refl, refl, refl)
