-- ===== src/Runner/Kyc/Cases.antt =====
-- runner/src/infrastructure/kyc/cases.rs: the attempts at an identity check, as a table and the
-- transactions on it, and runner/src/ports.rs: what they take and answer. A row holds its status,
-- which its word stands for in the column (`status_from_column-as_str`). Instants are seconds.
-- Failures of the database are not modelled.
use text.Mathlib.Text.{◌==◌ as str_eq}
use concierge.Prelude.{
  ℕ, ◌-◌, String, List, [], ◌∷◌, ◌++◌, Bool, true, not, ◌&&◌, ◌||◌, Option, none, some, any, filter,
  count_p, ltb, ◌==◌, if◌then◌else◌,
}
use concierge.Prelude.Int.{ℤ, pos, negsuc, pos_part, ltb_ℤ, ◌+ℤ◌}
use concierge.Errors.{repository, say, Result, ok, err}
use concierge.Governance.Peer.{UserId}
use concierge.Runner.Kyc.Status.{
  KycStatus, pending, approved, abandoned, code, abandonable_statuses, held_statuses, is_any,
}

-- `x as i32` on a u32, and `.max(0) as u32` on the column.
abbrev pub as_i32 : ℕ → ℤ
as_i32 n = if ltb n 2147483648 then pos n else negsuc (4294967296 - n - 1)

-- The object of a verdict's metadata: this plane's mark, and the vendor's keys.
pub record Payload : Type 0 where
  pub retired_by_ttl : Option Bool
  pub vendor : String

abbrev pub no_payload : Payload
no_payload = record { retired_by_ttl = none; vendor = "{}" }

-- A row of `kyc_cases`. Its id is a uuid.
pub record Case : Type 0 where
  pub id : ℕ
  pub user_id : UserId
  pub provider : String
  pub provider_ref : String
  pub requested_tier : ℤ
  pub status : KycStatus
  pub redirect_url : Option String
  pub payload : Payload
  pub decision_at : Option ℤ
  pub event_at : Option ℤ
  pub identity_digest : Option String
  pub created_at : ℤ
  pub updated_at : ℤ

pub record NewCase : Type 0 where
  pub id : ℕ
  pub user_id : UserId
  pub provider : String
  pub provider_ref : String
  pub requested_tier : ℕ
  pub redirect_url : String
  pub ttl_secs : ℕ

-- A verdict. Its metadata holds the keys that the vendor's adapter allows, which the mark is none of.
-- `vendor_data` is `none` where the text is empty, and otherwise the id that it spells,
-- or `some none` where it spells none.
pub record KycDecision : Type 0 where
  pub provider_ref : String
  pub status : KycStatus
  pub vendor_data : Option (Option ℕ)
  pub metadata : String
  pub identity_digest : Option String
  pub signed_at : ℤ

pub record KycCase : Type 0 where
  pub id : ℕ
  pub user_id : UserId
  pub requested_tier : ℕ
  pub status : KycStatus

pub data CaseDecision : Type 0 where
  recorded redelivered ignored mismatch : KycCase → CaseDecision
  unknown : CaseDecision

pub record LiveCase : Type 0 where
  pub id : ℕ
  pub redirect_url : Option String
  pub status : KycStatus
  pub requested_tier : ℕ
  pub created_at : ℤ

pub record StartGate : Type 0 where
  pub live : Option LiveCase
  pub recent : ℕ

-- `GREATEST(created_at, updated_at)`.
abbrev pub last_moved : Case → ℤ
last_moved c = if ltb_ℤ c.created_at c.updated_at then c.updated_at else c.created_at

-- `instant > now - make_interval(secs)`.
abbrev pub within : ℤ → ℕ → ℤ → Bool
within now secs instant = ltb_ℤ now (instant +ℤ pos secs)

-- The predicate by which an attempt of the user is retired.
unfoldable pub is_stale : ℤ → UserId → ℕ → Case → Bool
is_stale now user ttl_secs c =
    c.user_id == user
    && is_any c.status abandonable_statuses
    && not (within now ttl_secs (last_moved c))

unfoldable pub retire : ℤ → UserId → ℕ → Case → Case
unfolding is_stale
retire now user ttl_secs c =
    if is_stale now user ttl_secs c
    then record c {
      status = abandoned;
      decision_at = some now;
      updated_at = now;
      payload = record c.payload { retired_by_ttl = some true };
    }
    else c

unfoldable pub retire_all : ℤ → UserId → ℕ → List Case → List Case
unfolding retire
retire_all now user ttl_secs [] = []
retire_all now user ttl_secs (c ∷ cs) = retire now user ttl_secs c ∷ retire_all now user ttl_secs cs

unfoldable pub inserted : ℤ → NewCase → Case
inserted now new = record {
  id = new.id;
  user_id = new.user_id;
  provider = new.provider;
  provider_ref = new.provider_ref;
  requested_tier = as_i32 new.requested_tier;
  status = pending;
  redirect_url = some new.redirect_url;
  payload = no_payload;
  decision_at = none;
  event_at = none;
  identity_digest = none;
  created_at = now;
  updated_at = now;
}

-- The primary key, and the unique index on the vendor's session.
unfoldable pub clashes : NewCase → Case → Bool
clashes new c =
    c.id == new.id || (str_eq c.provider new.provider && str_eq c.provider_ref new.provider_ref)

unfoldable pub open_case : ℤ → List Case → NewCase → Result (List Case)
unfolding retire_all inserted clashes
open_case now cases new =
    if any (clashes new) cases
    then err (repository (say "duplicate key value violates unique constraint"))
    else ok (retire_all now new.user_id new.ttl_secs cases ++ inserted now new ∷ [])

-- The attempts that still run, by the two arms of the query.
unfoldable pub is_live : ℤ → UserId → ℕ → Case → Bool
is_live now user ttl_secs c =
    c.user_id == user
    && (is_any c.status held_statuses
        || (is_any c.status abandonable_statuses && within now ttl_secs (last_moved c)))

-- `ORDER BY created_at DESC LIMIT 1`; of two rows of one instant, the later in the table.
unfoldable pub latest : Option Case → List Case → Option Case
latest best [] = best
latest none (c ∷ cs) = latest (some c) cs
latest (some best) (c ∷ cs) =
    latest (some (if ltb_ℤ c.created_at best.created_at then best else c)) cs

abbrev pub as_live : Case → LiveCase
as_live c = record {
  id = c.id;
  redirect_url = c.redirect_url;
  status = c.status;
  requested_tier = pos_part c.requested_tier;
  created_at = c.created_at;
}

abbrev pub map_live : Option Case → Option LiveCase
map_live none = none
map_live (some c) = some (as_live c)

unfoldable pub live_case : ℤ → List Case → UserId → ℕ → Option LiveCase
unfolding latest is_live
live_case now cases user ttl_secs =
    map_live (latest none (filter (is_live now user ttl_secs) cases))

-- `user_id = $1 AND created_at > now() - make_interval(secs)`.
abbrev pub is_recent : ℤ → UserId → ℕ → Case → Bool
is_recent now user window_secs c = c.user_id == user && within now window_secs c.created_at

unfoldable pub start_gate : ℤ → List Case → UserId → ℕ → ℕ → StartGate
unfolding live_case
start_gate now cases user window_secs ttl_secs = record {
  live = live_case now cases user ttl_secs;
  recent = count_p (is_recent now user window_secs) cases;
}

-- `max(requested_tier)` over the user's other approved attempts.
abbrev pub max_opt : Option ℕ → ℕ → Option ℕ
max_opt none n = some n
max_opt (some m) n = some (if ltb m n then n else m)

unfoldable pub approved_cover : List Case → UserId → ℕ → Option ℕ
approved_cover [] user excluding = none
approved_cover (c ∷ cs) user excluding =
    let rest = approved_cover cs user excluding in
    if c.user_id == user && not (c.id == excluding) && code c.status == code approved
    then max_opt rest (pos_part c.requested_tier)
    else rest
