-- ===== src/Runner/Kyc/Start.antt =====
-- runner/src/web/kyc.rs: how a signed-in user starts an identity check. The session and the token
-- against forged requests arrive as what their checks answered; the vendor and the parser of URLs
-- are parameters. A start runs under the lock of its user, so it is a function of the tables before.
-- Failures of the database are not modelled, but for the refusal of a duplicate row.
use text.Mathlib.Text.{◌==◌ as str_eq}
use concierge.Prelude.{
  ℕ, String, List, Bool, true, false, not, Option, none, some, any, leb, if◌then◌else◌,
}
use concierge.Prelude.Int.{ℤ}
use concierge.Errors.{Result, ok, err}
use concierge.Governance.Peer.{UserId}
use concierge.Runner.Genesis.{find_user}
use concierge.Runner.Kyc.Cases.{
  Case, NewCase, LiveCase, StartGate, start_gate, live_case, open_case,
}
use concierge.Runner.Kyc.Status
use concierge.Runner.Kyc.Callback.{Plane}

abbrev pub entry_tier : ℕ
entry_tier = 1

-- 24 * 60 * 60.
abbrev pub start_window_secs : ℕ
start_window_secs = 86400

abbrev pub start_max_per_window : ℕ
start_max_per_window = 5

pub data CsrfOutcome : Type 0 where
  passed no_session mismatched : CsrfOutcome

pub record KycSession : Type 0 where
  pub provider_ref : String
  pub redirect_url : String

-- The vendor's adapter: its name, the origins of its sessions and the session that it opens.
pub record Provider : Type 0 where
  pub name : String
  pub session_origins : List String
  pub start_session : ℕ → ℕ → Option KycSession

-- A request as its checks left it, with the id that is minted for a new attempt.
pub record Request : Type 0 where
  pub csrf : CsrfOutcome
  pub caller : Option UserId
  pub case_id : ℕ

pub data StartOutcome : Type 0 where
  unavailable : StartOutcome
  refused : ℕ → String → StartOutcome
  started : (redirect_url : String) → (case_id : ℕ) → StartOutcome

abbrev pub new_case : Provider → UserId → ℕ → ℕ → KycSession → NewCase
new_case provider user case_id ttl_secs session = record {
  id = case_id;
  user_id = user;
  provider = provider.name;
  provider_ref = session.provider_ref;
  requested_tier = entry_tier;
  redirect_url = session.redirect_url;
  ttl_secs = ttl_secs;
}

abbrev pub opened : Plane → String → ℕ → Result (List Case) → Plane × StartOutcome
opened plane url case_id (err e) = (plane, unavailable)
opened plane url case_id (ok cases) = (record plane { cases = cases }, started url case_id)

pub record CaseView : Type 0 where
  pub status : String
  pub requested_tier : ℕ
  pub created_at : ℤ
  pub resumable : Bool

abbrev pub is_some_trusted : Option String → Bool
is_some_trusted none = false
is_some_trusted (some url) = true

module _ (origin_of : String → Option String) where
  abbrev pub allows : List String → Option String → Bool
  allows allowed none = false
  allows allowed (some origin) = any (λ a. str_eq a origin) allowed

  unfoldable pub redirect_is_trustworthy : String → List String → Bool
  redirect_is_trustworthy raw allowed = allows allowed (origin_of raw)

  -- The running attempt of the caller, where its address can be handed out again.
  abbrev pub trusted : Provider → Option String → Option String
  trusted provider none = none
  trusted provider (some url) =
      if redirect_is_trustworthy url provider.session_origins then some url else none

  unfoldable pub resumed : Provider → Option LiveCase → Option StartOutcome
  unfolding redirect_is_trustworthy
  resumed provider none = none
  resumed provider (some live) = elim (trusted provider live.redirect_url) [
    | none ↦ none
    | some url ↦ some (started url live.id)
  ]

  unfoldable pub open_session : ℤ → ℕ → Plane → Provider → UserId → ℕ → Plane × StartOutcome
  unfolding redirect_is_trustworthy open_case
  open_session now ttl_secs plane provider user case_id =
      elim (provider.start_session case_id entry_tier) [
        | none ↦ (plane, unavailable)
        | some session ↦
            if not (redirect_is_trustworthy session.redirect_url provider.session_origins)
            then (plane, unavailable)
            else opened plane session.redirect_url case_id
                (open_case now plane.cases (new_case provider user case_id ttl_secs session))
      ]

  -- What the gate lets through.
  unfoldable pub past_gate :
      ℤ → ℕ → Plane → Provider → UserId → ℕ → StartGate → Plane × StartOutcome
  unfolding resumed open_session
  past_gate now ttl_secs plane provider user case_id gate = elim (resumed provider gate.live) [
    | some outcome ↦ (plane, outcome)
    | none ↦
        if leb start_max_per_window gate.recent
        then (plane, refused 429 "throttled")
        else open_session now ttl_secs plane provider user case_id
  ]

  unfoldable pub start_as : ℤ → ℕ → Plane → Provider → ℕ → Option UserId → Plane × StartOutcome
  unfolding past_gate start_gate find_user
  start_as now ttl_secs plane provider case_id none = (plane, refused 401 "unauthenticated")
  start_as now ttl_secs plane provider case_id (some user) =
      elim (find_user user plane.accounts.users) [
        | none ↦ (plane, refused 401 "unauthenticated")
        | some account ↦
            if not account.email_verified
            then (plane, refused 403 "email_unverified")
            else past_gate now ttl_secs plane provider user case_id
                (start_gate now plane.cases user start_window_secs ttl_secs)
      ]

  unfoldable pub start : ℤ → ℕ → Plane → Option Provider → Request → Plane × StartOutcome
  unfolding start_as
  start now ttl_secs plane none request = (plane, unavailable)
  start now ttl_secs plane (some provider) request = elim request.csrf [
    | no_session ↦ (plane, refused 401 "unauthenticated")
    | mismatched ↦ (plane, refused 403 "csrf")
    | passed ↦ start_as now ttl_secs plane provider request.case_id request.caller
  ]

  abbrev pub is_resumable : Option Provider → Option String → Bool
  is_resumable none url = false
  is_resumable (some provider) url = is_some_trusted (trusted provider url)

  abbrev pub view : Option Provider → Option LiveCase → Option CaseView
  view provider none = none
  view provider (some live) = some (record {
    status = Status.as_str live.status;
    requested_tier = live.requested_tier;
    created_at = live.created_at;
    resumable = is_resumable provider live.redirect_url;
  })

  -- The level and the running attempt of a caller, or no answer for nobody.
  unfoldable pub status :
      ℤ → ℕ → Plane → Option Provider → Option UserId → Option (ℕ × Option CaseView)
  unfolding live_case find_user redirect_is_trustworthy Status.as_str
  status now ttl_secs plane provider none = none
  status now ttl_secs plane provider (some user) = elim (find_user user plane.accounts.users) [
    | none ↦ none
    | some account ↦
        some (account.kyc_level, view provider (live_case now plane.cases user ttl_secs))
  ]
