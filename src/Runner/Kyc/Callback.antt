-- ===== src/Runner/Kyc/Callback.antt =====
-- runner/src/web/kyc.rs: what the webhook does with a verdict, and `raise_kyc_level_to` of
-- runner/src/infrastructure/users.rs. The parsing of the vendor's body is the vendor's adapter: the
-- handler starts from what it answers. A notice or an alert that cannot be queued is only logged, so
-- they are the requests that the handler makes. Log lines are left out.
use concierge.Prelude.{
  ℕ, String, List, [], ◌∷◌, ◌++◌, Bool, true, false, not, ◌&&◌, ◌||◌, Option, none, some, map,
  filter, ltb, leb, ◌==◌, if◌then◌else◌,
}
use concierge.Prelude.Int.{ℤ}
use concierge.Errors.{repository, not_found, num, lit, describe, Result, ok, err}
use concierge.Text.{Text}
use concierge.Governance.Peer.{UserId}
use concierge.Users.User
use concierge.Users.Account.{User}
use concierge.Users.User.{set_kyc_level}
use concierge.Runner.Genesis.{Store, Attempt, done, failed, find_user, update_row, loaded, is_owner}
use concierge.Runner.Kyc.Status.{
  KycStatus, in_review, approved, declined, abandoned, expired, kyc_expired, held_duplicate,
  grants_tier,
}
use concierge.Runner.Kyc.Cases.{
  Case, KycDecision, KycCase, CaseDecision, recorded, redelivered, ignored, mismatch, unknown,
  approved_cover,
}
use concierge.Runner.Kyc.Decision.{record_decision}

pub data KycLevelChange : Type 0 where
  raised : (from to : ℕ) → KycLevelChange
  already_holds : ℕ → KycLevelChange

abbrev pub level_written : Store → UserId → ℕ → ℕ → Result User → Attempt (Store × KycLevelChange)
level_written store id current target (err e) =
    failed (repository (lit "kyc level " ∷ num target ∷ lit " is not writable: " ∷ describe e))
level_written store id current target (ok changed) =
    let (events, written) = User.drain_events changed in
    done (
      record {
        users = update_row written store.users;
        outbox = store.outbox ++ map (λ e. (id, e)) events;
      },
      raised current target,
    )

unfoldable pub raise_kyc_level_to : Store → UserId → ℕ → Attempt (Store × KycLevelChange)
unfolding find_user set_kyc_level User.drain_events update_row
raise_kyc_level_to store id target = elim (find_user id store.users) [
  | none ↦ failed (not_found "user" (num id ∷ []))
  | some user ↦
      if leb target user.kyc_level
      then done (store, already_holds user.kyc_level)
      else level_written store id user.kyc_level target (set_kyc_level (loaded user) target)
]

-- The tables that a delivery touches.
pub record Plane : Type 0 where
  pub cases : List Case
  pub accounts : Store

-- What the vendor's adapter makes of a delivery.
pub data Parsed : Type 0 where
  verdict : KycDecision → Parsed
  bad_signature stale_timestamp malformed unknown_status : Parsed

-- A status code with its text, or the body of a success.
pub data Response : Type 0 where
  refused : ℕ → String → Response
  accepted : KycStatus → (duplicate : Bool) → Response
  superseded : KycStatus → Response
  unknown_word : Response

-- The deduplication key of a notice is the attempt with its status, and that of an alert has the
-- owner besides.
pub record Notice : Type 0 where
  pub case : KycCase
  pub kind : String
  pub title : String

pub record Alert : Type 0 where
  pub case : KycCase
  pub owner : UserId
  pub address : Text
  pub subject_email : Text
  pub held_level : ℕ
  pub decided_at : ℤ

pub record Reply : Type 0 where
  pub plane : Plane
  pub response : Response
  pub notices : List Notice
  pub alerts : List Alert

unfoldable pub terminal_notice : KycStatus → Option (String × String)
terminal_notice in_review = some ("kyc_in_review", "Your verification is being reviewed")
terminal_notice declined = some ("kyc_declined", "Your verification was not approved")
terminal_notice abandoned = some ("kyc_expired", "Your verification attempt has closed")
terminal_notice expired = some ("kyc_expired", "Your verification attempt has closed")
terminal_notice kyc_expired = some ("kyc_expired", "Your verification has lapsed")
terminal_notice held_duplicate = some ("kyc_held", "Your verification needs a closer look")
terminal_notice _ = none

abbrev pub notices_of : KycCase → Option (String × String) → List Notice
notices_of case none = []
notices_of case (some (kind, title)) = record { case = case; kind = kind; title = title } ∷ []

-- `matches!(status, Declined | KycExpired)`.
abbrev pub contradicts : KycStatus → Bool
contradicts declined = true
contradicts kyc_expired = true
contradicts _ = false

-- `.unwrap_or(0)`.
abbrev pub or_zero : Option ℕ → ℕ
or_zero none = 0
or_zero (some n) = n

-- Another approved attempt that covers the level: `is_some_and(|covered| covered >= held)`.
abbrev pub covers : Option ℕ → ℕ → Bool
covers none held = false
covers (some tier) held = leb held (or_zero (grants_tier approved tier))

abbrev pub alert : ℤ → KycCase → User → User → Alert
alert now case subject owner = record {
  case = case;
  owner = owner.id;
  address = owner.email.address;
  subject_email = subject.email.address;
  held_level = subject.kyc_level;
  decided_at = now;
}

-- The alerts to the owners whose address is verified, where a verdict contradicts the level that the
-- account holds.
unfoldable pub contradiction_alerts : ℤ → Plane → KycCase → List Alert
unfolding grants_tier approved_cover find_user
contradiction_alerts now plane case =
    if not (contradicts case.status)
    then []
    else elim (find_user case.user_id plane.accounts.users) [
      | none ↦ []
      | some subject ↦
          if subject.kyc_level == 0
            || ltb subject.kyc_level (or_zero (grants_tier approved case.requested_tier))
            || covers (approved_cover plane.cases case.user_id case.id) subject.kyc_level
          then []
          else map (alert now case subject)
              (filter (λ user. is_owner user && user.email_verified) plane.accounts.users)
    ]

-- The level that an approval raised, or that was there.
abbrev pub level_reply : Plane → KycCase → Bool → Attempt (Store × KycLevelChange) → Reply
level_reply plane case duplicate (done (store, raised from to)) = record {
  plane = record plane { accounts = store };
  response = accepted case.status duplicate;
  notices = record { case = case; kind = "kyc_approved"; title = "Your identity is verified" } ∷ [];
  alerts = [];
}
level_reply plane case duplicate (done (store, already_holds current)) = record {
  plane = record plane { accounts = store };
  response = accepted case.status duplicate;
  notices = [];
  alerts = [];
}
level_reply plane case duplicate _ = record {
  plane = plane;
  response = refused 500 "could not apply the decision";
  notices = [];
  alerts = [];
}

unfoldable pub apply : ℤ → Plane → KycCase → Bool → Reply
unfolding grants_tier raise_kyc_level_to terminal_notice contradiction_alerts
apply now plane case duplicate = elim (grants_tier case.status case.requested_tier) [
  | none ↦ record {
    plane = plane;
    response = accepted case.status duplicate;
    notices = notices_of case (terminal_notice case.status);
    alerts = contradiction_alerts now plane case;
  }
  | some target ↦
      level_reply plane case duplicate (raise_kyc_level_to plane.accounts case.user_id target)
]

abbrev pub quiet : Plane → Response → Reply
quiet plane response = record { plane = plane; response = response; notices = []; alerts = [] }

unfoldable pub after_record : ℤ → Plane → CaseDecision → Reply
unfolding apply
after_record now plane (recorded case) = apply now plane case false
after_record now plane (redelivered case) = apply now plane case true
after_record now plane (ignored case) = quiet plane (superseded case.status)
after_record now plane unknown = quiet plane (refused 404 "unknown session")
after_record now plane (mismatch case) =
    quiet plane (refused 400 "callback does not match its case")

-- `provider` is the name of the adapter that is configured, if one is.
unfoldable pub callback : ℤ → Plane → Option String → Parsed → Reply
unfolding record_decision after_record
callback now plane none parsed = quiet plane (refused 503 "kyc not configured")
callback now plane (some provider) (verdict d) =
    let (cases, decision) = record_decision now plane.accounts.users plane.cases provider d in
    after_record now (record plane { cases = cases }) decision
callback now plane (some provider) bad_signature = quiet plane (refused 401 "invalid signature")
callback now plane (some provider) stale_timestamp = quiet plane (refused 400 "stale delivery")
callback now plane (some provider) malformed = quiet plane (refused 400 "malformed callback")
callback now plane (some provider) unknown_status = quiet plane unknown_word
