-- ===== src/Runner/Kyc/Tests.antt =====
-- Two accounts, 7 and 8, which verify themselves with one passport at one vendor.
use concierge.Prelude.{
  inr, ℕ, ◌≤◌, String, List, [], ◌∷◌, true, Distinct, Option, none, some, ◌≡◌, ◌⊎◌, refl, arith,
}
use concierge.Prelude.Int.{ℤ, pos, ◌+ℤ◌}
use concierge.Text.{Text, codes}
use concierge.Authz.Role.{investor}
use concierge.Governance.Peer.{UserId}
use concierge.Users.UserStatus.{active}
use concierge.Users.Profile.{no_fields}
use concierge.Users.Account.{User}
use concierge.Runner.Genesis.{find_user}
use concierge.Runner.Kyc.Status.{
  approved, held_duplicate, is_decided, held_statuses, abandonable_statuses,
}
use concierge.Runner.Kyc.Cases.{
  Case, NewCase, KycDecision, KycCase, recorded, redelivered, inserted,
}
use concierge.Runner.Kyc.Decision.{written, is_duplicate, is_twin, find_case, record_decision}
use concierge.Runner.Kyc.Table.{row, ids}
use concierge.Runner.Kyc.History.{Call, opens, delivers, step, run}
use concierge.Runner.Kyc.Ordering.{IsSound, Later, run-IsSound, run-Later}
use concierge.Runner.Kyc.Duplicates.{AllDetected, OneAccount, run-OneAccount}
use concierge.Runner.Kyc.Redelivery.{record_decision_again}
use concierge.Runner.Kyc.Callback.{Plane, verdict, callback}
use concierge.Runner.Kyc.Levels.{level_of}
use concierge.Runner.Kyc.Delivery.{Approved, callback_levels}
use concierge.Runner.Kyc.Start.{Provider, passed, start_max_per_window, new_case, start}
use concierge.Runner.Kyc.Window.{Attempt, recent, run_starts, run_starts-recent}

abbrev account : UserId → Text → User
account id address = record {
  id = id;
  auth_subject = record { subject = address };
  email = record { address = address };
  email_verified = true;
  username = none;
  status = active;
  suspension = none;
  hold_ended_at = none;
  token_version = 0;
  kyc_level = 0;
  role = investor;
  profile = no_fields;
  row_version = 1;
  pending = [];
}

abbrev users : List User
users = account 7 (codes "ann@x") ∷ account 8 (codes "bob@x") ∷ []

abbrev attempt : ℕ → UserId → String → NewCase
attempt id user session = record {
  id = id;
  user_id = user;
  provider = "didit";
  provider_ref = session;
  requested_tier = 1;
  redirect_url = "https://verify/s";
  ttl_secs = 604800;
}

abbrev approval : String → ℤ → KycDecision
approval session signed_at = record {
  provider_ref = session;
  status = approved;
  vendor_data = none;
  metadata = "{}";
  identity_digest = some "d1";
  signed_at = signed_at;
}

-- Both attempts are opened, and the vendor approves both.
abbrev calls : List Call
calls =
    opens (pos 100) (attempt 1 7 "s1")
    ∷ opens (pos 110) (attempt 2 8 "s2")
    ∷ delivers (pos 200) users "didit" (approval "s1" (pos 190))
    ∷ delivers (pos 210) users "didit" (approval "s2" (pos 195))
    ∷ []

abbrev first : Case
first = written (pos 200) approved (approval "s1" (pos 190)) (inserted (pos 100) (attempt 1 7 "s1"))

abbrev second : Case
second =
    written (pos 210) held_duplicate (approval "s2" (pos 195))
      (inserted (pos 110) (attempt 2 8 "s2"))

second-row : row 2 (run [] calls) ≡ some second
unfolding row run inserted written
second-row = refl

run-IsSound_example : IsSound second
run-IsSound_example = run-IsSound calls 2 second second-row

table : List Case
unfolding inserted written
table = first ∷ second ∷ []

first-row : row 1 table ≡ some first
unfolding row table
first-row = refl

first-IsSound : IsSound first
unfolding written is_decided
first-IsSound = record { dated = refl; marked = λ h. absurd (ground arith) }

apart : Distinct (ids table)
unfolding table
apart = (refl, (refl, tt))

run-Later_example :
    (e : Case) × (row 1
        (run table (delivers (pos 300) users "didit" (approval "s1" (pos 180)) ∷ []))
      ≡ some e)
    × Later first e
run-Later_example =
    run-Later table (delivers (pos 300) users "didit" (approval "s1" (pos 180)) ∷ []) 1 first apart
      first-row first-IsSound

-- Both deliveries carry a digest, and the accounts of the attempts are there.
calls-AllDetected : AllDetected [] calls
unfolding step row find_user inserted written
calls-AllDetected =
    (tt, (tt, ((λ h. refl, λ i c h. ground arith), ((λ h. refl, λ i c h. ground arith), tt))))

-- The passport of account 7 does not approve account 8 too.
run-OneAccount_example : OneAccount (run [] calls)
run-OneAccount_example = run-OneAccount calls calls-AllDetected

abbrev held : KycCase
held = record { id = 2; user_id = 8; requested_tier = 1; status = held_duplicate }

opened_second : List Case
unfolding inserted written
opened_second = first ∷ inserted (pos 110) (attempt 2 8 "s2") ∷ []

opened_apart : Distinct (ids opened_second)
unfolding opened_second
opened_apart = (refl, (refl, tt))

second_recorded :
    record_decision (pos 210) users opened_second "didit" (approval "s2" (pos 195))
    ≡ (table, recorded held)
unfolding record_decision inserted written table opened_second
second_recorded = refl

-- A third attempt was opened since, and account 7 is still at its level.
later_table : List Case
unfolding inserted table
later_table = first ∷ second ∷ inserted (pos 400) (attempt 3 7 "s3") ∷ []

stands : find_case "didit" "s2" later_table ≡ find_case "didit" "s2" table
unfolding find_case later_table table written inserted
stands = refl

still_duplicate : is_duplicate users later_table 8 (approval "s2" (pos 195)) ≡ true
unfolding is_duplicate is_twin later_table written inserted
still_duplicate = refl

record_decision_again_example :
    record_decision (pos 450) users later_table "didit" (approval "s2" (pos 195))
    ≡ (later_table, redelivered held)
record_decision_again_example =
    record_decision_again (pos 210) (pos 450) users users opened_second table later_table "didit"
      (approval "s2" (pos 195)) held second_recorded stands (inr still_duplicate)

abbrev plane : Plane
plane = record {
  cases = inserted (pos 100) (attempt 1 7 "s1") ∷ [];
  accounts = record { users = users; outbox = [] };
}

callback_raises :
    level_of 7
      (callback (pos 200) plane (some "didit") (verdict (approval "s1" (pos 190)))).plane.accounts
    ≡ some 1
unfolding callback inserted
callback_raises = refl

callback_levels_example :
    let r = callback (pos 200) plane (some "didit") (verdict (approval "s1" (pos 190))) in
    (level_of 8 r.plane.accounts ≡ level_of 8 plane.accounts)
    ⊎ ((name : String) × (d : KycDecision) × (c : Case) × (some "didit" ≡ some name)
        × (verdict (approval "s1" (pos 190)) ≡ verdict d)
        × (find_case name d.provider_ref plane.cases ≡ some c)
        × (c.user_id ≡ 8)
        × Approved plane.accounts r.plane.accounts r.response 8)
callback_levels_example =
    callback_levels (pos 200) plane (some "didit") (verdict (approval "s1" (pos 190))) 8

-- Each session has its own address, which the parser takes for its origin.
abbrev vendor : Provider
vendor = record {
  name = "didit";
  session_origins = "https://verify" ∷ [];
  start_session =
      λ id tier. some (record { provider_ref = "s"; redirect_url = "https://verify/s" });
}

abbrev origin : String → Option String
origin url = some "https://verify"

abbrev press : ℤ → ℕ → Attempt
press now id = record {
  now = now;
  provider = some vendor;
  accounts = record { users = users; outbox = [] };
  request = record { csrf = passed; caller = some 7; case_id = id };
}

abbrev presses : List Attempt
presses = press (pos 10) 1 ∷ press (pos 20) 2 ∷ []

-- The second start hands out the session of the first.
presses-run :
    run_starts origin 600 [] presses
    ≡ inserted
        (pos 10)
        (new_case vendor 7 1 600 (record { provider_ref = "s"; redirect_url = "https://verify/s" }))
      ∷ []
unfolding run_starts start inserted held_statuses abandonable_statuses ◌+ℤ◌
presses-run = refl

run_starts-recent_example :
    recent (pos 20) 7 (run_starts origin 600 [] presses) ≤ start_max_per_window
run_starts-recent_example =
    run_starts-recent origin 600 (pos 0) [] presses 7 (omega arith) (omega arith)
