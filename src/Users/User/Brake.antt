-- ===== src/Users/User/Brake.antt =====
-- The emergency brake: who may hold an account, and how soon again.
use concierge.Prelude.{
  List, [], ◌∷◌, Bool, true, false, Option, none, some, ◌≡◌, ◌≢◌, ◌↔◌, ◌⊎◌, refl, arith,
}
use concierge.Prelude.Int.{
  ℤ, ◌≤ℤ◌, i64_max, saturating_add, saturating_add-pos, saturating_add_mono,
}
use concierge.Errors.{Result, ok, err, is_ok}
use concierge.Authz.Role.{Role}
use concierge.Users.UserStatus.{active, disabled}
use concierge.Users.Suspension.{Suspension, admin_hold, governance}
use concierge.Users.Profile.{ProfileFields}
use concierge.Users.Account.{User, hold_ttl_secs, hold_cooldown_secs}
use concierge.Users.User.{
  change_email, verify_email, revoke_tokens, take_over, set_username, update_profile, hold, enable,
  lapse_hold, set_kyc_level, set_role, hold_deadline, is_privileged,
}
use concierge.Users.User.Steps
use concierge.Users.User.Steps.{
  Act, changes_email, verifies_email, revokes, takes_over, sets_username, updates_profile, disables,
  holds, suspends, enables, lapses, sets_kyc_level, sets_role, step, run,
}

-- The cooldown since the last hold has passed.
abbrev pub CooledDown : Option ℤ → ℤ → Type 0
CooledDown none now = Unit
CooledDown (some ended) now = saturating_add ended hold_cooldown_secs ≤ℤ now

-- An account can be held exactly when the owners have not suspended it, an admin's or owner's
-- account is held by an owner, and either the owners are deciding or no hold is live and the last
-- one ended a cooldown ago.
pub hold_iff :
    (user : User) (by : Role) (now : ℤ) (ratification_pending : Bool)
    → (is_ok (hold user by now ratification_pending) ≡ true) ↔ (
        (user.suspension ≢ some governance)
        × ((is_privileged user.role ≡ false) ⊎ (by ≡ Role.owner))
        × ((ratification_pending ≡ true)
            ⊎ ((hold_deadline user.suspension ≡ none) × CooledDown user.hold_ended_at now)))
unfolding hold
hold_iff user by now ratification_pending = ground arith

-- A hold that is placed freezes the account until its deadline, one day on, and touches nothing that
-- decides who may hold it again.
pub hold-ok :
    (user held : User) (by : Role) (now : ℤ) (ratification_pending : Bool)
    → hold user by now ratification_pending ≡ ok held
    → (held.status ≡ disabled)
      × (held.suspension ≡ some (admin_hold (saturating_add now hold_ttl_secs)))
      × (held.hold_ended_at ≡ user.hold_ended_at)
      × (held.role ≡ user.role)
unfolding hold
hold-ok user held by now ratification_pending h = ground arith

-- The deadline of a hold has come.
abbrev pub IsDue : Option ℤ → ℤ → Type 0
IsDue none now = ⊥
IsDue (some deadline) now = deadline ≤ℤ now

-- A hold lapses exactly where one is live and its deadline has come: the account is active again,
-- without a suspension and with a hold that ended at the deadline, or else is untouched.
pub lapse_hold_iff :
    (user : User) (now : ℤ)
    → (((lapse_hold user now).1 ≡ true) ↔ IsDue (hold_deadline user.suspension) now)
      × (((lapse_hold user now).0 ≡ user)
          ⊎ (((lapse_hold user now).0.status ≡ active)
              × ((lapse_hold user now).0.suspension ≡ none)
              × ((lapse_hold user now).0.hold_ended_at ≡ hold_deadline user.suspension)
              × ((lapse_hold user now).1 ≡ true)))
unfolding lapse_hold
lapse_hold_iff user now = (ground arith, ground arith)

-- A hold was placed at or after an instant and nothing but its end has happened to it: it is live
-- with a later deadline, or the last hold ended later.
abbrev pub HeldSince : ℤ → Option Suspension → Option ℤ → Type 0
HeldSince since (some (admin_hold deadline)) ended = since ≤ℤ deadline
HeldSince since none (some ended) = since ≤ℤ ended
HeldSince since _ _ = ⊥

-- An act of somebody alone, at or after an instant that i64 can hold: every act but the owners'
-- verdict and the unqualified suspension.
abbrev pub IsSolo : ℤ → Act → Type 0
IsSolo since (holds by now pending) = (since ≤ℤ now) × (now ≤ℤ i64_max)
IsSolo since (enables now) = since ≤ℤ now
IsSolo since (lapses now) = since ≤ℤ now
IsSolo since disables = ⊥
IsSolo since suspends = ⊥
IsSolo since _ = Unit

abbrev pub AllSolo : ℤ → List Act → Type 0
AllSolo since [] = Unit
AllSolo since (a ∷ acts) = IsSolo since a × AllSolo since acts

hold-HeldSince :
    (user held : User) (by : Role) (since now : ℤ) (ratification_pending : Bool)
    → since ≤ℤ now
    → now ≤ℤ i64_max
    → hold user by now ratification_pending ≡ ok held
    → HeldSince since held.suspension held.hold_ended_at
hold-HeldSince user held by since now ratification_pending s m h =
    ground (arith, hold-ok user held by now ratification_pending h, saturating_add-pos now 86400)

-- Whoever may be held again after a hold waited for the cooldown.
cooled :
    (since now : ℤ) (suspension : Option Suspension) (ended : Option ℤ)
    → HeldSince since suspension ended
    → ((false ≡ true) ⊎ ((hold_deadline suspension ≡ none) × CooledDown ended now))
    → saturating_add since hold_cooldown_secs ≤ℤ now
cooled since now (some (admin_hold deadline)) ended h free = absurd (ground arith)
cooled since now (some governance) ended h free = absurd h
cooled since now none none h free = absurd h
cooled since now none (some ended) h free =
    ground (arith, saturating_add_mono since ended hold_cooldown_secs)

module _ (parse : ProfileFields → Result ProfileFields) where
  step-HeldSince :
      (user : User) (a : Act) (since : ℤ)
      → IsSolo since a
      → HeldSince since user.suspension user.hold_ended_at
      → HeldSince since (step parse user a).suspension (step parse user a).hold_ended_at
  unfolding step change_email verify_email revoke_tokens take_over set_username update_profile
      enable lapse_hold set_kyc_level set_role
  step-HeldSince user (changes_email email verified) since s h = ground arith
  step-HeldSince user verifies_email since s h = ground arith
  step-HeldSince user revokes since s h = ground arith
  step-HeldSince user takes_over since s h = ground arith
  step-HeldSince user (sets_username name) since s h = ground arith
  step-HeldSince user (updates_profile fields) since s h = ground arith
  step-HeldSince user disables since s h = absurd s
  step-HeldSince user (holds by now pending) since s h = by_result (hold user by now pending) refl
    where
      by_result :
          (r : Result User)
          → hold user by now pending ≡ r
          → HeldSince since (Steps.after user r).suspension (Steps.after user r).hold_ended_at
      by_result (ok held) e = hold-HeldSince user held by since now pending s.0 s.1 e
      by_result (err x) e = h
  step-HeldSince user suspends since s h = absurd s
  step-HeldSince user (enables now) since s h = ground arith
  step-HeldSince user (lapses now) since s h = ground arith
  step-HeldSince user (sets_kyc_level level) since s h = ground arith
  step-HeldSince user (sets_role role) since s h = ground arith

  run-HeldSince :
      (user : User) (acts : List Act) (since : ℤ)
      → AllSolo since acts
      → HeldSince since user.suspension user.hold_ended_at
      → HeldSince since (run parse user acts).suspension (run parse user acts).hold_ended_at
  unfolding run
  run-HeldSince user [] since s h = h
  run-HeldSince user (a ∷ acts) since s h =
      run-HeldSince (step parse user a) acts since s.1 (step-HeldSince user a since s.0 h)

  -- Nobody keeps an account frozen alone: after a hold at an instant of i64 and any acts at or after
  -- that instant, none of them the owners' suspension or the unqualified one, a hold without an open
  -- proposal is placed a cooldown of seven days after that instant at the earliest.
  pub hold_cooldown :
      (user held again : User) (acts : List Act) (by by' : Role) (start now : ℤ) (pending : Bool)
      → start ≤ℤ i64_max
      → hold user by start pending ≡ ok held
      → AllSolo start acts
      → hold (run parse held acts) by' now false ≡ ok again
      → saturating_add start hold_cooldown_secs ≤ℤ now
  hold_cooldown user held again acts by by' start now pending m h s k =
      cooled start now (run parse held acts).suspension (run parse held acts).hold_ended_at
        (run-HeldSince held acts start s
          (hold-HeldSince user held by start start pending (omega arith) m h))
        ((hold_iff (run parse held acts) by' now false).0 (ground (arith, k))).2
