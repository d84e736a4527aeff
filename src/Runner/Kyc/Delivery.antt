-- ===== src/Runner/Kyc/Delivery.antt =====
-- Which levels a delivery to the webhook of runner/src/web/kyc.rs moves.
use concierge.Prelude.{
  ℕ, ◌≤◌, ◌<◌, String, List, Bool, true, false, Option, none, some, ◌≡◌, ◌⊎◌, inl, inr, refl, ap,
  ◌∙◌, arith,
}
use concierge.Prelude.Int.{ℤ}
use concierge.Governance.Peer.{UserId}
use concierge.Users.Account.{User}
use concierge.Runner.Genesis.{Store, Attempt, done, failed, panicked}
use concierge.Runner.Kyc.Status.{KycStatus, approved, grants_tier}
use concierge.Runner.Kyc.Cases.{
  Case, KycDecision, KycCase, CaseDecision, recorded, redelivered, ignored, mismatch, unknown,
}
use concierge.Runner.Kyc.Decision.{find_case, judge, write_verdict, record_decision}
use concierge.Runner.Kyc.Callback.{
  KycLevelChange, raised, already_holds, raise_kyc_level_to, Plane, Parsed, verdict, bad_signature,
  stale_timestamp, malformed, unknown_status, Response, accepted, Reply, level_reply, apply,
  after_record, callback,
}
use concierge.Runner.Kyc.Levels.{level_of, Rise, raise-Rise}

-- The account that an answer names.
abbrev named_user : CaseDecision → Option UserId
named_user (recorded k) = some k.user_id
named_user (redelivered k) = some k.user_id
named_user (ignored k) = some k.user_id
named_user (mismatch k) = some k.user_id
named_user unknown = none

judge-named_user :
    (now : ℤ) (users : List User) (cases : List Case) (c : Case) (d : KycDecision)
    → named_user (judge now users cases c d).1 ≡ some c.user_id
unfolding judge write_verdict
judge-named_user now users cases c d = ground arith

-- An answer about an attempt is about the one that the session finds.
record_decision-named_user :
    (now : ℤ) (users : List User) (cases : List Case) (provider : String) (d : KycDecision)
    (user : UserId)
    → named_user (record_decision now users cases provider d).1 ≡ some user
    → (c : Case) × (find_case provider d.provider_ref cases ≡ some c) × (c.user_id ≡ user)
unfolding record_decision
record_decision-named_user now users cases provider d user h =
    by_case (find_case provider d.provider_ref cases) refl
  where
    by_case :
        (o : Option Case)
        → find_case provider d.provider_ref cases ≡ o
        → (c : Case) × (find_case provider d.provider_ref cases ≡ some c) × (c.user_id ≡ user)
    by_case none e = absurd (ground (arith, e, h))
    by_case (some c) e = (c, e, ground (arith, e, h, judge-named_user now users cases c d))

-- The only rise of a level that the webhook makes: from 0 to 1, with an approval as the answer.
abbrev pub Approved : Store → Store → Response → UserId → Type 0
Approved store next response i =
    (level_of i store ≡ some 0)
    × (level_of i next ≡ some 1)
    × (b : Bool) × (response ≡ accepted approved b)

grants_tier-some :
    (s : KycStatus) (requested target : ℕ)
    → grants_tier s requested ≡ some target
    → (s ≡ approved) × (target ≤ 1)
unfolding grants_tier
grants_tier-some s requested target h = ground arith

below_one :
    (n target : ℕ) (o p : Option ℕ)
    → n < target
    → target ≤ 1
    → o ≡ some n
    → p ≡ some target
    → (o ≡ some 0) × (p ≡ some 1)
below_one n target o p lt le e f = ground arith

done-Rise :
    (store next : Store) (user : UserId) (status : KycStatus) (duplicate : Bool) (target i : ℕ)
    → Rise store next user target i
    → status ≡ approved
    → target ≤ 1
    → (level_of i next ≡ level_of i store)
      ⊎ ((user ≡ i) × (Approved store next (accepted status duplicate) i))
done-Rise store next user status duplicate target i (inl e) s le = inl e
done-Rise store next user status duplicate target i (inr (is_i, m, was, lt, now_is)) s le =
    let (zero_then, one_now) = below_one m target _ _ lt le was now_is in
    inr (is_i, (zero_then, one_now, duplicate, ap (λ x. accepted x duplicate) s))

-- What is left of the levels when an approval was applied.
abbrev Applied : Plane → KycCase → Reply → UserId → Type 0
Applied plane case r i =
    (level_of i r.plane.accounts ≡ level_of i plane.accounts)
    ⊎ ((case.user_id ≡ i) × (Approved plane.accounts r.plane.accounts r.response i))

apply_rise :
    (plane : Plane) (case : KycCase) (duplicate : Bool) (target : ℕ) (i : UserId)
    (a : Attempt (Store × KycLevelChange))
    → raise_kyc_level_to plane.accounts case.user_id target ≡ a
    → case.status ≡ approved
    → target ≤ 1
    → Applied plane case (level_reply plane case duplicate a) i
apply_rise plane case duplicate target i (failed e) h s le = inl refl
apply_rise plane case duplicate target i panicked h s le = inl refl
apply_rise plane case duplicate target i (done (next, already_holds n)) h s le =
    done-Rise plane.accounts next case.user_id case.status duplicate target i
      (raise-Rise plane.accounts next case.user_id target i (already_holds n) h).0 s le
apply_rise plane case duplicate target i (done (next, raised from to)) h s le =
    done-Rise plane.accounts next case.user_id case.status duplicate target i
      (raise-Rise plane.accounts next case.user_id target i (raised from to) h).0 s le

apply-Applied :
    (now : ℤ) (plane : Plane) (case : KycCase) (duplicate : Bool) (i : UserId)
    → Applied plane case (apply now plane case duplicate) i
unfolding apply
apply-Applied now plane case duplicate i =
    by_grant (grants_tier case.status case.requested_tier) refl
  where
    by_grant :
        (o : Option ℕ)
        → grants_tier case.status case.requested_tier ≡ o
        → Applied plane case (apply now plane case duplicate) i
    by_grant none e = rw (e, apply) (inl refl)
    by_grant (some target) e =
        let (is_approved, le) = grants_tier-some case.status case.requested_tier target e in
        rw (e, apply)
          (apply_rise plane case duplicate target i
            (raise_kyc_level_to plane.accounts case.user_id target) refl is_approved le)

-- A delivery moves the level of no account but, where an approval is accepted, that of the account
-- whose attempt the session finds, and that from 0 to 1.
pub callback_levels :
    (now : ℤ) (plane : Plane) (provider : Option String) (parsed : Parsed) (i : UserId)
    → let r = callback now plane provider parsed in
      (level_of i r.plane.accounts ≡ level_of i plane.accounts)
      ⊎ ((name : String) × (d : KycDecision) × (c : Case) × (provider ≡ some name)
          × (parsed ≡ verdict d)
          × (find_case name d.provider_ref plane.cases ≡ some c)
          × (c.user_id ≡ i)
          × Approved plane.accounts r.plane.accounts r.response i)
unfolding callback after_record
callback_levels now plane none parsed i = inl refl
callback_levels now plane (some name) bad_signature i = inl refl
callback_levels now plane (some name) stale_timestamp i = inl refl
callback_levels now plane (some name) malformed i = inl refl
callback_levels now plane (some name) unknown_status i = inl refl
callback_levels now plane (some name) (verdict d) i =
    by_decision (record_decision now plane.accounts.users plane.cases name d).1 refl
  where
    moved : Plane
    moved = record plane { cases = (record_decision now plane.accounts.users plane.cases name d).0 }

    Goal : Reply → Type 0
    Goal r =
        (level_of i r.plane.accounts ≡ level_of i plane.accounts)
        ⊎ ((n : String) × (e : KycDecision) × (c : Case) × (some name ≡ some n)
            × (verdict d ≡ verdict e)
            × (find_case n e.provider_ref plane.cases ≡ some c)
            × (c.user_id ≡ i)
            × Approved plane.accounts r.plane.accounts r.response i)

    applied :
        (k : KycCase) (b : Bool)
        → named_user (record_decision now plane.accounts.users plane.cases name d).1
          ≡ some k.user_id
        → Applied moved k (apply now moved k b) i
        → Goal (apply now moved k b)
    applied k b h (inl e) = inl e
    applied k b h (inr (is_i, a)) =
        let (c, f, u) =
          record_decision-named_user now plane.accounts.users plane.cases name d k.user_id h in
        inr (name, d, c, refl, refl, f, u ∙ is_i, a)

    by_decision :
        (x : CaseDecision)
        → (record_decision now plane.accounts.users plane.cases name d).1 ≡ x
        → Goal (after_record now moved x)
    by_decision (recorded k) e =
        applied k false (ap named_user e) (apply-Applied now moved k false i)
    by_decision (redelivered k) e =
        applied k true (ap named_user e) (apply-Applied now moved k true i)
    by_decision (ignored k) e = inl refl
    by_decision (mismatch k) e = inl refl
    by_decision unknown e = inl refl
