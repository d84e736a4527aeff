-- ===== src/Runner/Kyc/Levels.antt =====
-- The levels of the accounts through a delivery of runner/src/web/kyc.rs.
use concierge.Prelude.{
  ℕ, ◌≤◌, ◌<◌, [], ◌∷◌, Bool, true, false, Option, none, some, leb, ◌==◌, ◌≡◌, ◌⊎◌, inl, inr, refl,
  sym, ap, ◌∙◌, arith, Bool-cases, if◌then◌else◌, ==_iff,
}
use concierge.Errors.{not_found, num, Result, ok, err}
use concierge.Governance.Peer.{UserId}
use concierge.Users.User
use concierge.Users.Account.{User}
use concierge.Users.User.{set_kyc_level}
use concierge.Runner.Genesis.{Store, done, failed, find_user, update_row, loaded}
use concierge.Runner.Genesis.Seating.{find_user-update_row, find_user-id}
use concierge.Runner.Kyc.Callback.{KycLevelChange, already_holds, level_written, raise_kyc_level_to}

abbrev pub level_in : Option User → Option ℕ
level_in none = none
level_in (some user) = some user.kyc_level

-- The level of an account, if there is the account.
abbrev pub level_of : UserId → Store → Option ℕ
level_of id store = level_in (find_user id store.users)

-- A level that is written.
set_level :
    (user changed : User) (target : ℕ)
    → set_kyc_level (loaded user) target ≡ ok changed
    → ((User.drain_events changed).1.kyc_level ≡ target)
      × ((User.drain_events changed).1.id ≡ user.id)
unfolding set_kyc_level User.drain_events
set_level user changed target h = ground arith

-- What a raise makes of the level of an account: nothing, or it was below the target and is it now.
abbrev pub Rise : Store → Store → UserId → ℕ → UserId → Type 0
Rise store next id target i =
    (level_of i next ≡ level_of i store)
    ⊎ ((id ≡ i)
        × (n : ℕ) × (level_of i store ≡ some n)
        × (n < target)
        × (level_of i next ≡ some target))

if_true {ℓ} : {A : Type ℓ} (b : Bool) (x y : A) → b ≡ true → (if b then x else y) ≡ x
if_true b x y e = rw e refl

if_false {ℓ} : {A : Type ℓ} (b : Bool) (x y : A) → b ≡ false → (if b then x else y) ≡ y
if_false b x y e = rw e refl

row_after :
    (id : UserId) (written user : User) (store next : Store)
    → next.users ≡ update_row written store.users
    → written.id ≡ id
    → find_user id store.users ≡ some user
    → (k : UserId)
    → find_user k next.users ≡ (if written.id == k then some written else find_user k store.users)
row_after id written user store next users at_id f k =
    ap (λ x. find_user k x) users
    ∙ find_user-update_row k written user store.users (ap (λ n. find_user n store.users) at_id ∙ f)

written-Rise :
    (store next : Store) (id target i : ℕ) (user : User) (r : Result User) (change : KycLevelChange)
    → find_user id store.users ≡ some user
    → user.kyc_level < target
    → set_kyc_level (loaded user) target ≡ r
    → level_written store id user.kyc_level target r ≡ done (next, change)
    → Rise store next id target i × (level_of id next ≡ some target)
written-Rise store next id target i user (err e) change f lt s h = absurd (ground arith)
written-Rise store next id target i user (ok changed) change f lt s h =
    let written = (User.drain_events changed).1 in
    let (level, same_id) = set_level user changed target s in
    let users : next.users ≡ update_row written store.users = ground (arith, h) in
    let at_id : written.id ≡ id = same_id ∙ find_user-id id store.users user f in
    let row_of = row_after id written user store next users at_id f in
    let own : level_of id next ≡ some target =
      ap level_in (row_of id ∙ if_true (written.id == id) _ _ ((==_iff written.id id).1 at_id))
      ∙ ap some level in
    (
      elim (Bool-cases (written.id == i)) [
        | inr e ↦ inl (ap level_in (row_of i ∙ if_false (written.id == i) _ _ e))
        | inl e ↦
            let is_i : id ≡ i = sym at_id ∙ (==_iff written.id i).0 e in
            inr (
              is_i,
              user.kyc_level,
              ap (λ k. level_of k store) (sym is_i) ∙ ap level_in f,
              lt,
              ap (λ k. level_of k next) (sym is_i) ∙ own,
            )
      ],
      own,
    )

raise_found :
    (store : Store) (id target : ℕ) (user : User)
    → find_user id store.users ≡ some user
    → raise_kyc_level_to store id target ≡ (
        if leb target user.kyc_level
        then done (store, already_holds user.kyc_level)
        else level_written store id user.kyc_level target (set_kyc_level (loaded user) target))
unfolding raise_kyc_level_to
raise_found store id target user e = rw (e, raise_kyc_level_to) refl

raise_missing :
    (store : Store) (id target : ℕ)
    → find_user id store.users ≡ none
    → raise_kyc_level_to store id target ≡ failed (not_found "user" (num id ∷ []))
unfolding raise_kyc_level_to
raise_missing store id target e = rw (e, raise_kyc_level_to) refl

-- A raise that is carried out leaves the account at the target at least, and no other account moves.
pub raise-Rise :
    (store next : Store) (id target i : ℕ) (change : KycLevelChange)
    → raise_kyc_level_to store id target ≡ done (next, change)
    → Rise store next id target i × (n : ℕ) × (level_of id next ≡ some n) × (target ≤ n)
raise-Rise store next id target i change h = by_row (find_user id store.users) refl
  where
    by_row :
        (o : Option User)
        → find_user id store.users ≡ o
        → Rise store next id target i × (n : ℕ) × (level_of id next ≡ some n) × (target ≤ n)
    by_row none e = absurd (ground (arith, raise_missing store id target e, h))
    by_row (some user) e = elim (Bool-cases (leb target user.kyc_level)) [
      | inl le ↦
          let unmoved : next ≡ store = ground (arith, raise_found store id target user e, le, h) in
          (
            inl (ap (level_of i) unmoved),
            user.kyc_level,
            ap (level_of id) unmoved ∙ ap level_in e,
            ground (arith, le),
          )
      | inr gt ↦
          let (rise, own) =
            written-Rise store next id target i user (set_kyc_level (loaded user) target) change e
              (ground (arith, gt)) refl
              (sym
                  (raise_found store id target user e ∙ if_false (leb target user.kyc_level) _ _ gt)
                ∙ h) in
          (rise, target, own, omega arith)
    ]
