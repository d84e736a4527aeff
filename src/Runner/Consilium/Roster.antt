-- ===== src/Runner/Consilium/Roster.antt =====
-- The number of owners through the writes of runner/src/infrastructure/governance.rs to an account.
use concierge.Prelude.{
  ℕ, ◌+◌, ◌≤◌, List, [], ◌∷◌, Bool, true, false, Option, none, some, length, ◌==◌, if◌then◌else◌,
  ◌≡◌, inl, inr, refl, sym, ap, ◌∙◌, arith, Bool-cases,
}
use concierge.Prelude.Int.{ℤ}
use concierge.Errors.{Result, ok, err, ◌>>=◌}
use concierge.Authz.Role
use concierge.Authz.Role.{Role}
use concierge.Governance.ProposalState.{ProposalState}
use concierge.Governance.Peer.{UserId}
use concierge.Governance.Removal
use concierge.Governance.Removal.{OwnerRemoval, is_passes, outcome_now}
use concierge.Users.User
use concierge.Users.Account.{User}
use concierge.Users.User.{set_role}
use concierge.Runner.Genesis.Seating.{find_user-id}
use concierge.Runner.Genesis.{Store, find_user, update_row, loaded, is_owner, owner_ids}
use concierge.Runner.Consilium.{write_role, take_seat, grant_seat}

-- How many owners there are.
abbrev pub owners : Store → ℕ
owners store = length (owner_ids store.users)

abbrev flag : Bool → ℕ
flag true = 1
flag false = 0

owners_cons :
    (x : User) (users : List User)
    → length (owner_ids (x ∷ users)) ≡ flag (is_owner x) + length (owner_ids users)
owners_cons x users = elim (Bool-cases (is_owner x)) [
  | inl e ↦ rw e (omega arith)
  | inr e ↦ rw e (omega arith)
]

flag_le : (b : Bool) → flag b ≤ 1
flag_le b = ground arith

flag_mono : (a b : Bool) → (a ≡ true → b ≡ true) → flag a ≤ flag b
flag_mono true b h = rw (h refl) (omega arith)
flag_mono false b h = omega arith

update_row_here :
    (row x : User) (users : List User)
    → (x.id == row.id) ≡ true
    → update_row row (x ∷ users) ≡ row ∷ users
unfolding update_row
update_row_here row x users e = rw e refl

update_row_past :
    (row x : User) (users : List User)
    → (x.id == row.id) ≡ false
    → update_row row (x ∷ users) ≡ x ∷ update_row row users
unfolding update_row
update_row_past row x users e = rw e refl

-- A row that is rewritten costs one seat at most.
pub owners-update_row :
    (row : User) (users : List User)
    → length (owner_ids users) ≤ length (owner_ids (update_row row users)) + 1
unfolding update_row
owners-update_row row [] = omega arith
owners-update_row row (x ∷ users) = elim (Bool-cases (x.id == row.id)) [
  | inl e ↦
      rw (update_row_here row x users e)
        (omega (arith, owners_cons x users, owners_cons row users, flag_le (is_owner x)))
  | inr e ↦ rw (update_row_past row x users e) (
      omega (
        arith,
        owners_cons x users,
        owners_cons x (update_row row users),
        owners-update_row row users,
      ))
]

-- And none where its owner stays one.
pub owners-update_row_kept :
    (row user : User) (users : List User)
    → find_user row.id users ≡ some user
    → (is_owner user ≡ true → is_owner row ≡ true)
    → length (owner_ids users) ≤ length (owner_ids (update_row row users))
unfolding find_user
owners-update_row_kept row user [] h k = absurd (ground arith)
owners-update_row_kept row user (x ∷ users) h k = elim (Bool-cases (x.id == row.id)) [
  | inl e ↦
      let is_user : x ≡ user = unwrapped x user (rw (← h) (rw e refl)) in
      let mono = flag_mono (is_owner x) (is_owner row) (λ o. k (ap is_owner (sym is_user) ∙ o)) in
      rw (update_row_here row x users e)
        (omega (arith, owners_cons x users, owners_cons row users, mono))
  | inr e ↦ rw (update_row_past row x users e) (
      omega (
        arith,
        owners_cons x users,
        owners_cons x (update_row row users),
        owners-update_row_kept row user users (rw (← h) (rw e refl)) k,
      ))
]
  where
    unwrapped : (x y : User) → some x ≡ some y → x ≡ y
    unwrapped x y e = cc

written_role :
    (user : User) (role : Role)
    → ((User.drain_events (set_role (loaded user) role)).1.role ≡ role)
      × ((User.drain_events (set_role (loaded user) role)).1.id ≡ user.id)
unfolding User.drain_events set_role Role.same
written_role user role = ground arith

write_role-found :
    (store next : Store) (id : UserId) (role : Role)
    → write_role store id role ≡ ok next
    → (user : User) × (find_user id store.users ≡ some user)
      × (next.users ≡ update_row (User.drain_events (set_role (loaded user) role)).1 store.users)
unfolding write_role
write_role-found store next id role h = by_row (find_user id store.users) refl
  where
    by_row :
        (o : Option User)
        → find_user id store.users ≡ o
        → (user : User) × (find_user id store.users ≡ some user)
          × (next.users
              ≡ update_row (User.drain_events (set_role (loaded user) role)).1 store.users)
    by_row none e = absurd (ground (arith, e, h))
    by_row (some user) e = (user, e, ground (arith, e, h))

pub owners-take_seat :
    (store next : Store) (id : UserId)
    → take_seat store id ≡ ok next
    → owners store ≤ owners next + 1
unfolding take_seat
owners-take_seat store next id h =
    let (user, e, w) = write_role-found store next id Role.investor h in
    rw w
      (owners-update_row (User.drain_events (set_role (loaded user) Role.investor)).1 store.users)

pub owners-grant_seat :
    (store next : Store) (id : UserId) → grant_seat store id ≡ ok next → owners store ≤ owners next
unfolding grant_seat Role.same
owners-grant_seat store next id h =
    let (user, e, w) = write_role-found store next id Role.owner h in
    let written = (User.drain_events (set_role (loaded user) Role.owner)).1 in
    let (role, same_id) = written_role user Role.owner in
    let at_id = same_id ∙ find_user-id id store.users user e in
    rw w (
      owners-update_row_kept written user store.users (ap (λ n. find_user n store.users) at_id ∙ e)
        (λ o. rw role refl))

-- The floor: two owners at least.
abbrev pub AboveFloor : Store → Type 0
AboveFloor store = 2 ≤ owners store

-- What an execution of an open removal was carried by.
pub executed_floor :
    (r r' : OwnerRemoval) (roster : List UserId) (now : ℤ)
    → r.life.state ≡ ProposalState.open_state
    → Removal.execute r roster now ≡ ok (r', ProposalState.executed)
    → 3 ≤ length roster
unfolding Removal.execute
executed_floor r r' roster now o h = ground arith

-- What a computation inside a transaction makes of the accounts, where it does not roll back.
abbrev pub Ensures {ℓ} : {X : Type ℓ} → Result (Store × X) → Type 0
Ensures (err e) = Unit
Ensures (ok (store, x)) = AboveFloor store

-- A computation in two parts, of which the second writes.
pub bind-Ensures {ℓ ℓ'} :
    {A : Type ℓ} {X : Type ℓ'} (res : Result A) (f : A → Result (Store × X))
    → ((a : A) → res ≡ ok a → Ensures (f a))
    → Ensures (res >>= f)
bind-Ensures (err e) f h = tt
bind-Ensures (ok a) f h = h a refl

pub if-Ensures {ℓ} :
    {X : Type ℓ} (b : Bool) (x y : Result (Store × X))
    → Ensures x
    → Ensures y
    → Ensures (if b then x else y)
if-Ensures true x y h k = h
if-Ensures false x y h k = k
