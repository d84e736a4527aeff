-- ===== src/Runner/Genesis/Seating.antt =====
-- What a genesis that seats leaves behind.
use concierge.Prelude.{
  ◌≤◌, List, [], ◌∷◌, Bool, true, false, ◌||◌, Option, none, some, contains, length, is_empty, ◌==◌,
  if◌then◌else◌, ◌≡◌, refl, ◌∙◌, ap, arith, Bool-cases,
}
use concierge.Text.{Text}
use concierge.Authz.Role
use concierge.Authz.Role.{Role, owner}
use concierge.Governance.Peer.{UserId}
use concierge.Users.User
use concierge.Users.Account.{User}
use concierge.Users.User.{set_role}
use concierge.Runner.Gate.{Uuid}
use concierge.Runner.Genesis.{
  Store, Attempt, done, failed, panicked, Resolution, GenesisSubject, closed, seated, find_user,
  is_owner, owner_ids, loaded, update_row, grant_seat, grant_all, seat_found, committed,
  resolve_all, seed_owners, unresolved,
}

abbrev pub owns : Option User → Bool
owns none = false
owns (some user) = is_owner user

-- Whether a user holds a seat of an owner.
abbrev pub holds_seat : UserId → List User → Bool
holds_seat id users = owns (find_user id users)

-- The row that a seat is written to.
written_role :
    (user : User)
    → ((User.drain_events (set_role (loaded user) owner)).1.role ≡ owner)
      × ((User.drain_events (set_role (loaded user) owner)).1.id ≡ user.id)
unfolding User.drain_events set_role Role.same
written_role user = ground arith

pub find_user-id :
    (id : UserId) (users : List User) (user : User) → find_user id users ≡ some user → user.id ≡ id
unfolding find_user
find_user-id id [] user h = ground arith
find_user-id id (x ∷ users) user h = ground (arith, find_user-id id users user)

-- An update is read back under its id, and changes no other row.
pub find_user-update_row :
    (id : UserId) (row user : User) (users : List User)
    → find_user row.id users ≡ some user
    → find_user id (update_row row users) ≡ (if row.id == id then some row else find_user id users)
unfolding find_user update_row
find_user-update_row id row user [] h = ground arith
find_user-update_row id row user (x ∷ users) h =
    ground (arith, find_user-update_row id row user users)

abbrev written : User → User
written user = (User.drain_events (set_role (loaded user) owner)).1

grant_seat-done :
    (store next : Store) (id : UserId)
    → grant_seat store id ≡ done next
    → (user : User) × (find_user id store.users ≡ some user)
      × (next.users ≡ update_row (written user) store.users)
unfolding grant_seat
grant_seat-done store next id h = by_row (find_user id store.users) refl
  where
    by_row :
        (o : Option User)
        → find_user id store.users ≡ o
        → (user : User) × (find_user id store.users ≡ some user)
          × (next.users ≡ update_row (written user) store.users)
    by_row none e = absurd (ground (arith, e, h))
    by_row (some user) e = (user, e, ground (arith, e, h))

holds :
    (id other : UserId) (row : User) (users : List User)
    → row.id ≡ id
    → row.role ≡ owner
    → owns (if row.id == other then some row else find_user other users)
      ≡ (id == other || owns (find_user other users))
unfolding Role.same
holds id other row users s o = ground (arith, s, o)

grant_seat-holds :
    (store next : Store) (id other : UserId)
    → grant_seat store id ≡ done next
    → holds_seat other next.users ≡ (id == other || holds_seat other store.users)
grant_seat-holds store next id other h =
    let (user, e, n) = grant_seat-done store next id h in
    let same : (written user).id ≡ id =
      (written_role user).1 ∙ find_user-id id store.users user e in
    ap (λ x. holds_seat other x) n
    ∙ ap owns (
        find_user-update_row other (written user) user store.users
          (ap (λ x. find_user x store.users) same ∙ e))
    ∙ holds id other (written user) store.users same (written_role user).0

-- The rest of the seats, after the first.
abbrev continue : List UserId → Attempt Store → Attempt Store
continue ids (done next) = grant_all next ids
continue ids (failed e) = failed e
continue ids panicked = panicked

grant_all-parts :
    (id : UserId) (ids : List UserId) (store next : Store)
    → grant_all store (id ∷ ids) ≡ done next
    → (first : Store) × (grant_seat store id ≡ done first) × (grant_all first ids ≡ done next)
unfolding grant_all
grant_all-parts id ids store next h = by_seat (grant_seat store id) refl h
  where
    by_seat :
        (a : Attempt Store)
        → grant_seat store id ≡ a
        → continue ids a ≡ done next
        → (first : Store) × (grant_seat store id ≡ done first) × (grant_all first ids ≡ done next)
    by_seat (done first) e k = (first, e, k)
    by_seat (failed x) e k = absurd (ground arith)
    by_seat panicked e k = absurd (ground arith)

grant_all-holds :
    (ids : List UserId) (store next : Store) (other : UserId)
    → grant_all store ids ≡ done next
    → holds_seat other next.users ≡ (contains ids other || holds_seat other store.users)
grant_all-holds [] store next other h = unfold grant_all in ground (arith, h)
grant_all-holds (id ∷ ids) store next other h =
    let (first, e, k) = grant_all-parts id ids store next h in
    ground (arith, grant_seat-holds store first id other e, grant_all-holds ids first next other k)

is_empty-owner_ids :
    (id : UserId) (users : List User)
    → is_empty (owner_ids users) ≡ true
    → holds_seat id users ≡ false
unfolding find_user
is_empty-owner_ids id [] h = refl
is_empty-owner_ids id (user ∷ users) h = ground (arith, is_empty-owner_ids id users)

committed-seated :
    (r res : Resolution) (next : Store) (a : Attempt Store)
    → committed r a ≡ done (next, seated res)
    → (a ≡ done next) × (r ≡ res)
committed-seated r res next (done s) h = ground (arith, h)
committed-seated r res next (failed e) h = absurd (ground (arith, h))
committed-seated r res next panicked h = absurd (ground (arith, h))

pub seat_found-seated :
    (store next : Store) (a : Attempt Resolution) (res : Resolution)
    → seat_found store a ≡ done (next, seated res)
    → (a ≡ done res) × (2 ≤ length res.found) × (grant_all store res.found ≡ done next)
unfolding seat_found
seat_found-seated store next (done r) res h =
    ground (arith, h, committed-seated r res next (grant_all store r.found))
seat_found-seated store next (failed e) res h = absurd (ground (arith, h))
seat_found-seated store next panicked res h = absurd (ground (arith, h))

first_found : (ids : List UserId) → 2 ≤ length ids → (id : UserId) × (contains ids id ≡ true)
first_found [] h = absurd (ground arith)
first_found (id ∷ ids) h = (id, ground arith)

module _ (uuid : Uuid) (lower : Text → Text) where
  pub seed_owners-seated :
      (store next : Store) (subjects : List GenesisSubject) (res : Resolution)
      → seed_owners uuid lower store subjects ≡ done (next, seated res)
      → (is_empty (owner_ids store.users) ≡ true)
        × (seat_found store (resolve_all uuid lower store.users unresolved subjects)
            ≡ done (next, seated res))
  unfolding seed_owners
  seed_owners-seated store next subjects res h = ground (arith, h)

  seed_owners-closed :
      (store : Store) (subjects : List GenesisSubject)
      → is_empty (owner_ids store.users) ≡ false
      → seed_owners uuid lower store subjects
        ≡ done (store, closed (length (owner_ids store.users)))
  unfolding seed_owners
  seed_owners-closed store subjects h = rw h refl

  -- A genesis that seats finds a fund without owners and resolves a list of two ids at least, and
  -- after it a user holds a seat exactly where that list holds the id.
  pub seed_owners-holds :
      (store next : Store) (subjects : List GenesisSubject) (res : Resolution) (id : UserId)
      → seed_owners uuid lower store subjects ≡ done (next, seated res)
      → (owner_ids store.users ≡ [])
        × (2 ≤ length res.found)
        × (holds_seat id next.users ≡ contains res.found id)
  seed_owners-holds store next subjects res id h =
      let (nobody, e) = seed_owners-seated store next subjects res h in
      let (a, enough, granted_all) = seat_found-seated store next _ res e in
      ground (
        arith,
        enough,
        no_ids (owner_ids store.users) nobody,
        is_empty-owner_ids id store.users nobody,
        grant_all-holds res.found store next id granted_all,
      )
    where
      no_ids : (ids : List UserId) → is_empty ids ≡ true → ids ≡ []
      no_ids [] h = refl
      no_ids (x ∷ ids) h = absurd (ground arith)

  -- A genesis seats once: after one that seated, every other genesis finds it closed and leaves the
  -- store as it is.
  pub seed_owners_once :
      (store next : Store) (subjects others : List GenesisSubject) (res : Resolution)
      → seed_owners uuid lower store subjects ≡ done (next, seated res)
      → seed_owners uuid lower next others ≡ done (next, closed (length (owner_ids next.users)))
  seed_owners_once store next subjects others res h =
      let (nobody, e) = seed_owners-seated store next subjects res h in
      let (id, is_found) = first_found res.found (seat_found-seated store next _ res e).1 in
      seed_owners-closed next others (
        ground (
          arith,
          is_found,
          seed_owners-holds store next subjects res id h,
          is_empty-owner_ids id next.users,
          Bool-cases (is_empty (owner_ids next.users)),
        ))
