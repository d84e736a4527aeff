-- ===== src/Runner/Genesis/Seatable.antt =====
-- Whom a genesis resolves: active accounts, by their id or by a verified address.
use concierge.Prelude.{
  List, [], ◌∷◌, true, false, Option, none, some, filter, contains, ◌==◌, ◌≡◌, ◌⊎◌, inl, inr, refl,
  ◌∙◌, subst, arith, Bool-cases,
}
use concierge.Text.{Text, same_text}
use concierge.Governance.Peer.{UserId}
use concierge.Users.Identity.{Email}
use concierge.Users.UserStatus.{active}
use concierge.Users.Account.{User}
use concierge.Runner.Gate.{Uuid}
use concierge.Runner.Genesis.{
  Store, Attempt, done, failed, panicked, Resolution, GenesisSubject, by_id, mailbox, Scan, settle,
  find_user, resolve_subject, resolve_all, unresolved, seated, seed_owners,
}
use concierge.Runner.Genesis.Seating.{find_user-id, seat_found-seated, seed_owners-seated}
use concierge.Runner.Genesis.Scanning.{
  In, here, later, In-or, In-filter, contains-remember, scan-Collected,
}

-- A subject names an account: by its id, or by its address if the address is verified.
pub data Names (lower : Text → Text) (user : User) : GenesisSubject → Type 0 where
  by_own_id : {id : UserId} → user.id ≡ id → Names lower user (by_id id)
  by_address :
      {address : Email}
      → same_text (lower user.email.address) address.address ≡ true
      → user.email_verified ≡ true
      → Names lower user (mailbox address)

-- An account of the table that is active and that one of the subjects names.
abbrev pub Seatable : (Text → Text) → List User → List GenesisSubject → UserId → Type 0
Seatable lower users subjects id =
    (user : User) × In user users
    × (user.id ≡ id)
    × (user.status ≡ active)
    × (subject : GenesisSubject) × In subject subjects
    × Names lower user subject

settle-found :
    (res next : Resolution) (address : Email) (s : Scan) (id : UserId)
    → settle res address s ≡ done next
    → contains next.found id ≡ true
    → (contains res.found id ≡ true) ⊎ (contains s.seatable id ≡ true)
unfolding settle
settle-found res next address s id h k = by_seatable s.seatable refl
  where
    by_seatable :
        (l : List UserId)
        → s.seatable ≡ l
        → (contains res.found id ≡ true) ⊎ (contains s.seatable id ≡ true)
    by_seatable [] e = ground (arith, e, h, k)
    by_seatable (only ∷ others) e = ground (arith, e, h, k, contains-remember res.found only id)

find_user-In :
    (id : UserId) (users : List User) (user : User) → find_user id users ≡ some user → In user users
unfolding find_user
find_user-In id [] user h = absurd (ground (arith, h))
find_user-In id (x ∷ users) user h = by_test (Bool-cases (x.id == id)) (find_user-In id users user)
  where
    by_test :
        ((x.id == id ≡ true) ⊎ (x.id == id ≡ false))
        → (find_user id users ≡ some user → In user users)
        → In user (x ∷ users)
    by_test (inl e) rest =
        let same : x ≡ user = ground (arith, e, h) in subst (λ z. In z (x ∷ users)) same here
    by_test (inr e) rest = later (rest (ground (arith, e, h)))

module _ (uuid : Uuid) (lower : Text → Text) where
  resolve_subject-found :
      (users : List User) (res next : Resolution) (subject : GenesisSubject) (id : UserId)
      → resolve_subject uuid lower users res subject ≡ done next
      → contains next.found id ≡ true
      → (contains res.found id ≡ true) ⊎ Seatable lower users (subject ∷ []) id
  unfolding resolve_subject
  resolve_subject-found users res next (by_id named) id h k = by_row (find_user named users) refl
    where
      outcome :
          (user : User)
          → find_user named users ≡ some user
          → (contains res.found id ≡ true) ⊎ ((named ≡ id) × (user.status ≡ active))
      outcome user e = ground (arith, e, h, k, contains-remember res.found named id)

      by_row :
          (o : Option User)
          → find_user named users ≡ o
          → (contains res.found id ≡ true) ⊎ Seatable lower users (by_id named ∷ []) id
      by_row none e = ground (arith, e, h, k)
      by_row (some user) e =
          let own = find_user-id named users user e in
          elim (outcome user e) [
            | inl old ↦ inl old
            | inr n ↦ inr (
              user,
              find_user-In named users user e,
              own ∙ n.0,
              n.1,
              by_id named,
              here,
              by_own_id own,
            )
          ]
  resolve_subject-found users res next (mailbox address) id h k =
      elim (settle-found res next address _ id h k) [
        | inl old ↦ inl old
        | inr new ↦
            elim (scan-Collected (record { seatable = []; blocked = none })
              (filter (λ user. same_text (lower user.email.address) address.address) users) id
              new) [
                | inl nothing ↦ absurd (ground (arith, nothing))
                | inr (user, m, i, v, a) ↦
                    let (stands, same) =
                      In-filter (λ user. same_text (lower user.email.address) address.address) users
                        m in
                    inr (user, stands, i, a, mailbox address, here, by_address same v)
              ]
      ]

  widen :
      (users : List User) (subject : GenesisSubject) (subjects : List GenesisSubject) (id : UserId)
      → Seatable lower users subjects id
      → Seatable lower users (subject ∷ subjects) id
  widen users subject subjects id (user, m, i, a, named, k, n) = (user, m, i, a, named, later k, n)

  first :
      (users : List User) (subject : GenesisSubject) (subjects : List GenesisSubject) (id : UserId)
      → Seatable lower users (subject ∷ []) id
      → Seatable lower users (subject ∷ subjects) id
  first users subject subjects id (user, m, i, a, named, k, n) = (
    user,
    m,
    i,
    a,
    named,
    elim (In-or k) [
      | inl same ↦ subst (λ z. In named (z ∷ subjects)) same here
      | inr none_left ↦ elim none_left [ ]
    ],
    n,
  )

  resolve_all-parts :
      (users : List User) (res next : Resolution) (subject : GenesisSubject)
      (subjects : List GenesisSubject)
      → resolve_all uuid lower users res (subject ∷ subjects) ≡ done next
      → (middle : Resolution) × (resolve_subject uuid lower users res subject ≡ done middle)
        × (resolve_all uuid lower users middle subjects ≡ done next)
  unfolding resolve_all
  resolve_all-parts users res next subject subjects h =
      by_first (resolve_subject uuid lower users res subject) refl h
    where
      continue : Attempt Resolution → Attempt Resolution
      continue (done middle) = resolve_all uuid lower users middle subjects
      continue (failed e) = failed e
      continue panicked = panicked

      by_first :
          (a : Attempt Resolution)
          → resolve_subject uuid lower users res subject ≡ a
          → continue a ≡ done next
          → (middle : Resolution) × (resolve_subject uuid lower users res subject ≡ done middle)
            × (resolve_all uuid lower users middle subjects ≡ done next)
      by_first (done middle) e k = (middle, e, k)
      by_first (failed x) e k = absurd (ground arith)
      by_first panicked e k = absurd (ground arith)

  resolve_all-found :
      (subjects : List GenesisSubject) (users : List User) (res next : Resolution) (id : UserId)
      → resolve_all uuid lower users res subjects ≡ done next
      → contains next.found id ≡ true
      → (contains res.found id ≡ true) ⊎ Seatable lower users subjects id
  resolve_all-found [] users res next id h k = inl (unfold resolve_all in ground (arith, h, k))
  resolve_all-found (subject ∷ subjects) users res next id h k =
      let (middle, e, rest) = resolve_all-parts users res next subject subjects h in
      elim (resolve_all-found subjects users middle next id rest k) [
        | inr new ↦ inr (widen users subject subjects id new)
        | inl earlier ↦ elim (resolve_subject-found users res middle subject id e earlier) [
          | inl old ↦ inl old
          | inr new ↦ inr (first users subject subjects id new)
        ]
      ]

  -- A genesis seats nobody but active accounts of the table that one of the subjects names, by their
  -- id or by their address where it is verified.
  pub seed_owners-Seatable :
      (store next : Store) (subjects : List GenesisSubject) (res : Resolution) (id : UserId)
      → seed_owners uuid lower store subjects ≡ done (next, seated res)
      → contains res.found id ≡ true
      → Seatable lower store.users subjects id
  seed_owners-Seatable store next subjects res id h k =
      let (nobody, e) = seed_owners-seated uuid lower store next subjects res h in
      let (a, enough, all_granted) = seat_found-seated store next _ res e in
      elim (resolve_all-found subjects store.users unresolved res id a k) [
        | inl nothing ↦ absurd (ground (arith, nothing))
        | inr new ↦ new
      ]
