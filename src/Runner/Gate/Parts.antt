-- ===== src/Runner/Gate/Parts.antt =====
-- The parts of the gate: the live record, the elevation of one request, and the role that results.
use concierge.Prelude.{
  String, Bool-cases, ◌≤◌, ◌<◌, List, [], ◌∷◌, Bool, true, false, Option, none, some, ltb, ◌≡◌, ◌↔◌,
  ◌⊎◌, inl, inr, refl, arith,
}
use concierge.Prelude.Int.{pos}
use concierge.Errors.{ok}
use concierge.Text.{Text}
use concierge.Authz.{name, may_name}
use concierge.Authz.Matrix.{rank, seats_nested}
use concierge.Authz.Permissions.{Permission}
use concierge.Authz.Role.{Role, owner}
use concierge.Governance.Peer.{UserId}
use concierge.Users.UserStatus.{UserStatus, active, disabled}
use concierge.Runner.Gate.{
  Claims, Status, permission_denied, unauthenticated, Reply, granted, refused, AuthzRecord,
  Registry, CallerGate, EffectiveRole, emergency, persisted, BreakGlass, admit, by_count, snapshot,
  lists, elevates, role_of, effective, after_gate, authorize,
}

abbrev pub is_granted : {A : Type 0} → Reply A → Bool
is_granted (granted a) = true
is_granted (refused s) = false

-- Emergency access is open to a subject: nobody has been seen to hold a seat, the registry counts no
-- owner, and the list names the subject.
abbrev pub Elevated : BreakGlass → Registry → Text → Type 0
Elevated b registry sub =
    (b.sealed ≡ false) × (registry.owner_count ≡ ok (pos 0)) × (lists b.elevates sub ≡ true)

-- The live record lets a token through.
abbrev pub Live : Claims → AuthzRecord → Type 0
Live c r = (r.status ≡ active) × (r.token_version ≤ c.token_version)

pub elevates_iff :
    (b : BreakGlass) (registry : Registry) (sub : Text)
    → (elevates (snapshot b registry).1 sub ≡ true) ↔ Elevated b registry sub
unfolding elevates snapshot by_count lists
elevates_iff b registry sub = by_list b.elevates refl
  where
    by_list :
        (l : List Text)
        → b.elevates ≡ l
        → (elevates (snapshot b registry).1 sub ≡ true) ↔ Elevated b registry sub
    by_list [] e = ground arith
    by_list (x ∷ xs) e = ground arith

pub effective_record :
    (b : BreakGlass) (registry : Registry) (sub : Text) (id : Option UserId) (r : AuthzRecord)
    (p : String)
    → ((role : EffectiveRole) × (effective
            (snapshot b registry).1
            (record { sub = sub; id = id; found = some r })
          ≡ granted role)
        × ((may_name role.role p ≡ true)
            ↔ ((may_name r.role p ≡ true) ⊎ (Elevated b registry sub × (may_name owner p ≡ true)))))
unfolding effective role_of
effective_record b registry sub id r p = elim (Bool-cases (elevates (snapshot b registry).1 sub)) [
  | inl e ↦ (
    emergency,
    rw e refl,
    ground (arith, elevates_iff b registry sub, seats_nested r.role owner p (rank_le r.role)),
  )
  | inr e ↦ (persisted r.role, rw e refl, ground (arith, elevates_iff b registry sub))
]
  where
    rank_le : (role : Role) → rank role ≤ 3
    rank_le role = ground arith

-- The caller with a record, after the gate.
abbrev pub with_record : Claims → Option UserId → AuthzRecord → CallerGate
with_record c id r = record { sub = c.sub; id = id; found = some r }

pub admit_record :
    (c : Claims) (id : Option UserId) (r : AuthzRecord)
    → ((admit c id (ok (some r)) ≡ granted (with_record c id r)) × Live c r)
      ⊎ ((s : Status) × (admit c id (ok (some r)) ≡ refused s)
          × ((r.status ≡ disabled) ⊎ (c.token_version < r.token_version)))
unfolding admit
admit_record c id r = by_tests r.status refl (Bool-cases (ltb c.token_version r.token_version))
  where
    by_tests :
        (status : UserStatus)
        → r.status ≡ status
        → ((ltb c.token_version r.token_version ≡ true)
            ⊎ (ltb c.token_version r.token_version ≡ false))
        → ((admit c id (ok (some r)) ≡ granted (with_record c id r)) × Live c r)
          ⊎ ((s : Status) × (admit c id (ok (some r)) ≡ refused s)
              × ((r.status ≡ disabled) ⊎ (c.token_version < r.token_version)))
    by_tests disabled e t = inr (permission_denied "user is disabled", rw e refl, inl e)
    by_tests active e (inl t) =
        inr (unauthenticated "tokens revoked", rw (e, t) refl, inr (ground (arith, t)))
    by_tests active e (inr t) = inl (rw (e, t) refl, (e, ground (arith, t)))

pub authorize_iff :
    {A : Type 0} ⦃permission : Permission A⦄ (p : A) (role : EffectiveRole)
    → (is_granted (authorize p (granted role)) ≡ true) ↔ (may_name role.role (name p) ≡ true)
unfolding authorize
authorize_iff p role = ground arith

pub after_gate-granted :
    (b : BreakGlass) (registry : Registry) (caller : CallerGate)
    → (after_gate b registry (granted caller)).1 ≡ effective (snapshot b registry).1 caller
unfolding after_gate
after_gate-granted b registry caller = refl

pub after_gate-refused :
    (b : BreakGlass) (registry : Registry) (s : Status)
    → (after_gate b registry (refused s)).1 ≡ refused s
unfolding after_gate
after_gate-refused b registry s = refl

pub admit-none :
    (c : Claims) (id : Option UserId)
    → admit c id (ok none) ≡ granted (record { sub = c.sub; id = id; found = none })
unfolding admit
admit-none c id = refl

pub effective-none :
    (b : BreakGlass) (registry : Registry) (sub : Text) (id : Option UserId)
    → ((effective (snapshot b registry).1 (record { sub = sub; id = id; found = none })
          ≡ granted emergency)
        × Elevated b registry sub)
      ⊎ ((s : Status) × (effective
              (snapshot b registry).1
              (record { sub = sub; id = id; found = none })
            ≡ refused s)
          × (elevates (snapshot b registry).1 sub ≡ false)
          × ((Elevated b registry sub) → ⊥))
unfolding effective
effective-none b registry sub id = by_test (Bool-cases (elevates (snapshot b registry).1 sub)) id
  where
    by_test :
        ((elevates (snapshot b registry).1 sub ≡ true)
          ⊎ (elevates (snapshot b registry).1 sub ≡ false))
        → (id : Option UserId)
        → ((effective (snapshot b registry).1 (record { sub = sub; id = id; found = none })
              ≡ granted emergency)
            × Elevated b registry sub)
          ⊎ ((s : Status) × (effective
                  (snapshot b registry).1
                  (record { sub = sub; id = id; found = none })
                ≡ refused s)
              × (elevates (snapshot b registry).1 sub ≡ false)
              × ((Elevated b registry sub) → ⊥))
    by_test (inl e) id = inl (rw e refl, (elevates_iff b registry sub).0 e)
    by_test (inr e) none = inr (
      unauthenticated "subject is not a user id",
      rw e refl,
      e,
      λ k. ground (arith, e, elevates_iff b registry sub),
    )
    by_test (inr e) (some id) = inr (
      permission_denied "insufficient role",
      rw e refl,
      e,
      λ k. ground (arith, e, elevates_iff b registry sub),
    )
