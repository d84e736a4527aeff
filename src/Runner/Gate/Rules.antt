-- ===== src/Runner/Gate/Rules.antt =====
-- Who passes the gate, and with which role.
use concierge.Prelude.{
  true, false, Option, none, some, ◌≡◌, ◌∙◌, ap, ◌↔◌, ◌⊎◌, inl, inr, refl, arith,
}
use concierge.Errors.{ok}
use concierge.Authz.{name, may}
use concierge.Authz.Permissions.{Permission}
use concierge.Authz.Role.{owner}
use concierge.Runner.Gate.{
  Uuid, TokenType, access, service, Claims, Status, permission_denied, Reply, granted, refused,
  AuthzRecord, Registry, CallerGate, emergency, BreakGlass, lookup, admit, snapshot, effective,
  after_gate, authorize, is_access, caller_gate, caller_role, require_permission,
}
use concierge.Runner.Gate.Parts.{
  is_granted, Elevated, Live, effective_record, with_record, admit_record, authorize_iff,
  after_gate-granted, after_gate-refused, admit-none, effective-none,
}

module _ (uuid : Uuid) where
  caller_gate-service :
      (registry : Registry) (c : Claims)
      → c.typ ≡ service
      → caller_gate uuid registry (some c) ≡ refused (permission_denied "access token required")
  unfolding caller_gate is_access
  caller_gate-service registry c e = rw e refl

  caller_gate-access :
      (registry : Registry) (c : Claims) (o : Option AuthzRecord)
      → c.typ ≡ access
      → lookup registry (uuid.parse_str c.sub) ≡ ok o
      → caller_gate uuid registry (some c) ≡ admit c (uuid.parse_str c.sub) (ok o)
  unfolding caller_gate is_access
  caller_gate-access registry c o e h = rw e (ap (λ x. admit c (uuid.parse_str c.sub) x) h)

  module _ {A : Type 0} ⦃permission : Permission A⦄ where
    require_permission-gate :
        (b : BreakGlass) (registry : Registry) (claims : Option Claims) (p : A)
        (g : Reply CallerGate)
        → caller_gate uuid registry claims ≡ g
        → (require_permission uuid b registry claims p).1 ≡ authorize p (after_gate b registry g).1
    unfolding require_permission caller_role
    require_permission-gate b registry claims p g e =
        ap (λ x. authorize p (after_gate b registry x).1) e

    is_granted-refused : (p : A) (s : Status) → is_granted (authorize p (refused s)) ≡ false
    unfolding authorize
    is_granted-refused p s = refl

    -- A caller with a record acts exactly when the token is an access token, the account is active,
    -- the token is not older than the last revocation, and the seat on record holds the permission or
    -- emergency access is open to the subject and an owner holds it.
    pub require_permission_record :
        (b : BreakGlass) (registry : Registry) (c : Claims) (r : AuthzRecord) (p : A)
        → lookup registry (uuid.parse_str c.sub) ≡ ok (some r)
        → (is_granted (require_permission uuid b registry (some c) p).1 ≡ true) ↔ (
            (c.typ ≡ access)
            × Live c r
            × ((may r.role p ≡ true) ⊎ (Elevated b registry c.sub × (may owner p ≡ true))))
    require_permission_record b registry c r p h = by_type c.typ refl
      where
        by_type :
            (typ : TokenType)
            → c.typ ≡ typ
            → (is_granted (require_permission uuid b registry (some c) p).1 ≡ true) ↔ (
                (c.typ ≡ access)
                × Live c r
                × ((may r.role p ≡ true) ⊎ (Elevated b registry c.sub × (may owner p ≡ true))))
        by_type service e = ground (
          arith,
          require_permission-gate b registry (some c) p _ (caller_gate-service registry c e),
          after_gate-refused b registry (permission_denied "access token required"),
          is_granted-refused p (permission_denied "access token required"),
        )
        by_type access e = elim (admit_record c (uuid.parse_str c.sub) r) [
          | inl l ↦
              let (role, f, m) =
                effective_record b registry c.sub (uuid.parse_str c.sub) r (name p) in
              let acts : (require_permission uuid b registry (some c) p).1
                  ≡ authorize p (granted role) =
                require_permission-gate b registry (some c) p _
                  (caller_gate-access registry c (some r) e h ∙ l.0)
                ∙ ap (λ x. authorize p x)
                    (after_gate-granted b registry (with_record c (uuid.parse_str c.sub) r) ∙ f) in
              rw acts (ground (arith, m, authorize_iff p role, l.1))
          | inr l ↦
              let stops : (require_permission uuid b registry (some c) p).1
                  ≡ authorize p (refused l.0) =
                require_permission-gate b registry (some c) p _
                  (caller_gate-access registry c (some r) e h ∙ l.1)
                ∙ ap (λ x. authorize p x) (after_gate-refused b registry l.0) in
              rw (stops, is_granted-refused p l.0) (ground (arith, l.2))
        ]

    -- A caller without a record acts exactly when the token is an access token, emergency access is
    -- open to its subject, and an owner holds the permission.
    pub require_permission_unknown :
        (b : BreakGlass) (registry : Registry) (c : Claims) (p : A)
        → lookup registry (uuid.parse_str c.sub) ≡ ok none
        → (is_granted (require_permission uuid b registry (some c) p).1 ≡ true)
          ↔ ((c.typ ≡ access) × Elevated b registry c.sub × (may owner p ≡ true))
    require_permission_unknown b registry c p h = by_type c.typ refl
      where
        by_type :
            (typ : TokenType)
            → c.typ ≡ typ
            → (is_granted (require_permission uuid b registry (some c) p).1 ≡ true)
              ↔ ((c.typ ≡ access) × Elevated b registry c.sub × (may owner p ≡ true))
        by_type service e = ground (
          arith,
          require_permission-gate b registry (some c) p _ (caller_gate-service registry c e),
          after_gate-refused b registry (permission_denied "access token required"),
          is_granted-refused p (permission_denied "access token required"),
        )
        by_type access e =
            let gate = caller_gate-access registry c none e h in
            let caller : CallerGate = record {
              sub = c.sub;
              id = uuid.parse_str c.sub;
              found = none;
            } in
            let acts : (require_permission uuid b registry (some c) p).1
                ≡ authorize p (effective (snapshot b registry).1 caller) =
              require_permission-gate b registry (some c) p _
                (gate ∙ admit-none c (uuid.parse_str c.sub))
              ∙ ap (λ x. authorize p x) (after_gate-granted b registry caller) in
            elim (effective-none b registry c.sub (uuid.parse_str c.sub)) [
              | inl l ↦ rw (acts, l.0) (ground (arith, l.1, authorize_iff p emergency))
              | inr l ↦ rw (acts, l.1, is_granted-refused p l.0) (ground (arith, l.3))
            ]
