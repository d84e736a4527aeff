-- ===== src/Runner/Gate/Sealed.antt =====
-- Emergency access over the requests that one process serves: it is open only while the registry is
-- empty, and closes for good once an owner was seen.
use concierge.Prelude.{
  List, [], ◌∷◌, Bool, true, false, Option, ◌≡◌, ◌≢◌, ◌⊎◌, inl, inr, refl, sym, subst, ap, arith,
}
use concierge.Prelude.Int.{ℤ, pos}
use concierge.Errors.{ok}
use concierge.Text.{Text}
use concierge.Authz.Role.{owner}
use concierge.Runner.Gate.{
  Uuid, Claims, Reply, granted, refused, Registry, CallerGate, EffectiveRole, BreakGlass, Elevation,
  by_count, snapshot, lists, elevates, role_of, effective, after_gate, caller_gate, caller_role,
}
use concierge.Runner.Gate.Parts.{Elevated, elevates_iff}

-- Emergency access is closed for good.
abbrev pub Closed : BreakGlass → Type 0
Closed b = (b.sealed ≡ true) ⊎ (b.elevates ≡ [])

effective_elevated :
    (e : Elevation) (caller : CallerGate) (role : EffectiveRole)
    → effective e caller ≡ granted role
    → role.break_glass ≡ true
    → (role.role ≡ owner) × (elevates e caller.sub ≡ true)
unfolding effective role_of
effective_elevated e caller role h k = ground arith

after_gate-Elevated :
    (b : BreakGlass) (registry : Registry) (g : Reply CallerGate) (role : EffectiveRole)
    → (after_gate b registry g).1 ≡ granted role
    → role.break_glass ≡ true
    → (role.role ≡ owner)
      × (caller : CallerGate) × (g ≡ granted caller)
      × Elevated b registry caller.sub
unfolding after_gate
after_gate-Elevated b registry (refused s) role h k = absurd (ground arith)
after_gate-Elevated b registry (granted caller) role h k =
    let (is_owner, e) = effective_elevated (snapshot b registry).1 caller role h k in
    (is_owner, caller, refl, (elevates_iff b registry caller.sub).0 e)

Closed-Elevated :
    (b : BreakGlass) (registry : Registry) (sub : Text) → Closed b → Elevated b registry sub → ⊥
unfolding lists
Closed-Elevated b registry sub (inl s) k = ground arith
Closed-Elevated b registry sub (inr s) k = absurd (ground (arith, ap (λ l. lists l sub) s))

after_gate-Closed :
    (b : BreakGlass) (registry : Registry) (g : Reply CallerGate)
    → Closed b
    → Closed (after_gate b registry g).0
unfolding after_gate snapshot by_count
after_gate-Closed b registry (refused s) c = c
after_gate-Closed b registry (granted caller) c = ground arith

-- An owner who is counted while a caller is past the gate closes emergency access.
after_gate-owner :
    (b : BreakGlass) (registry : Registry) (caller : CallerGate) (n : ℤ)
    → registry.owner_count ≡ ok n
    → n ≢ pos 0
    → Closed (after_gate b registry (granted caller)).0
unfolding after_gate snapshot by_count
after_gate-owner b registry caller n h k = by_list b.elevates refl
  where
    by_list : (l : List Text) → b.elevates ≡ l → Closed (after_gate b registry (granted caller)).0
    by_list [] e = ground arith
    by_list (x ∷ xs) e = ground (arith, h, k)

-- A request, with what the registry answers while it is served.
abbrev pub Request : Type 0
Request = Registry × Option Claims

module _ (uuid : Uuid) where
  unfoldable pub serve : BreakGlass → List Request → BreakGlass
  serve b [] = b
  serve b ((registry, claims) ∷ requests) = serve (caller_role uuid b registry claims).0 requests

  serve-Closed : (b : BreakGlass) (requests : List Request) → Closed b → Closed (serve b requests)
  unfolding serve caller_role
  serve-Closed b [] c = c
  serve-Closed b ((registry, claims) ∷ requests) c =
      serve-Closed (caller_role uuid b registry claims).0 requests
        (after_gate-Closed b registry (caller_gate uuid registry claims) c)

  caller_role-owner :
      (b : BreakGlass) (registry : Registry) (claims : Option Claims) (caller : CallerGate) (n : ℤ)
      → caller_gate uuid registry claims ≡ granted caller
      → registry.owner_count ≡ ok n
      → n ≢ pos 0
      → Closed (caller_role uuid b registry claims).0
  unfolding caller_role
  caller_role-owner b registry claims caller n g h k =
      subst (λ x. Closed (after_gate b registry x).0) (sym g)
        (after_gate-owner b registry caller n h k)

  -- A role that is marked as emergency access is an owner's, and is given only to a subject of the
  -- list that passed the gate while the registry counted no owner and none had been seen.
  pub caller_role-Elevated :
      (b : BreakGlass) (registry : Registry) (claims : Option Claims) (role : EffectiveRole)
      → (caller_role uuid b registry claims).1 ≡ granted role
      → role.break_glass ≡ true
      → (role.role ≡ owner)
        × (caller : CallerGate) × (caller_gate uuid registry claims ≡ granted caller)
        × Elevated b registry caller.sub
  unfolding caller_role
  caller_role-Elevated b registry claims role h k =
      after_gate-Elevated b registry (caller_gate uuid registry claims) role h k

  -- Once a caller is past the gate while the registry counts an owner, emergency access is closed for
  -- good: whatever is served in between, no later role is marked as emergency access, even where the
  -- registry counts no owner again.
  pub caller_role_sealed :
      (b : BreakGlass) (registry later : Registry) (claims next : Option Claims)
      (caller : CallerGate) (n : ℤ) (between : List Request) (role : EffectiveRole)
      → caller_gate uuid registry claims ≡ granted caller
      → registry.owner_count ≡ ok n
      → n ≢ pos 0
      → (caller_role uuid (serve (caller_role uuid b registry claims).0 between) later next).1
        ≡ granted role
      → role.break_glass ≡ false
  caller_role_sealed b registry later claims next caller n between role g h k answered =
      by_flag role.break_glass refl
    where
      closed : Closed (serve (caller_role uuid b registry claims).0 between)
      closed = serve-Closed _ between (caller_role-owner b registry claims caller n g h k)

      by_flag : (flag : Bool) → role.break_glass ≡ flag → role.break_glass ≡ false
      by_flag false e = e
      by_flag true e =
          let now = serve (caller_role uuid b registry claims).0 between in
          let found = caller_role-Elevated now later next role answered e in
          absurd (Closed-Elevated now later found.1.sub closed found.3)
