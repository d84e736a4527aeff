-- ===== src/Runner/Genesis/Scanning.antt =====
-- What the scan of the rows of one address collects.
use concierge.Prelude.{
  List, [], ◌∷◌, ◌++◌, Bool, true, false, filter, contains, if◌then◌else◌, ◌≡◌, ◌⊎◌, inl, inr, refl,
  ◌∙◌, ap, subst, arith, Bool-cases,
}
use concierge.Governance.Peer.{UserId}
use concierge.Users.UserStatus.{active}
use concierge.Users.Account.{User}
use concierge.Runner.Genesis.{Scan, scan_row, scan, remember}

pub data In {A : Type 0} (x : A) : List A → Type 0 where
  here : {xs : List A} → In x (x ∷ xs)
  later : {y : A} {xs : List A} → In x xs → In x (y ∷ xs)

contains-append_one :
    (xs : List UserId) (y id : UserId)
    → contains (xs ++ y ∷ []) id ≡ true
    → (contains xs id ≡ true) ⊎ (y ≡ id)
contains-append_one [] y id h = ground arith
contains-append_one (x ∷ xs) y id h = ground (arith, contains-append_one xs y id)

pub contains-remember :
    (xs : List UserId) (y id : UserId)
    → contains (remember xs y) id ≡ true
    → (contains xs id ≡ true) ⊎ (y ≡ id)
unfolding remember
contains-remember xs y id h = ground (arith, contains-append_one xs y id)

pub In-or : {A : Type 0} {x y : A} {xs : List A} → In x (y ∷ xs) → (x ≡ y) ⊎ In x xs
In-or here = inl refl
In-or (later m) = inr m

pub In-filter :
    {A : Type 0} {x : A} (p : A → Bool) (xs : List A) → In x (filter p xs) → In x xs × (p x ≡ true)
In-filter p [] m = elim m [ ]
In-filter {A} {x} p (y ∷ xs) m = by_test (Bool-cases (p y)) (λ k. In-filter p xs k)
  where
    by_test :
        ((p y ≡ true) ⊎ (p y ≡ false))
        → (In x (filter p xs) → In x xs × (p x ≡ true))
        → In x (y ∷ xs) × (p x ≡ true)
    by_test (inl e) rest =
        elim (In-or (subst (λ b. In x (if b then y ∷ filter p xs else filter p xs)) e m)) [
          | inl same ↦ (subst (λ z. In x (z ∷ xs)) same here, ap p same ∙ e)
          | inr k ↦ let (k', t) = rest k in (later k', t)
        ]
    by_test (inr e) rest =
        let (k, t) = rest (subst (λ b. In x (if b then y ∷ filter p xs else filter p xs)) e m) in
        (later k, t)

-- The accounts that a scan collects.
abbrev pub Collected : List User → UserId → Type 0
Collected users id =
    (user : User) × In user users
    × (user.id ≡ id)
    × (user.email_verified ≡ true)
    × (user.status ≡ active)

wider :
    (user : User) (users : List User) (id : UserId)
    → Collected users id
    → Collected (user ∷ users) id
wider user users id (who, m, i, v, a) = (who, later m, i, v, a)

scan_row-seatable :
    (s : Scan) (user : User) (id : UserId)
    → contains (scan_row s user).seatable id ≡ true
    → (contains s.seatable id ≡ true)
      ⊎ ((user.id ≡ id) × (user.email_verified ≡ true) × (user.status ≡ active))
unfolding scan_row
scan_row-seatable s user id h = ground (arith, contains-append_one s.seatable user.id id)

pub scan-Collected :
    (s : Scan) (users : List User) (id : UserId)
    → contains (scan s users).seatable id ≡ true
    → (contains s.seatable id ≡ true) ⊎ Collected users id
unfolding scan
scan-Collected s [] id h = inl h
scan-Collected s (user ∷ users) id h = elim (scan-Collected (scan_row s user) users id h) [
  | inr c ↦ inr (wider user users id c)
  | inl e ↦ elim (scan_row-seatable s user id e) [
    | inl old ↦ inl old
    | inr new ↦ inr (user, here, new.0, new.1, new.2)
  ]
]
