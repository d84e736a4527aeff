-- ===== src/Runner/Consilium/Rows.antt =====
-- The table of the removals through the writes to it: its rows, by id.
use concierge.Prelude.{
  ℕ, List, [], ◌∷◌, ◌++◌, Bool, true, false, Option, some, none, ◌==◌, if◌then◌else◌, ◌≡◌, inl, inr,
  refl, sym, ap, ◌∙◌, arith, Bool-cases,
}
use concierge.Prelude.Int.{ℤ}
use concierge.Governance.Peer.{UserId}
use concierge.Governance.Removal.{OwnerRemoval}
use concierge.Runner.Consilium.Removals.{find_removal, write_removal, find_open}
use concierge.Runner.Consilium.Seats.{find_stale}

-- No two rows have one id.
abbrev pub Keyed : List OwnerRemoval → Type 0
Keyed [] = Unit
Keyed (r ∷ rs) = (find_removal r.id rs ≡ none) × Keyed rs

find_cons :
    (id : ℕ) (x : OwnerRemoval) (rs : List OwnerRemoval)
    → find_removal id (x ∷ rs) ≡ (if x.id == id then some x else find_removal id rs)
unfolding find_removal
find_cons id x rs = refl

pub find_removal-id :
    (id : ℕ) (rs : List OwnerRemoval) (r : OwnerRemoval) → find_removal id rs ≡ some r → r.id ≡ id
unfolding find_removal
find_removal-id id [] r h = absurd (ground arith)
find_removal-id id (x ∷ rs) r h = elim (Bool-cases (x.id == id)) [
  | inl e ↦ ground (arith, e, h)
  | inr e ↦ find_removal-id id rs r (rw (← h) (rw e refl))
]

other_id : (a b c : ℕ) (v : Bool) → (a == b) ≡ true → (a == c) ≡ v → (b == c) ≡ v
other_id a b c v h k = ap (λ n. n == c) (sym (ground (arith, h))) ∙ k

same_sym : (a b : ℕ) → (a == b) ≡ true → (b == a) ≡ true
same_sym a b h = ground (arith, h)

same_self : (n : ℕ) → (n == n) ≡ true
same_self n = ground arith

absent :
    (x : OwnerRemoval) (b : Bool) (o : Option OwnerRemoval)
    → (if b then some x else o) ≡ none
    → (b ≡ false) × (o ≡ none)
absent x true o h = absurd (ground arith)
absent x false o h = (refl, h)

find_removal-write_none :
    (id : ℕ) (w : OwnerRemoval) (rs : List OwnerRemoval)
    → find_removal id rs ≡ none
    → find_removal id (write_removal w rs) ≡ none
unfolding find_removal write_removal
find_removal-write_none id w [] h = refl
find_removal-write_none id w (x ∷ rs) h =
    let (e, k) = absent x (x.id == id) (find_removal id rs) h in
    elim (Bool-cases (x.id == w.id)) [
      | inl d ↦ rw (d, other_id x.id w.id id false d e) k
      | inr d ↦ rw (d, e) (find_removal-write_none id w rs k)
    ]

pub find_removal-write_other :
    (id : ℕ) (w : OwnerRemoval) (rs : List OwnerRemoval)
    → (w.id == id) ≡ false
    → find_removal id (write_removal w rs) ≡ find_removal id rs
unfolding find_removal write_removal
find_removal-write_other id w [] e = refl
find_removal-write_other id w (x ∷ rs) e = elim (Bool-cases (x.id == w.id)) [
  | inl d ↦ rw (d, e, other_id w.id x.id id false (same_sym x.id w.id d) e) refl
  | inr d ↦ rw d (ap (λ o. if x.id == id then some x else o) (find_removal-write_other id w rs e))
]

pub find_removal-write :
    (w r : OwnerRemoval) (rs : List OwnerRemoval)
    → find_removal w.id rs ≡ some r
    → find_removal w.id (write_removal w rs) ≡ some w
unfolding find_removal write_removal
find_removal-write w r [] h = absurd (ground arith)
find_removal-write w r (x ∷ rs) h = elim (Bool-cases (x.id == w.id)) [
  | inl d ↦ rw (d, same_self w.id) refl
  | inr d ↦ rw (d, d) (find_removal-write w r rs (rw (← h) (rw d refl)))
]

pub write_removal-Keyed :
    (w : OwnerRemoval) (rs : List OwnerRemoval) → Keyed rs → Keyed (write_removal w rs)
unfolding find_removal write_removal
write_removal-Keyed w [] k = tt
write_removal-Keyed w (x ∷ rs) (n, k) = elim (Bool-cases (x.id == w.id)) [
  | inl d ↦ rw d (ap (λ i. find_removal i rs) (sym (ground (arith, d))) ∙ n, k)
  | inr d ↦ rw d (find_removal-write_none x.id w rs n, write_removal-Keyed w rs k)
]

-- A row that is found by another column is the row of its id.
other_row :
    (x : OwnerRemoval) (rs : List OwnerRemoval) (r : OwnerRemoval)
    → find_removal x.id rs ≡ none
    → find_removal r.id rs ≡ some r
    → find_removal r.id (x ∷ rs) ≡ some r
unfolding find_removal
other_row x rs r n f = elim (Bool-cases (x.id == r.id)) [
  | inl e ↦ absurd (clash (sym n ∙ ap (λ i. find_removal i rs) (same_id e) ∙ f))
  | inr e ↦ rw e f
]
  where
    same_id : (x.id == r.id) ≡ true → x.id ≡ r.id
    same_id e = ground (arith, e)

    clash : none ≡ some r → ⊥
    clash e = ground arith

pub some_injective : (x y : OwnerRemoval) → some x ≡ some y → x ≡ y
some_injective x y e = cc

first_row :
    (x r : OwnerRemoval) (rs : List OwnerRemoval)
    → some x ≡ some r
    → find_removal r.id (x ∷ rs) ≡ some r
unfolding find_removal
first_row x r rs e = let same : x ≡ r = some_injective x r e in rw (same, same_self r.id) refl

either_row :
    (x r : OwnerRemoval) (rs : List OwnerRemoval) (o : Option OwnerRemoval) (b : Bool)
    → find_removal x.id rs ≡ none
    → (o ≡ some r → find_removal r.id rs ≡ some r)
    → (if b then some x else o) ≡ some r
    → find_removal r.id (x ∷ rs) ≡ some r
either_row x r rs o true n f e = first_row x r rs e
either_row x r rs o false n f e = other_row x rs r n (f e)

pub find_stale-row :
    (target : UserId) (now : ℤ) (rs : List OwnerRemoval) (r : OwnerRemoval)
    → Keyed rs
    → find_stale target now rs ≡ some r
    → find_removal r.id rs ≡ some r
unfolding find_stale
find_stale-row target now [] r k h = absurd (ground arith)
find_stale-row target now (x ∷ rs) r (n, k) h =
    either_row x r rs (find_stale target now rs) _ n (find_stale-row target now rs r k) h

pub find_open-row :
    (target : UserId) (rs : List OwnerRemoval) (r : OwnerRemoval)
    → Keyed rs
    → find_open target rs ≡ some r
    → find_removal r.id rs ≡ some r
unfolding find_open
find_open-row target [] r k h = absurd (ground arith)
find_open-row target (x ∷ rs) r (n, k) h =
    either_row x r rs (find_open target rs) _ n (find_open-row target rs r k) h

-- A row that is added.
pub find_removal-append :
    (id : ℕ) (x r : OwnerRemoval) (rs : List OwnerRemoval)
    → find_removal id rs ≡ some r
    → find_removal id (rs ++ x ∷ []) ≡ some r
unfolding find_removal
find_removal-append id x r [] h = absurd (ground arith)
find_removal-append id x r (y ∷ rs) h = elim (Bool-cases (y.id == id)) [
  | inl e ↦ rw e (sym (sym h ∙ rw e refl))
  | inr e ↦ rw e (find_removal-append id x r rs (rw (← h) (rw e refl)))
]

find_removal-append_none :
    (id : ℕ) (x : OwnerRemoval) (rs : List OwnerRemoval)
    → find_removal id rs ≡ none
    → (x.id == id) ≡ false
    → find_removal id (rs ++ x ∷ []) ≡ none
unfolding find_removal
find_removal-append_none id x [] h e = rw e refl
find_removal-append_none id x (y ∷ rs) h e =
    let (d, k) = absent y (y.id == id) (find_removal id rs) h in
    rw d (find_removal-append_none id x rs k e)

pub find_removal-appended :
    (x : OwnerRemoval) (rs : List OwnerRemoval)
    → find_removal x.id rs ≡ none
    → find_removal x.id (rs ++ x ∷ []) ≡ some x
unfolding find_removal
find_removal-appended x [] h = rw (same_self x.id) refl
find_removal-appended x (y ∷ rs) h =
    let (d, k) = absent y (y.id == x.id) (find_removal x.id rs) h in
    rw d (find_removal-appended x rs k)

pub append-Keyed :
    (x : OwnerRemoval) (rs : List OwnerRemoval)
    → Keyed rs
    → find_removal x.id rs ≡ none
    → Keyed (rs ++ x ∷ [])
unfolding find_removal
append-Keyed x [] k n = (refl, tt)
append-Keyed x (y ∷ rs) (m, k) n =
    let (d, n') = absent y (y.id == x.id) (find_removal x.id rs) n in
    (find_removal-append_none y.id x rs m (not_same y.id x.id d), append-Keyed x rs k n')
  where
    not_same : (a b : ℕ) → (a == b) ≡ false → (b == a) ≡ false
    not_same a b h = ground (arith, h)
