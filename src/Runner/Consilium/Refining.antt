-- ===== src/Runner/Consilium/Refining.antt =====
-- What it means that one table of removals follows another, and which writes do.
use concierge.Prelude.{
  ℕ, List, [], ◌∷◌, ◌++◌, true, false, some, none, ◌==◌, ◌≡◌, ◌⊎◌, inl, inr, sym, ap, ◌∙◌, subst,
  arith, Bool-cases,
}
use concierge.Governance.Removal.{OwnerRemoval}
use concierge.Runner.Consilium.Removals.{stored, find_removal, write_removal}
use concierge.Runner.Consilium.Evolution.{Evolves, stays, drains, Evolves-id, Evolves-trans}
use concierge.Runner.Consilium.Rows.{
  Keyed, find_removal-write_other, find_removal-write, write_removal-Keyed, some_injective,
  find_removal-append, append-Keyed,
}

-- One table follows another: its ids stay apart, and each removal of the first is one of the second
-- that its aggregate can move to.
abbrev pub Refines : List OwnerRemoval → List OwnerRemoval → Type 0
Refines rs next =
    Keyed rs
    → Keyed next
      × ((id : ℕ) (r : OwnerRemoval)
          → find_removal id rs ≡ some r
          → (s : OwnerRemoval) × (find_removal id next ≡ some s) × Evolves r s)

pub Refines-refl : (rs : List OwnerRemoval) → Refines rs rs
Refines-refl rs k = (k, λ id r h. (r, h, stays))

pub Refines-trans :
    (rs mid next : List OwnerRemoval) → Refines rs mid → Refines mid next → Refines rs next
Refines-trans rs mid next a b k =
    let (k', f) = a k in
    let (k'', g) = b k' in
    (
      k'',
      λ id r h. let (s, e, v) = f id r h in let (t, e', w) = g id s e in (t, e', Evolves-trans v w),
    )

pub append-Refines :
    (x : OwnerRemoval) (rs : List OwnerRemoval)
    → find_removal x.id rs ≡ none
    → Refines rs (rs ++ x ∷ [])
append-Refines x rs n k =
    (append-Keyed x rs k n, λ id r h. (r, find_removal-append id x r rs h, stays))

-- A row that is written back after its aggregate has moved.
pub write_removal-Refines :
    (w r : OwnerRemoval) (rs : List OwnerRemoval)
    → find_removal r.id rs ≡ some r
    → Evolves r w
    → Refines rs (write_removal (stored w) rs)
write_removal-Refines w r rs f v k =
    (write_removal-Keyed (stored w) rs k, λ id q h. by_id id q h (Bool-cases (w.id == id)))
  where
    by_id :
        (id : ℕ) (q : OwnerRemoval)
        → find_removal id rs ≡ some q
        → ((w.id == id) ≡ true) ⊎ ((w.id == id) ≡ false)
        → (s : OwnerRemoval) × (find_removal id (write_removal (stored w) rs) ≡ some s)
          × Evolves q s
    by_id id q h (inr e) = (q, find_removal-write_other id (stored w) rs e ∙ h, stays)
    by_id id q h (inl e) =
        let at_id : w.id ≡ id = ground (arith, e) in
        let same_id : r.id ≡ w.id = sym (Evolves-id v) in
        let is_q : r ≡ q =
          some_injective r q (sym f ∙ ap (λ i. find_removal i rs) (same_id ∙ at_id) ∙ h) in
        (
          stored w,
          subst (λ i. find_removal i (write_removal (stored w) rs) ≡ some (stored w)) at_id
              (find_removal-write (stored w) r rs (ap (λ i. find_removal i rs) (sym same_id) ∙ f)),
          drains (subst (λ x. Evolves x w) is_q v),
        )
