-- ===== src/Runner/Consilium/Floor/Seating.antt =====
-- The floor through the opening of a removal and through a resignation.
use concierge.Prelude.{
  ℕ, ◌≤◌, String, not, Option, none, some, contains, ◌≡◌, inl, inr, refl, ap, subst, any, arith,
  Option-cases,
}
use concierge.Prelude.Int.{ℤ}
use concierge.Errors.{Result, ok, err, ensure, ok_or}
use concierge.Text.{Text}
use concierge.Governance.Peer.{UserId}
use concierge.Governance.Lifecycle.{check_floor, removal_ttl_secs}
use concierge.Governance.Removal
use concierge.Governance.Removal.{OwnerRemoval}
use concierge.Runner.Genesis.{Store, owner_ids, find_user}
use concierge.Runner.Consilium.{Registry, locked, take_seat}
use concierge.Runner.Consilium.Removals.{persist, expire_if_due, find_open}
use concierge.Runner.Consilium.Seats.{
  Minted, find_stale, close_found, close_stale, is_free, has_hash, insert_removal, opened,
  open_removal, persisted, void_moot, resigned, seat_left, committed, resign,
}
use concierge.Runner.Consilium.Writes.{Gives, bind-Gives, then-Gives}
use concierge.Runner.Consilium.Roster.{owners, owners-take_seat, AboveFloor}

-- It keeps the accounts.
abbrev Keeps : Store → Result Registry → Type 0
Keeps accounts = Gives (λ next. next.accounts ≡ accounts)

close_found_same :
    (reg : Registry) (now : ℤ) (r : Option OwnerRemoval)
    → (close_found reg now r).accounts ≡ reg.accounts
unfolding persist
close_found_same reg now none = refl
close_found_same reg now (some r) = refl

close_stale_same :
    (reg : Registry) (target : UserId) (now : ℤ)
    → (close_stale reg target now).accounts ≡ reg.accounts
unfolding close_stale
close_stale_same reg target now = elim (Option-cases (find_stale target now reg.removals)) [
  | inl e ↦ rw (close_stale, e) refl
  | inr (r, e) ↦ rw (close_stale, e) (close_found_same reg now (expire_if_due r now))
]

opened_floor :
    (reg : Registry) (res : Result Registry) (accounts : Store)
    → AboveFloor reg.accounts
    → AboveFloor accounts
    → Keeps accounts res
    → AboveFloor (opened reg res).0.accounts
opened_floor reg (err e) accounts k l h = k
opened_floor reg (ok next) accounts k l h = rw h l

committed_floor :
    (reg : Registry) (res : Result Registry)
    → AboveFloor reg.accounts
    → Gives (λ next. AboveFloor next.accounts) res
    → AboveFloor (committed reg res).0.accounts
committed_floor reg (err e) k h = k
committed_floor reg (ok next) k h = h

persisted_same :
    (reg : Registry) (who : UserId) (now : ℤ) (res : Result OwnerRemoval)
    → Keeps reg.accounts (persisted reg who now res)
unfolding persist
persisted_same reg who now (err e) = tt
persisted_same reg who now (ok r) = refl

void_moot_same :
    (reg : Registry) (who : UserId) (now : ℤ) → Keeps reg.accounts (void_moot reg who now)
unfolding void_moot
void_moot_same reg who now = elim (Option-cases (find_open who reg.removals)) [
  | inl e ↦ rw (void_moot, e) refl
  | inr (r, e) ↦
      rw (void_moot, e) (persisted_same reg who now (Removal.void_proposal r resigned now))
]

module _ (digest : String → Text) where
  insert_removal_same :
      (reg : Registry) (r : OwnerRemoval) (minted : Minted) (now : ℤ)
      → Keeps reg.accounts (insert_removal digest reg r minted now)
  unfolding insert_removal persist
  insert_removal_same reg r minted now =
      let keeps : Registry → Type 0 = λ next. next.accounts ≡ reg.accounts in
      then-Gives keeps (ensure (is_free reg r.id r.target) _) _ (λ _.
        then-Gives keeps (ensure (not (any (has_hash digest (digest minted.token)) reg.tokens)) _) _
          (λ _. bind-Gives keeps (ok_or (find_user r.target reg.accounts.users) _) _ (λ target _.
            bind-Gives keeps (ok_or (find_user r.initiator reg.accounts.users) _) _
              (λ initiator _. refl))))

  pub open_removal_floor :
      (reg : Registry) (minted : Minted) (target initiator : UserId) (reason : Text) (now : ℤ)
      → AboveFloor reg.accounts
      → AboveFloor (open_removal digest reg minted target initiator reason now).0.accounts
  unfolding open_removal
  open_removal_floor reg minted target initiator reason now k =
      let cleared = close_stale (locked reg) target now in
      let same = close_stale_same (locked reg) target now in
      opened_floor reg _ cleared.accounts k (rw same k) (
        bind-Gives (λ next. next.accounts ≡ cleared.accounts)
          (Removal.open_removal minted.id target initiator reason (owner_ids cleared.accounts.users)
            now removal_ttl_secs)
          (λ r. insert_removal digest cleared r minted now)
          (λ r e. insert_removal_same cleared r minted now))

-- A resignation from a fund that passed the check leaves two.
left_floor :
    (reg next : Registry) (who : UserId)
    → 3 ≤ owners reg.accounts
    → next.accounts ≡ reg.accounts
    → Gives (λ after. AboveFloor after.accounts) (seat_left next who)
left_floor reg next who h same =
    bind-Gives (λ after. AboveFloor after.accounts) (take_seat next.accounts who) _
      (λ accounts e.
        omega (arith, owners-take_seat next.accounts accounts who e, ap owners same, h))

three_owners : (n : ℕ) → check_floor n ≡ ok tt → 3 ≤ n
unfolding check_floor
three_owners n h = ground arith

pub resign_floor :
    (reg : Registry) (who : UserId) (now : ℤ)
    → AboveFloor reg.accounts
    → AboveFloor (resign reg who now).0.accounts
unfolding resign
resign_floor reg who now k =
    let above : Registry → Type 0 = λ next. AboveFloor next.accounts in
    committed_floor reg _ k (
      then-Gives above (ensure (contains (owner_ids reg.accounts.users) who) _) _ (λ _.
        then-Gives above (check_floor (owners reg.accounts)) _ (λ h.
          bind-Gives above (void_moot (locked reg) who now) (λ next. seat_left next who)
            (λ next e.
              left_floor reg next who (three_owners (owners reg.accounts) h)
                (subst (Keeps reg.accounts) e (void_moot_same (locked reg) who now))))))
