-- ===== src/Runner/Consilium/Opening.antt =====
-- The opening of a removal and a resignation against the aggregate.
use concierge.Prelude.{
  String, List, [], ◌∷◌, ◌++◌, Bool, true, not, ◌&&◌, Option, none, some, any, contains, length,
  ◌≡◌, inl, inr, refl, sym, subst, arith, Option-cases,
}
use concierge.Prelude.Int.{ℤ, pos}
use concierge.Errors.{DomainError, Result, ok, err, ensure, ok_or}
use concierge.Text.{Text}
use concierge.Governance.Peer.{UserId}
use concierge.Governance.Lifecycle
use concierge.Governance.Lifecycle.{check_floor, removal_ttl_secs}
use concierge.Governance.Removal
use concierge.Governance.Removal.{OwnerRemoval, mark_target_notified}
use concierge.Governance.Removal.Steps
use concierge.Governance.Removal.Steps.{notifies}
use concierge.Runner.Genesis.{owner_ids, find_user}
use concierge.Runner.Consilium.{Registry, locked, take_seat}
use concierge.Runner.Consilium.Removals.{
  stored, find_removal, write_removal, persist, expire_if_due, find_open,
}
use concierge.Runner.Consilium.Seats.{
  Minted, is_none, find_stale, close_found, close_stale, is_free, has_hash, insert_removal,
  open_removal, persisted, void_moot, resigned, seat_left, resign,
}
use concierge.Runner.Consilium.Writes.{Gives, bind-Gives, then-Gives, opened-Gives, committed-Gives}
use concierge.Runner.Consilium.Evolution.{
  stays, moves, expire_if_due-Evolves, void_proposal-Evolves,
}
use concierge.Runner.Consilium.Rows.{Keyed, find_stale-row, find_open-row, find_removal-appended}
use concierge.Runner.Consilium.Refining.{
  Refines, Refines-refl, Refines-trans, append-Refines, write_removal-Refines,
}
use concierge.Runner.Consilium.Following.{Follows}

close_found-Follows :
    (reg : Registry) (now : ℤ) (r : OwnerRemoval) (found : Option OwnerRemoval)
    → expire_if_due r now ≡ found
    → (Keyed reg.removals → find_removal r.id reg.removals ≡ some r)
    → Follows reg (close_found reg now found)
unfolding persist
close_found-Follows reg now r none e f = Refines-refl reg.removals
close_found-Follows reg now r (some s) e f =
    λ k. write_removal-Refines s r reg.removals (f k) (expire_if_due-Evolves r s now e) k

close_stale-Follows :
    (reg : Registry) (target : UserId) (now : ℤ) → Follows reg (close_stale reg target now)
unfolding close_stale
close_stale-Follows reg target now = elim (Option-cases (find_stale target now reg.removals)) [
  | inl e ↦ rw (close_stale, e) (Refines-refl reg.removals)
  | inr (r, e) ↦
      rw (close_stale, e)
        (close_found-Follows reg now r (expire_if_due r now) refl
          (λ k. find_stale-row target now reg.removals r k e))
]

-- A removal that was just opened is written with its target notified.
notified_same :
    (r : OwnerRemoval) → stored (mark_target_notified r) ≡ stored (mark_target_notified (stored r))
unfolding mark_target_notified Lifecycle.drain_events
notified_same r = refl

inserted-Follows :
    (r : OwnerRemoval) (rs : List OwnerRemoval)
    → find_removal r.id rs ≡ none
    → Refines rs (write_removal (stored (mark_target_notified r)) (rs ++ stored r ∷ []))
unfolding Steps.step
inserted-Follows r rs n =
    let table = rs ++ stored r ∷ [] in
    subst (λ w. Refines rs (write_removal w table)) (sym (notified_same r))
      (Refines-trans rs table _ (append-Refines (stored r) rs n) (
        write_removal-Refines (mark_target_notified (stored r)) (stored r) table
          (find_removal-appended (stored r) rs n) (moves stays (pos 0, notifies))))

both_absent : (a b : Bool) (e : DomainError) → ensure (a && b) e ≡ ok tt → a ≡ true
both_absent a b e h = ground arith

absent_row : (o : Option OwnerRemoval) → is_none o ≡ true → o ≡ none
absent_row none h = refl
absent_row (some r) h = absurd (ground arith)

module _ (digest : String → Text) where
  insert_removal-Follows :
      (reg : Registry) (r : OwnerRemoval) (minted : Minted) (now : ℤ)
      → Gives (Follows reg) (insert_removal digest reg r minted now)
  unfolding insert_removal persist
  insert_removal-Follows reg r minted now =
      then-Gives (Follows reg) (ensure (is_free reg r.id r.target) _) _ (λ free.
        then-Gives (Follows reg)
          (ensure (not (any (has_hash digest (digest minted.token)) reg.tokens)) _) _
          (λ _.
            bind-Gives (Follows reg) (ok_or (find_user r.target reg.accounts.users) _) _
              (λ target _.
                bind-Gives (Follows reg) (ok_or (find_user r.initiator reg.accounts.users) _) _
                  (λ initiator _.
                    inserted-Follows r reg.removals
                      (absent_row (find_removal r.id reg.removals) (both_absent _ _ _ free))))))

  pub open_removal-Follows :
      (reg : Registry) (minted : Minted) (target initiator : UserId) (reason : Text) (now : ℤ)
      → Follows reg (open_removal digest reg minted target initiator reason now).0
  unfolding open_removal
  open_removal-Follows reg minted target initiator reason now =
      let cleared = close_stale (locked reg) target now in
      opened-Gives (Follows reg) reg _ (Refines-refl reg.removals) (
        bind-Gives (Follows reg)
          (Removal.open_removal minted.id target initiator reason (owner_ids cleared.accounts.users)
            now removal_ttl_secs)
          (λ r. insert_removal digest cleared r minted now)
          (λ r e.
            after reg cleared (insert_removal digest cleared r minted now)
              (close_stale-Follows (locked reg) target now)
              (insert_removal-Follows cleared r minted now)))
    where
      after :
          (before mid : Registry) (res : Result Registry)
          → Follows before mid
          → Gives (Follows mid) res
          → Gives (Follows before) res
      after before mid (err e) h k = tt
      after before mid (ok next) h k = Refines-trans before.removals mid.removals next.removals h k

-- A proposal against somebody who leaves is void.
void_moot-Follows :
    (reg : Registry) (who : UserId) (now : ℤ) → Gives (Follows reg) (void_moot reg who now)
unfolding void_moot persist
void_moot-Follows reg who now = elim (Option-cases (find_open who reg.removals)) [
  | inl e ↦ rw (void_moot, e) (Refines-refl reg.removals)
  | inr (r, e) ↦
      rw (void_moot, e)
        (by_result r (Removal.void_proposal r resigned now) refl
          (λ k. find_open-row who reg.removals r k e))
]
  where
    by_result :
        (r : OwnerRemoval) (res : Result OwnerRemoval)
        → Removal.void_proposal r resigned now ≡ res
        → (Keyed reg.removals → find_removal r.id reg.removals ≡ some r)
        → Gives (Follows reg) (persisted reg who now res)
    by_result r (err x) e f = tt
    by_result r (ok s) e f = λ k.
        write_removal-Refines s r reg.removals (f k) (void_proposal-Evolves r s resigned now e) k

left-Follows :
    (reg next : Registry) (who : UserId)
    → Follows reg next
    → Gives (Follows reg) (seat_left next who)
left-Follows reg next who h =
    bind-Gives (Follows reg) (take_seat next.accounts who) _ (λ accounts _. h)

pub resign-Follows : (reg : Registry) (who : UserId) (now : ℤ) → Follows reg (resign reg who now).0
unfolding resign
resign-Follows reg who now = committed-Gives (Follows reg) reg _ (Refines-refl reg.removals) (
    then-Gives (Follows reg) (ensure (contains (owner_ids reg.accounts.users) who) _) _ (λ _.
      then-Gives (Follows reg) (check_floor (length (owner_ids reg.accounts.users))) _ (λ _.
        bind-Gives (Follows reg) (void_moot (locked reg) who now) (λ next. seat_left next who)
          (λ next e.
            left-Follows reg next who
              (subst (Gives (Follows reg)) e (void_moot-Follows (locked reg) who now))))))
