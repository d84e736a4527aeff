-- ===== src/Runner/Consilium/Due.antt =====
-- A removal that is due, at the calls that find it: it is closed, and the caller is refused.
use concierge.Prelude.{
  ℕ, Bool, true, false, not, ◌&&◌, Option, none, some, if◌then◌else◌, ◌≡◌, refl, ap, ◌∙◌, subst,
  arith,
}
use concierge.Prelude.Int.{ℤ, ltb_ℤ}
use concierge.Errors.{conflict, say, Result, ok, err}
use concierge.Governance.ProposalState
use concierge.Governance.ProposalState.{ProposalState}
use concierge.Governance.Vote.{Vote}
use concierge.Governance.Peer.{UserId}
use concierge.Governance.GovernanceEvent.{GovernanceEvent}
use concierge.Governance.Lifecycle.{close}
use concierge.Governance.Removal
use concierge.Governance.Removal.{OwnerRemoval}
use concierge.Runner.Genesis.{Store}
use concierge.Runner.Consilium.{Registry, Audit, no_audit}
use concierge.Runner.Consilium.Removals.{
  stored, ok_some, find_removal, write_removal, persist, expire_if_due, on_removal, peer_vote,
  cancel_removal, RemovalRecord, voted, withdrawn,
}
use concierge.Runner.Consilium.Rows.{find_removal-id, find_removal-write}

-- The removal as its expiry leaves it.
abbrev pub lapsed : OwnerRemoval → ℤ → OwnerRemoval
lapsed r now = record r { life = close r.life ProposalState.expired GovernanceEvent.expired now }

expire-open :
    (r : OwnerRemoval) (now : ℤ)
    → ProposalState.is_open r.life.state ≡ true
    → ltb_ℤ now r.life.expires_at ≡ false
    → Removal.expire r now ≡ ok (lapsed r now)
unfolding Removal.expire ProposalState.is_open close
expire-open r now o d = ground arith

when_due :
    (is_open before : Bool) (res : Result OwnerRemoval) (s : OwnerRemoval)
    → is_open ≡ true
    → before ≡ false
    → res ≡ ok s
    → (if is_open && not before then ok_some res else none) ≡ some s
when_due is_open before res s o b e = rw (o, b, e) refl

expire_if_due-due :
    (r : OwnerRemoval) (now : ℤ)
    → ProposalState.is_open r.life.state ≡ true
    → ltb_ℤ now r.life.expires_at ≡ false
    → expire_if_due r now ≡ some (lapsed r now)
unfolding expire_if_due
expire_if_due-due r now o d =
    when_due (ProposalState.is_open r.life.state) (ltb_ℤ now r.life.expires_at)
      (Removal.expire r now) (lapsed r now) o d (expire-open r now o d)

-- What a call that found the removal due leaves.
abbrev pub ClosedDue : Registry → ℕ → OwnerRemoval → ℤ → Registry × Result RemovalRecord → Type 0
ClosedDue reg id r now x =
    (x.1 ≡ err (conflict (say "the removal is expired")))
    × (x.0.accounts ≡ reg.accounts)
    × (find_removal id x.0.removals ≡ some (stored (lapsed r now)))

on_removal-due :
    (reg : Registry) (id : ℕ) (r : OwnerRemoval) (now : ℤ) (actor : Option UserId) (audit : Audit)
    (work : OwnerRemoval → Result (Store × OwnerRemoval))
    → find_removal id reg.removals ≡ some r
    → ProposalState.is_open r.life.state ≡ true
    → ltb_ℤ now r.life.expires_at ≡ false
    → ClosedDue reg id r now (on_removal reg id now actor audit work)
unfolding on_removal persist close
on_removal-due reg id r now actor audit work f o d =
    let at_id : r.id ≡ id = find_removal-id id reg.removals r f in
    let row =
      find_removal-write (stored (lapsed r now)) r reg.removals
        (ap (λ i. find_removal i reg.removals) at_id ∙ f) in
    rw (on_removal, f, expire_if_due-due r now o d)
      (
        refl,
        refl,
        subst
            (λ i.
              find_removal i (write_removal (stored (lapsed r now)) reg.removals)
              ≡ some (stored (lapsed r now)))
            at_id row,
      )

-- A removal that is open past its time is not acted upon: whoever votes on it or cancels it, and
-- whatever is voted, the accounts stay as they are, the removal is stored as expired, and the caller
-- is told that it is.
pub due_refused :
    (reg : Registry) (id : ℕ) (r : OwnerRemoval) (who : UserId) (vote : Vote) (now : ℤ)
    (audit : Audit)
    → find_removal id reg.removals ≡ some r
    → ProposalState.is_open r.life.state ≡ true
    → ltb_ℤ now r.life.expires_at ≡ false
    → ClosedDue reg id r now (peer_vote reg id who vote now audit)
      × ClosedDue reg id r now (cancel_removal reg id who now)
unfolding peer_vote cancel_removal
due_refused reg id r who vote now audit f o d = (
  on_removal-due reg id r now (some who) audit (voted reg.accounts who vote now) f o d,
  on_removal-due reg id r now (some who) no_audit (withdrawn reg.accounts who now) f o d,
)
