-- ===== src/Runner/Consilium/Seats.antt =====
-- runner/src/infrastructure/governance.rs: opening a removal, and resigning a seat. The subscriber
-- row of the notifications is left out: the invitation is kept with the address that it is sent to.
use concierge.Prelude.{
  ℕ, String, List, [], ◌∷◌, ◌++◌, Bool, true, false, not, ◌&&◌, Option, none, some, any, contains,
  length, ◌==◌, if◌then◌else◌,
}
use concierge.Prelude.Int.{ℤ, ltb_ℤ}
use concierge.Errors.{
  not_found, forbidden, repository, say, num, Result, ok, err, ◌>>=◌, ◌>>◌, ensure, ok_or,
}
use concierge.Text.{Text, codes, same_text}
use concierge.Governance.ProposalState
use concierge.Governance.Peer.{UserId}
use concierge.Governance.Lifecycle.{check_floor, removal_ttl_secs}
use concierge.Governance.Removal
use concierge.Governance.Removal.{OwnerRemoval, mark_target_notified}
use concierge.Users.Account.{User}
use concierge.Runner.Genesis.{find_user, owner_ids}
use concierge.Runner.Consilium.{Registry, Token, Invitation, no_audit, locked, take_seat}
use concierge.Runner.Consilium.Removals.{stored, find_removal, persist, expire_if_due, find_open}

-- The removals of the target that are open past their time.
unfoldable pub find_stale : UserId → ℤ → List OwnerRemoval → Option OwnerRemoval
unfolding ProposalState.is_open
find_stale target now [] = none
find_stale target now (r ∷ rs) =
    if r.target == target && ProposalState.is_open r.life.state && not (ltb_ℤ now r.life.expires_at)
    then some r
    else find_stale target now rs

abbrev pub close_found : Registry → ℤ → Option OwnerRemoval → Registry
close_found reg now none = reg
close_found reg now (some expired) = persist reg expired none no_audit now

-- A due proposal against the target is closed first.
unfoldable pub close_stale : Registry → UserId → ℤ → Registry
unfolding find_stale expire_if_due persist
close_stale reg target now = elim (find_stale target now reg.removals) [
  | none ↦ reg
  | some r ↦ close_found reg now (expire_if_due r now)
]

abbrev pub is_none {ℓ} : {A : Type ℓ} → Option A → Bool
is_none none = true
is_none (some a) = false

-- What a transaction mints: the id, the emailed token and the secret code.
pub record Minted : Type 0 where
  pub id : ℕ
  pub token : String
  pub code : String

-- The primary key, and the index of one open removal for a target.
abbrev pub is_free : Registry → ℕ → UserId → Bool
is_free reg id target =
    is_none (find_removal id reg.removals) && is_none (find_open target reg.removals)

abbrev pub opened : Registry → Result Registry → Registry × Result (Unit {0})
opened reg (err e) = (reg, err e)
opened reg (ok next) = (next, ok tt)

module _ (digest : String → Text) where
  abbrev pub has_hash : Text → Token → Bool
  has_hash hash t = same_text t.token_hash hash

  abbrev pub minted_token : Minted → OwnerRemoval → Token
  minted_token minted r = record {
    removal_id = r.id;
    token_hash = digest minted.token;
    code_hash = digest minted.code;
    attempts = 0;
    burned_at = none;
    used_at = none;
    expires_at = r.life.expires_at;
  }

  abbrev pub invitation_of : Minted → OwnerRemoval → User → User → Invitation
  invitation_of minted r target initiator = record {
    removal_id = r.id;
    recipient = target.email.address;
    initiator_email = initiator.email.address;
    reason = r.reason;
    token = minted.token;
    code = minted.code;
    expires_at = r.life.expires_at;
  }

  -- The rows of a removal that was just opened.
  unfoldable pub insert_removal : Registry → OwnerRemoval → Minted → ℤ → Result Registry
  unfolding find_removal find_open same_text find_user persist mark_target_notified
  insert_removal reg r minted now = do
    ensure (is_free reg r.id r.target)
        (repository (say "duplicate key value violates unique constraint"))
    ensure (not (any (has_hash (digest minted.token)) reg.tokens))
        (repository (say "duplicate key value violates unique constraint"))
    target ← ok_or (find_user r.target reg.accounts.users) (not_found "user" (num r.target ∷ []))
    initiator ←
        ok_or (find_user r.initiator reg.accounts.users) (not_found "user" (num r.initiator ∷ []))
    ok (
        persist
          (record reg {
            removals = reg.removals ++ stored r ∷ [];
            tokens = reg.tokens ++ minted_token minted r ∷ [];
            mails = reg.mails ++ invitation_of minted r target initiator ∷ [];
          })
          (mark_target_notified r) (some r.initiator) no_audit now)

  -- `open_removal`, less the record that it reads back.
  unfoldable pub open_removal :
      Registry → Minted → UserId → UserId → Text → ℤ → Registry × Result (Unit {0})
  unfolding close_stale Removal.open_removal insert_removal
  open_removal reg minted target initiator reason now =
      let cleared = close_stale (locked reg) target now in
      opened reg (do
        r ←
            Removal.open_removal minted.id target initiator reason
              (owner_ids cleared.accounts.users) now removal_ttl_secs
        insert_removal cleared r minted now)

abbrev pub resigned : Text
resigned = codes "the target resigned the seat"

abbrev pub persisted : Registry → UserId → ℤ → Result OwnerRemoval → Result Registry
persisted reg who now (err e) = err e
persisted reg who now (ok moot) = ok (persist reg moot (some who) no_audit now)

-- An open removal of somebody who leaves is void.
unfoldable pub void_moot : Registry → UserId → ℤ → Result Registry
unfolding find_open Removal.void_proposal persist
void_moot reg who now = elim (find_open who reg.removals) [
  | none ↦ ok reg
  | some r ↦ persisted reg who now (Removal.void_proposal r resigned now)
]

abbrev pub seat_left : Registry → UserId → Result Registry
seat_left reg who = do
  accounts ← take_seat reg.accounts who
  ok (record reg { accounts = accounts })

abbrev pub committed : Registry → Result Registry → Registry × Result (Unit {0})
committed reg (err e) = (reg, err e)
committed reg (ok next) = (next, ok tt)

unfoldable pub resign : Registry → UserId → ℤ → Registry × Result (Unit {0})
unfolding check_floor void_moot take_seat
resign reg who now = committed reg (do
  ensure (contains (owner_ids reg.accounts.users) who)
      (forbidden (say "you do not hold an owner seat"))
  check_floor (length (owner_ids reg.accounts.users))
  next ← void_moot (locked reg) who now
  seat_left next who)
