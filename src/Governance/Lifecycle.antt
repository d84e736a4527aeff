-- ===== src/Governance/Lifecycle.antt =====
-- domain/src/governance.rs: the lifecycle that every consilium embeds, and the two checks that the
-- consilia share. Instants are i64 seconds; `version` is a u64, and its increment wraps as a release
-- build's does. A method on `&mut self` that may fail returns the new value or the error: each
-- returns its errors before its first write.
pub mod Events
pub mod Transitions
pub mod Moves
pub mod Deadline
use concierge.Prelude.{
  ℕ, ◌+◌, ◌-◌, ◌%◌, String, List, [], ◌∷◌, ◌++◌, Bool, true, false, not, ◌||◌, length, take,
  is_empty, ltb, if◌then◌else◌,
}
use concierge.Prelude.Int.{ℤ, pos, ltb_ℤ, saturating_add}
use concierge.Errors.{
  DomainError, conflict, validation, say, lit, num, Result, ok, err, ◌>>=◌, ◌>>◌, ensure,
}
use concierge.Text.{Text, codes, trim}
use concierge.Governance.ProposalState
use concierge.Governance.ProposalState.{ProposalState, open_state, expired, void_state}
use concierge.Governance.GovernanceEvent
use concierge.Governance.GovernanceEvent.{GovernanceEvent}

-- Owners that must remain after a removal.
abbrev pub min_owners : ℕ
min_owners = 2

-- The roster below which the money plane cannot authorize a payout: a warning only.
abbrev pub payout_min_owners : ℕ
payout_min_owners = 3

abbrev pub removal_ttl_secs : ℤ
removal_ttl_secs = pos 259200

abbrev pub max_code_attempts : ℕ
max_code_attempts = 5

abbrev pub max_reason_chars : ℕ
max_reason_chars = 500

-- `self.version += 1` on a u64.
abbrev pub next_version : ℕ → ℕ
next_version v = (v + 1) % 18446744073709551616

-- `owners.len() as u32`.
abbrev pub as_u32 : ℕ → ℕ
as_u32 n = n % 4294967296

pub record Lifecycle : Type 0 where
  pub state : ProposalState
  pub created_at : ℤ
  pub expires_at : ℤ
  pub decided_at : ℤ
  pub void_reason : Text
  pub version : ℕ
  pub pending : List GovernanceEvent

unfoldable pub opened : ℤ → ℤ → Lifecycle
opened now ttl_secs = record {
  state = open_state;
  created_at = now;
  expires_at = saturating_add now ttl_secs;
  decided_at = pos 0;
  void_reason = [];
  version = 0;
  pending = [];
}

unfoldable pub rehydrate : ProposalState → ℤ → ℤ → ℤ → Text → ℕ → Lifecycle
rehydrate state created_at expires_at decided_at void_reason version = record {
  state = state;
  created_at = created_at;
  expires_at = expires_at;
  decided_at = decided_at;
  void_reason = void_reason;
  version = version;
  pending = [];
}

unfoldable pub require_open : Lifecycle → String → Result (Unit {0})
unfolding ProposalState.is_open
require_open l noun =
    if ProposalState.is_open l.state
    then ok tt
    else err
        (conflict (lit "the " ∷ lit noun ∷ lit " is " ∷ lit (ProposalState.as_str l.state) ∷ []))

unfoldable pub bump_and_emit : Lifecycle → GovernanceEvent → Lifecycle
bump_and_emit l event = record l {
  version = next_version l.version;
  pending = l.pending ++ event ∷ [];
}

unfoldable pub close : Lifecycle → ProposalState → GovernanceEvent → ℤ → Lifecycle
unfolding bump_and_emit
close l state event now = bump_and_emit (record l { state = state; decided_at = now }) event

unfoldable pub close_void : Lifecycle → Text → ℤ → Lifecycle
unfolding close
close_void l reason now =
    close (record l { void_reason = take 200 reason }) void_state GovernanceEvent.voided now

-- `self.state == ProposalState::Expired` and the like.
abbrev pub is_expired : ProposalState → Bool
is_expired expired = true
is_expired _ = false

abbrev pub is_cancelled : ProposalState → Bool
is_cancelled ProposalState.cancelled = true
is_cancelled _ = false

abbrev pub is_void : ProposalState → Bool
is_void void_state = true
is_void _ = false

-- `matches!(state, Executed | Void)`.
abbrev pub is_settled : ProposalState → Bool
is_settled ProposalState.executed = true
is_settled void_state = true
is_settled _ = false

unfoldable pub expire : Lifecycle → String → ℤ → Result Lifecycle
unfolding require_open close
expire l noun now = if is_expired l.state then ok l else do
  require_open l noun
  ensure (not (ltb_ℤ now l.expires_at)) (conflict (say "the proposal has not expired yet"))
  ok (close l expired GovernanceEvent.expired now)

-- `owners` is the roster before the removal. `saturating_sub` is the subtraction on ℕ.
unfoldable pub check_floor : ℕ → Result (Unit {0})
check_floor owners =
    if ltb (owners - 1) min_owners
    then err (
        conflict (
          lit "a fund must keep at least "
          ∷ num min_owners
          ∷ lit " owners, and this would leave "
          ∷ num (owners - 1)
          ∷ []))
    else ok tt

-- The reason that every consilium carries: trimmed, not empty and bounded.
unfoldable pub validate_reason : Text → Result Text
validate_reason raw =
    let reason = trim raw in
    if is_empty reason || ltb max_reason_chars (length reason)
    then err (validation (lit "reason must be 1-" ∷ num max_reason_chars ∷ lit " characters" ∷ []))
    else ok reason

-- `EmitsEvents::drain_events`: the events so far, which the adapter writes out.
unfoldable pub drain_events : Lifecycle → List GovernanceEvent × Lifecycle
drain_events l = (l.pending, record l { pending = [] })
