-- ===== src/Runner/Consilium/Tests.antt =====
-- A fund of three owners: the first asks to remove the third, the second agrees, and the third
-- answers from the mailbox.
use concierge.Governance.Rules.{needed_votes}
use concierge.Prelude.{◌≤◌, List, [], ◌∷◌, true, false, some, ◌≡◌, refl, arith}
use concierge.Prelude.Int.{pos, saturating_add}
use concierge.Text.{codes, trim, is_whitespace}
use concierge.Authz.Role
use concierge.Authz.Role.{investor, owner}
use concierge.Governance.Vote
use concierge.Governance.Vote.{Vote}
use concierge.Governance.Lifecycle.{max_code_attempts, validate_reason}
use concierge.Governance.Peer.{find_peer, record_vote, pending_peer}
use concierge.Governance.ProposalState
use concierge.Governance.ProposalState.{ProposalState}
use concierge.Governance.Removal.{OwnerRemoval}
use concierge.Governance.Removal
use concierge.Governance.Rules
use concierge.Runner.Genesis.{owner_ids}
use concierge.Runner.Genesis.Tests.{founder}
use concierge.Runner.Consilium.{Registry, no_audit}
use concierge.Runner.Consilium.Codes.{find_token}
use concierge.Runner.Consilium.Calls.{
  Call, opens_removal, votes_removal, cancels_removal, answers, resigns, run,
}
use concierge.Runner.Consilium.Roster.{AboveFloor}
use concierge.Runner.Consilium.Floor.{run-AboveFloor}
use concierge.Runner.Consilium.Allowance.{allowance}
use concierge.Runner.Consilium.Removals.{find_removal, peer_vote, cancel_removal}
use concierge.Runner.Consilium.Due.{ClosedDue, due_refused}
use concierge.Runner.Consilium.Evolution.{Evolves, SameEnd}
use concierge.Runner.Consilium.Rows.{Keyed}
use concierge.Runner.Consilium.Refinement.{run-Evolves, run-SameEnd}
use concierge.Runner.Consilium.Mailbox.{wrong_codes, wrong_codes_le}

abbrev pub fund : Registry
fund = record {
  accounts = record {
    users =
        founder 1 (codes "ann@x") owner 2
        ∷ founder 2 (codes "bob@x") owner 2
        ∷ founder 3 (codes "eve@x") owner 2
        ∷ [];
    outbox = [];
  };
  removals = [];
  admissions = [];
  proposals = [];
  tokens = [];
  log = [];
  mails = [];
  revision = 0;
}

abbrev opening : Call
opening =
    opens_removal (record { id = 7; token = "link"; code = "1234" }) 3 1 (codes "breach") (pos 1000)

-- Everybody agrees, and then two of the owners want to leave.
abbrev removing : List Call
removing =
    opening
    ∷ votes_removal 7 2 Vote.remove (pos 1001) no_audit
    ∷ answers "link" "1234" Vote.remove (pos 1002) no_audit
    ∷ resigns 1 (pos 1003)
    ∷ resigns 2 (pos 1004)
    ∷ []

abbrev guess : Call
guess = answers "link" "0000" Vote.keep (pos 1002) no_audit

-- Six guesses, and then the right code.
abbrev guessing : List Call
guessing =
    opening
    ∷ guess
    ∷ guess
    ∷ guess
    ∷ guess
    ∷ guess
    ∷ guess
    ∷ answers "link" "1234" Vote.keep (pos 1002) no_audit
    ∷ []

three_are_above : AboveFloor fund.accounts
unfolding Role.same
three_are_above = omega arith

removed : owner_ids (run codes fund removing).accounts.users ≡ 1 ∷ 2 ∷ []
unfolding run validate_reason trim is_whitespace saturating_add find_peer Removal.snapshot
    Rules.outcome record_vote Rules.unanimity Vote.ballot
removed = refl

run-AboveFloor_example : AboveFloor (run codes fund removing).accounts
run-AboveFloor_example = run-AboveFloor codes fund removing three_are_above

five_wrong : wrong_codes codes (codes "link") fund guessing ≡ 5
unfolding wrong_codes validate_reason trim is_whitespace saturating_add
five_wrong = refl

wrong_codes_le_example :
    (wrong_codes codes (codes "link") fund guessing
      ≤ allowance (find_token (codes "link") fund.tokens))
    × (wrong_codes codes (codes "link") fund guessing ≤ max_code_attempts)
wrong_codes_le_example = wrong_codes_le codes (codes "link") fund guessing

-- The removal as it is stored after the opening.
abbrev pub open_row : OwnerRemoval
open_row = record {
  id = 7;
  target = 3;
  initiator = 1;
  reason = codes "breach";
  owner_count = 3;
  peers = pending_peer 2 ∷ [];
  decision = Vote.pending;
  decided_as_target_at = pos 0;
  target_notified = true;
  life = record {
    state = ProposalState.open_state;
    created_at = pos 1000;
    expires_at = pos 260200;
    decided_at = pos 0;
    void_reason = [];
    version = 1;
    pending = [];
  };
}

opened_row : find_removal 7 (run codes fund (opening ∷ [])).removals ≡ some open_row
unfolding run find_removal validate_reason trim is_whitespace saturating_add Removal.snapshot
opened_row = refl

abbrev with_row : OwnerRemoval → Registry
with_row r = record fund { removals = r ∷ [] }

row_stands : (r : OwnerRemoval) → find_removal r.id (with_row r).removals ≡ some r
unfolding find_removal
row_stands r = ground arith

row-Keyed : (r : OwnerRemoval) → Keyed (with_row r).removals
unfolding find_removal
row-Keyed r = (refl, tt)

-- A vote and a cancellation.
abbrev cancelling : List Call
cancelling = votes_removal 7 2 Vote.remove (pos 1001) no_audit ∷ cancels_removal 7 1 (pos 1002) ∷ []

run-Evolves_example :
    Keyed (run codes (with_row open_row) cancelling).removals
    × ((s : OwnerRemoval) × (find_removal 7 (run codes (with_row open_row) cancelling).removals
          ≡ some s)
        × Evolves open_row s)
run-Evolves_example =
    run-Evolves codes (with_row open_row) cancelling 7 open_row (row-Keyed open_row)
      (row_stands open_row)

abbrev cancelled_row : OwnerRemoval
cancelled_row = record open_row {
  life = record {
    state = ProposalState.cancelled;
    created_at = pos 1000;
    expires_at = pos 260200;
    decided_at = pos 1002;
    void_reason = [];
    version = 2;
    pending = [];
  };
}

cancelled_closed : ProposalState.is_open cancelled_row.life.state ≡ false
unfolding ProposalState.is_open
cancelled_closed = refl

run-SameEnd_example :
    (s : OwnerRemoval) × (find_removal 7 (run codes (with_row cancelled_row) cancelling).removals
      ≡ some s)
    × SameEnd cancelled_row s
run-SameEnd_example =
    run-SameEnd codes (with_row cancelled_row) cancelling 7 cancelled_row (row-Keyed cancelled_row)
      (row_stands cancelled_row) cancelled_closed

open_row_open : ProposalState.is_open open_row.life.state ≡ true
unfolding ProposalState.is_open
open_row_open = refl

due_refused_example :
    ClosedDue
      (with_row open_row)
      7
      open_row
      (pos 260200)
      (peer_vote (with_row open_row) 7 2 Vote.remove (pos 260200) no_audit)
    × ClosedDue
        (with_row open_row)
        7
        open_row
        (pos 260200)
        (cancel_removal (with_row open_row) 7 2 (pos 260200))
due_refused_example =
    due_refused (with_row open_row) 7 open_row 2 Vote.remove (pos 260200) no_audit
      (row_stands open_row) open_row_open refl
