-- ===== src/Runner/Consilium/Proposals/Opening.antt =====
-- runner/src/infrastructure/governance.rs: the opening of a proposal about a user.
use text.Mathlib.Text.{◌==◌ as str_eq}
use concierge.Prelude.{
  ℕ, List, [], ◌∷◌, ◌++◌, Bool, true, false, not, ◌&&◌, Option, none, some, ◌==◌, if◌then◌else◌,
}
use concierge.Prelude.Int.{ℤ, ltb_ℤ}
use concierge.Errors.{repository, say, Result, ok, err, ◌>>=◌, ◌>>◌, ensure}
use concierge.Text.{Text}
use concierge.Governance.UserProposalKind
use concierge.Governance.UserProposalKind.{UserProposalKind}
use concierge.Governance.ProposalState
use concierge.Governance.ProposalState.{ProposalState}
use concierge.Governance.Peer.{UserId}
use concierge.Governance.Lifecycle.{removal_ttl_secs}
use concierge.Governance.UserProposal
use concierge.Governance.UserProposal.{UserProposal, outcome_now, outcome_among}
use concierge.Runner.Genesis.{owner_ids}
use concierge.Runner.Consilium.{Registry, no_audit, locked}
use concierge.Runner.Consilium.Proposals.{stored, find_proposal, persist, expire_if_due}

abbrev pub is_same_kind : UserProposalKind → UserProposalKind → Bool
is_same_kind a b = str_eq (UserProposalKind.as_str a) (UserProposalKind.as_str b)

-- The open proposal of a kind about a subject, which the unique index makes one.
unfoldable pub find_open : UserProposalKind → UserId → List UserProposal → Option UserProposal
unfolding ProposalState.is_open UserProposalKind.as_str
find_open kind subject [] = none
find_open kind subject (p ∷ rows) =
    if p.subject == subject && is_same_kind p.kind kind && ProposalState.is_open p.life.state
    then some p
    else find_open kind subject rows

unfoldable pub find_stale : UserProposalKind → UserId → ℤ → List UserProposal → Option UserProposal
unfolding ProposalState.is_open UserProposalKind.as_str
find_stale kind subject now [] = none
find_stale kind subject now (p ∷ rows) =
    if p.subject == subject
      && is_same_kind p.kind kind
      && ProposalState.is_open p.life.state
      && not (ltb_ℤ now p.life.expires_at)
    then some p
    else find_stale kind subject now rows

abbrev pub close_found : Registry → ℤ → Option UserProposal → Registry
close_found reg now none = reg
close_found reg now (some expired) = persist reg expired none no_audit now

unfoldable pub close_stale : Registry → UserProposalKind → UserId → ℤ → Registry
unfolding find_stale expire_if_due persist
close_stale reg kind subject now = elim (find_stale kind subject now reg.proposals) [
  | none ↦ reg
  | some p ↦ close_found reg now (expire_if_due p now)
]

abbrev pub is_none : Option UserProposal → Bool
is_none none = true
is_none (some a) = false

unfoldable pub insert_proposal : Registry → UserProposal → ℤ → Result Registry
unfolding find_proposal find_open persist
insert_proposal reg a now = do
  ensure
      (is_none (find_proposal a.id reg.proposals)
        && is_none (find_open a.kind a.subject reg.proposals))
      (repository (say "duplicate key value violates unique constraint"))
  ok (
      persist (record reg { proposals = reg.proposals ++ stored a ∷ [] }) a (some a.initiator)
        no_audit now)

abbrev pub opened : Registry → Result Registry → Registry × Result (Unit {0})
opened reg (err e) = (reg, err e)
opened reg (ok next) = (next, ok tt)

unfoldable pub open_user_proposal :
    Registry → ℕ → UserProposalKind → UserId → UserId → Text → ℤ → Registry × Result (Unit {0})
unfolding close_stale UserProposal.open_proposal insert_proposal
open_user_proposal reg id kind subject initiator reason now =
    let cleared = close_stale (locked reg) kind subject now in
    opened reg (do
      p ←
          UserProposal.open_proposal id kind subject initiator reason
            (owner_ids cleared.accounts.users) now removal_ttl_secs
      insert_proposal cleared p now)
