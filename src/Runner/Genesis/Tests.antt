-- ===== src/Runner/Genesis/Tests.antt =====
-- A fund of two founders: one is named by id, and one by address.
use concierge.Prelude.{ℕ, ◌≤◌, List, [], ◌∷◌, true, none, contains, length, ◌≡◌, refl}
use concierge.Text.{Text, codes, same_text}
use concierge.Authz.Role.{Role, investor, owner}
use concierge.Governance.Peer.{UserId}
use concierge.Users.UserStatus.{active}
use concierge.Users.UserEvent.{role_changed}
use concierge.Users.Profile.{no_fields}
use concierge.Users.Account.{User}
use concierge.Runner.Gate.Tests.{uuid}
use concierge.Runner.Genesis.{
  Store, done, Resolution, GenesisSubject, by_id, mailbox, closed, seated, seed_owners, owner_ids,
}
use concierge.Runner.Genesis.Seating.{holds_seat, seed_owners-holds, seed_owners_once}
use concierge.Runner.Genesis.Seatable.{Seatable, seed_owners-Seatable}

abbrev pub founder : UserId → Text → Role → ℕ → User
founder id address role row_version = record {
  id = id;
  auth_subject = record { subject = address };
  email = record { address = address };
  email_verified = true;
  username = none;
  status = active;
  suspension = none;
  hold_ended_at = none;
  token_version = 0;
  kyc_level = 0;
  role = role;
  profile = no_fields;
  row_version = row_version;
  pending = [];
}

abbrev lower : Text → Text
lower t = t

abbrev empty_fund : Store
empty_fund = record {
  users = founder 7 (codes "ann@x") investor 1 ∷ founder 8 (codes "bob@x") investor 1 ∷ [];
  outbox = [];
}

abbrev seated_fund : Store
seated_fund = record {
  users = founder 7 (codes "ann@x") owner 2 ∷ founder 8 (codes "bob@x") owner 2 ∷ [];
  outbox = (7, role_changed) ∷ (8, role_changed) ∷ [];
}

abbrev subjects : List GenesisSubject
subjects = by_id 7 ∷ mailbox (record { address = codes "bob@x" }) ∷ []

abbrev both : Resolution
both = record { found = 7 ∷ 8 ∷ []; missing_ids = []; missing_mailboxes = []; unseatable = [] }

empty_fund_seats : seed_owners uuid lower empty_fund subjects ≡ done (seated_fund, seated both)
unfolding seed_owners same_text
empty_fund_seats = refl

seed_owners-holds_example :
    (owner_ids empty_fund.users ≡ [])
    × (2 ≤ length both.found)
    × (holds_seat 8 seated_fund.users ≡ contains both.found 8)
seed_owners-holds_example =
    seed_owners-holds uuid lower empty_fund seated_fund subjects both 8 empty_fund_seats

seed_owners_once_example :
    seed_owners uuid lower seated_fund []
    ≡ done (seated_fund, closed (length (owner_ids seated_fund.users)))
seed_owners_once_example =
    seed_owners_once uuid lower empty_fund seated_fund subjects [] both empty_fund_seats

seed_owners-Seatable_example : Seatable lower empty_fund.users subjects 8
seed_owners-Seatable_example =
    seed_owners-Seatable uuid lower empty_fund seated_fund subjects both 8 empty_fund_seats refl
