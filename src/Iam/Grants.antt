-- ===== src/Iam/Grants.antt =====
-- domain/src/iam.rs: what a grant names, and what a holder of grants may do inside a catalog.
pub mod Resolved
use concierge.Prelude.{
  ℕ, List, [], ◌∷◌, ◌++◌, Bool, true, false, not, ◌&&◌, ◌||◌, Option, none, some, ◌⊎◌, inl, inr,
  any, filter, length, ◌==◌, if◌then◌else◌,
}
use concierge.Errors.{Message, validation, lit, text, Result, ok, err}
use concierge.Text.{Text, codes, split_first}
use concierge.Authz.{may}
use concierge.Authz.Role.{Role}
use concierge.Authz.Permissions.{Iam, iam_permission}
use concierge.Iam.Pattern
use concierge.Iam.Pattern.{Pattern, segments, matches}
use concierge.Iam.Catalog.{Catalog, NameMap, get, has}

-- The namespaces that no tenant can claim.
abbrev pub reserved_namespaces : List Text
reserved_namespaces = codes "iam" ∷ codes "concierge" ∷ codes "bank" ∷ codes "seat" ∷ []

pub data Target : Type 0 where
  alias : Text → Target
  pattern_of : Pattern → Target

-- `raw.split(':').count() == 2 && !raw.contains('*')`.
abbrev pub is_alias_name : Text → Bool
is_alias_name raw = length (segments raw) == 2 && not (any (λ c. c == b'*') raw)

-- `Target::parse` on the result of `Pattern::parse`.
abbrev pub target_of : Text → Message ⊎ Pattern → Result Target
target_of raw (inl message) = err (validation message)
target_of raw (inr p) =
    if has reserved_namespaces (Pattern.namespace p)
    then err (
        validation (
          lit "`"
          ∷ text (Pattern.namespace p)
          ∷ lit ":*` is not grantable: only a tenant's namespace is"
          ∷ []))
    else ok (if is_alias_name raw then alias raw else pattern_of p)

unfoldable pub parse : Text → Result Target
parse raw = target_of raw (Pattern.parse raw)

unfoldable pub target_text : Target → Text
target_text (alias name) = name
target_text (pattern_of p) = p.raw

unfoldable pub namespace : Target → Text
unfolding target_text
namespace t = split_first b':' (target_text t)

abbrev pub members_of : Option (List Text) → List Text
members_of none = []
members_of (some members) = members

-- The permissions of a catalog that a target grants; none, if the target is orphaned.
unfoldable pub grants : Target → Catalog → List Text
grants (alias name) c = members_of (get c.aliases name)
grants (pattern_of p) c = filter (λ permission. matches p permission) c.permissions

abbrev pub all_grants : List Target → Catalog → List Text
all_grants [] c = []
all_grants (t ∷ ts) c = grants t c ++ all_grants ts c

-- Everything that a seat and some targets let a user do inside a catalog's namespace.
unfoldable pub resolve : Role → Bool → List Target → Catalog → List Text
resolve seat granting_seats_hold_all targets c =
    if granting_seats_hold_all && may seat Iam.grant then c.permissions else all_grants targets c

-- The aliases that a holder of targets may grant and revoke.
unfoldable pub delegable : List Target → Catalog → List Text
unfolding target_text
delegable [] c = []
delegable (t ∷ ts) c = members_of (get c.delegations (target_text t)) ++ delegable ts c
