-- ===== src/Iam/Grants/Resolved.antt =====
-- What grants resolve to in a catalog that passes its check.
use concierge.Prelude.{
  List, [], ◌∷◌, ◌++◌, Bool, true, false, Option, none, some, filter, if◌then◌else◌, ◌≡◌, refl, sym,
  ◌∙◌, ap, arith, ◌⊎◌, inl, inr,
}
use concierge.Errors.{ok, Message}
use concierge.Text.{Text}
use concierge.Authz.Role.{Role}
use concierge.Authz.Permissions.{iam_permission}
use concierge.Iam.Pattern
use concierge.Iam.Pattern.{Pattern, matches}
use concierge.Iam.Catalog.{Catalog, has, get, has_key, check}
use concierge.Iam.Catalog.Checked.{check-members, check-delegates}
use concierge.Iam.Grants.{
  Target, alias, pattern_of, parse, target_of, target_text, namespace, grants, all_grants,
  members_of, resolve, delegable, reserved_namespaces,
}

-- A member of a joined list is a member of one of the two.
has-append :
    (xs ys : List Text) (p : Text) → has (xs ++ ys) p ≡ true → (has xs p ≡ true) ⊎ (has ys p ≡ true)
unfolding has
has-append [] ys p h = inr h
has-append (x ∷ xs) ys p h = ground (arith, has-append xs ys p)

has-filter :
    (t : Text → Bool) (xs : List Text) (p : Text) → has (filter t xs) p ≡ true → has xs p ≡ true
unfolding has
has-filter t [] p h = h
has-filter t (x ∷ xs) p h = ground (arith, has-filter t xs p)

members_of-some :
    (o : Option (List Text)) (p : Text)
    → has (members_of o) p ≡ true
    → (members : List Text) × (o ≡ some members) × (has members p ≡ true)
unfolding has
members_of-some none p h = absurd (ground arith)
members_of-some (some members) p h = (members, refl, h)

grants-within :
    (t : Target) (c : Catalog) (owner p : Text)
    → check c owner ≡ none
    → has (grants t c) p ≡ true
    → has c.permissions p ≡ true
unfolding grants
grants-within (alias name) c owner p h k =
    let (members, e, m) = members_of-some (get c.aliases name) p k in
    check-members c owner name members p h e m
grants-within (pattern_of q) c owner p h k =
    has-filter (λ permission. matches q permission) c.permissions p k

all_grants-within :
    (ts : List Target) (c : Catalog) (owner p : Text)
    → check c owner ≡ none
    → has (all_grants ts c) p ≡ true
    → has c.permissions p ≡ true
all_grants-within [] c owner p h k = absurd (unfold has in ground arith)
all_grants-within (t ∷ ts) c owner p h k = elim (has-append (grants t c) (all_grants ts c) p k) [
  | inl here ↦ grants-within t c owner p h here
  | inr later ↦ all_grants-within ts c owner p h later
]

-- In a catalog that passes its check, whatever a seat and its targets resolve to is a permission of
-- the catalog.
pub resolve-within :
    (seat : Role) (granting_seats_hold_all : Bool) (targets : List Target) (c : Catalog)
    (owner p : Text)
    → check c owner ≡ none
    → has (resolve seat granting_seats_hold_all targets c) p ≡ true
    → has c.permissions p ≡ true
unfolding resolve
resolve-within seat granting_seats_hold_all targets c owner p h k =
    ground (arith, all_grants-within targets c owner p h)

delegable-get :
    (targets : List Target) (c : Catalog) (d : Text)
    → has (delegable targets c) d ≡ true
    → (name : Text) × (delegates : List Text) × (get c.delegations name ≡ some delegates)
      × (has delegates d ≡ true)
delegable-get [] c d k = absurd (unfold delegable has in ground arith)
delegable-get (t ∷ ts) c d k =
    elim (has-append (members_of (get c.delegations (target_text t))) (delegable ts c) d
      (unfold delegable in k)) [
        | inl here ↦
            let (delegates, e, m) = members_of-some (get c.delegations (target_text t)) d here in
            (target_text t, delegates, e, m)
        | inr later ↦ delegable-get ts c d later
      ]

-- In a catalog that passes its check, whatever a holder may delegate is an alias of the catalog, and
-- holding that alias alone lets its holder delegate nothing.
pub delegable-once :
    (targets : List Target) (c : Catalog) (owner d : Text)
    → check c owner ≡ none
    → has (delegable targets c) d ≡ true
    → (has_key c.aliases d ≡ true) × (delegable (alias d ∷ []) c ≡ [])
delegable-once targets c owner d h k =
    let (name, delegates, e, m) = delegable-get targets c d k in
    let (is_alias, stops) = check-delegates c owner name delegates d h e m in
    (is_alias, unfold delegable target_text in rw stops refl)

namespace-of_alias : (q : Pattern) → namespace (alias q.raw) ≡ Pattern.namespace q
unfolding target_text namespace Pattern.namespace
namespace-of_alias q = refl

namespace-of_pattern : (q : Pattern) → namespace (pattern_of q) ≡ Pattern.namespace q
unfolding target_text namespace Pattern.namespace
namespace-of_pattern q = refl

-- Either target that a pattern becomes keeps its text.
target_of-cases :
    (q : Pattern) (t : Target)
    → target_of q.raw (inr q) ≡ ok t
    → (has reserved_namespaces (Pattern.namespace q) ≡ false)
      × ((t ≡ alias q.raw) ⊎ (t ≡ pattern_of q))
target_of-cases q t h = ground arith

target_of-ok :
    (q : Pattern) (t : Target)
    → target_of q.raw (inr q) ≡ ok t
    → (target_text t ≡ q.raw) × (has reserved_namespaces (namespace t) ≡ false)
unfolding target_text
target_of-ok q t h =
    let (free, form) = target_of-cases q t h in
    elim form [
      | inl e ↦ rw e (refl, rw (namespace-of_alias q) free)
      | inr e ↦ rw e (refl, rw (namespace-of_pattern q) free)
    ]

-- One of two failures, or the result.
abbrev pattern_or : Bool → Bool → Message → Message → Pattern → Message ⊎ Pattern
pattern_or long fits a b q = if long then inl a else if fits then inr q else inl b

either :
    (long fits : Bool) (a b : Message) (q : Pattern)
    → ((m : Message) × (pattern_or long fits a b q ≡ inl m)) ⊎ (pattern_or long fits a b q ≡ inr q)
either true fits a b q = inl (a, refl)
either false true a b q = inr refl
either false false a b q = inl (b, refl)

parse-cases :
    (raw : Text)
    → ((m : Message) × (Pattern.parse raw ≡ inl m))
      ⊎ (Pattern.parse raw ≡ inr (record { raw = raw }))
unfolding Pattern.parse
parse-cases raw = either _ _ _ _ _

-- A grant that parses is printed as the text it came from, and its namespace is none of the reserved.
pub parse-ok :
    (raw : Text) (t : Target)
    → parse raw ≡ ok t
    → (target_text t ≡ raw) × (has reserved_namespaces (namespace t) ≡ false)
unfolding parse
parse-ok raw t h = elim (parse-cases raw) [
  | inl (m, e) ↦ absurd (failed m (sym (ap (target_of raw) e) ∙ h))
  | inr e ↦ target_of-ok (record { raw = raw }) t (sym (ap (target_of raw) e) ∙ h)
]
  where
    failed : (m : Message) → target_of raw (inl m) ≡ ok t → ⊥
    failed m h = ground arith
