-- ===== src/Iam/Catalog/Checked.antt =====
-- What a catalog that passes `Catalog::check` promises: names refer to what it defines, and
-- delegation does not go on.
use concierge.Prelude.{List, [], ◌∷◌, Bool, true, false, not, ◌||◌, none, some, ◌≡◌, ap, arith}
use concierge.Text.{Text, same_text}
use concierge.Text.Trim.{same_text_iff}
use concierge.Iam.Catalog.{
  Catalog, NameMap, has, get, has_key, find, check, check_aliases, check_delegations,
  check_permissions,
}

-- What `find` does not find fails the test.
find-none :
    (p : Text → Bool) (xs : List Text) (y : Text) → find p xs ≡ none → has xs y ≡ true → p y ≡ false
unfolding find has
find-none p [] y h k = absurd (ground arith)
find-none p (x ∷ xs) y h k =
    ground (arith, find-none p xs y, λ (e : same_text x y ≡ true). ap p ((same_text_iff x y).0 e))

pub has_key-none : (m : NameMap) (name : Text) → has_key m name ≡ false → get m name ≡ none
unfolding has_key get
has_key-none [] name h = ground arith
has_key-none ((key, value) ∷ m) name h = ground (arith, has_key-none m name)

check_aliases-parts :
    (namespace : Text) (permissions : List Text) (key : Text) (value : List Text) (m : NameMap)
    → check_aliases namespace permissions ((key, value) ∷ m) ≡ none
    → (find (λ x. not (has permissions x)) value ≡ none)
      × (check_aliases namespace permissions m ≡ none)
unfolding check_aliases
check_aliases-parts namespace permissions key value m c = ground arith

check_delegations-parts :
    (aliases delegations : NameMap) (key : Text) (value : List Text) (m : NameMap)
    → check_delegations aliases delegations ((key, value) ∷ m) ≡ none
    → (find (λ x. not (has_key aliases x) || has_key delegations x) value ≡ none)
      × (check_delegations aliases delegations m ≡ none)
unfolding check_delegations
check_delegations-parts aliases delegations key value m c = ground arith

check-parts :
    (c : Catalog) (namespace : Text)
    → check c namespace ≡ none
    → (check_permissions namespace c.permissions ≡ none)
      × ((check_aliases namespace c.permissions c.aliases ≡ none)
          × (check_delegations c.aliases c.delegations c.delegations ≡ none))
unfolding check
check-parts c namespace h = ground arith

check_aliases-member :
    (namespace : Text) (permissions : List Text) (m : NameMap) (name : Text) (members : List Text)
    (p : Text)
    → check_aliases namespace permissions m ≡ none
    → get m name ≡ some members
    → has members p ≡ true
    → has permissions p ≡ true
unfolding check_aliases get
check_aliases-member namespace permissions [] name members p c g h = absurd (ground arith)
check_aliases-member namespace permissions ((key, value) ∷ m) name members p c g h =
    let parts = check_aliases-parts namespace permissions key value m c in
    ground (
      arith,
      find-none (λ x. not (has permissions x)) value p parts.0,
      check_aliases-member namespace permissions m name members p parts.1,
    )

check_delegations-delegate :
    (aliases delegations m : NameMap) (name : Text) (delegates : List Text) (d : Text)
    → check_delegations aliases delegations m ≡ none
    → get m name ≡ some delegates
    → has delegates d ≡ true
    → (has_key aliases d ≡ true) × (has_key delegations d ≡ false)
unfolding check_delegations get
check_delegations-delegate aliases delegations [] name delegates d c g h = absurd (ground arith)
check_delegations-delegate aliases delegations ((key, value) ∷ m) name delegates d c g h =
    let parts = check_delegations-parts aliases delegations key value m c in
    ground (
      arith,
      find-none (λ x. not (has_key aliases x) || has_key delegations x) value d parts.0,
      check_delegations-delegate aliases delegations m name delegates d parts.1,
    )

-- In a catalog that passes its check, every member of an alias is one of its permissions.
pub check-members :
    (c : Catalog) (namespace name : Text) (members : List Text) (p : Text)
    → check c namespace ≡ none
    → get c.aliases name ≡ some members
    → has members p ≡ true
    → has c.permissions p ≡ true
unfolding check
check-members c namespace name members p h g k =
    check_aliases-member namespace c.permissions c.aliases name members p
      (check-parts c namespace h).1.0 g k

-- In a catalog that passes its check, whatever an alias delegates is an alias that delegates nothing.
pub check-delegates :
    (c : Catalog) (namespace name : Text) (delegates : List Text) (d : Text)
    → check c namespace ≡ none
    → get c.delegations name ≡ some delegates
    → has delegates d ≡ true
    → (has_key c.aliases d ≡ true) × (get c.delegations d ≡ none)
unfolding check
check-delegates c namespace name delegates d h g k =
    let delegate =
      check_delegations-delegate c.aliases c.delegations c.delegations name delegates d
        (check-parts c namespace h).1.1 g k in
    (delegate.0, has_key-none c.delegations d delegate.1)
