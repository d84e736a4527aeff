-- ===== src/Iam/Catalog.antt =====
-- iam/src/lib.rs: `Catalog`, everything that one namespace defines, and its check. `Catalog::check`
-- fails with a message.
pub mod Checked
use concierge.Prelude.{
  ℕ, List, [], ◌∷◌, Bool, true, false, not, ◌&&◌, ◌||◌, Option, none, some, ◌⊎◌, inl, inr, all, any,
  length, is_empty, ltb, leb, ◌==◌, if◌then◌else◌,
}
use concierge.Errors.{Message, lit, num, text}
use concierge.Text.{Text, split_first, same_text}
use concierge.Iam.Pattern.{is_segment, segments, max_name_chars}

abbrev pub max_permissions : ℕ
max_permissions = 1024

abbrev pub max_aliases : ℕ
max_aliases = 128

-- A map from names to sets of names.
abbrev pub NameMap : Type 0
NameMap = List (Text × List Text)

pub record Catalog : Type 0 where
  pub version : ℕ
  pub permissions : List Text
  pub aliases : NameMap
  pub delegations : NameMap

-- `BTreeSet::contains`, `BTreeMap::get` and `contains_key`.
unfoldable pub has : List Text → Text → Bool
has [] name = false
has (x ∷ xs) name = same_text x name || has xs name

unfoldable pub get : NameMap → Text → Option (List Text)
get [] name = none
get ((key, value) ∷ m) name = if same_text key name then some value else get m name

unfoldable pub has_key : NameMap → Text → Bool
has_key [] name = false
has_key ((key, value) ∷ m) name = same_text key name || has_key m name

-- `iter().find(test)`.
unfoldable pub find : (Text → Bool) → List Text → Option Text
find p [] = none
find p (x ∷ xs) = if p x then some x else find p xs

-- `raw.split(':').next() == Some(namespace)`, and the length of a name.
unfoldable pub ours : Text → Text → Bool
ours namespace raw = leb (length raw) max_name_chars && same_text (split_first b':' raw) namespace

-- `check` returns `Ok(())` as `none`, and its message otherwise.
abbrev pub Check : Type 0
Check = Option Message

abbrev pub then_check : Check → Check → Check
then_check none next = next
then_check (some m) next = some m

abbrev pub fail_if : Bool → Message → Check
fail_if true m = some m
fail_if false m = none

-- The test of one permission.
unfoldable pub is_permission_of : Text → Text → Bool
unfolding ours
is_permission_of namespace p =
    leb 3 (length (segments p)) && (all is_segment (segments p) && ours namespace p)

unfoldable pub check_permissions : Text → List Text → Check
unfolding is_permission_of
check_permissions namespace [] = none
check_permissions namespace (p ∷ ps) =
    then_check
      (fail_if (not (is_permission_of namespace p))
        (lit "`" ∷ text p ∷ lit "` is not a permission of `" ∷ text namespace ∷ lit "`" ∷ []))
      (check_permissions namespace ps)

-- The test of an alias name.
unfoldable pub is_alias_of : Text → Text → Bool
unfolding ours
is_alias_of namespace name =
    length (segments name) == 2 && (all is_segment (segments name) && ours namespace name)

-- The failure for a stray member that `find` returned.
abbrev pub stray_member : Text → Option Text → Check
stray_member name none = none
stray_member name (some stray) = some (
    lit "alias `"
    ∷ text name
    ∷ lit "` names `"
    ∷ text stray
    ∷ lit "`, which this catalog does not define"
    ∷ [])

unfoldable pub check_aliases : Text → List Text → NameMap → Check
unfolding is_alias_of
check_aliases namespace permissions [] = none
check_aliases namespace permissions ((name, members) ∷ m) =
    then_check
      (fail_if (not (is_alias_of namespace name))
        (lit "`" ∷ text name ∷ lit "` is not an alias name of `" ∷ text namespace ∷ lit "`" ∷ []))
      (then_check (stray_member name (find (λ x. not (has permissions x)) members))
        (check_aliases namespace permissions m))

abbrev pub stray_delegate : Text → Option Text → Check
stray_delegate name none = none
stray_delegate name (some stray) = some (
    lit "alias `"
    ∷ text name
    ∷ lit "` delegates `"
    ∷ text stray
    ∷ lit "`, which is no alias of this catalog or delegates itself"
    ∷ [])

-- `delegations` is the whole map, of which the loop has the rest before it.
unfoldable pub check_delegations : NameMap → NameMap → NameMap → Check
check_delegations aliases delegations [] = none
check_delegations aliases delegations ((name, delegates) ∷ m) =
    then_check
      (fail_if (not (has_key aliases name) || is_empty delegates) (
        lit "`"
        ∷ text name
        ∷ lit "` delegates, but is no alias of this catalog or delegates nothing"
        ∷ []))
      (then_check
        (stray_delegate name
          (find (λ d. not (has_key aliases d) || has_key delegations d) delegates))
        (check_delegations aliases delegations m))

-- `Catalog::check`.
unfoldable pub check : Catalog → Text → Check
unfolding check_permissions check_aliases check_delegations
check c namespace =
    then_check
      (fail_if (ltb max_permissions (length c.permissions) || ltb max_aliases (length c.aliases)) (
        lit "a catalog holds at most "
        ∷ num max_permissions
        ∷ lit " permissions and "
        ∷ num max_aliases
        ∷ lit " aliases"
        ∷ []))
      (then_check (check_permissions namespace c.permissions) (
        then_check (check_aliases namespace c.permissions c.aliases)
          (check_delegations c.aliases c.delegations c.delegations)))
