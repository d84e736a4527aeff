-- ===== src/Iam/Tests.antt =====
-- A shop's catalog, and grants in it.
use concierge.Prelude.{List, [], ◌∷◌, true, ◌≡◌, ◌↔◌, refl, none}
use concierge.Text.{codes, split, split_first, same_text}
use concierge.Authz.Role.{investor}
use concierge.Authz.{may_name, permissions}
use concierge.Iam.Pattern.{Pattern, segments, contains, matches, is_segment}
use concierge.Iam.Pattern.Sound.{Matches, contains_sound, matches_iff}
use concierge.Iam.Catalog.{
  Catalog, has, get, has_key, find, check, check_permissions, check_aliases, check_delegations,
  is_permission_of, is_alias_of, ours,
}
use concierge.Iam.Grants.{Target, alias, target_text, grants, resolve, delegable}
use concierge.Iam.Grants.Resolved.{resolve-within, delegable-once}

abbrev everything : Pattern
everything = record { raw = codes "shop:*" }

abbrev any_read : Pattern
any_read = record { raw = codes "shop:*:read" }

contains_sound_example : matches everything (codes "shop:order:read") ≡ true
contains_sound_example =
    contains_sound everything any_read (codes "shop:order:read") (unfold split same_text in refl)
      (unfold contains split same_text in refl) (unfold matches contains split same_text in refl)

matches_iff_example :
    (matches any_read (codes "shop:order:read") ≡ true)
    ↔ Matches (segments any_read.raw) (segments (codes "shop:order:read"))
matches_iff_example =
    matches_iff any_read (codes "shop:order:read") (unfold split same_text in refl)

-- The manager delegates the clerk.
abbrev shop : Catalog
shop = record {
  version = 1;
  permissions = codes "shop:order:read" ∷ codes "shop:order:write" ∷ [];
  aliases =
      (codes "shop:clerk", codes "shop:order:read" ∷ [])
      ∷ (codes "shop:manager", codes "shop:order:read" ∷ codes "shop:order:write" ∷ [])
      ∷ [];
  delegations = (codes "shop:manager", codes "shop:clerk" ∷ []) ∷ [];
}

shop_checks : check shop (codes "shop") ≡ none
unfolding check check_permissions check_aliases check_delegations is_permission_of is_alias_of ours
    split is_segment same_text split_first find has has_key
shop_checks = refl

abbrev manager : List Target
manager = alias (codes "shop:manager") ∷ []

resolve-within_example : has shop.permissions (codes "shop:order:write") ≡ true
resolve-within_example =
    resolve-within investor true manager shop (codes "shop") (codes "shop:order:write") shop_checks
      (unfold resolve may_name permissions grants get has same_text in refl)

delegable-once_example :
    (has_key shop.aliases (codes "shop:clerk") ≡ true)
    × (delegable (alias (codes "shop:clerk") ∷ []) shop ≡ [])
delegable-once_example =
    delegable-once manager shop (codes "shop") (codes "shop:clerk") shop_checks
      (unfold delegable target_text get has same_text in refl)
