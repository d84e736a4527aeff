-- ===== src/Authz/Permissions.antt =====
-- domain/src/authz.rs and iam/src/lib.rs: a permission and its name, as `#[derive(Permission)]`
-- spells it: the prefix of the attribute and the variant in snake case.
use Prim.Native.String.{String}

-- The trait `Permission`.
pub record Permission (A : Type 0) : Type 0 where
  pub as_str : A → String

-- `concierge:user:*`: list or read any user, suspend or reinstate, revoke sessions
pub data Users : Type 0 where
  read suspend revoke : Users

abbrev pub users_as_str : Users → String
users_as_str read = "concierge:user:read"
users_as_str suspend = "concierge:user:suspend"
users_as_str revoke = "concierge:user:revoke"

instance abbrev pub users_permission : Permission Users
users_permission = record { as_str = users_as_str }

-- `concierge:kyc:*`
pub data Kyc : Type 0 where
  manage : Kyc

abbrev pub kyc_as_str : Kyc → String
kyc_as_str manage = "concierge:kyc:manage"

instance abbrev pub kyc_permission : Permission Kyc
kyc_permission = record { as_str = kyc_as_str }

-- `concierge:role:*`: `SetRole`, and voting in the consilia
pub data Roles : Type 0 where
  grant : Roles

abbrev pub roles_as_str : Roles → String
roles_as_str grant = "concierge:role:grant"

instance abbrev pub roles_permission : Permission Roles
roles_permission = record { as_str = roles_as_str }

-- `concierge:self:*`: an account's own record
pub data Own : Type 0 where
  profile notifications sessions : Own

abbrev pub own_as_str : Own → String
own_as_str profile = "concierge:self:profile"
own_as_str notifications = "concierge:self:notifications"
own_as_str sessions = "concierge:self:sessions"

instance abbrev pub own_permission : Permission Own
own_permission = record { as_str = own_as_str }

-- `concierge:platform:*`: flags, maintenance, announcements, the client registry
pub data Platform : Type 0 where
  read manage : Platform

abbrev pub platform_as_str : Platform → String
platform_as_str read = "concierge:platform:read"
platform_as_str manage = "concierge:platform:manage"

instance abbrev pub platform_permission : Permission Platform
platform_permission = record { as_str = platform_as_str }

-- `iam:tenants:*`: grant and revoke inside any tenant's namespace
pub data Iam : Type 0 where
  grant : Iam

abbrev pub iam_as_str : Iam → String
iam_as_str grant = "iam:tenants:grant"

instance abbrev pub iam_permission : Permission Iam
iam_permission = record { as_str = iam_as_str }
